-- ===== src/Examples/Compiler2.antt =====
-- A counter and its Verilog: pipeline/compilers/compiler2.py on the text of
-- pipeline/refinement/bridge.py.
use agentic_rtl_engine.Prelude.{◌≡◌, refl, String, true, false, ◌&&◌, ◌||◌, List, [], ◌∷◌, All, ◌⊎◌}
use agentic_rtl_engine.Prelude.Dict.{get, put, update, contains}
use agentic_rtl_engine.Prelude.Result.{raises, ok, value_error}
use agentic_rtl_engine.Spec.{ActionUpdate, Action, plain_action}
use agentic_rtl_engine.Prelude.{some}
use agentic_rtl_engine.Bridge.{strip_end, next_state, per_action, clauses_for, default_for}
use agentic_rtl_engine.Compiler2.Text.{join_lines}
use agentic_rtl_engine.Compiler2.Translate.{cut_at, translate_expr}
use agentic_rtl_engine.Compiler2.Variables.{is_name}
use agentic_rtl_engine.Compiler2.Emit.{
  Blocks, module_lines, scan_verilog_identifiers, read_blocks, undeclared_inputs, compile,
  compile_tla_to_verilog,
}
use agentic_rtl_engine.Compiler2.Ports.{HasDrivers, assigned, clocked, compile-HasDrivers}
use agentic_rtl_engine.Compiler2.Declared.{
  rhs_identifiers, emitted, module_names, is_exempt, contains-emitted,
}
use agentic_rtl_engine.Compiler2.Fuel.{translate_round, translate_expr-translate_round}
use agentic_rtl_engine.Compiler2.Trim.{IsTrimmed}
use agentic_rtl_engine.Compiler2.Ternary.{IsClause, ternaries, translate_expr-next_state}

abbrev declarations : List String → List String
declarations rest =
    "VARIABLES" ∷ "    count,  \\* width: 2" ∷ "    r_mem,  \\* width: 8 depth: 4"
    ∷ "    full,  \\* width: 1" ∷ "    clk,  \\* width: 1" ∷ "    reset  \\* width: 1" ∷ "" ∷ rest

abbrev pipeline : List String
pipeline =
    "UpdatePipeline ==" ∷ "    /\\ clk' = 1 - clk" ∷ "    /\\ IF reset = 1 THEN"
    ∷ "          /\\ count' = 0" ∷ "       ELSE"
    ∷ "          /\\ count' = IF en = 1 THEN (IF count <= 2 THEN count + 1 ELSE 0) ELSE count"
    ∷ "          /\\ r_mem[count]' = d" ∷ "" ∷ "================" ∷ []

abbrev counter_text : String
unfolding join_lines
counter_text =
    join_lines (
      declarations
        ("CombinationalLogic ==" ∷ "    /\\ full' = (count = 3 \\/ ~en)" ∷ "" ∷ pipeline))

abbrev counter_verilog : String
unfolding join_lines
counter_verilog = join_lines (
    "`timescale 1ns / 1ps" ∷ "" ∷ "module counter (" ∷ "    input  clk," ∷ "    input  reset,"
    ∷ "    input  d," ∷ "    input  en," ∷ "    output full," ∷ "    output reg [1:0] count" ∷ ");"
    ∷ "" ∷ "    // Internal registers" ∷ "    reg  [7:0] r_mem [0:3];" ∷ ""
    ∷ "    // Combinational logic" ∷ "    assign full = (count == 3 || !en);" ∷ ""
    ∷ "    // Clocked pipeline evolution" ∷ "    always @(posedge clk) begin"
    ∷ "        if (reset) begin" ∷ "            count <= 0;" ∷ "        end else begin"
    ∷ "            count <= (en == 1) ? (((count <= 2) ? (count + 1) : (0))) : (count);"
    ∷ "            r_mem[count] <= d;" ∷ "        end" ∷ "    end" ∷ "" ∷ "endmodule" ∷ [])

counter_compiled : compile_tla_to_verilog counter_text "counter" "reset" false ≡ ok counter_verilog
unfolding compile_tla_to_verilog
counter_compiled = refl

-- A name with two drivers.
abbrev two_drivers : String
unfolding join_lines
two_drivers =
    join_lines (declarations ("CombinationalLogic ==" ∷ "    /\\ count' = 1" ∷ "" ∷ pipeline))

two_drivers_raises : compile two_drivers "counter" "reset" false ≡ raises value_error
unfolding compile
two_drivers_raises = refl

-- An identifier of an `assign` whose target has an index is not declared.
abbrev indexed_text : String
unfolding join_lines
indexed_text =
    join_lines (declarations ("CombinationalLogic ==" ∷ "    /\\ r_mem[0]' = lost" ∷ "" ∷ []))

indexed_undeclared : undeclared_inputs (read_blocks "reset" indexed_text) ≡ []
unfolding undeclared_inputs read_blocks
indexed_undeclared = refl

compile-HasDrivers_example :
    ((k : String) × ((contains k (assigned (read_blocks "reset" counter_text))
          && contains k (clocked (read_blocks "reset" counter_text)))
        ≡ true)
      × (compile counter_text "counter" "reset" false ≡ raises value_error))
    ⊎ ((compile counter_text "counter" "reset" false
          ≡ ok (join_lines (module_lines "counter" false (read_blocks "reset" counter_text))))
        × ((k : String) → HasDrivers (read_blocks "reset" counter_text) k))
compile-HasDrivers_example = compile-HasDrivers counter_text "counter" "reset" false

abbrev counter_blocks : Blocks
counter_blocks = read_blocks "reset" counter_text

plain_targets : All (λ a. is_name a.0 ≡ true) counter_blocks.comb
unfolding read_blocks is_name
plain_targets = (refl, tt)

names_d : contains "d" (rhs_identifiers (emitted counter_blocks)) ≡ true
unfolding read_blocks contains scan_verilog_identifiers
names_d = refl

contains-emitted_example : (contains "d" (module_names counter_blocks) || is_exempt "d") ≡ true
contains-emitted_example = contains-emitted counter_blocks "d" plain_targets names_d

translate_expr-translate_round_example :
    translate_expr "IF en = 1 THEN a ELSE (IF b THEN c ELSE d)"
    ≡ translate_round translate_expr "IF en = 1 THEN a ELSE (IF b THEN c ELSE d)"
translate_expr-translate_round_example =
    translate_expr-translate_round "IF en = 1 THEN a ELSE (IF b THEN c ELSE d)"

abbrev assign_count : String → ActionUpdate
assign_count e = record { variable = "count"; index = ""; expression = e }

abbrev count_actions : List Action
count_actions =
    plain_action "Step" (some "count < 3") (assign_count "count + 1" ∷ [])
    ∷ plain_action "Wrap" (some "count = 3") (assign_count "IF keep = 1 THEN count ELSE 0" ∷ [])
    ∷ []

sealed_clauses : All IsClause (clauses_for "count" (per_action count_actions))
unfolding clauses_for per_action get put update cut_at
sealed_clauses = ((refl, refl), ((refl, refl), tt))

count-IsTrimmed : IsTrimmed (default_for "count" (per_action count_actions))
unfolding default_for strip_end per_action get put update
count-IsTrimmed = (refl, refl)

translate_expr-next_state_example :
    translate_expr (next_state count_actions "count")
    ≡ ternaries
        (clauses_for "count" (per_action count_actions))
        (default_for "count" (per_action count_actions))
translate_expr-next_state_example =
    translate_expr-next_state count_actions "count" sealed_clauses count-IsTrimmed

count_verilog :
    translate_expr (next_state count_actions "count")
    ≡ "(count < 3) ? (count + 1) : ((count == 3) ? (((keep == 1) ? (count) : (0))) : (count))"
unfolding translate_expr next_state get put update
count_verilog = refl

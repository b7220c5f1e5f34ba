-- ===== src/Compiler2/Emit.antt =====
-- pipeline/compilers/compiler2.py, `_undeclared_inputs`, `compile` and `compile_tla_to_verilog`.
use Prim.Native.Char.{code}
use Prim.Native.String.{◌++◌}
use agentic_rtl_engine.Prelude.{
  ◌-◌, String, Bool, true, false, ◌||◌, Option, none, some, List, [], ◌∷◌, map, ◌==◌, if◌then◌else◌,
  str_eq,
}
use mathlib.Core.List.{◌++◌ as append}
use agentic_rtl_engine.Prelude.Decimal.{decimal}
use agentic_rtl_engine.Prelude.Dict.{get, contains}
use agentic_rtl_engine.Prelude.Result.{Result, raises, ok, value_error, ◌>>=◌}
use agentic_rtl_engine.Expr.Lexer.{is_word, span}
use agentic_rtl_engine.Bridge.Inputs.{scan_identifiers, sort_names}
use agentic_rtl_engine.Rules.{is_empty}
use agentic_rtl_engine.Compiler2.{
  CompilerState, Class, input, output_wire, output_reg, internal_reg, is_verify, is_memory,
  depth_of, classify,
}
use agentic_rtl_engine.Compiler2.Text.{join_lines, with_char, behind, drop_spaces, begins_space}
use agentic_rtl_engine.Compiler2.Translate.{translate_expr}
use agentic_rtl_engine.Compiler2.Variables.{extract_variables, bit_range}
use agentic_rtl_engine.Compiler2.Parse.{parse_combinational, parse_sequential, bases}
use agentic_rtl_engine.Compiler2.Banlist.{strip_comments, verify_banlist}

-- `_RESERVED_VERILOG_IDENTIFIERS`
abbrev pub reserved_verilog_identifiers : List String
reserved_verilog_identifiers =
    "IF" ∷ "THEN" ∷ "ELSE" ∷ "TRUE" ∷ "FALSE" ∷ "UNCHANGED" ∷ "CASE" ∷ "OTHER" ∷ "LET" ∷ "IN"
    ∷ "AND" ∷ "OR" ∷ "NOT" ∷ "begin" ∷ "end" ∷ "posedge" ∷ "negedge" ∷ "assign" ∷ "reg" ∷ "wire"
    ∷ "input" ∷ "output" ∷ "module" ∷ "endmodule" ∷ "always" ∷ []

-- What the two blocks assign: the combinational expressions are translated.
pub record Blocks : Type 0 where
  pub signals : CompilerState
  pub comb : List (String × String)
  pub reset : List (String × String)
  pub normal : List (String × String)

-- The first three steps of `compile`.
unfoldable pub read_blocks : String → String → Blocks
unfolding extract_variables parse_combinational parse_sequential bases
read_blocks reset_port tla =
    let declared = extract_variables tla in
    let comb = parse_combinational reset_port tla in
    let sequential = parse_sequential reset_port tla in
    record {
      signals = record {
        reset_port = reset_port;
        variables = declared.0;
        widths = declared.1;
        depths = declared.2;
        comb_vars = bases comb;
        seq_vars = bases (append sequential.0 sequential.1);
      };
      comb = comb;
      reset = sequential.0;
      normal = sequential.1;
    }

unfoldable pub any_shared : List String → List String → Bool
unfolding contains
any_shared [] seq = false
any_shared (v ∷ comb) seq = contains v seq || any_shared comb seq

unfoldable pub assign_line : String × String → String
assign_line (var, rhs) = "    assign " ++ (var ++ (" = " ++ (rhs ++ ";")))

-- The text before a last semicolon.
unfoldable pub before_last_semicolon : String → Option String
unfolding with_char
before_last_semicolon String.[] = none
before_last_semicolon (String.◌∷◌ c s) = elim (before_last_semicolon s) [
  | none ↦ if code c == b';' then some "" else none
  | some t ↦ some (String.◌∷◌ c t)
]

-- `re.match(r"\s*assign\s+\w+\s*=\s*(.*);", line)`
unfoldable pub behind_target : String → Option String
unfolding span drop_spaces behind before_last_semicolon
behind_target s =
    let found = span is_word s in
    if str_eq found.0 "" then none else elim (behind "=" (drop_spaces found.1)) [
      | none ↦ none
      | some rhs ↦ before_last_semicolon (drop_spaces rhs)
    ]

unfoldable pub assigned_rhs : String → Option String
unfolding behind drop_spaces begins_space behind_target
assigned_rhs line = elim (behind "assign" (drop_spaces line)) [
  | none ↦ none
  | some rest ↦ if begins_space rest then behind_target (drop_spaces rest) else none
]

-- `_scan_verilog_identifiers` behind `_strip_comments`; the pattern is the bridge's.
unfoldable pub scan_verilog_identifiers : String → List String
unfolding scan_identifiers strip_comments
scan_verilog_identifiers rhs = scan_identifiers (strip_comments rhs)

unfoldable pub referenced_in_lines : List String → List String
unfolding assigned_rhs scan_verilog_identifiers
referenced_in_lines [] = []
referenced_in_lines (line ∷ lines) = elim (assigned_rhs line) [
  | none ↦ referenced_in_lines lines
  | some rhs ↦ append (scan_verilog_identifiers rhs) (referenced_in_lines lines)
]

unfoldable pub referenced_in_assigns : List (String × String) → List String
unfolding scan_verilog_identifiers translate_expr
referenced_in_assigns [] = []
referenced_in_assigns ((var, expr) ∷ assigns) =
    append (scan_verilog_identifiers (translate_expr expr)) (referenced_in_assigns assigns)

-- The names that are neither declared nor reserved nor of the verification, each once.
unfoldable pub add_undeclared : List String → List String → List String → List String
unfolding contains is_verify
add_undeclared declared [] found = found
add_undeclared declared (k ∷ names) found =
    let skipped = add_undeclared declared names found in
    let added = add_undeclared declared names (k ∷ found) in
    if contains k declared
      || (contains k reserved_verilog_identifiers || (is_verify k || contains k found))
    then skipped
    else added

unfoldable pub referenced : Blocks → List String
unfolding referenced_in_lines referenced_in_assigns assign_line
referenced b =
    append (referenced_in_lines (map assign_line b.comb))
      (referenced_in_assigns (append b.reset b.normal))

-- `_undeclared_inputs`
unfoldable pub undeclared_inputs : Blocks → List String
unfolding add_undeclared sort_names referenced
undeclared_inputs b =
    sort_names
      (add_undeclared ("clk" ∷ b.signals.reset_port ∷ b.signals.variables) (referenced b) [])

unfoldable pub is_input : Class → Bool
is_input input = true
is_input c = false

unfoldable pub is_output_wire : Class → Bool
is_output_wire output_wire = true
is_output_wire c = false

unfoldable pub is_output_reg : Class → Bool
is_output_reg output_reg = true
is_output_reg c = false

unfoldable pub is_internal : Class → Bool
is_internal internal_reg = true
is_internal c = false

-- The variables of a class.
unfoldable pub of_class : (Class → Bool) → CompilerState → List String → List String
unfolding classify
of_class test g [] = []
of_class test g (v ∷ variables) =
    let rest = of_class test g variables in if test (classify g v) then v ∷ rest else rest

unfoldable pub input_ports : Blocks → List String
unfolding of_class is_input undeclared_inputs
input_ports b = append (of_class is_input b.signals b.signals.variables) (undeclared_inputs b)

unfoldable pub output_wires : Blocks → List String
unfolding of_class is_output_wire
output_wires b = of_class is_output_wire b.signals b.signals.variables

unfoldable pub output_regs : Blocks → List String
unfolding of_class is_output_reg
output_regs b = of_class is_output_reg b.signals b.signals.variables

unfoldable pub internal_regs : Blocks → List String
unfolding of_class is_internal
internal_regs b = of_class is_internal b.signals b.signals.variables

unfoldable pub port_decls : Blocks → List String
unfolding bit_range input_ports output_wires output_regs
port_decls b =
    "    input  clk"
    ∷ ("    input  " ++ b.signals.reset_port)
    ∷ append (map (λ v. "    input  " ++ (bit_range b.signals v ++ v)) (input_ports b)) (
        append (map (λ v. "    output " ++ (bit_range b.signals v ++ v)) (output_wires b))
          (map (λ v. "    output reg " ++ (bit_range b.signals v ++ v)) (output_regs b)))

-- A comma behind each declaration but the last.
unfoldable pub with_commas : List String → List String
with_commas [] = []
with_commas (decl ∷ []) = decl ∷ []
with_commas (decl ∷ next ∷ decls) = (decl ++ ",") ∷ with_commas (next ∷ decls)

unfoldable pub internal_line : CompilerState → String → String
unfolding is_memory bit_range depth_of get decimal
internal_line g v =
    let storage = " [0:" ++ (decimal (depth_of (get v g.depths) - 1) ++ "];") in
    "    reg  " ++ (bit_range g v ++ (v ++ (if is_memory g.depths v then storage else ";")))

-- A section that is left out where it is empty.
unfoldable pub section : String → List String → List String
unfolding is_empty
section title [] = []
section title (line ∷ lines) = title ∷ line ∷ append lines ("" ∷ [])

unfoldable pub clocked_lines : String → List (String × String) → List String
unfolding translate_expr
clocked_lines indent assigns =
    map (λ a. indent ++ (a.0 ++ (" <= " ++ (translate_expr a.1 ++ ";")))) assigns

unfoldable pub always_body :
    String → Bool → List (String × String) → List (String × String) → List String
unfolding clocked_lines
always_body reset_port low [] normal = clocked_lines "        " normal
always_body reset_port low (a ∷ reset) normal =
    ("        if (" ++ ((if low then "!" ++ reset_port else reset_port) ++ ") begin"))
    ∷ append (clocked_lines "            " (a ∷ reset)) (
        "        end else begin"
        ∷ append (clocked_lines "            " normal) ("        end" ∷ []))

unfoldable pub always_block : Bool → Blocks → List String
unfolding always_body
always_block low b =
    "    // Clocked pipeline evolution"
    ∷ "    always @(posedge clk) begin"
    ∷ append (always_body b.signals.reset_port low b.reset b.normal) ("    end" ∷ "" ∷ [])

unfoldable pub module_lines : String → Bool → Blocks → List String
unfolding with_commas port_decls section internal_line internal_regs assign_line always_block
    is_empty
module_lines module_name low b =
    "`timescale 1ns / 1ps"
    ∷ ""
    ∷ ("module " ++ (module_name ++ " ("))
    ∷ append (with_commas (port_decls b)) (
        ");"
        ∷ ""
        ∷ append
            (section "    // Internal registers" (map (internal_line b.signals) (internal_regs b)))
            (append (section "    // Combinational logic" (map assign_line b.comb)) (
              append (if is_empty (append b.reset b.normal) then [] else always_block low b)
                ("endmodule" ∷ []))))

-- `compile`: a MultiDriverError is a ValueError.
unfoldable pub compile : String → String → String → Bool → Result String
unfolding read_blocks any_shared module_lines join_lines
compile tla module_name reset_port low =
    let b = read_blocks reset_port tla in
    if any_shared b.signals.comb_vars b.signals.seq_vars
    then raises value_error
    else ok (join_lines (module_lines module_name low b))

unfoldable pub compile_tla_to_verilog : String → String → String → Bool → Result String
unfolding compile verify_banlist
compile_tla_to_verilog tla module_name reset_port low =
    compile tla module_name reset_port low >>= λ v. verify_banlist v >>= λ u. ok v

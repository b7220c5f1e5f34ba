-- ===== src/Bridge/RtlText.antt =====
-- pipeline/refinement/bridge.py, `engine_spec_to_rtl_tla`: the text for the second compiler, as its
-- lines. A hint for the width of a port is looked up in a dict that may be empty.
use Prim.Native.String.{◌++◌, count}
use agentic_rtl_engine.Prelude.{
  ℕ, zero, suc, ◌+◌, ◌*◌, String, Bool, not, ◌&&◌, Option, none, some, List, [], ◌∷◌, map,
  if◌then◌else◌,
}
use mathlib.Core.List.{◌++◌ as append}
use agentic_rtl_engine.Prelude.Decimal.{decimal}
use agentic_rtl_engine.Prelude.Dict.{Dict}
use agentic_rtl_engine.Spec.{Variable, Action, Spec, width_or_one}
use agentic_rtl_engine.Bridge.{action_update_exprs, compose_clocked_actions}
use agentic_rtl_engine.Bridge.Inputs.{free_inputs, free_input_width}
use agentic_rtl_engine.Rules.{is_empty, is_identity_hold}
use agentic_rtl_engine.Sim.Build.{keep_variables, is_port, keep_actions, is_called}

-- A name of the VARIABLES section; the depth 0 is none.
pub record SizedVar : Type 0 where
  pub name : String
  pub width : ℕ
  pub depth : ℕ

abbrev pub sized_names : List SizedVar → List String
sized_names vars = map (λ v. v.name) vars

abbrev sized_variable : Variable → SizedVar
sized_variable v = record { name = v.name; width = width_or_one v.width; depth = v.depth }

abbrev one_bit : String → SizedVar
one_bit name = record { name = name; width = 1; depth = 0 }

-- The variables that are no ports, the clock and the reset.
unfoldable pub declared_vars : String → Spec → List SizedVar
unfolding keep_variables is_port width_or_one
declared_vars reset_port s =
    append (map sized_variable (keep_variables (λ v. not (is_port reset_port v)) s.variables))
      (one_bit "clk" ∷ one_bit reset_port ∷ [])

unfoldable pub sized_input : Spec → Dict ℕ → String → SizedVar
unfolding free_input_width
sized_input s port_widths name = record {
  name = name;
  width = free_input_width name s port_widths;
  depth = 0;
}

unfoldable pub sized_vars : String → Dict ℕ → Spec → List SizedVar
unfolding declared_vars free_inputs sized_input
sized_vars reset_port port_widths s =
    let declared = declared_vars reset_port s in
    append declared (map (sized_input s port_widths) (free_inputs s (sized_names declared)))

unfoldable pub depth_note : ℕ → String
unfolding decimal
depth_note zero = ""
depth_note (suc k) = " depth: " ++ decimal (suc k)

unfoldable pub variable_line : String → SizedVar → String
unfolding depth_note decimal
variable_line comma v =
    "    " ++ (v.name ++ (comma ++ ("  \\* width: " ++ (decimal v.width ++ depth_note v.depth))))

unfoldable pub variable_lines : List SizedVar → List String
unfolding variable_line
variable_lines [] = []
variable_lines (v ∷ []) = variable_line "" v ∷ []
variable_lines (v ∷ w ∷ vars) = variable_line "," v ∷ variable_lines (w ∷ vars)

unfoldable pub primed_lines : String → Dict String → List String
primed_lines indent updates = map (λ kv. indent ++ ("/\\ " ++ (kv.0 ++ ("' = " ++ kv.1)))) updates

-- The actions that are not the reset: those that are clocked, and the others but for holds.
abbrev pub emitted_clocked : Spec → List Action
emitted_clocked s = keep_actions (λ a. not (is_called s.reset_action a) && a.clocked) s.actions

abbrev pub emitted_comb : Spec → List Action
emitted_comb s =
    keep_actions
      (λ a. not (is_called s.reset_action a) && (not a.clocked && not (is_identity_hold a)))
      s.actions

unfoldable pub comb_lines : List Action → List String
unfolding primed_lines action_update_exprs
comb_lines [] = []
comb_lines (a ∷ actions) = append (primed_lines "    " (action_update_exprs a)) (comb_lines actions)

unfoldable pub comb_section : List Action → List String
unfolding comb_lines is_empty
comb_section actions =
    if is_empty actions then [] else "CombinationalLogic ==" ∷ append (comb_lines actions) ("" ∷ [])

-- The last action of the reset's name.
unfoldable pub last_called : List Action → Option Action
last_called [] = none
last_called (a ∷ actions) = elim (last_called actions) [ none ↦ some a | some b ↦ some b ]

unfoldable pub update_lines : String → Bool → Option Action → List Action → List String
unfolding primed_lines action_update_exprs compose_clocked_actions
update_lines reset_port low none clocked = primed_lines "    " (compose_clocked_actions clocked)
update_lines reset_port low (some reset) clocked =
    let level : String = if low then "0" else "1" in
    ("    /\\ IF " ++ (reset_port ++ (" = " ++ (level ++ " THEN"))))
    ∷ append (primed_lines "          " (action_update_exprs reset))
        ("       ELSE" ∷ primed_lines "          " (compose_clocked_actions clocked))

unfoldable pub repeat_text : ℕ → String → String
repeat_text zero s = ""
repeat_text (suc n) s = s ++ repeat_text n s

-- `engine_spec_to_rtl_tla`, before the lines are joined.
unfoldable pub engine_spec_to_rtl_tla : Spec → String → Dict ℕ → String → Bool → List String
unfolding sized_vars variable_lines comb_section update_lines last_called keep_actions is_called
    is_identity_hold repeat_text
engine_spec_to_rtl_tla s module_name port_widths reset_port reset_active_low =
    let sep : String = "--------------------" in
    let header : List String =
      (sep ++ (" MODULE " ++ (module_name ++ (" " ++ sep)))) ∷ "EXTENDS Integers" ∷ "" ∷ [] in
    let declarations : List String =
      "VARIABLES" ∷ append (variable_lines (sized_vars reset_port port_widths s)) ("" ∷ []) in
    let init : List String = "Init ==" ∷ ("    /\\ " ++ s.init) ∷ "" ∷ [] in
    let reset = last_called (keep_actions (is_called s.reset_action) s.actions) in
    let pipeline : List String =
      "UpdatePipeline =="
      ∷ "    /\\ clk' = 1 - clk"
      ∷ append (update_lines reset_port reset_active_low reset (emitted_clocked s)) ("" ∷ []) in
    append header (
      append declarations (
        append init (
          append (comb_section (emitted_comb s))
            (append pipeline (repeat_text (20 * 2 + count module_name + 9) "=" ∷ [])))))

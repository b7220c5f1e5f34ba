-- ===== src/Rules/Iteration.antt =====
-- pipeline/refinement/rules/iteration.py
use Prim.Native.String.{◌++◌}
use agentic_rtl_engine.Prelude.{
  String, Bool, true, false, not, ◌&&◌, ◌||◌, Option, none, some, List, [], ◌∷◌, map, if◌then◌else◌,
  str_eq,
}
use mathlib.Core.List.{◌++◌ as append}
use agentic_rtl_engine.Prelude.Result.{Result, ok, ◌>>=◌}
use agentic_rtl_engine.Prelude.Dict.{contains}
use agentic_rtl_engine.Spec.{Variable, Action, Spec}
use agentic_rtl_engine.Bridge.{starts_with}
use agentic_rtl_engine.Rules.{Params, required, any_action, find_action, change_action}

unfoldable pub is_applicable : Spec → Bool
unfolding any_action
is_applicable s = any_action (λ a. not a.clocked && not a.combinational) s.reset_action s.actions

-- `part in text`
unfoldable pub occurs_in : String → String → Bool
unfolding starts_with
occurs_in part String.[] = str_eq part ""
occurs_in part (String.◌∷◌ c s) = starts_with part (String.◌∷◌ c s) || occurs_in part s

unfoldable pub iterated_guard : Option String → Option String
unfolding occurs_in
iterated_guard none = some "TRUE"
iterated_guard (some g) =
    if occurs_in "clk_enable" g || str_eq g "TRUE" then some g else some ("(" ++ (g ++ ")"))

unfoldable pub clock_action : Action → Action
unfolding iterated_guard
clock_action a = record a { clocked = true; guard = iterated_guard a.guard }

-- The variables that the actions of a name update.
unfoldable pub updated_by : String → List Action → List String
updated_by name [] = []
updated_by name (a ∷ actions) =
    let rest = updated_by name actions in
    if str_eq a.name name then append (map (λ u. u.variable) a.updates) rest else rest

unfoldable pub clock_variable : List String → Variable → Variable
clock_variable names v =
    if contains v.name names then record v { clocked = true; abstract = some false } else v

unfoldable pub clock_spec : String → Spec → Spec
unfolding clock_action updated_by clock_variable change_action
clock_spec name s = record s {
  actions = change_action name clock_action s.actions;
  variables =
      map (clock_variable (updated_by name (change_action name clock_action s.actions)))
        s.variables;
}

-- An action that is combinational or already clocked leaves the spec alone.
unfoldable pub apply : Spec → Params → Result Spec
unfolding find_action clock_spec
apply s p = required p.action_name >>= λ name. elim (find_action name s.actions) [
  | none ↦ ok s
  | some a ↦ if a.combinational || a.clocked then ok s else ok (clock_spec name s)
]

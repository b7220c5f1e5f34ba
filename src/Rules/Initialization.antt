-- ===== src/Rules/Initialization.antt =====
-- pipeline/refinement/rules/initialization.py
use agentic_rtl_engine.Prelude.{
  String, Bool, true, false, not, ◌&&◌, ◌||◌, none, some, List, [], ◌∷◌, ◌++◌, map, ◌==◌,
  if◌then◌else◌,
}
use agentic_rtl_engine.Prelude.Result.{Result, ok, ◌>>=◌}
use agentic_rtl_engine.Prelude.Dict.{Dict, get, contains}
use agentic_rtl_engine.Spec.{Variable, ActionUpdate, Spec, plain_action}
use agentic_rtl_engine.Rules.{Params, required, get_or, action_names, is_empty}

-- A register: no memory and no combinational output.
unfoldable pub is_register : Variable → Bool
is_register v = (v.depth == 0) && not v.combinational

unfoldable pub has_unreset : List Variable → Bool
unfolding is_register
has_unreset [] = false
has_unreset (v ∷ variables) =
    (is_register v && (elim v.reset_value [ none ↦ true | some r ↦ false ]))
    || has_unreset variables

unfoldable pub is_applicable : Spec → Bool
unfolding has_unreset is_empty
is_applicable s =
    not (is_empty s.variables)
    && (has_unreset s.variables || (elim s.reset_action [ none ↦ true | some r ↦ false ]))

unfoldable pub no_reset_names : List Variable → List String
unfolding is_register
no_reset_names [] = []
no_reset_names (v ∷ variables) =
    let rest = no_reset_names variables in if is_register v then rest else v.name ∷ rest

unfoldable pub reset_variable : Dict String → List String → Variable → Variable
reset_variable values excluded v = elim (get v.name values) [
  | none ↦ v
  | some e ↦ if contains v.name excluded then v else record v { reset_value = some e }
]

unfoldable pub reset_updates : Dict String → List String → List ActionUpdate
reset_updates [] excluded = []
reset_updates ((name, expr) ∷ values) excluded =
    let rest = reset_updates values excluded in
    if contains name excluded
    then rest
    else record { variable = name; index = ""; expression = expr } ∷ rest

unfoldable pub apply : Spec → Params → Result Spec
unfolding no_reset_names reset_variable reset_updates action_names
apply s p = required p.reset_values >>= λ values.
    let name = get_or "Reset" p.reset_action_name in
    let excluded = no_reset_names s.variables in
    let action = plain_action name (some "rst = TRUE") (reset_updates values excluded) in
    ok (record s {
      variables = map (reset_variable values excluded) s.variables;
      actions =
          if contains name (action_names s.actions) then s.actions else s.actions ++ (action ∷ []);
      reset_action = some name;
    })

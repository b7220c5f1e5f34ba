-- ===== src/Rules/SequentialComposition.antt =====
-- pipeline/refinement/rules/sequential_composition.py
use agentic_rtl_engine.Prelude.{
  String, Bool, not, ◌&&◌, Option, List, [], ◌∷◌, if◌then◌else◌, str_eq,
}
use agentic_rtl_engine.Prelude.Result.{Result, ok, ◌>>=◌}
use agentic_rtl_engine.Spec.{Guarded, Action, Spec}
use agentic_rtl_engine.Rules.{
  Params, required, get_or, any_action, change_action, is_empty, updates_of, first_of_each,
}

unfoldable pub is_applicable : Spec → Bool
unfolding any_action is_empty
is_applicable s =
    any_action (λ a. not a.combinational && (is_empty a.sequential_steps && is_empty a.branches))
      s.reset_action s.actions

-- The first step has the action's guard where it has none.
unfoldable pub inherit_guard : Option String → List Guarded → List Guarded
inherit_guard guard [] = []
inherit_guard guard (s ∷ steps) =
    if str_eq s.guard "" then record s { guard = get_or "TRUE" guard } ∷ steps else s ∷ steps

unfoldable pub sequence : List Guarded → Action → Action
unfolding inherit_guard updates_of first_of_each
sequence steps a =
    let own = inherit_guard a.guard steps in
    if a.combinational
    then a
    else record a { sequential_steps = own; updates = first_of_each [] (updates_of own) }

unfoldable pub apply : Spec → Params → Result Spec
unfolding sequence change_action
apply s p = required p.action_name >>= λ name. required p.steps >>= λ steps.
    ok (record s { actions = change_action name (sequence steps) s.actions })

-- ===== src/Rules/Assignment.antt =====
-- pipeline/refinement/rules/assignment.py
use agentic_rtl_engine.Prelude.{Bool, List, [], map}
use agentic_rtl_engine.Prelude.Result.{Result, ok, ◌>>=◌}
use agentic_rtl_engine.Prelude.Dict.{Dict, update}
use agentic_rtl_engine.Spec.{ActionUpdate, Action, Spec}
use agentic_rtl_engine.Rules.{Params, required, any_action, change_action, is_empty}

unfoldable pub is_applicable : Spec → Bool
unfolding any_action is_empty
is_applicable s = any_action (λ a. is_empty a.updates) s.reset_action s.actions

abbrev pub by_variable : List ActionUpdate → Dict ActionUpdate
by_variable updates = map (λ u. (u.variable, u)) updates

-- A new update replaces the one of its variable, or comes last.
unfoldable pub assign : List ActionUpdate → Action → Action
assign new a = record a {
  updates = map (λ kv. kv.1) (update (update [] (by_variable a.updates)) (by_variable new));
}

unfoldable pub apply : Spec → Params → Result Spec
unfolding assign change_action
apply s p = required p.action_name >>= λ name. required p.updates >>= λ updates.
    ok (record s { actions = change_action name (assign updates) s.actions })

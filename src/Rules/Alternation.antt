-- ===== src/Rules/Alternation.antt =====
-- pipeline/refinement/rules/alternation.py
use agentic_rtl_engine.Prelude.{Bool, not, ◌&&◌, List, [], if◌then◌else◌}
use agentic_rtl_engine.Prelude.Result.{Result, ok, ◌>>=◌}
use agentic_rtl_engine.Spec.{Guarded, Action, Spec}
use agentic_rtl_engine.Rules.{
  Params, required, any_action, change_action, is_empty, updates_of, first_of_each,
}

unfoldable pub is_applicable : Spec → Bool
unfolding any_action is_empty
is_applicable s =
    any_action (λ a. not a.combinational && is_empty a.branches) s.reset_action s.actions

unfoldable pub alternate : List Guarded → Action → Action
unfolding updates_of first_of_each
alternate branches a =
    if a.combinational
    then a
    else record a { branches = branches; updates = first_of_each [] (updates_of branches) }

unfoldable pub apply : Spec → Params → Result Spec
unfolding alternate change_action
apply s p = required p.action_name >>= λ name. required p.branches >>= λ branches.
    ok (record s { actions = change_action name (alternate branches) s.actions })

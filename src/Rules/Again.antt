-- ===== src/Rules/Again.antt =====
-- A refinement rule that is applied again with the same parameters.
use agentic_rtl_engine.Prelude.{
  ◌≡◌, refl, ap, sym, subst, ◌∙◌, String, Bool, true, false, ◌||◌, Option, none, some, List, [],
  ◌∷◌, if◌then◌else◌, str_eq, Bool-cases, inl, inr,
}
use agentic_rtl_engine.Prelude.Result.{ok}
use agentic_rtl_engine.Spec.{Action, Spec}
use agentic_rtl_engine.Rules.{Params, find_action, change_action}
use agentic_rtl_engine.Rules.Iteration
use agentic_rtl_engine.Rules.Inversion.{Iteration-cases}

-- A change that keeps names is found where the action was.
find_action-change_action :
    (name : String) (f : Action → Action) (actions : List Action) (a : Action)
    → ((b : Action) → (f b).name ≡ b.name)
    → find_action name actions ≡ some a
    → find_action name (change_action name f actions) ≡ some (f a)
unfolding find_action change_action
find_action-change_action name f [] a k h = cc
find_action-change_action name f (b ∷ actions) a k h = elim (Bool-cases (str_eq b.name name)) [
  | inl e ↦
      let found : str_eq (f b).name name ≡ true = rw (k b) e in
      rw (e, found) (ap some (ap f (some_inj (rw e at h))))
  | inr e ↦ rw (e, e) (find_action-change_action name f actions a k (rw e at h))
]
  where
    some_inj : {x y : Action} → ◌≡◌ {A = Option Action} (some x) (some y) → x ≡ y
    some_inj p = cc

apply_found :
    (s : Spec) (p : Params) (name : String) (a : Action)
    → p.action_name ≡ some name
    → find_action name s.actions ≡ some a
    → (a.combinational || a.clocked) ≡ true
    → Iteration.apply s p ≡ ok s
unfolding Iteration.apply
apply_found s p name a n f c =
    let chosen : (elim (find_action name s.actions) [
      | none ↦ ok s
      | some b ↦ if b.combinational || b.clocked then ok s else ok (Iteration.clock_spec name s)
    ])
        ≡ ok s =
      rw f (rw c refl) in
    rw n chosen

clocked_now : (b : Bool) → (b || true) ≡ true
clocked_now true = refl
clocked_now false = refl

-- Iteration on its own result, with the same parameters, returns it as it is.
pub apply_again :
    (s : Spec) (p : Params) (s' : Spec) → Iteration.apply s p ≡ ok s' → Iteration.apply s' p ≡ ok s'
unfolding Iteration.clock_spec Iteration.clock_action
apply_again s p s' h = elim (Iteration-cases s p s' h) [
  | inl e ↦ subst (λ x. Iteration.apply x p ≡ ok s') (sym e) h
  | inr c ↦
      apply_found s' p c.name (Iteration.clock_action c.action) c.named
        (ap (λ x. find_action c.name x.actions) c.changed
          ∙ find_action-change_action c.name Iteration.clock_action s.actions c.action (λ b. refl)
              c.found)
        (clocked_now c.action.combinational)
]

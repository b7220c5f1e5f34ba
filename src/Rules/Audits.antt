-- ===== src/Rules/Audits.antt =====
-- The records that LoopIntroduction leaves of discharged obligations, under the refinement rules.
use agentic_rtl_engine.Prelude.{
  ◌≡◌, refl, sym, subst, arith, map, String, true, Option, none, some, List, [], ◌∷◌, All,
  All-append, str_eq, Bool-cases, inl, inr,
}
use agentic_rtl_engine.Prelude.Result.{ok, >>=-eq-ok, ok_inj}
use agentic_rtl_engine.Prelude.Dict.{update, contains}
use agentic_rtl_engine.Kernel.{Derivation}
use agentic_rtl_engine.Kernel.Check.{ObligationResult}
use agentic_rtl_engine.Kernel.Backend.{Kernel}
use agentic_rtl_engine.Spec.{Audit, LoopMarker, Action, Spec}
use agentic_rtl_engine.Engine.Invariants.{Preserves, AllPreserve}
use agentic_rtl_engine.Rules.{
  required, find_action, change_action, get_or, action_names, variable_names,
}
use agentic_rtl_engine.Rules.Initialization
use agentic_rtl_engine.Rules.Iteration
use agentic_rtl_engine.Rules.SequentialComposition
use agentic_rtl_engine.Rules.Assignment
use agentic_rtl_engine.Rules.Alternation
use agentic_rtl_engine.Rules.IntroduceVariable
use agentic_rtl_engine.Rules.LoopIntroduction
use agentic_rtl_engine.Rules.ScheduleHandshakeFsm
use agentic_rtl_engine.Rules.ScheduleHandshakeFsm.{Signals}
use agentic_rtl_engine.Rules.Registry.{tier1_rules}
use agentic_rtl_engine.Rules.Inversion.{
  Iteration-cases, LoopIntroduction-cases, ScheduleHandshakeFsm-cases,
}

-- The loop marker for the scheduler, where there is one, is the derivation's.
abbrev pub Marks : Derivation → Option LoopMarker → Type 0
Marks d none = Unit
Marks d (some m) = m ≡ record { init = d.init; body = d.body; variant = d.variant; guard = d.guard }

-- A derivation that the kernel has accepted, and that the record and the marker are of.
pub record Backing (kernel : Kernel) (audit : Audit) (loop : Option LoopMarker) : Type 0 where
  pub derivation : Derivation
  pub result : ObligationResult
  pub checked : kernel derivation ≡ ok result
  pub discharged : result.ok ≡ true
  pub invariant : audit.invariant ≡ derivation.invariant
  pub variant : audit.variant ≡ derivation.variant
  pub guard : audit.guard ≡ derivation.guard
  pub mode : audit.mode ≡ result.mode
  pub marker : Marks derivation loop

abbrev pub Backed : Kernel → Option Audit → Option LoopMarker → Type 0
Backed kernel none loop = Unit
Backed kernel (some audit) loop = Backing kernel audit loop

Backed-same :
    (kernel : Kernel) (a b : Action)
    → b.refinement ≡ a.refinement
    → b.loop ≡ a.loop
    → Backed kernel a.refinement a.loop
    → Backed kernel b.refinement b.loop
Backed-same kernel a b e f h =
    subst (λ r. Backed kernel r b.loop) (sym e)
      (subst (λ l. Backed kernel a.refinement l) (sym f) h)

-- A record is backed without its marker too.
Backed-none :
    (kernel : Kernel) (r : Option Audit) (l : Option LoopMarker)
    → Backed kernel r l
    → Backed kernel r none
Backed-none kernel none l h = tt
Backed-none kernel (some audit) l h = record {
  derivation = h.derivation;
  result = h.result;
  checked = h.checked;
  discharged = h.discharged;
  invariant = h.invariant;
  variant = h.variant;
  guard = h.guard;
  mode = h.mode;
  marker = tt;
}

-- The same, of every action of a spec.
abbrev pub AllBacked : Kernel → Spec → Type 0
AllBacked kernel s = All (λ a. Backed kernel a.refinement a.loop) s.actions

change_action-All :
    (Q : Action → Type 0) (name : String) (f : Action → Action) (actions : List Action)
    → ((a : Action) → Q a → Q (f a))
    → All Q actions
    → All Q (change_action name f actions)
unfolding change_action
change_action-All Q name f [] k h = tt
change_action-All Q name f (a ∷ actions) k h = elim (Bool-cases (str_eq a.name name)) [
  | inl e ↦ rw e (k a h.0, h.1)
  | inr e ↦ rw e (h.0, change_action-All Q name f actions k h.1)
]

find_action-All :
    (Q : Action → Type 0) (name : String) (actions : List Action) (a : Action)
    → All Q actions
    → find_action name actions ≡ some a
    → Q a
unfolding find_action
find_action-All Q name [] a h e = cc
find_action-All Q name (b ∷ actions) a h e = elim (Bool-cases (str_eq b.name name)) [
  | inl c ↦ subst (λ o. elim o [ none ↦ Unit | some x ↦ Q x ]) (rw c at e) h.0
  | inr c ↦ find_action-All Q name actions a h.1 (rw c at e)
]

module _ (kernel : Kernel) where
  -- A change of actions that keeps each record.
  kept :
      (name : String) (f : Action → Action) (s : Spec)
      → ((a : Action) → (f a).refinement ≡ a.refinement)
      → ((a : Action) → (f a).loop ≡ a.loop)
      → AllBacked kernel s
      → All (λ a. Backed kernel a.refinement a.loop) (change_action name f s.actions)
  kept name f s k m =
      change_action-All (λ a. Backed kernel a.refinement a.loop) name f s.actions
        (λ a. Backed-same kernel a (f a) (k a) (m a))

  Initialization-AllBacked : Preserves (AllBacked kernel) Initialization.apply
  unfolding Initialization.apply
  Initialization-AllBacked s p s' b h =
      let (values, e, q) = >>=-eq-ok (required p.reset_values) _ h in
      let name = get_or "Reset" p.reset_action_name in
      subst (AllBacked kernel) (ok_inj q)
        (elim (Bool-cases (contains name (action_names s.actions))) [
          | inl c ↦ rw c b
          | inr c ↦
              rw c (All-append (λ a. Backed kernel a.refinement a.loop) s.actions _ b (tt, tt))
        ])

  Iteration-AllBacked : Preserves (AllBacked kernel) Iteration.apply
  unfolding Iteration.clock_spec Iteration.clock_action
  Iteration-AllBacked s p s' b h = elim (Iteration-cases s p s' h) [
    | inl e ↦ subst (AllBacked kernel) (sym e) b
    | inr c ↦ subst (AllBacked kernel) (sym c.changed) (kept c.name _ s (λ a. refl) (λ a. refl) b)
  ]

  SequentialComposition-AllBacked : Preserves (AllBacked kernel) SequentialComposition.apply
  unfolding SequentialComposition.apply SequentialComposition.sequence
  SequentialComposition-AllBacked s p s' b h =
      let (name, e, q) = >>=-eq-ok (required p.action_name) _ h in
      let (steps, e', q') = >>=-eq-ok (required p.steps) _ q in
      subst (AllBacked kernel) (ok_inj q') (kept name _ s (λ a. ground arith) (λ a. ground arith) b)

  Assignment-AllBacked : Preserves (AllBacked kernel) Assignment.apply
  unfolding Assignment.apply Assignment.assign
  Assignment-AllBacked s p s' b h =
      let (name, e, q) = >>=-eq-ok (required p.action_name) _ h in
      let (updates, e', q') = >>=-eq-ok (required p.updates) _ q in
      subst (AllBacked kernel) (ok_inj q') (kept name _ s (λ a. refl) (λ a. refl) b)

  Alternation-AllBacked : Preserves (AllBacked kernel) Alternation.apply
  unfolding Alternation.apply Alternation.alternate
  Alternation-AllBacked s p s' b h =
      let (name, e, q) = >>=-eq-ok (required p.action_name) _ h in
      let (branches, e', q') = >>=-eq-ok (required p.branches) _ q in
      subst (AllBacked kernel) (ok_inj q') (kept name _ s (λ a. ground arith) (λ a. ground arith) b)

  IntroduceVariable-AllBacked : Preserves (AllBacked kernel) IntroduceVariable.apply
  unfolding IntroduceVariable.apply
  IntroduceVariable-AllBacked s p s' b h =
      let (name, e, q) = >>=-eq-ok (required p.name) _ h in
      let (type, e', q') = >>=-eq-ok (required p.type) _ q in
      elim (Bool-cases (contains name (variable_names s.variables))) [
        | inl c ↦ cc (rw c at q')
        | inr c ↦ subst (AllBacked kernel) (ok_inj (rw c at q')) b
      ]

  LoopIntroduction-AllBacked : Preserves (AllBacked kernel) (LoopIntroduction.apply kernel)
  unfolding LoopIntroduction.install LoopIntroduction.install_loop
  LoopIntroduction-AllBacked s p s' b h = elim (LoopIntroduction-cases kernel s p s' h) [
    | inl e ↦ subst (AllBacked kernel) (sym e) b
    | inr c ↦
        let backing : Backing kernel _ _ = record {
          derivation = c.derivation;
          result = c.result;
          checked = c.checked;
          discharged = c.discharged;
          invariant = refl;
          variant = refl;
          guard = refl;
          mode = refl;
          marker = refl;
        } in
        subst (AllBacked kernel) (sym c.changed) (
          change_action-All (λ a. Backed kernel a.refinement a.loop) c.name _ s.actions
            (λ a k. backing) b)
  ]

  -- The scheduler keeps the record and takes the marker away.
  scheduled-Backed :
      (g : Signals) (loop : LoopMarker) (a a' : Action)
      → ScheduleHandshakeFsm.scheduled g loop a ≡ ok a'
      → Backed kernel a.refinement a.loop
      → Backed kernel a'.refinement a'.loop
  unfolding ScheduleHandshakeFsm.scheduled
  scheduled-Backed g loop a a' h b =
      let body = update [] (map (λ u. (u.variable, u.expression)) a.updates) in
      let (registers, e, q) =
        >>=-eq-ok (ScheduleHandshakeFsm.register_updates g loop.init body) _ h in
      subst (λ (x : Action). Backed kernel x.refinement x.loop) (ok_inj q)
        (Backed-none kernel a.refinement a.loop b)

  ScheduleHandshakeFsm-AllBacked : Preserves (AllBacked kernel) ScheduleHandshakeFsm.apply
  unfolding ScheduleHandshakeFsm.schedule
  ScheduleHandshakeFsm-AllBacked s p s' b h = elim (ScheduleHandshakeFsm-cases s p s' h) [
    | inl e ↦ subst (AllBacked kernel) (sym e) b
    | inr c ↦
        let B : Action → Type 0 = λ a. Backed kernel a.refinement a.loop in
        let new : B c.new =
          scheduled-Backed c.signals c.loop c.action c.new c.made
            (find_action-All B c.name s.actions c.action b c.found) in
        subst (AllBacked kernel) (sym c.changed)
          (All-append B _ _ (change_action-All B c.name _ s.actions (λ a k. new) b) (tt, tt))
  ]

  -- Each rule of the registry that returns keeps every record of discharged obligations true.
  pub tier1_rules-AllBacked : AllPreserve (AllBacked kernel) (tier1_rules kernel)
  unfolding tier1_rules
  tier1_rules-AllBacked = (
    Initialization-AllBacked,
    (
      Iteration-AllBacked,
      (
        SequentialComposition-AllBacked,
        (
          Assignment-AllBacked,
          (
            Alternation-AllBacked,
            (
              IntroduceVariable-AllBacked,
              (LoopIntroduction-AllBacked, (ScheduleHandshakeFsm-AllBacked, tt)),
            ),
          ),
        ),
      ),
    ),
  )

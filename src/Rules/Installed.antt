-- ===== src/Rules/Installed.antt =====
-- What LoopIntroduction (pipeline/refinement/rules/loop_introduction.py) installs.
use agentic_rtl_engine.Prelude.{
  ◌≡◌, ◌≢◌, ◌⊎◌, refl, ap, sym, subst, ◌∙◌, String, Bool, true, false, Option, none, some, List, [],
  ◌∷◌, map, arith, str_eq, eq_iff, Bool-cases, inl, inr,
}
use agentic_rtl_engine.Prelude.Result.{Result, ok, raises, value_error, ◌>>=◌}
use agentic_rtl_engine.Prelude.Dict.{Dict, update}
use agentic_rtl_engine.Kernel.{Derivation}
use agentic_rtl_engine.Kernel.Domain.{exhaustive_proof}
use agentic_rtl_engine.Kernel.Backend.{
  Kernel, resolve_backend, discharge_loop_obligations, IsCorrect,
  discharge_loop_obligations-IsCorrect,
}
use agentic_rtl_engine.Spec.{ActionUpdate, Audit, Action, Spec}
use agentic_rtl_engine.Rules.{FreshVariable, Params, find_action, change_action}
use agentic_rtl_engine.Rules.LoopIntroduction
use agentic_rtl_engine.Rules.Inversion.{LoopIntroduction-cases}

-- One round of the loop: a parallel assignment of the body's expressions.
abbrev pub round_of : Dict String → List ActionUpdate
round_of body = map (λ kv. record { variable = kv.0; index = ""; expression = kv.1 }) body

-- The action `b` is the loop of a derivation in place of the action `a`.
pub record IsLoop (d : Derivation) (a b : Action) : Type 0 where
  pub audit : Audit
  pub same_name : b.name ≡ a.name
  pub body : b.updates ≡ round_of d.body
  pub guarded : b.guard ≡ some d.guard
  pub clocked : b.clocked ≡ true
  pub concrete : b.spec_statement ≡ false
  pub marked :
      b.loop ≡ some (record { init = d.init; body = d.body; variant = d.variant; guard = d.guard })
  pub recorded : b.refinement ≡ some audit
  pub invariant : audit.invariant ≡ d.invariant
  pub variant : audit.variant ≡ d.variant
  pub guard : audit.guard ≡ d.guard
  pub proof : audit.mode ≡ exhaustive_proof → IsCorrect d

-- The first action of a name is replaced by a related one, and the others stay.
abbrev pub Changes : String → (Action → Action → Type 0) → List Action → List Action → Type 0
Changes name P [] m = ⊥
Changes name P (a ∷ l) [] = ⊥
Changes name P (a ∷ l) (b ∷ m) =
    ((a.name ≡ name) × P a b × (m ≡ l)) ⊎ ((a.name ≢ name) × (b ≡ a) × Changes name P l m)

-- The derivation is the one that the parameters name.
pub record Reads (p : Params) (name : String) (d : Derivation) : Type 0 where
  pub action_name : p.action_name ≡ some name
  pub post : p.postcondition ≡ some d.post
  pub invariant : p.invariant ≡ some d.invariant
  pub variant : p.variant ≡ some d.variant
  pub guard : p.guard ≡ some d.guard
  pub init : p.init ≡ some d.init
  pub body : p.body ≡ some d.body
  pub mapping : p.mapping ≡ some d.mapping
  pub widths : p.input_widths ≡ some d.input_widths

-- LoopIntroduction has replaced an abstract action by the loop of the parameters' derivation.
pub record Introduced (s : Spec) (p : Params) (s' : Spec) : Type 0 where
  pub name : String
  pub derivation : Derivation
  pub reads : Reads p name derivation
  pub actions : Changes name (IsLoop derivation) s.actions s'.actions
  pub mapping : s'.abstraction_mapping ≡ update s.abstraction_mapping derivation.mapping

change_action-Changes :
    (P : Action → Action → Type 0) (name : String) (f : Action → Action) (actions : List Action)
    (a : Action)
    → find_action name actions ≡ some a
    → ((b : Action) → P b (f b))
    → Changes name P actions (change_action name f actions)
unfolding change_action find_action
change_action-Changes P name f [] a h k = absurd (none-ne h)
  where
    none-ne : ¬ (◌≡◌ {A = Option Action} none (some a))
    none-ne e = cc
change_action-Changes P name f (b ∷ actions) a h k = elim (Bool-cases (str_eq b.name name)) [
  | inl e ↦ rw e (inl ((eq_iff b.name name).0 e, k b, refl))
  | inr e ↦ rw e (
      inr (
        λ same. absurd (false-ne (sym e ∙ (eq_iff b.name name).1 same)),
        refl,
        change_action-Changes P name f actions a (rw e at h) k,
      ))
]
  where
    false-ne : ¬ (◌≡◌ {A = Bool} false true)
    false-ne q = cc

-- A parameter that is there.
needed-eq-ok {ℓ} :
    {A : Type ℓ} {B : Type 0} (o : Option A) (f : A → Result B) (b : B)
    → ((elim o as (λ _. Result A) [ none ↦ raises value_error | some a ↦ ok a ]) >>= f) ≡ ok b
    → (a : A) × (o ≡ some a) × (f a ≡ ok b)
needed-eq-ok none f b h = cc
needed-eq-ok (some a) f b h = (a, refl, h)

derivation_of-Reads :
    (p : Params) (name : String) (d : Derivation) (fresh : List FreshVariable)
    → LoopIntroduction.derivation_of p ≡ ok (name, d, fresh)
    → Reads p name d
unfolding LoopIntroduction.derivation_of
derivation_of-Reads p name d fresh h = ground arith

-- Where the Python kernel runs: when LoopIntroduction returns, either the spec is as it was, or the
-- first action of the named one is replaced by the loop of the derivation that the parameters give,
-- and the other actions stay. The new action's updates are the assignments of the loop's body, its
-- guard is the loop's, and its marker has the loop's initial values, body, variant and guard; it is
-- clocked and no longer a statement of a spec; it records the derivation's invariant, variant and
-- guard, and where it records an exhaustive proof the loop is right for every input. The
-- derivation's mapping is added to the spec's.
pub apply-Introduced :
    (backend : String) (variable : Option String) (native : Option Kernel) (s : Spec) (p : Params)
    (s' : Spec)
    → resolve_backend backend variable native ≡ ok none
    → LoopIntroduction.apply (discharge_loop_obligations backend variable native) s p ≡ ok s'
    → (s' ≡ s) ⊎ Introduced s p s'
unfolding LoopIntroduction.install LoopIntroduction.install_loop LoopIntroduction.body_updates
apply-Introduced backend variable native s p s' python h =
    let kernel = discharge_loop_obligations backend variable native in
    elim (LoopIntroduction-cases kernel s p s' h) [
      | inl e ↦ inl e
      | inr c ↦ inr (record {
        name = c.name;
        derivation = c.derivation;
        reads = derivation_of-Reads p c.name c.derivation c.fresh c.read;
        actions =
            subst (λ (x : Spec). Changes c.name (IsLoop c.derivation) s.actions x.actions)
              (sym c.changed)
              (change_action-Changes (IsLoop c.derivation) c.name
                (LoopIntroduction.install_loop c.derivation c.result) s.actions c.action c.found
                (λ b. record {
                  audit = _;
                  same_name = refl;
                  body = refl;
                  guarded = refl;
                  clocked = refl;
                  concrete = refl;
                  marked = refl;
                  recorded = refl;
                  invariant = refl;
                  variant = refl;
                  guard = refl;
                  proof =
                      discharge_loop_obligations-IsCorrect backend variable native c.derivation
                        c.result python c.checked c.discharged;
                }));
        mapping = ap (λ (x : Spec). x.abstraction_mapping) c.changed;
      })
    ]

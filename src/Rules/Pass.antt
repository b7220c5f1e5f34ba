-- ===== src/Rules/Pass.antt =====
-- A pass of the engine with the registry of the repository: what the returned spec has.
use agentic_rtl_engine.Prelude.{◌≡◌, sym, subst, ◌∙◌, String, Option, none, some, List, All-In, In}
use agentic_rtl_engine.Prelude.Result.{ok}
use agentic_rtl_engine.Kernel.{Derivation}
use agentic_rtl_engine.Kernel.Domain.{exhaustive_proof}
use agentic_rtl_engine.Kernel.Backend.{
  Kernel, resolve_backend, discharge_loop_obligations, IsCorrect,
  discharge_loop_obligations-IsCorrect,
}
use agentic_rtl_engine.Spec.{Audit, LoopMarker, Action, Spec}
use agentic_rtl_engine.Engine.{Setting, Step, Run, run}
use agentic_rtl_engine.Engine.Invariants.{AllPreserve, run-Preserves}
use agentic_rtl_engine.Rules.{Params}
use agentic_rtl_engine.Rules.Registry.{tier1_rules}
use agentic_rtl_engine.Rules.Names.{HasNames, tier1_rules-HasNames}
use agentic_rtl_engine.Rules.Audits.{Marks, Backed, Backing, AllBacked, tier1_rules-AllBacked}

-- With the registry of the repository: where the variables of the first spec have distinct names,
-- those of the spec that `run` returns have.
pub run-HasNames :
    (kernel : Kernel) (g : Setting Spec Params) (prefix : List (Step Params)) (r : Run Spec Params)
    → g.registry ≡ tier1_rules kernel
    → HasNames g.formal_spec
    → run g prefix ≡ ok r
    → HasNames r.spec
run-HasNames kernel g prefix r e d h =
    (run-Preserves HasNames g (subst (AllPreserve HasNames) (sym e) (tier1_rules-HasNames kernel)) d
      prefix r h).0

-- A loop that the record is of, and the loop marker where there is one, and that is right for every
-- input.
pub record Discharged (audit : Audit) (loop : Option LoopMarker) : Type 0 where
  pub derivation : Derivation
  pub invariant : audit.invariant ≡ derivation.invariant
  pub variant : audit.variant ≡ derivation.variant
  pub guard : audit.guard ≡ derivation.guard
  pub marker : Marks derivation loop
  pub correct : IsCorrect derivation

-- With the registry of the repository, where the Python kernel runs and each record of the first spec
-- is of an accepted derivation, and so is its loop marker: an action of the spec that `run` returns
-- that records an exhaustive proof records the invariant, the variant and the guard of a loop that
-- is right for every input; and where it still has a loop marker for the scheduler, the marker's
-- initial values, body, variant and guard are that loop's.
pub run-Discharged :
    (backend : String) (variable : Option String) (native : Option Kernel) (g : Setting Spec Params)
    (prefix : List (Step Params)) (r : Run Spec Params) (a : Action) (audit : Audit)
    → resolve_backend backend variable native ≡ ok none
    → g.registry ≡ tier1_rules (discharge_loop_obligations backend variable native)
    → AllBacked (discharge_loop_obligations backend variable native) g.formal_spec
    → run g prefix ≡ ok r
    → In a r.spec.actions
    → a.refinement ≡ some audit
    → audit.mode ≡ exhaustive_proof
    → Discharged audit a.loop
run-Discharged backend variable native g prefix r a audit python e b h i recorded exhaustive =
    let kernel = discharge_loop_obligations backend variable native in
    let kept =
      (run-Preserves (AllBacked kernel) g
        (subst (AllPreserve (AllBacked kernel)) (sym e) (tier1_rules-AllBacked kernel)) b prefix r
        h).0 in
    let backing : Backing kernel audit a.loop =
      subst (λ o. Backed kernel o a.loop) recorded
        (All-In (λ x. Backed kernel x.refinement x.loop) a r.spec.actions kept i) in
    record {
      derivation = backing.derivation;
      invariant = backing.invariant;
      variant = backing.variant;
      guard = backing.guard;
      marker = backing.marker;
      correct =
          discharge_loop_obligations-IsCorrect backend variable native backing.derivation
            backing.result python backing.checked backing.discharged
            (sym backing.mode ∙ exhaustive);
    }

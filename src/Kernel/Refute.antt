-- ===== src/Kernel/Refute.antt =====
-- The counterexample of the Python kernel in Kernel/Check, over a list of valuations.
mod Checks
use agentic_rtl_engine.Prelude.{
  ℕ, zero, suc, ◌+◌, ◌≡◌, ◌≢◌, refl, ap, ◌∙◌, false, Option, none, some, List, [], ◌∷◌, arith,
  if◌then◌else◌, ◌⊎◌, inl, inr, Bool-cases, In,
}
use mathlib.Core.Path.{subst}
use agentic_rtl_engine.Prelude.Result.{Result, ok, raises, ◌>>=◌, >>=-eq-ok}
use agentic_rtl_engine.Expr.Value.{Value, num}
use agentic_rtl_engine.Expr.Interp.{Env}
use agentic_rtl_engine.Expr.Lexer.{eval}
use agentic_rtl_engine.Kernel.{
  Derivation, is_one, apply_init, step_body, bind_mapping, decreases, portable,
}
use agentic_rtl_engine.Kernel.Domain.{Mode}
use agentic_rtl_engine.Kernel.Check.{
  Obligation, o1, o2, o3, Detail, invariant_after_init, invariant_at_entry, body_breaks_invariant,
  post_at_exit, variant_not_decreased, guard_still_holds, Counterexample, Verdict, fails,
  check_each, check_O1_at, round_O2, walk_O2, check_O2_at, run_loop, check_O3_at, ObligationResult,
  Flags, accepted, or_failed, discharge_on,
}
use agentic_rtl_engine.Kernel.Loop.{Holds, HoldsNot, Round}
use agentic_rtl_engine.Kernel.Sound.{is_one-num, ne_of_is_one}
use agentic_rtl_engine.Kernel.Failure.{
  Rounds, here, there, Failure, bad_init, bad_entry, bad_body, bad_variant, endless, bad_post,
  Explains, IsExplained,
}
use agentic_rtl_engine.Kernel.Refute.Checks.{
  check_O1_at-Explains, check_O2_at-Explains, check_O3_at-Explains, none-ne-some,
}

check_each-Explains :
    (d : Derivation) (check : Env → Verdict)
    → ((i : Env) (c : Counterexample) → check i ≡ ok (some c) → Explains d i c)
    → (valuations : List Env) (c : Counterexample) → check_each check valuations ≡ ok (some c)
    → IsExplained d valuations c
unfolding check_each
check_each-Explains d check g [] c h = absurd (none-ne-some h)
check_each-Explains d check g (i ∷ rest) c h =
    let (r, p, q) = >>=-eq-ok (check i) _ h in split r p q (check_each-Explains d check g rest c)
  where
    split :
        (r : Option Counterexample)
        → check i ≡ ok r
        → elim r [ none ↦ check_each check rest | some c ↦ ok (some c) ] ≡ ok (some c)
        → (check_each check rest ≡ ok (some c) → IsExplained d rest c)
        → IsExplained d (i ∷ rest) c
    split none p q ih = let (j, m, e) = ih q in (j, inr m, e)
    split (some c') p q ih = (i, inl refl, g i c (p ∙ q))

-- A counterexample of the result comes from the check that failed, or from what comes next.
or_failed-Explains :
    (d : Derivation) (valuations : List Env) (m : Verdict) (mode : Mode) (cases : ℕ) (held : Flags)
    (next : Result ObligationResult) (r : ObligationResult) (c : Counterexample)
    → r.counterexample ≡ some c
    → (m ≡ ok (some c) → IsExplained d valuations c)
    → (next ≡ ok r → IsExplained d valuations c)
    → (m >>= or_failed mode cases held next) ≡ ok r
    → IsExplained d valuations c
unfolding or_failed
or_failed-Explains d l (raises e) mode cases held next r c p found step h = cc
or_failed-Explains d l (ok none) mode cases held next r c p found step h = step h
or_failed-Explains d l (ok (some c')) mode cases held next r c p found step h =
    found (ap ok (ap (λ r. r.counterexample) (ok-injective h) ∙ p))
  where
    ok-injective :
        {a b : ObligationResult} → ◌≡◌ {A = Result ObligationResult} (ok a) (ok b) → a ≡ b
    ok-injective p = cc

accepted-no-cex :
    {A : Type 0} (mode : Mode) (cases : ℕ) (r : ObligationResult) (c : Counterexample)
    → r.counterexample ≡ some c
    → ◌≡◌ {A = Result ObligationResult} (ok (accepted mode cases)) (ok r)
    → A
unfolding accepted
accepted-no-cex mode cases r c p e = absurd (ground arith)

-- A refused derivation comes with a counterexample at one of the valuations that were checked,
-- and the state in it shows the failure that its detail tells of.
pub discharge_on-IsExplained :
    (d : Derivation) (valuations : List Env) (mode : Mode) (r : ObligationResult)
    (c : Counterexample)
    → discharge_on d valuations mode ≡ ok r
    → r.counterexample ≡ some c
    → IsExplained d valuations c
unfolding discharge_on
discharge_on-IsExplained d valuations mode r c h p =
    or_failed-Explains d valuations (check_each (check_O1_at d) valuations) mode _ _ _ r c p
      (check_each-Explains d _ (check_O1_at-Explains d) valuations c)
      (or_failed-Explains d valuations (check_each (check_O2_at d) valuations) mode _ _ _ r c p
        (check_each-Explains d _ (check_O2_at-Explains d) valuations c)
        (or_failed-Explains d valuations (check_each (check_O3_at d) valuations) mode _ _ _ r c p
          (check_each-Explains d _ (check_O3_at-Explains d) valuations c)
          (accepted-no-cex mode _ r c p)))
      h

-- ===== src/Kernel/Verdict.antt =====
-- What the result of `discharge_loop_obligations` means for the whole input space.
use agentic_rtl_engine.Prelude.{
  ℕ, ◌≡◌, refl, ap, subst, ◌∙◌, String, true, false, none, some, List, map, All-In, length, ◌⊎◌,
  inl, inr, sym,
}
use agentic_rtl_engine.Prelude.Result.{Result, ok, raises, ◌>>=◌, ok_inj}
use agentic_rtl_engine.Expr.Interp.{Env}
use agentic_rtl_engine.Kernel.{Derivation}
use agentic_rtl_engine.Kernel.Domain.{Mode, exhaustive_proof, sorted_names, valuation, input_domain}
use agentic_rtl_engine.Kernel.Domain.Covers.{InRange, input_domain-covers}
use agentic_rtl_engine.Kernel.Check.{
  Obligation, o1, o2, o3, check_each, check_O1_at, check_O2_at, check_O3_at, Verdict, Flags, flags,
  ObligationResult, failed, or_failed, accepted, discharge_on, discharge, Counterexample,
}
use agentic_rtl_engine.Kernel.Loop.{IsCorrectOn}
use agentic_rtl_engine.Kernel.Blame.{
  Names, check_each-Names, check_O1_at-Names, check_O2_at-Names, check_O3_at-Names,
}
use agentic_rtl_engine.Kernel.Sound.{discharge_on-IsCorrectOn}

-- The flags of a result whose counterexample is of an obligation: those before it hold.
abbrev pub held_before : Obligation → Flags
held_before o1 = flags false false false
held_before o2 = flags true false false
held_before o3 = flags true true false

abbrev pub IsConsistent : Mode → ℕ → ObligationResult → Type 0
IsConsistent mode cases r =
    (r.mode ≡ mode)
    × (r.cases_checked ≡ cases)
    × (((r.ok ≡ true) × (r.obligations ≡ flags true true true) × (r.counterexample ≡ none))
        ⊎ ((r.ok ≡ false)
            × ((c : Counterexample) × (r.counterexample ≡ some c)
                × (r.obligations ≡ held_before c.obligation))))

or_failed-IsConsistent :
    (o : Obligation) (m : Verdict) (mode : Mode) (cases : ℕ) (next : Result ObligationResult)
    (r : ObligationResult)
    → Names o m
    → (next ≡ ok r → IsConsistent mode cases r)
    → (m >>= or_failed mode cases (held_before o) next) ≡ ok r
    → IsConsistent mode cases r
unfolding or_failed failed
or_failed-IsConsistent o (raises e) mode cases next r n step h = cc
or_failed-IsConsistent o (ok none) mode cases next r n step h = step h
or_failed-IsConsistent o (ok (some c)) mode cases next r n step h =
    subst (IsConsistent mode cases) (ok_inj h)
      (refl, refl, inr (refl, (c, refl, ap held_before (sym (n c refl)))))

accepted-IsConsistent :
    (mode : Mode) (cases : ℕ) (r : ObligationResult)
    → ◌≡◌ {A = Result ObligationResult} (ok (accepted mode cases)) (ok r)
    → IsConsistent mode cases r
unfolding accepted
accepted-IsConsistent mode cases r e =
    subst (IsConsistent mode cases) (ok_inj e) (refl, refl, inl (refl, refl, refl))

-- A result names the mode and the number of the valuations. Either it accepts, all three obligations
-- hold and there is no counterexample; or it refuses, there is a counterexample, and the obligations
-- that hold are those before the one that the counterexample names.
pub discharge_on-IsConsistent :
    (d : Derivation) (valuations : List Env) (mode : Mode) (r : ObligationResult)
    → discharge_on d valuations mode ≡ ok r
    → IsConsistent mode (length valuations) r
unfolding discharge_on
discharge_on-IsConsistent d valuations mode r =
    or_failed-IsConsistent o1 (check_each (check_O1_at d) valuations) mode _ _ r
      (check_each-Names o1 _ (check_O1_at-Names d) valuations)
      (or_failed-IsConsistent o2 (check_each (check_O2_at d) valuations) mode _ _ r
        (check_each-Names o2 _ (check_O2_at-Names d) valuations)
        (or_failed-IsConsistent o3 (check_each (check_O3_at d) valuations) mode _ _ r
          (check_each-Names o3 _ (check_O3_at-Names d) valuations)
          (accepted-IsConsistent mode (length valuations) r)))

-- A result in the mode of an exhaustive proof that accepts is a proof: for every assignment of
-- numbers of the declared widths the loop ends within `max_iters` rounds, keeps its invariant,
-- lowers its variant in each round, and establishes the postcondition.
pub discharge-IsCorrectOn :
    (d : Derivation) (r : ObligationResult) (v : String → ℕ)
    → discharge d ≡ ok r
    → r.ok ≡ true
    → r.mode ≡ exhaustive_proof
    → InRange d.input_widths v (sorted_names d.input_widths)
    → IsCorrectOn d (valuation (sorted_names d.input_widths) (map v (sorted_names d.input_widths)))
unfolding discharge
discharge-IsCorrectOn d r v h acc m range =
    let domain = input_domain d.input_widths d.exhaustive_threshold in
    let same = (discharge_on-IsConsistent d domain.0 domain.1 r h).0 in
    All-In (IsCorrectOn d) _ domain.0 (discharge_on-IsCorrectOn d domain.0 domain.1 r h acc)
      (input_domain-covers d.input_widths d.exhaustive_threshold v (sym same ∙ m) range)

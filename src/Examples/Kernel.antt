-- ===== src/Examples/Kernel.antt =====
-- A loop that counts its input down, and the same loop with too few rounds.
use agentic_rtl_engine.Prelude.{
  ℕ, ◌≡◌, refl, String, List, [], ◌∷◌, All, In, length, map, arith, true, false,
}
use agentic_rtl_engine.Prelude.Result.{ok}
use agentic_rtl_engine.Prelude.Dict.{get, put}
use agentic_rtl_engine.Expr.Value.{num}
use agentic_rtl_engine.Expr.Interp.{Env}
use agentic_rtl_engine.Expr.Lexer.{eval}
use agentic_rtl_engine.Kernel.{
  Derivation, apply_init, is_one, step_body, decreases, bind_mapping, portable,
}
use agentic_rtl_engine.Kernel.Domain.{
  exhaustive_proof, sampled, sorted_names, input_sizes, total_of, product, valuation, input_domain,
  domain_tuples,
}
use agentic_rtl_engine.Kernel.Domain.Covers.{InRange, Fits, input_domain-covers, length-product}
use agentic_rtl_engine.Kernel.Domain.Range.{domain_tuples-Fits}
use agentic_rtl_engine.Kernel.Check.{
  Counterexample, o2, guard_still_holds, accepted, failed, flags, discharge_on, discharge,
}
use agentic_rtl_engine.Kernel.Loop.{IsCorrectOn}
use agentic_rtl_engine.Kernel.Verdict.{
  IsConsistent, discharge_on-IsConsistent, discharge-IsCorrectOn,
}
use agentic_rtl_engine.Kernel.Failure.{IsExplained}
use agentic_rtl_engine.Kernel.Refute.{discharge_on-IsExplained}

abbrev counting : ℕ → Derivation
counting rounds = record {
  post = "s = a";
  invariant = "s + k = a";
  variant = "k";
  guard = "k > 0";
  init = ("s", "0") ∷ ("k", "a") ∷ [];
  body = ("s", "s + 1") ∷ ("k", "k - 1") ∷ [];
  mapping = [];
  input_widths = ("a", 2) ∷ [];
  exhaustive_threshold = 16;
  max_iters = rounds;
}

abbrev constant : ℕ → String → ℕ
constant n s = n

counting_holds : discharge (counting 4) ≡ ok (accepted exhaustive_proof 4)
unfolding discharge eval apply_init put is_one step_body decreases bind_mapping
counting_holds = refl

in_range : InRange (("a", 2) ∷ []) (constant 3) (sorted_names (("a", 2) ∷ []))
unfolding sorted_names get
in_range = (omega arith, tt)

discharge-IsCorrectOn_example :
    IsCorrectOn
      (counting 4)
      (valuation (sorted_names (("a", 2) ∷ [])) (map (constant 3) (sorted_names (("a", 2) ∷ []))))
unfolding accepted
discharge-IsCorrectOn_example =
    discharge-IsCorrectOn (counting 4) (accepted exhaustive_proof 4) (constant 3) counting_holds
      refl refl in_range

abbrev valuations : List Env
valuations = (("a", num 1) ∷ []) ∷ (("a", num 3) ∷ []) ∷ []

abbrev stuck : Counterexample
stuck = record {
  obligation = o2;
  inputs = ("a", num 3) ∷ [];
  state = ("a", num 3) ∷ ("s", num 1) ∷ ("k", num 2) ∷ [];
  detail = guard_still_holds 1;
}

counting_fails :
    discharge_on (counting 1) valuations sampled
    ≡ ok (failed sampled 2 (flags true false false) stuck)
unfolding discharge_on eval apply_init put is_one step_body decreases bind_mapping portable
counting_fails = refl

discharge_on-IsExplained_example : IsExplained (counting 1) valuations stuck
unfolding failed
discharge_on-IsExplained_example =
    discharge_on-IsExplained (counting 1) valuations sampled
      (failed sampled 2 (flags true false false) stuck) stuck counting_fails refl

discharge_on-IsConsistent_example :
    IsConsistent sampled 2 (failed sampled 2 (flags true false false) stuck)
discharge_on-IsConsistent_example =
    discharge_on-IsConsistent (counting 1) valuations sampled
      (failed sampled 2 (flags true false false) stuck) counting_fails

domain_is_exhaustive : (input_domain (("a", 2) ∷ []) 16).1 ≡ exhaustive_proof
unfolding input_domain get
domain_is_exhaustive = refl

input_domain-covers_example :
    In
      (valuation (sorted_names (("a", 2) ∷ [])) (map (constant 3) (sorted_names (("a", 2) ∷ []))))
      (input_domain (("a", 2) ∷ []) 16).0
input_domain-covers_example =
    input_domain-covers (("a", 2) ∷ []) 16 (constant 3) domain_is_exhaustive in_range

length-product_example : length (product (2 ∷ 4 ∷ [])) ≡ total_of (2 ∷ 4 ∷ [])
length-product_example = length-product (2 ∷ 4 ∷ [])

domain_tuples-Fits_example :
    All
      (λ c. Fits c (input_sizes (("a", 2) ∷ ("b", 3) ∷ []) ("a" ∷ "b" ∷ [])))
      (domain_tuples (input_sizes (("a", 2) ∷ ("b", 3) ∷ []) ("a" ∷ "b" ∷ [])) 8).0
domain_tuples-Fits_example = domain_tuples-Fits (("a", 2) ∷ ("b", 3) ∷ []) ("a" ∷ "b" ∷ []) 8

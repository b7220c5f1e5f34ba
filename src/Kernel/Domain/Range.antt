-- ===== src/Kernel/Domain/Range.antt =====
-- Every valuation that is checked, in either mode, lies within the declared widths.
use mathlib.Core.List.{append-nil, append_assoc}
use native.Mathlib.Nat.{mod-lt, pow-suc}
use agentic_rtl_engine.Prelude.{
  ℕ, zero, suc, ◌+◌, ◌^◌, ◌≤◌, ◌<◌, String, List, [], ◌∷◌, ◌++◌, map, All, All-append, All-map,
  All-map_of, arith, leb, ltb, ltb→lt, inl, inr, Bool-cases,
}
use agentic_rtl_engine.Prelude.Dict.{Dict, get}
use agentic_rtl_engine.Kernel.Domain.{
  input_sizes, width_of, total_of, range_from, range, extend_all, product_from, product_lists,
  product, keep_below, or_zero, edge_set, spread_at, seen_in, dedup, sampled_tuples, samples,
  domain_tuples,
}
use agentic_rtl_engine.Kernel.Domain.Covers.{Fits}

Fits-snoc :
    (p done : List ℕ) (v s : ℕ) → Fits p done → v < s → Fits (p ++ (v ∷ [])) (done ++ (s ∷ []))
Fits-snoc [] [] v s h l = (l, tt)
Fits-snoc [] (t ∷ done) v s h l = absurd h
Fits-snoc (a ∷ p) [] v s h l = absurd h
Fits-snoc (a ∷ p) (t ∷ done) v s h l = (h.0, Fits-snoc p done v s h.1 l)

extend_all-Fits :
    (result : List (List ℕ)) (values done : List ℕ) (s : ℕ)
    → All (λ p. Fits p done) result
    → All (λ v. v < s) values
    → All (λ p. Fits p (done ++ (s ∷ []))) (extend_all result values)
unfolding extend_all
extend_all-Fits [] values done s h l = tt
extend_all-Fits (p ∷ result) values done s h l =
    All-append (λ p. Fits p (done ++ (s ∷ []))) (map (λ v. p ++ (v ∷ [])) values)
      (extend_all result values)
      (All-map_of (λ v. p ++ (v ∷ [])) (λ p. Fits p (done ++ (s ∷ []))) values
        (All-map (λ v lv. Fits-snoc p done v s h.0 lv) values l))
      (extend_all-Fits result values done s h.1 l)

-- The lists of a product stay below the sizes that they are made from.
product_from-Fits :
    (choices : ℕ → List ℕ) (sizes done : List ℕ) (result : List (List ℕ))
    → All (λ s. All (λ v. v < s) (choices s)) sizes
    → All (λ p. Fits p done) result
    → All (λ p. Fits p (done ++ sizes)) (product_from result (map choices sizes))
unfolding product_from
product_from-Fits choices [] done result below h = rw append-nil h
product_from-Fits choices (s ∷ sizes) done result below h =
    rw (← append_assoc done (s ∷ []) sizes) (
      product_from-Fits choices sizes (done ++ (s ∷ [])) (extend_all result (choices s)) below.1
        (extend_all-Fits result (choices s) done s h below.0))

range_from-below : (k n m : ℕ) → k + n ≤ m → All (λ v. v < m) (range_from k n)
unfolding range_from
range_from-below k zero m h = tt
range_from-below k (suc n) m h = (omega arith, range_from-below (suc k) n m (omega arith))

keep_below-below : (s : ℕ) (l : List ℕ) → All (λ v. v < s) (keep_below s l)
unfolding keep_below
keep_below-below s [] = tt
keep_below-below s (a ∷ l) = elim (Bool-cases (ltb a s)) [
  | inl e ↦ rw e (ltb→lt a s e, keep_below-below s l)
  | inr e ↦ rw e (keep_below-below s l)
]

or_zero-below : (s : ℕ) (l : List ℕ) → 0 < s → All (λ v. v < s) l → All (λ v. v < s) (or_zero l)
or_zero-below s [] p h = (p, tt)
or_zero-below s (a ∷ l) p h = h

edge_set-below : (s : ℕ) → 0 < s → All (λ v. v < s) (edge_set s)
unfolding edge_set
edge_set-below s p = or_zero-below s _ p (keep_below-below s _)

spread_at-Fits :
    (i j : ℕ) (sizes : List ℕ) → All (λ s. 0 < s) sizes → Fits (spread_at i j sizes) sizes
unfolding spread_at
spread_at-Fits i j [] h = tt
spread_at-Fits i j (s ∷ sizes) h = (mod-lt _ h.0, spread_at-Fits i (suc j) sizes h.1)

dedup-All : (P : List ℕ → Type 0) (seen keys : List (List ℕ)) → All P keys → All P (dedup seen keys)
unfolding dedup
dedup-All P seen [] h = tt
dedup-All P seen (k ∷ keys) h = elim (Bool-cases (seen_in k seen)) [
  | inl e ↦ rw e (dedup-All P seen keys h.1)
  | inr e ↦ rw e (h.0, dedup-All P (k ∷ seen) keys h.1)
]

All-always : {A : Type 0} (P : A → Type 0) (g : (a : A) → P a) (l : List A) → All P l
All-always P g [] = tt
All-always P g (a ∷ l) = (g a, All-always P g l)

sampled_tuples-Fits :
    (sizes : List ℕ) → All (λ s. 0 < s) sizes → All (λ c. Fits c sizes) (sampled_tuples sizes)
unfolding sampled_tuples
sampled_tuples-Fits sizes h =
    dedup-All (λ c. Fits c sizes) [] _
      (All-append (λ c. Fits c sizes) (product_lists (map edge_set sizes)) _
        (product_from-Fits edge_set sizes [] ([] ∷ []) (All-map edge_set-below sizes h) (tt, tt))
        (All-map_of (λ i. spread_at i 0 sizes) (λ c. Fits c sizes) (range samples)
          (All-always _ (λ i. spread_at-Fits i 0 sizes h) (range samples))))

product-Fits : (sizes : List ℕ) → All (λ c. Fits c sizes) (product sizes)
unfolding product product_lists
product-Fits sizes =
    product_from-Fits range sizes [] ([] ∷ [])
      (All-always _ (λ s. range_from-below 0 s s (omega arith)) sizes) (tt, tt)

pub pow_pos : (w : ℕ) → 0 < 2 ^ w
pow_pos zero = omega arith
pow_pos (suc w) = rw pow-suc (omega (arith, pow_pos w))

input_sizes-pos : (d : Dict ℕ) (names : List String) → All (λ s. 0 < s) (input_sizes d names)
unfolding input_sizes
input_sizes-pos d [] = tt
input_sizes-pos d (n ∷ names) = (pow_pos (width_of (get n d)), input_sizes-pos d names)

-- In both modes each tuple that is checked holds one number for each input, within its width:
-- a counterexample is a failure at inputs that the hardware can meet.
pub domain_tuples-Fits :
    (d : Dict ℕ) (names : List String) (threshold : ℕ)
    → All (λ c. Fits c (input_sizes d names)) (domain_tuples (input_sizes d names) threshold).0
unfolding domain_tuples
domain_tuples-Fits d names threshold =
    let sizes = input_sizes d names in
    let positive = input_sizes-pos d names in
    elim (Bool-cases (leb (total_of sizes) threshold)) [
      | inl e ↦ rw e (product-Fits sizes)
      | inr e ↦ rw e (sampled_tuples-Fits sizes positive)
    ]

-- ===== src/Kernel/Domain/Covers.antt =====
-- The exhaustive domain leaves no valuation out, and its length is the product of the sizes.
use mathlib.Core.Path.{subst}
use mathlib.Core.List.{foldl, append-nil, append_assoc}
use agentic_rtl_engine.Prelude.{
  ℕ, zero, suc, ◌+◌, ◌*◌, ◌^◌, ◌≤◌, ◌<◌, ◌≡◌, refl, ap, ◌∙◌, String, List, [], ◌∷◌, ◌++◌, map, All,
  In, In-append_left, In-append_right, In-map, length, length-append, length-map, arith, leb, inl,
  inr, ◌⊎◌, Bool-cases,
}
use agentic_rtl_engine.Prelude.Dict.{Dict, get}
use agentic_rtl_engine.Kernel.Domain.{
  exhaustive_proof, sampled, sorted_names, input_sizes, width_of, total_of, range_from, range,
  extend_all, product_from, product_lists, product, valuation, domain_tuples, input_domain,
}

-- A tuple with one number below each size.
abbrev pub Fits : List ℕ → List ℕ → Type 0
Fits [] [] = Unit
Fits (v ∷ combo) (s ∷ sizes) = (v < s) × Fits combo sizes
Fits _ _ = ⊥

range_from-In : (k n v : ℕ) → k ≤ v → v < k + n → In v (range_from k n)
unfolding range_from
range_from-In k zero v h l = absurd (omega arith)
range_from-In k (suc n) v h l = elim (eq_or_lt k v h) [
  | inl e ↦ inl e
  | inr lt ↦ inr (range_from-In (suc k) n v (omega arith) (omega arith))
]
  where
    eq_or_lt : (a b : ℕ) → a ≤ b → (a ≡ b) ⊎ (a < b)
    eq_or_lt a b h = ground arith

extend_all-In :
    (p : List ℕ) (v : ℕ) (result : List (List ℕ)) (values : List ℕ)
    → In p result
    → In v values
    → In (p ++ (v ∷ [])) (extend_all result values)
unfolding extend_all
extend_all-In p v [] values m h = absurd m
extend_all-In p v (q ∷ result) values (inl e) h =
    In-append_left _ (map (λ w. q ++ (w ∷ [])) values) (extend_all result values) (
      subst (λ r. In (r ++ (v ∷ [])) (map (λ w. q ++ (w ∷ [])) values)) e
        (In-map (λ w. q ++ (w ∷ [])) v values h))
extend_all-In p v (q ∷ result) values (inr m) h =
    In-append_right _ (map (λ w. q ++ (w ∷ [])) values) (extend_all result values)
      (extend_all-In p v result values m h)

product_from-In :
    (sizes combo p : List ℕ) (result : List (List ℕ))
    → Fits combo sizes
    → In p result
    → In (p ++ combo) (product_from result (map range sizes))
unfolding product_from
product_from-In [] [] p result h m = rw append-nil m
product_from-In [] (v ∷ combo) p result h m = absurd h
product_from-In (s ∷ sizes) [] p result h m = absurd h
product_from-In (s ∷ sizes) (v ∷ combo) p result h m = rw (← append_assoc p (v ∷ []) combo) (
    product_from-In sizes combo (p ++ (v ∷ [])) (extend_all result (range s)) h.1
      (extend_all-In p v result (range s) m (range_from-In 0 s v (omega arith) (omega arith))))

pub product-In : (sizes combo : List ℕ) → Fits combo sizes → In combo (product sizes)
unfolding product product_lists
product-In sizes combo h = product_from-In sizes combo [] ([] ∷ []) h (inl refl)

-- One number for each name, below the size that its width gives.
abbrev pub InRange : Dict ℕ → (String → ℕ) → List String → Type 0
InRange d v names = All (λ n. v n < 2 ^ width_of (get n d)) names

InRange-Fits :
    (d : Dict ℕ) (v : String → ℕ) (names : List String)
    → InRange d v names
    → Fits (map v names) (input_sizes d names)
unfolding input_sizes
InRange-Fits d v [] h = tt
InRange-Fits d v (n ∷ names) h = (h.0, InRange-Fits d v names h.1)

-- In the mode of an exhaustive proof every assignment of numbers of the declared widths is among
-- the valuations.
pub input_domain-covers :
    (d : Dict ℕ) (threshold : ℕ) (v : String → ℕ)
    → (input_domain d threshold).1 ≡ exhaustive_proof
    → InRange d v (sorted_names d)
    → In (valuation (sorted_names d) (map v (sorted_names d))) (input_domain d threshold).0
unfolding input_domain domain_tuples
input_domain-covers d threshold v m h =
    elim (Bool-cases (leb (total_of (input_sizes d (sorted_names d))) threshold)) [
      | inl e ↦ rw e (
          In-map (valuation (sorted_names d)) _ (product (input_sizes d (sorted_names d)))
            (product-In _ _ (InRange-Fits d v (sorted_names d) h)))
      | inr e ↦ absurd (not-exhaustive (rw e at m))
    ]
  where
    not-exhaustive : ¬ (sampled ≡ exhaustive_proof)
    not-exhaustive p = cc

length-extend_all :
    (result : List (List ℕ)) (values : List ℕ)
    → length (extend_all result values) ≡ length result * length values
unfolding extend_all
length-extend_all [] values = grind arith
length-extend_all (p ∷ result) values = grind (
  arith,
  length-append (map (λ v. p ++ (v ∷ [])) values) (extend_all result values),
  length-map values (λ v. p ++ (v ∷ [])),
  length-extend_all result values,
)

length-range_from : (k n : ℕ) → length (range_from k n) ≡ n
unfolding range_from
length-range_from k zero = refl
length-range_from k (suc n) = ap suc (length-range_from (suc k) n)

length-product_from :
    (sizes : List ℕ) (result : List (List ℕ))
    → length (product_from result (map range sizes))
      ≡ foldl (λ total s. total * s) (length result) sizes
unfolding product_from
length-product_from [] result = refl
length-product_from (s ∷ sizes) result =
    length-product_from sizes (extend_all result (range s))
    ∙ ap (λ n. foldl (λ total s. total * s) n sizes)
        (length-extend_all result (range s) ∙ ap (λ n. length result * n) (length-range_from 0 s))

-- As many valuations are checked as the input space has.
pub length-product : (sizes : List ℕ) → length (product sizes) ≡ total_of sizes
unfolding product product_lists total_of
length-product sizes = length-product_from sizes ([] ∷ [])

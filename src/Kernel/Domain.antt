-- ===== src/Kernel/Domain.antt =====
-- pipeline/refinement/obligations.py, `_input_domain`: the input valuations that are checked.
pub mod Covers
pub mod Range
use Prim.Native.Nat.{Ordering}
use Prim.Native.String.{compare}
use mathlib.Core.List.{foldl, flat_map}
use agentic_rtl_engine.Prelude.{
  ℕ, zero, suc, ◌+◌, ◌-◌, ◌*◌, ◌%◌, ◌^◌, String, Bool, true, false, ◌&&◌, ◌||◌, Option, none, some,
  List, [], ◌∷◌, ◌++◌, map, ltb, leb, ◌==◌, if◌then◌else◌,
}
use agentic_rtl_engine.Prelude.Dict.{Dict, get, put}
use agentic_rtl_engine.Expr.Value.{Value, num}
use agentic_rtl_engine.Expr.Interp.{Env}

pub data Mode : Type 0 where
  exhaustive_proof sampled : Mode

-- `sorted` of the names, by code points.
unfoldable pub insert_name : String → List String → List String
insert_name n [] = n ∷ []
insert_name n (m ∷ ns) = elim (compare n m) [ Ordering.gt ↦ m ∷ insert_name n ns | _ ↦ n ∷ m ∷ ns ]

unfoldable pub sorted_names : Dict ℕ → List String
unfolding insert_name
sorted_names [] = []
sorted_names ((n, w) ∷ d) = insert_name n (sorted_names d)

abbrev pub width_of : Option ℕ → ℕ
width_of none = 0
width_of (some w) = w

-- `1 << int(input_widths[n])` for each name.
unfoldable pub input_sizes : Dict ℕ → List String → List ℕ
input_sizes d [] = []
input_sizes d (n ∷ ns) = 2 ^ width_of (get n d) ∷ input_sizes d ns

unfoldable pub total_of : List ℕ → ℕ
total_of sizes = foldl (λ total s. total * s) 1 sizes

-- `list(range(n))`, from the number `k` on.
unfoldable pub range_from : ℕ → ℕ → List ℕ
range_from k zero = []
range_from k (suc n) = k ∷ range_from (suc k) n

abbrev pub range : ℕ → List ℕ
range n = range_from 0 n

-- `[prev + [x] for prev in result for x in lst]`
unfoldable pub extend_all : List (List ℕ) → List ℕ → List (List ℕ)
extend_all [] values = []
extend_all (prev ∷ result) values = map (λ v. prev ++ (v ∷ [])) values ++ extend_all result values

-- `_product_lists`, from the tuples made so far.
unfoldable pub product_from : List (List ℕ) → List (List ℕ) → List (List ℕ)
unfolding extend_all
product_from result [] = result
product_from result (values ∷ lists) = product_from (extend_all result values) lists

unfoldable pub product_lists : List (List ℕ) → List (List ℕ)
unfolding product_from
product_lists lists = product_from ([] ∷ []) lists

unfoldable pub product : List ℕ → List (List ℕ)
unfolding product_lists range_from
product sizes = product_lists (map range sizes)

-- `sorted({0, 1, mx} & set(range(s)) or {0})`
unfoldable pub insert_value : ℕ → List ℕ → List ℕ
insert_value a [] = a ∷ []
insert_value a (b ∷ l) =
    if a == b then b ∷ l else if ltb a b then a ∷ b ∷ l else b ∷ insert_value a l

unfoldable pub keep_below : ℕ → List ℕ → List ℕ
keep_below s [] = []
keep_below s (a ∷ l) = if ltb a s then a ∷ keep_below s l else keep_below s l

abbrev or_zero : List ℕ → List ℕ
or_zero [] = 0 ∷ []
or_zero l = l

unfoldable pub edge_set : ℕ → List ℕ
unfolding insert_value keep_below
edge_set s = or_zero (keep_below s (insert_value 0 (insert_value 1 (insert_value (s - 1) []))))

-- The `i`-th tuple of the pseudo-random spread, from the input number `j` on.
unfoldable pub spread_at : ℕ → ℕ → List ℕ → List ℕ
spread_at i j [] = []
spread_at i j (s ∷ sizes) =
    ((i * (37 + 7 * j) + 11 + 3 * j) * (1 + j)) % s ∷ spread_at i (suc j) sizes

abbrev pub samples : ℕ
samples = 256

unfoldable pub same_tuple : List ℕ → List ℕ → Bool
same_tuple [] [] = true
same_tuple (a ∷ l) (b ∷ m) = a == b && same_tuple l m
same_tuple _ _ = false

unfoldable pub seen_in : List ℕ → List (List ℕ) → Bool
unfolding same_tuple
seen_in key [] = false
seen_in key (k ∷ seen) = same_tuple k key || seen_in key seen

-- The first occurrence of each tuple, in order.
unfoldable pub dedup : List (List ℕ) → List (List ℕ) → List (List ℕ)
unfolding seen_in
dedup seen [] = []
dedup seen (key ∷ keys) =
    let rest = dedup seen keys in
    let fresh = dedup (key ∷ seen) keys in if seen_in key seen then rest else key ∷ fresh

unfoldable pub sampled_tuples : List ℕ → List (List ℕ)
unfolding product_lists edge_set spread_at dedup range_from
sampled_tuples sizes =
    dedup [] (product_lists (map edge_set sizes) ++ map (λ i. spread_at i 0 sizes) (range samples))

-- `dict(zip(names, combo))`
unfoldable pub zip_into : Env → List String → List ℕ → Env
zip_into env (n ∷ names) (v ∷ combo) = zip_into (put n (num v) env) names combo
zip_into env _ _ = env

unfoldable pub valuation : List String → List ℕ → Env
unfolding zip_into
valuation names combo = zip_into [] names combo

unfoldable pub domain_tuples : List ℕ → ℕ → List (List ℕ) × Mode
unfolding total_of product sampled_tuples
domain_tuples sizes threshold =
    if leb (total_of sizes) threshold
    then (product sizes, exhaustive_proof)
    else (sampled_tuples sizes, sampled)

unfoldable pub input_domain : Dict ℕ → ℕ → List Env × Mode
unfolding sorted_names input_sizes domain_tuples valuation
input_domain widths threshold =
    let names = sorted_names widths in
    let found = domain_tuples (input_sizes widths names) threshold in
    (map (valuation names) found.0, found.1)

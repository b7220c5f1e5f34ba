-- ===== src/Expr/Total/Values.antt =====
-- The operations of Expr/Value: the exceptions that they raise.
use agentic_rtl_engine.Prelude.{
  ℕ, suc, ◌≢◌, Option, none, some, Bool, List, [], ◌∷◌, ◌^◌, ◌==◌, ltb, arith, inl, inr, Bool-cases,
}
use agentic_rtl_engine.Prelude.Result.{Result, ok, raises, out_of_fuel}
use agentic_rtl_engine.Expr.Value.{
  Value, x, num, arr, AddOp, MulOp, over, CmpOp, compare_lists, truth, compare_values, add_values,
  float_div, div_ints, mul_values, neg_value, index_value,
}

-- A result that is no exhausted fuel.
abbrev pub Fine {ℓ} : {A : Type ℓ} → Result A → Type 0
Fine (ok a) = Unit
Fine (raises e) = e ≢ out_of_fuel

compare_lists-Fine : (o : CmpOp) (v r : List (Option ℕ)) → Fine (compare_lists o v r)
unfolding compare_lists
compare_lists-Fine o [] r = tt
compare_lists-Fine o (some a ∷ v) [] = tt
compare_lists-Fine o (none ∷ v) [] = tt
compare_lists-Fine o (some a ∷ v) (none ∷ r) = ground arith
compare_lists-Fine o (none ∷ v) (some b ∷ r) = ground arith
compare_lists-Fine o (none ∷ v) (none ∷ r) = compare_lists-Fine o v r
compare_lists-Fine o (some a ∷ v) (some b ∷ r) = elim (Bool-cases (a == b)) [
  | inl e ↦ rw e (compare_lists-Fine o v r)
  | inr e ↦ rw e tt
]

truth-Fine : (r : Result Bool) → Fine r → Fine (truth r)
truth-Fine (ok b) h = tt
truth-Fine (raises e) h = h

pub compare_values-Fine : (o : CmpOp) (v r : Value) → Fine (compare_values o v r)
unfolding compare_values
compare_values-Fine o x r = tt
compare_values-Fine o (num a) x = tt
compare_values-Fine o (num a) (num b) = tt
compare_values-Fine o (num a) (arr r) = ground arith
compare_values-Fine o (arr v) x = tt
compare_values-Fine o (arr v) (num b) = ground arith
compare_values-Fine o (arr v) (arr r) = truth-Fine (compare_lists o v r) (compare_lists-Fine o v r)

pub add_values-Fine : (o : AddOp) (v r : Value) → Fine (add_values o v r)
unfolding add_values
add_values-Fine o v r = ground arith

div_ints-Fine : (a b : ℕ) → Fine (div_ints a b)
unfolding div_ints
div_ints-Fine a b = elim (Bool-cases (ltb (float_div a b) (2 ^ 1024))) [
  | inl e ↦ rw e tt
  | inr e ↦ rw e (ground arith)
]

pub mul_values-Fine : (o : MulOp) (v r : Value) → Fine (mul_values o v r)
unfolding mul_values
mul_values-Fine over (num a) (num (suc b)) = div_ints-Fine a (suc b)
mul_values-Fine o v r = ground arith

pub neg_value-Fine : (v : Value) → Fine (neg_value v)
unfolding neg_value
neg_value-Fine v = ground arith

pub index_value-Fine : (v i : Value) → Fine (index_value v i)
unfolding index_value
index_value-Fine v i = ground arith

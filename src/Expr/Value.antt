-- ===== src/Expr/Value.antt =====
-- pipeline/cocotb/spec_sim.py: the values of the interpreter and the operations of
-- `_or`, `_and`, `_cmp`, `_add`, `_mul` and `_unary` on them.
use Prim.Native.Nat.{compare, Ordering}
use agentic_rtl_engine.Prelude.{
  ℕ, zero, suc, ◌+◌, ◌-◌, ◌*◌, ◌/◌, ◌%◌, ◌^◌, Bool, true, false, ◌&&◌, ◌||◌, Option, none, some,
  List, ◌∷◌, ltb, leb, ◌==◌, if◌then◌else◌, length, get_elem?,
}
use agentic_rtl_engine.Prelude.Result.{Result, ok, raises, type_error, overflow_error}

-- `None` is the X of hardware; the list is a memory, whose cells are an int or X.
pub data Value : Type 0 where
  x : Value
  num : ℕ → Value
  arr : List (Option ℕ) → Value

pub data AddOp : Type 0 where
  plus minus : AddOp

pub data MulOp : Type 0 where
  times over modulo : MulOp

pub data CmpOp : Type 0 where
  eq ne le ge lt gt : CmpOp

-- The mask `& _U32` of a result that is not negative.
abbrev pub u32_mod : ℕ
u32_mod = 2 ^ 32

-- `v != 0` of a value that is not X; a list is never 0.
unfoldable pub is_nonzero : Value → Bool
is_nonzero (num zero) = false
is_nonzero _ = true

abbrev pub of_bool : Bool → Value
of_bool b = if b then num 1 else num 0

unfoldable pub or_values : Value → Value → Value
unfolding is_nonzero
or_values x r = x
or_values v x = x
or_values v r = of_bool (is_nonzero v || is_nonzero r)

unfoldable pub and_values : Value → Value → Value
unfolding is_nonzero
and_values x r = x
and_values v x = x
and_values v r = of_bool (is_nonzero v && is_nonzero r)

unfoldable pub compare_ints : CmpOp → ℕ → ℕ → Bool
compare_ints eq a b = a == b
compare_ints ne a b = if a == b then false else true
compare_ints le a b = leb a b
compare_ints ge a b = leb b a
compare_ints lt a b = ltb a b
compare_ints gt a b = ltb b a

-- Two lists are ordered by the first place at which they differ, else by their lengths.
-- All six comparisons are evaluated, so an int against `None` there raises.
unfoldable pub compare_lists : CmpOp → List (Option ℕ) → List (Option ℕ) → Result Bool
unfolding compare_ints
compare_lists op (some a ∷ v) (some b ∷ r) =
    let rest = compare_lists op v r in if a == b then rest else ok (compare_ints op a b)
compare_lists op (none ∷ v) (none ∷ r) = compare_lists op v r
compare_lists op (a ∷ v) (b ∷ r) = raises type_error
compare_lists op v r = ok (compare_ints op (length v) (length r))

abbrev pub truth : Result Bool → Result Value
truth (ok b) = ok (of_bool b)
truth (raises e) = raises e

unfoldable pub compare_values : CmpOp → Value → Value → Result Value
unfolding compare_ints
compare_values op x r = ok x
compare_values op v x = ok x
compare_values op (num a) (num b) = ok (of_bool (compare_ints op a b))
compare_values op (arr v) (arr r) = truth (compare_lists op v r)
compare_values op v r = raises type_error

-- `a - b` of two ints below zero wraps by the mask: the first multiple of 2^32 that reaches `b`
-- is added before the truncated subtraction.
unfoldable pub sub_u32 : ℕ → ℕ → ℕ
sub_u32 a b = (a + u32_mod * (b / u32_mod + 1) - b) % u32_mod

unfoldable pub add_values : AddOp → Value → Value → Result Value
unfolding sub_u32
add_values op x r = ok x
add_values op v x = ok x
add_values plus (num a) (num b) = ok (num ((a + b) % u32_mod))
add_values minus (num a) (num b) = ok (num (sub_u32 a b))
add_values op v r = raises type_error

-- The number of binary digits, on fuel; `n` itself is fuel enough.
unfoldable pub bit_length : ℕ → ℕ → ℕ
bit_length zero n = 0
bit_length (suc f) zero = 0
bit_length (suc f) n = suc (bit_length f (n / 2))

-- The integer nearest to a / b, a tie to the even one.
unfoldable pub round_half_even : ℕ → ℕ → ℕ
round_half_even a b =
    let q = a / b in
    elim (compare (2 * (a % b)) b) [
      | Ordering.lt ↦ q
      | Ordering.gt ↦ q + 1
      | Ordering.eq ↦ q + q % 2
    ]

-- `int(a / b)` for b > 0: the quotient is rounded to a float, which has 53 binary digits, and
-- then truncated. A quotient of `k` digits is rounded at 53 - k places after the point, or at
-- the last k - 53 places before it.
unfoldable pub float_div : ℕ → ℕ → ℕ
unfolding bit_length round_half_even
float_div a b =
    let k = bit_length (a / b) (a / b) in
    if leb k 53
    then round_half_even (a * 2 ^ (53 - k)) b / 2 ^ (53 - k)
    else round_half_even a (b * 2 ^ (k - 53)) * 2 ^ (k - 53)

-- `int(v / r) & _U32`; a float is below 2^1024.
unfoldable pub div_ints : ℕ → ℕ → Result Value
unfolding float_div
div_ints a b =
    let q = float_div a b in
    if ltb q (2 ^ 1024) then ok (num (q % u32_mod)) else raises overflow_error

-- A divisor 0 gives X before the dividend is looked at.
unfoldable pub mul_values : MulOp → Value → Value → Result Value
unfolding div_ints
mul_values op x r = ok x
mul_values op v x = ok x
mul_values times (num a) (num b) = ok (num ((a * b) % u32_mod))
mul_values times v r = raises type_error
mul_values op v (num zero) = ok x
mul_values over (num a) (num b) = div_ints a b
mul_values modulo (num a) (num b) = ok (num ((a % b) % u32_mod))
mul_values op v r = raises type_error

unfoldable pub not_value : Value → Value
not_value x = x
not_value (num zero) = num 1
not_value _ = num 0

unfoldable pub neg_value : Value → Result Value
unfolding sub_u32
neg_value x = ok x
neg_value (num n) = ok (num (sub_u32 0 n))
neg_value (arr l) = raises type_error

-- Both branches of an IF are evaluated; an X condition gives X.
unfoldable pub choose : Value → Value → Value → Value
unfolding is_nonzero
choose x a b = x
choose c a b = if is_nonzero c then a else b

abbrev cell : Option (Option ℕ) → Value
cell (some (some n)) = num n
cell _ = x

-- `arr[idx]`, X out of range.
unfoldable pub index_value : Value → Value → Result Value
index_value x i = ok x
index_value v x = ok x
index_value v (arr i) = raises type_error
index_value (num n) i = raises type_error
index_value (arr l) (num i) = ok (cell (get_elem? l i))

-- ===== src/Expr/Grammar/Measure.antt =====
-- The number of tokens of a sentence, the operators of its outermost level, its first token, and
-- which tokens may follow it.
use agentic_rtl_engine.Prelude.{ℕ, suc, ◌+◌, ◌<◌, ◌≡◌, refl, List, [], ◌∷◌, length, none, arith}
use agentic_rtl_engine.Expr.Token.{
  Token, disj, conj, cmp, add, mul, lbracket, rbracket, rparen, word_then, word_else, word_and,
  word_or, word_mod, is_if,
}
use agentic_rtl_engine.Expr.Interp.{next_op}
use agentic_rtl_engine.Expr.Grammar.{
  Ex, ite, plain, Disj, or_one, or_more, Conj, and_one, and_more, Cmp, cmp_one, cmp_two, Sum,
  add_one, add_more, Product, mul_one, mul_more, Signed, negated, opposite, atom, Atom, literal,
  element, paren, print, print_or, print_and, print_cmp, print_add, print_mul, print_unary,
  print_primary, wave, mark, worded, not_token, or_token, and_token, mul_token,
}

unfoldable mutual
  pub size : Ex → ℕ
  size (ite c a b) = 3 + size c + size a + size b
  size (plain o) = size_or o

  pub size_or : Disj → ℕ
  size_or (or_one a) = size_and a
  size_or (or_more l s r) = 1 + size_or l + size_and r

  pub size_and : Conj → ℕ
  size_and (and_one c) = size_cmp c
  size_and (and_more l s r) = 1 + size_and l + size_cmp r

  pub size_cmp : Cmp → ℕ
  size_cmp (cmp_one a) = size_add a
  size_cmp (cmp_two l o r) = 1 + size_add l + size_add r

  pub size_add : Sum → ℕ
  size_add (add_one m) = size_mul m
  size_add (add_more l o r) = 1 + size_add l + size_mul r

  pub size_mul : Product → ℕ
  size_mul (mul_one u) = size_unary u
  size_mul (mul_more l s r) = 1 + size_mul l + size_unary r

  pub size_unary : Signed → ℕ
  size_unary (negated s u) = 1 + size_unary u
  size_unary (opposite u) = 1 + size_unary u
  size_unary (atom p) = size_primary p

  pub size_primary : Atom → ℕ
  size_primary (element s e) = 3 + size e
  size_primary (paren e) = 2 + size e
  size_primary _ = 1

mutual
  unfolding size print

  pub length-print : (e : Ex) (rest : List Token) → length (print e rest) ≡ size e + length rest
  length-print (ite c a b) rest = omega (
    arith,
    length-print c (word_then ∷ print a (word_else ∷ print b rest)),
    length-print a (word_else ∷ print b rest),
    length-print b rest,
  )
  length-print (plain o) rest = length-print_or o rest

  length-print_or :
      (o : Disj) (rest : List Token) → length (print_or o rest) ≡ size_or o + length rest
  length-print_or (or_one a) rest = length-print_and a rest
  length-print_or (or_more l s r) rest =
      omega (arith, length-print_or l (or_token s ∷ print_and r rest), length-print_and r rest)

  length-print_and :
      (o : Conj) (rest : List Token) → length (print_and o rest) ≡ size_and o + length rest
  length-print_and (and_one a) rest = length-print_cmp a rest
  length-print_and (and_more l s r) rest =
      omega (arith, length-print_and l (and_token s ∷ print_cmp r rest), length-print_cmp r rest)

  length-print_cmp :
      (o : Cmp) (rest : List Token) → length (print_cmp o rest) ≡ size_cmp o + length rest
  length-print_cmp (cmp_one a) rest = length-print_add a rest
  length-print_cmp (cmp_two l s r) rest =
      omega (arith, length-print_add l (cmp s ∷ print_add r rest), length-print_add r rest)

  length-print_add :
      (o : Sum) (rest : List Token) → length (print_add o rest) ≡ size_add o + length rest
  length-print_add (add_one a) rest = length-print_mul a rest
  length-print_add (add_more l s r) rest =
      omega (arith, length-print_add l (add s ∷ print_mul r rest), length-print_mul r rest)

  length-print_mul :
      (o : Product) (rest : List Token) → length (print_mul o rest) ≡ size_mul o + length rest
  length-print_mul (mul_one a) rest = length-print_unary a rest
  length-print_mul (mul_more l s r) rest =
      omega
        (arith, length-print_mul l (mul_token s ∷ print_unary r rest), length-print_unary r rest)

  length-print_unary :
      (o : Signed) (rest : List Token) → length (print_unary o rest) ≡ size_unary o + length rest
  length-print_unary (negated s u) rest = omega (arith, length-print_unary u rest)
  length-print_unary (opposite u) rest = omega (arith, length-print_unary u rest)
  length-print_unary (atom p) rest = length-print_primary p rest

  length-print_primary :
      (o : Atom) (rest : List Token) → length (print_primary o rest) ≡ size_primary o + length rest
  length-print_primary (element s e) rest = omega (arith, length-print e (rbracket ∷ rest))
  length-print_primary (paren e) rest = omega (arith, length-print e (rparen ∷ rest))
  length-print_primary (literal s n) rest = omega arith
  length-print_primary _ rest = omega arith

-- The operators that a level's loop still has to read after its first operand.
unfoldable pub ops_or : Disj → ℕ
ops_or (or_one a) = 0
ops_or (or_more l s r) = suc (ops_or l)

unfoldable pub ops_and : Conj → ℕ
ops_and (and_one a) = 0
ops_and (and_more l s r) = suc (ops_and l)

unfoldable pub ops_add : Sum → ℕ
ops_add (add_one a) = 0
ops_add (add_more l s r) = suc (ops_add l)

unfoldable pub ops_mul : Product → ℕ
ops_mul (mul_one a) = 0
ops_mul (mul_more l s r) = suc (ops_mul l)

size_primary-pos : (p : Atom) → 0 < size_primary p
unfolding size
size_primary-pos (paren e) = omega arith
size_primary-pos _ = omega arith

size_unary-pos : (u : Signed) → 0 < size_unary u
unfolding size
size_unary-pos (negated s u) = omega arith
size_unary-pos (opposite u) = omega arith
size_unary-pos (atom p) = size_primary-pos p

pub ops_mul-lt-size : (o : Product) → ops_mul o < size_mul o
unfolding size ops_mul
ops_mul-lt-size (mul_one a) = size_unary-pos a
ops_mul-lt-size (mul_more l s r) = omega (arith, ops_mul-lt-size l)

pub ops_add-lt-size : (o : Sum) → ops_add o < size_add o
unfolding size ops_add
ops_add-lt-size (add_one a) = omega (arith, ops_mul-lt-size a)
ops_add-lt-size (add_more l s r) = omega (arith, ops_add-lt-size l)

size_cmp-pos : (c : Cmp) → 0 < size_cmp c
unfolding size
size_cmp-pos (cmp_one a) = omega (arith, ops_add-lt-size a)
size_cmp-pos (cmp_two l o r) = omega arith

pub ops_and-lt-size : (o : Conj) → ops_and o < size_and o
unfolding size ops_and
ops_and-lt-size (and_one a) = size_cmp-pos a
ops_and-lt-size (and_more l s r) = omega (arith, ops_and-lt-size l)

pub ops_or-lt-size : (o : Disj) → ops_or o < size_or o
unfolding size ops_or
ops_or-lt-size (or_one a) = omega (arith, ops_and-lt-size a)
ops_or-lt-size (or_more l s r) = omega (arith, ops_or-lt-size l)

mutual
  unfolding print not_token next_op is_if

  pub print_or-head : (o : Disj) (rest : List Token) → next_op is_if (print_or o rest) ≡ none
  print_or-head (or_one a) rest = print_and-head a rest
  print_or-head (or_more l s r) rest = print_or-head l _

  print_and-head : (o : Conj) (rest : List Token) → next_op is_if (print_and o rest) ≡ none
  print_and-head (and_one a) rest = print_cmp-head a rest
  print_and-head (and_more l s r) rest = print_and-head l _

  print_cmp-head : (o : Cmp) (rest : List Token) → next_op is_if (print_cmp o rest) ≡ none
  print_cmp-head (cmp_one a) rest = print_add-head a rest
  print_cmp-head (cmp_two l s r) rest = print_add-head l _

  print_add-head : (o : Sum) (rest : List Token) → next_op is_if (print_add o rest) ≡ none
  print_add-head (add_one a) rest = print_mul-head a rest
  print_add-head (add_more l s r) rest = print_add-head l _

  print_mul-head : (o : Product) (rest : List Token) → next_op is_if (print_mul o rest) ≡ none
  print_mul-head (mul_one a) rest = print_unary-head a rest
  print_mul-head (mul_more l s r) rest = print_mul-head l _

  print_unary-head : (o : Signed) (rest : List Token) → next_op is_if (print_unary o rest) ≡ none
  print_unary-head (negated wave u) rest = refl
  print_unary-head (negated mark u) rest = refl
  print_unary-head (negated worded u) rest = refl
  print_unary-head (opposite u) rest = refl
  print_unary-head (atom p) rest = print_primary-head p rest

  print_primary-head : (o : Atom) (rest : List Token) → next_op is_if (print_primary o rest) ≡ none
  print_primary-head (paren e) rest = refl
  print_primary-head _ rest = refl

-- How loosely the operator at the head binds; a sentence of a level is followed by no operator
-- that binds as tightly as its own.
unfoldable pub rank : Token → ℕ
rank lbracket = 6
rank (mul o) = 5
rank word_mod = 5
rank (add o) = 4
rank (cmp o) = 3
rank conj = 2
rank word_and = 2
rank disj = 1
rank word_or = 1
rank _ = 0

unfoldable pub head_rank : List Token → ℕ
unfolding rank
head_rank [] = 0
head_rank (t ∷ ts) = rank t

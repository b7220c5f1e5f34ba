-- ===== src/Expr/Grammar.antt =====
-- The grammar in the comment of pipeline/cocotb/spec_sim.py, as trees: what a sentence looks like
-- (`print`) and what it means (`denote`), written without the parser. A binary level leans to the
-- left. `Spelling` chooses between an operator's symbol and its word.
mod Measure
mod Levels
pub mod Parse
use agentic_rtl_engine.Prelude.{ℕ, ◌+◌, String, List, ◌∷◌}
use agentic_rtl_engine.Prelude.Result.{Result, ok, ◌>>=◌}
use agentic_rtl_engine.Expr.Value.{
  Value, num, AddOp, MulOp, CmpOp, or_values, and_values, compare_values, add_values, mul_values,
  not_value, neg_value, choose, index_value, minus, modulo,
}
use agentic_rtl_engine.Expr.Token.{
  Token, disj, conj, tilde, bang, cmp, add, mul, lbracket, rbracket, lparen, rparen, word_if,
  word_then, word_else, word_and, word_or, word_not, word_mod, word_true, word_false, number, name,
}
use agentic_rtl_engine.Expr.Interp.{Env, lookup}

pub data Spelling : Type 0 where
  symbol spelled : Spelling

pub data NotSign : Type 0 where
  wave mark worded : NotSign

pub data MulSign : Type 0 where
  sign : MulOp → MulSign
  mod_word : MulSign

mutual
  pub data Ex : Type 0 where
    ite : Ex → Ex → Ex → Ex
    plain : Disj → Ex

  pub data Disj : Type 0 where
    or_one : Conj → Disj
    or_more : Disj → Spelling → Conj → Disj

  pub data Conj : Type 0 where
    and_one : Cmp → Conj
    and_more : Conj → Spelling → Cmp → Conj

  pub data Cmp : Type 0 where
    cmp_one : Sum → Cmp
    cmp_two : Sum → CmpOp → Sum → Cmp

  pub data Sum : Type 0 where
    add_one : Product → Sum
    add_more : Sum → AddOp → Product → Sum

  pub data Product : Type 0 where
    mul_one : Signed → Product
    mul_more : Product → MulSign → Signed → Product

  pub data Signed : Type 0 where
    negated : NotSign → Signed → Signed
    opposite : Signed → Signed
    atom : Atom → Signed

  pub data Atom : Type 0 where
    literal : String → ℕ → Atom
    truth falsity : Atom
    variable : String → Atom
    element : String → Ex → Atom
    paren : Ex → Atom

unfoldable pub or_token : Spelling → Token
or_token symbol = disj
or_token spelled = word_or

unfoldable pub and_token : Spelling → Token
and_token symbol = conj
and_token spelled = word_and

unfoldable pub not_token : NotSign → Token
not_token wave = tilde
not_token mark = bang
not_token worded = word_not

unfoldable pub mul_token : MulSign → Token
mul_token (sign o) = mul o
mul_token mod_word = word_mod

unfoldable pub mul_sign_op : MulSign → MulOp
mul_sign_op (sign o) = o
mul_sign_op mod_word = modulo

-- The tokens of a sentence, in front of what follows it.
unfoldable mutual
  pub print : Ex → List Token → List Token
  print (ite c a b) rest = word_if ∷ print c (word_then ∷ print a (word_else ∷ print b rest))
  print (plain o) rest = print_or o rest

  pub print_or : Disj → List Token → List Token
  print_or (or_one a) rest = print_and a rest
  print_or (or_more l s r) rest = print_or l (or_token s ∷ print_and r rest)

  pub print_and : Conj → List Token → List Token
  print_and (and_one c) rest = print_cmp c rest
  print_and (and_more l s r) rest = print_and l (and_token s ∷ print_cmp r rest)

  pub print_cmp : Cmp → List Token → List Token
  print_cmp (cmp_one a) rest = print_add a rest
  print_cmp (cmp_two l o r) rest = print_add l (cmp o ∷ print_add r rest)

  pub print_add : Sum → List Token → List Token
  print_add (add_one m) rest = print_mul m rest
  print_add (add_more l o r) rest = print_add l (add o ∷ print_mul r rest)

  pub print_mul : Product → List Token → List Token
  print_mul (mul_one u) rest = print_unary u rest
  print_mul (mul_more l s r) rest = print_mul l (mul_token s ∷ print_unary r rest)

  pub print_unary : Signed → List Token → List Token
  print_unary (negated s u) rest = not_token s ∷ print_unary u rest
  print_unary (opposite u) rest = add minus ∷ print_unary u rest
  print_unary (atom p) rest = print_primary p rest

  pub print_primary : Atom → List Token → List Token
  print_primary (literal s n) rest = number s n ∷ rest
  print_primary truth rest = word_true ∷ rest
  print_primary falsity rest = word_false ∷ rest
  print_primary (variable s) rest = name s ∷ rest
  print_primary (element s e) rest = name s ∷ lbracket ∷ print e (rbracket ∷ rest)
  print_primary (paren e) rest = lparen ∷ print e (rparen ∷ rest)

-- The value of a sentence in a state: X, a number, or an exception of an ill-typed operation.
unfoldable mutual
  pub denote : Ex → Env → Result Value
  denote (ite c a b) st =
      denote c st >>= λ v. denote a st >>= λ w. denote b st >>= λ z. ok (choose v w z)
  denote (plain o) st = denote_or o st

  pub denote_or : Disj → Env → Result Value
  denote_or (or_one a) st = denote_and a st
  denote_or (or_more l s r) st = denote_or l st >>= λ v. denote_and r st >>= λ w. ok (or_values v w)

  pub denote_and : Conj → Env → Result Value
  denote_and (and_one c) st = denote_cmp c st
  denote_and (and_more l s r) st =
      denote_and l st >>= λ v. denote_cmp r st >>= λ w. ok (and_values v w)

  pub denote_cmp : Cmp → Env → Result Value
  denote_cmp (cmp_one a) st = denote_add a st
  denote_cmp (cmp_two l o r) st =
      denote_add l st >>= λ v. denote_add r st >>= λ w. compare_values o v w

  pub denote_add : Sum → Env → Result Value
  denote_add (add_one m) st = denote_mul m st
  denote_add (add_more l o r) st =
      denote_add l st >>= λ v. denote_mul r st >>= λ w. add_values o v w

  pub denote_mul : Product → Env → Result Value
  denote_mul (mul_one u) st = denote_unary u st
  denote_mul (mul_more l s r) st =
      denote_mul l st >>= λ v. denote_unary r st >>= λ w. mul_values (mul_sign_op s) v w

  pub denote_unary : Signed → Env → Result Value
  denote_unary (negated s u) st = denote_unary u st >>= λ v. ok (not_value v)
  denote_unary (opposite u) st = denote_unary u st >>= neg_value
  denote_unary (atom p) st = denote_primary p st

  pub denote_primary : Atom → Env → Result Value
  denote_primary (literal s n) st = ok (num n)
  denote_primary truth st = ok (num 1)
  denote_primary falsity st = ok (num 0)
  denote_primary (variable s) st = ok (lookup st s)
  denote_primary (element s e) st = denote e st >>= index_value (lookup st s)
  denote_primary (paren e) st = denote e st

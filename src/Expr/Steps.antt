-- ===== src/Expr/Steps.antt =====
-- One step of each loop and test of the parser, as equations on what `_peek` shows.
use agentic_rtl_engine.Prelude.{
  ℕ, suc, ◌≡◌, refl, Option, none, some, true, false, List, [], ◌∷◌, arith, ◌⊎◌,
}
use agentic_rtl_engine.Prelude.Result.{Result, ok, ◌>>=◌}
use agentic_rtl_engine.Expr.Value.{
  Value, or_values, and_values, compare_values, add_values, mul_values, not_value, neg_value,
  choose, index_value, CmpOp,
}
use agentic_rtl_engine.Expr.Token.{
  Token, text, unary_op, is_if, is_then, is_else, is_lbracket, is_rbracket, cmp_op, or_op, and_op,
  add_op, mul_op,
}
use agentic_rtl_engine.Expr.Interp.{
  Env, Parser, next_op, skip, chain, primary, unary, mul_level, add_level, cmp_level, and_level,
  or_level, expr, lookup,
}

module _ {A : Type 0} (sel : Token → Option A) (apply : A → Value → Value → Result Value)
    (operand : Parser) (f : ℕ) (v : Value) (ts : List Token) where
  pub chain_stop : next_op sel ts ≡ none → chain sel apply operand (suc f) v ts ≡ ok (v, ts)
  unfolding chain
  chain_stop e = rw (e, chain)

  pub chain_step :
      (o : A) (rest : List Token)
      → next_op sel ts ≡ some (o, rest)
      → chain sel apply operand (suc f) v ts
        ≡ (operand rest >>= λ (r, rest'). apply o v r >>= λ v'. chain sel apply operand f v' rest')
  unfolding chain
  chain_step o rest e = rw (e, chain)

pub next_op_yes :
    {A : Type 0} (sel : Token → Option A) (t : Token) (ts : List Token) (o : A)
    → sel t ≡ some o
    → next_op sel (t ∷ ts) ≡ some (o, ts)
unfolding next_op
next_op_yes sel t ts o e = rw (e, next_op)

module _ (sel : Token → Option (Unit {0})) (t : Token) (ts : List Token) where
  pub skip_yes : (u : Unit {0}) → sel t ≡ some u → skip sel (t ∷ ts) ≡ ts
  unfolding skip
  skip_yes u e = rw (e, skip, next_op)

  pub skip_no : sel t ≡ none → skip sel (t ∷ ts) ≡ t ∷ ts
  unfolding skip
  skip_no e = rw (e, skip, next_op)

module _ (E : Parser) (f : ℕ) (st : Env) where
  -- The end of `_cmp`, after its first operand.
  unfoldable pub cmp_tail : Value → Parser
  cmp_tail v rest = elim (next_op cmp_op rest) [
    | none ↦ ok (v, rest)
    | some (o, rest') ↦
        add_level E f st rest' >>= λ (r, rest''). compare_values o v r >>= λ v'. ok (v', rest'')
  ]

  pub cmp_level_lem :
      (ts : List Token)
      → cmp_level E f st ts ≡ (add_level E f st ts >>= λ (v, rest). cmp_tail v rest)
  unfolding cmp_level cmp_tail
  cmp_level_lem ts = refl

  pub cmp_tail_stop :
      (v : Value) (ts : List Token) → next_op cmp_op ts ≡ none → cmp_tail v ts ≡ ok (v, ts)
  unfolding cmp_tail
  cmp_tail_stop v ts e = rw (e, cmp_tail)

  pub cmp_tail_step :
      (v : Value) (ts : List Token) (o : CmpOp) (rest : List Token)
      → next_op cmp_op ts ≡ some (o, rest)
      → cmp_tail v ts
        ≡ (add_level E f st rest >>= λ (r, rest'). compare_values o v r >>= λ v'. ok (v', rest'))
  unfolding cmp_tail
  cmp_tail_step v ts o rest e = rw (e, cmp_tail)

module _ (E : Parser) (f : ℕ) (st : Env) (ts : List Token) where
  pub or_level_lem : or_level E f st ts ≡ (
      and_level E f st ts >>= λ (v, rest).
      chain or_op (λ _ a b. ok (or_values a b)) (and_level E f st) f v rest)
  unfolding or_level
  or_level_lem = refl

  pub and_level_lem : and_level E f st ts ≡ (
      cmp_level E f st ts >>= λ (v, rest).
      chain and_op (λ _ a b. ok (and_values a b)) (cmp_level E f st) f v rest)
  unfolding and_level
  and_level_lem = refl

  pub add_level_lem :
      add_level E f st ts
      ≡ (mul_level E f st ts >>= λ (v, rest). chain add_op add_values (mul_level E f st) f v rest)
  unfolding add_level
  add_level_lem = refl

  pub mul_level_lem :
      mul_level E f st ts
      ≡ (unary E st ts >>= λ (v, rest). chain mul_op mul_values (unary E st) f v rest)
  unfolding mul_level
  mul_level_lem = refl

module _ (f : ℕ) (st : Env) (ts : List Token) where
  pub expr_plain : next_op is_if ts ≡ none → expr (suc f) st ts ≡ or_level (expr f st) f st ts
  unfolding expr
  expr_plain e = rw (e, expr)

  pub expr_if :
      (u : Unit {0}) (rest : List Token)
      → next_op is_if ts ≡ some (u, rest)
      → expr (suc f) st ts ≡ (
          expr f st rest >>= λ (c, ts₂). expr f st (skip is_then ts₂) >>= λ (a, ts₃).
          expr f st (skip is_else ts₃) >>= λ (b, ts₄). ok (choose c a b, ts₄))
  unfolding expr
  expr_if u rest e = rw (e, expr)

pub unary_nil : (E : Parser) (st : Env) → unary E st [] ≡ primary E st []
unfolding unary
unary_nil E st = refl

pub unary_op-cases :
    (t : Token) → (unary_op t ≡ none) ⊎ (unary_op t ≡ some true) ⊎ (unary_op t ≡ some false)
unary_op-cases t = ground arith

module _ (E : Parser) (st : Env) (t : Token) (ts : List Token) where
  pub unary-none : unary_op t ≡ none → unary E st (t ∷ ts) ≡ primary E st (t ∷ ts)
  unfolding unary
  unary-none e = rw (e, unary)

  pub unary_not :
      unary_op t ≡ some true
      → unary E st (t ∷ ts) ≡ (unary E st ts >>= λ (v, rest). ok (not_value v, rest))
  unfolding unary
  unary_not e = rw (e, unary)

  pub unary_minus :
      unary_op t ≡ some false
      → unary E st (t ∷ ts) ≡ (unary E st ts >>= λ (v, rest). neg_value v >>= λ v'. ok (v', rest))
  unfolding unary
  unary_minus e = rw (e, unary)

module _ (E : Parser) (st : Env) (t : Token) where
  -- An identifier, or any token that stands where one is read: a name, or an indexed name.
  unfoldable pub name_tail : Parser
  name_tail rest = elim (next_op is_lbracket rest) [
    | none ↦ ok (lookup st (text t), rest)
    | some (_, inner) ↦ E inner >>= λ (i, rest').
        index_value (lookup st (text t)) i >>= λ v. ok (v, skip is_rbracket rest')
  ]

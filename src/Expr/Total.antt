-- ===== src/Expr/Total.antt =====
-- The fuel of the parser in Expr/Interp, against the number of its tokens.
mod Values
use agentic_rtl_engine.Prelude.{
  ℕ, zero, suc, ◌<◌, ◌≡◌, ◌≢◌, Option, none, some, Bool, List, [], ◌∷◌, length, ◌≤◌, ◌^◌, ◌==◌, ltb,
  arith, inl, inr, Option-cases, Bool-cases,
}
use native.Mathlib.Nat.{le_refl}
use agentic_rtl_engine.Prelude.Result.{Result, ok, raises, out_of_fuel, ◌>>=◌}
use agentic_rtl_engine.Expr.Value.{
  Value, x, num, arr, or_values, and_values, AddOp, MulOp, over, CmpOp, compare_lists, truth,
  compare_values, add_values, float_div, div_ints, mul_values, neg_value, index_value,
}
use agentic_rtl_engine.Expr.Steps.{
  chain_stop, chain_step, name_tail, unary_nil, unary-none, unary_not, unary_minus, unary_op-cases,
  cmp_tail, cmp_tail_stop, cmp_tail_step, cmp_level_lem, expr_plain, expr_if,
}
use agentic_rtl_engine.Expr.Token.{
  Token, lparen, number, word_true, word_false, cmp_op, or_op, and_op, add_op, mul_op, is_rparen,
  is_rbracket, is_lbracket, is_if, is_then, is_else,
}
use agentic_rtl_engine.Expr.Interp.{
  Env, Parser, next_op, skip, chain, primary, unary, mul_level, add_level, cmp_level, and_level,
  or_level, expr, eval_tokens,
}
use agentic_rtl_engine.Expr.Total.Values.{
  Fine, compare_values-Fine, add_values-Fine, mul_values-Fine, neg_value-Fine, index_value-Fine,
}

-- A parser's result that leaves fewer than `n` tokens.
abbrev pub Leaves : ℕ → Result (Value × List Token) → Type 0
Leaves n (ok (v, rest)) = length rest < n
Leaves n (raises e) = e ≢ out_of_fuel

-- On fewer than `n` tokens the parser takes at least one.
abbrev pub Takes : ℕ → Parser → Type 0
Takes n P = (ts : List Token) → length ts < n → Leaves (length ts) (P ts)

Leaves-bind :
    (k n : ℕ) (r : Result (Value × List Token))
    (g : Value → List Token → Result (Value × List Token))
    → Leaves k r
    → ((v : Value) (rest : List Token) → length rest < k → Leaves n (g v rest))
    → Leaves n (r >>= λ (v, rest). g v rest)
Leaves-bind k n (ok (v, rest)) g h step = step v rest h
Leaves-bind k n (raises e) g h step = h

Leaves-apply :
    (n : ℕ) (r : Result Value) (g : Value → Result (Value × List Token))
    → Fine r
    → ((v : Value) → Leaves n (g v))
    → Leaves n (r >>= g)
Leaves-apply n (ok v) g h step = step v
Leaves-apply n (raises e) g h step = h

Leaves-mono : (k n : ℕ) (r : Result (Value × List Token)) → k ≤ n → Leaves k r → Leaves n r
Leaves-mono k n (ok (v, rest)) le h = omega arith
Leaves-mono k n (raises e) le h = h

next_op-length :
    {A : Type 0} (sel : Token → Option A) (ts : List Token) (o : A) (rest : List Token)
    → next_op sel ts ≡ some (o, rest)
    → length rest < length ts
unfolding next_op
next_op-length sel [] o rest h = cc
next_op-length sel (t ∷ ts) o rest h = ground arith

skip-length :
    (sel : Token → Option (Unit {0})) (ts : List Token) → length (skip sel ts) < suc (length ts)
unfolding skip
skip-length sel [] = omega arith
skip-length sel (t ∷ ts) = elim (Option-cases (sel t)) [
  | inl e ↦ rw (e, skip, next_op) (omega arith)
  | inr (a, e) ↦ rw (e, skip, next_op) (omega arith)
]

chain-Leaves :
    {A : Type 0} (sel : Token → Option A) (apply : A → Value → Value → Result Value)
    (operand : Parser) (n f : ℕ) (v : Value) (ts : List Token)
    → Takes n operand
    → ((o : A) (a b : Value) → Fine (apply o a b))
    → length ts < f
    → length ts < n
    → Leaves (suc (length ts)) (chain sel apply operand f v ts)
unfolding chain
chain-Leaves sel apply operand n zero v ts take fine lf ln = elim lf [ ]
chain-Leaves sel apply operand n (suc f) v ts take fine lf ln =
    elim (Option-cases (next_op sel ts)) [
      | inl e ↦ rw (chain_stop sel apply operand f v ts e) (omega arith)
      | inr ((o, rest), e) ↦
          let p = next_op-length sel ts o rest e in
          rw (chain_step sel apply operand f v ts o rest e) (
            Leaves-bind (length rest) _ (operand rest) _ (take rest (omega arith)) (λ r rest' l.
              Leaves-apply _ (apply o v r) _ (fine o v r) (λ v'.
                Leaves-mono (suc (length rest')) _ _ (omega arith) (
                  chain-Leaves sel apply operand n f v' rest' take fine (omega arith)
                    (omega arith)))))
    ]

level-Takes :
    {A : Type 0} (sel : Token → Option A) (apply : A → Value → Value → Result Value)
    (operand : Parser) (n f : ℕ)
    → n ≤ suc f
    → Takes n operand
    → ((o : A) (a b : Value) → Fine (apply o a b))
    → Takes n (λ ts. operand ts >>= λ (v, rest). chain sel apply operand f v rest)
level-Takes sel apply operand n f nf take fine ts l =
    Leaves-bind (length ts) _ (operand ts) _ (take ts l) (λ v rest l'.
      Leaves-mono (suc (length rest)) _ _ (omega arith)
        (chain-Leaves sel apply operand n f v rest take fine (omega arith) (omega arith)))

module _ (n : ℕ) (E : Parser) (st : Env) (take : Takes n E) where
  name-Leaves :
      (t : Token) (ts : List Token) → length ts < n → Leaves (suc (length ts)) (name_tail E st t ts)
  unfolding name_tail
  name-Leaves t ts l = elim (Option-cases (next_op is_lbracket ts)) [
    | inl e ↦ rw (e, name_tail) (omega arith)
    | inr ((u, inner), e) ↦
        let p = next_op-length is_lbracket ts u inner e in
        rw (e, name_tail)
          (Leaves-bind (length inner) _ (E inner) _ (take inner (omega arith)) (λ i rest l'.
            Leaves-apply _ (index_value _ i) _ (index_value-Fine _ i)
              (λ v. omega (arith, skip-length is_rbracket rest))))
  ]

  primary-Takes : Takes (suc n) (primary E st)
  unfolding primary name_tail
  primary-Takes [] l = ground arith
  primary-Takes (lparen ∷ ts) l =
      Leaves-bind (length ts) _ (E ts) _ (take ts (omega arith))
        (λ v rest l'. omega (arith, skip-length is_rparen rest))
  primary-Takes (number s k ∷ ts) l = omega arith
  primary-Takes (word_true ∷ ts) l = omega arith
  primary-Takes (word_false ∷ ts) l = omega arith
  primary-Takes (t ∷ ts) l = name-Leaves t ts (omega arith)

  unary-Takes : Takes (suc n) (unary E st)
  unary-Takes [] l = rw (unary_nil E st) (primary-Takes [] l)
  unary-Takes (t ∷ ts) l = elim (unary_op-cases t) [
    | inl e ↦ rw (unary-none E st t ts e) (primary-Takes (t ∷ ts) l)
    | inr (inl e) ↦ rw (unary_not E st t ts e) (
        Leaves-bind (length ts) _ (unary E st ts) _ (unary-Takes ts (omega arith))
          (λ v rest l'. omega arith))
    | inr (inr e) ↦ rw (unary_minus E st t ts e) (
        Leaves-bind (length ts) _ (unary E st ts) _ (unary-Takes ts (omega arith))
          (λ v rest l'. Leaves-apply _ (neg_value v) _ (neg_value-Fine v) (λ v'. omega arith)))
  ]

module _ (f : ℕ) (E : Parser) (st : Env) (take : Takes f E) where
  mul_level-Takes : Takes (suc f) (mul_level E f st)
  unfolding mul_level
  mul_level-Takes =
      level-Takes mul_op mul_values (unary E st) (suc f) f (le_refl (suc f))
        (unary-Takes f E st take) mul_values-Fine

  add_level-Takes : Takes (suc f) (add_level E f st)
  unfolding add_level
  add_level-Takes =
      level-Takes add_op add_values (mul_level E f st) (suc f) f (le_refl (suc f)) mul_level-Takes
        add_values-Fine

  cmp_tail-Leaves :
      (v : Value) (ts : List Token)
      → length ts < suc f
      → Leaves (suc (length ts)) (cmp_tail E f st v ts)
  cmp_tail-Leaves v ts l = elim (Option-cases (next_op cmp_op ts)) [
    | inl e ↦ rw (cmp_tail_stop E f st v ts e) (omega arith)
    | inr ((o, rest), e) ↦
        let p = next_op-length cmp_op ts o rest e in
        rw (cmp_tail_step E f st v ts o rest e) (
          Leaves-bind (length rest) _ (add_level E f st rest) _ (add_level-Takes rest (omega arith))
            (λ r rest' l'.
              Leaves-apply _ (compare_values o v r) _ (compare_values-Fine o v r)
                (λ v'. omega arith)))
  ]

  cmp_level-Takes : Takes (suc f) (cmp_level E f st)
  cmp_level-Takes ts l = rw (cmp_level_lem E f st ts) (
      Leaves-bind (length ts) _ (add_level E f st ts) _ (add_level-Takes ts l) (λ v rest l'.
        Leaves-mono (suc (length rest)) _ _ (omega arith) (cmp_tail-Leaves v rest (omega arith))))

  or_level-Takes : Takes (suc f) (or_level E f st)
  unfolding or_level and_level
  or_level-Takes =
      level-Takes or_op (λ _ a b. ok (or_values a b)) (and_level E f st) (suc f) f (le_refl (suc f))
        (level-Takes and_op (λ _ a b. ok (and_values a b)) (cmp_level E f st) (suc f) f
          (le_refl (suc f)) cmp_level-Takes (λ _ _ _. tt))
        (λ _ _ _. tt)

-- On fewer tokens than its fuel, `expr` takes at least one token and never runs out of fuel.
pub expr-Takes : (f : ℕ) (st : Env) → Takes f (expr f st)
expr-Takes zero st ts l = elim l [ ]
expr-Takes (suc f) st ts l = elim (Option-cases (next_op is_if ts)) [
  | inl e ↦ rw (expr_plain f st ts e) (or_level-Takes f (expr f st) st (expr-Takes f st) ts l)
  | inr ((u, rest), e) ↦
      let p = next_op-length is_if ts u rest e in
      let take = expr-Takes f st in
      rw (expr_if f st ts u rest e) (
        Leaves-bind (length rest) _ (expr f st rest) _ (take rest (omega arith)) (λ c ts₂ l₂.
          let p₂ = skip-length is_then ts₂ in
          Leaves-bind (length (skip is_then ts₂)) _ (expr f st (skip is_then ts₂)) _
            (take (skip is_then ts₂) (omega arith))
            (λ a ts₃ l₃.
              let p₃ = skip-length is_else ts₃ in
              Leaves-bind (length (skip is_else ts₃)) _ (expr f st (skip is_else ts₃)) _
                (take (skip is_else ts₃) (omega arith)) (λ b ts₄ l₄. omega arith))))
]

value-Fine : (n : ℕ) (r : Result (Value × List Token)) → Leaves n r → Fine (r >>= λ (v, rest). ok v)
value-Fine n (ok (v, rest)) h = tt
value-Fine n (raises e) h = h

-- Whatever the tokens and the state, the evaluation of an expression ends: the interpreter returns
-- a value or raises an exception of Python, and never uses up its fuel.
pub eval_tokens_total : (st : Env) (ts : List Token) → eval_tokens st ts ≢ raises out_of_fuel
unfolding eval_tokens
eval_tokens_total st ts h =
    not-Fine (eval_tokens st ts) h
      (value-Fine (length ts) _ (expr-Takes (suc (length ts)) st ts (omega arith)))
  where
    not-Fine : (r : Result Value) → r ≡ raises out_of_fuel → Fine r → ⊥
    not-Fine (ok v) p q = cc
    not-Fine (raises e) p q = q (ground arith)

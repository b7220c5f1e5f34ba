-- ===== src/Expr/Interp.antt =====
-- pipeline/cocotb/spec_sim.py, `_Interp`: the recursive-descent evaluator. The parser's state is
-- the list of the tokens from `self.i` on, so `_peek` reads its head and `_take` drops it.
use agentic_rtl_engine.Prelude.{
  ℕ, zero, suc, String, Option, none, some, true, false, List, [], ◌∷◌, length,
}
use agentic_rtl_engine.Prelude.Result.{Result, ok, raises, index_error, out_of_fuel, ◌>>=◌}
use agentic_rtl_engine.Prelude.Dict.{Dict, get}
use agentic_rtl_engine.Expr.Value.{
  Value, x, num, or_values, and_values, compare_values, add_values, mul_values, not_value,
  neg_value, choose, index_value,
}
use agentic_rtl_engine.Expr.Token.{
  Token, text, lparen, number, word_true, word_false, or_op, and_op, cmp_op, add_op, mul_op,
  unary_op, is_if, is_then, is_else, is_rparen, is_rbracket, is_lbracket,
}

abbrev pub Env : Type 0
Env = Dict Value

abbrev pub Parser : Type 0
Parser = List Token → Result (Value × List Token)

-- `self.state.get(t)`: a name that is not there is X, as a stored `None` is.
unfoldable pub lookup : Env → String → Value
lookup st k = elim (get k st) [ none ↦ x | some v ↦ v ]

-- `if self._peek() in …: self._take()`
unfoldable pub next_op : {A : Type 0} → (Token → Option A) → List Token → Option (A × List Token)
next_op sel [] = none
next_op sel (t ∷ ts) = elim (sel t) [ none ↦ none | some o ↦ some (o, ts) ]

unfoldable pub skip : (Token → Option (Unit {0})) → List Token → List Token
unfolding next_op
skip sel ts = elim (next_op sel ts) [ none ↦ ts | some (_, rest) ↦ rest ]

-- The loop `while self._peek() in (…)` of `_or`, `_and`, `_add` and `_mul`: the operators of a
-- level are applied from left to right.
unfoldable pub chain :
    {A : Type 0}
    → (Token → Option A)
    → (A → Value → Value → Result Value)
    → Parser
    → ℕ
    → Value
    → Parser
unfolding next_op
chain sel apply operand zero v ts = raises out_of_fuel
chain sel apply operand (suc f) v ts = elim (next_op sel ts) [
  | none ↦ ok (v, ts)
  | some (o, rest) ↦
      operand rest >>= λ (r, rest'). apply o v r >>= λ v'. chain sel apply operand f v' rest'
]

-- `_primary`; `E` is the call of `self.expr`.
unfoldable pub primary : Parser → Env → Parser
unfolding skip lookup next_op
primary E st [] = raises index_error
primary E st (lparen ∷ ts) = E ts >>= λ (v, rest). ok (v, skip is_rparen rest)
primary E st (number s n ∷ ts) = ok (num n, ts)
primary E st (word_true ∷ ts) = ok (num 1, ts)
primary E st (word_false ∷ ts) = ok (num 0, ts)
primary E st (t ∷ ts) = elim (next_op is_lbracket ts) [
  | none ↦ ok (lookup st (text t), ts)
  | some (_, inner) ↦ E inner >>= λ (i, rest).
      index_value (lookup st (text t)) i >>= λ v. ok (v, skip is_rbracket rest)
]

unfoldable pub unary : Parser → Env → Parser
unfolding primary
unary E st [] = primary E st []
unary E st (t ∷ ts) = elim (unary_op t) [
  | none ↦ primary E st (t ∷ ts)
  | some true ↦ unary E st ts >>= λ (v, rest). ok (not_value v, rest)
  | some false ↦ unary E st ts >>= λ (v, rest). neg_value v >>= λ v'. ok (v', rest)
]

-- The levels of the grammar, over the call of `self.expr` and the fuel of their loops.
unfoldable pub mul_level : Parser → ℕ → Env → Parser
unfolding unary chain
mul_level E f st ts = unary E st ts >>= λ (v, rest). chain mul_op mul_values (unary E st) f v rest

unfoldable pub add_level : Parser → ℕ → Env → Parser
unfolding mul_level chain
add_level E f st ts =
    mul_level E f st ts >>= λ (v, rest). chain add_op add_values (mul_level E f st) f v rest

unfoldable pub cmp_level : Parser → ℕ → Env → Parser
unfolding add_level next_op
cmp_level E f st ts = add_level E f st ts >>= λ (v, rest). elim (next_op cmp_op rest) [
  | none ↦ ok (v, rest)
  | some (o, rest') ↦
      add_level E f st rest' >>= λ (r, rest''). compare_values o v r >>= λ v'. ok (v', rest'')
]

unfoldable pub and_level : Parser → ℕ → Env → Parser
unfolding cmp_level chain
and_level E f st ts = cmp_level E f st ts >>= λ (v, rest).
    chain and_op (λ _ a b. ok (and_values a b)) (cmp_level E f st) f v rest

unfoldable pub or_level : Parser → ℕ → Env → Parser
unfolding and_level chain
or_level E f st ts = and_level E f st ts >>= λ (v, rest).
    chain or_op (λ _ a b. ok (or_values a b)) (and_level E f st) f v rest

-- `expr`, on fuel.
unfoldable pub expr : ℕ → Env → Parser
unfolding or_level skip
expr zero st ts = raises out_of_fuel
expr (suc f) st ts = elim (next_op is_if ts) [
  | none ↦ or_level (expr f st) f st ts
  | some (_, ts₁) ↦ expr f st ts₁ >>= λ (c, ts₂). expr f st (skip is_then ts₂) >>= λ (a, ts₃).
      expr f st (skip is_else ts₃) >>= λ (b, ts₄). ok (choose c a b, ts₄)
]

-- `_Interp(toks, state).expr()`: what is left of the tokens is dropped.
unfoldable pub eval_tokens : Env → List Token → Result Value
unfolding expr
eval_tokens st ts = expr (suc (length ts)) st ts >>= λ (v, rest). ok v

-- ===== src/Expr/Grammar/Levels.antt =====
-- What one level of the parser does with a sentence of its level: its loop over the operators,
-- and the tokens at which the loop ends.
use agentic_rtl_engine.Prelude.{
  ℕ, suc, ◌<◌, ◌≡◌, refl, ◌∙◌, String, Option, none, some, true, List, [], ◌∷◌, arith,
}
use agentic_rtl_engine.Prelude.Result.{Result, ok, raises, ◌>>=◌, >>=-cong, >>=-assoc}
use agentic_rtl_engine.Expr.Value.{AddOp, CmpOp, Value, compare_values, choose, index_value}
use agentic_rtl_engine.Expr.Token.{
  Token, text, or_op, and_op, cmp_op, add_op, mul_op, unary_op, is_if, is_then, is_else,
  is_lbracket, is_rbracket, is_rparen, add, cmp, word_then, word_else, rparen, rbracket, lbracket,
  lparen, name, number, word_true, word_false, word_if,
}
use agentic_rtl_engine.Expr.Interp.{
  Env, Parser, next_op, skip, chain, lookup, primary, unary, add_level, expr,
}
use agentic_rtl_engine.Expr.Steps.{
  chain_stop, chain_step, next_op_yes, cmp_tail, cmp_tail_stop, cmp_tail_step, expr_if, unary-none,
}
use agentic_rtl_engine.Expr.Grammar.{
  Atom, literal, truth, falsity, variable, element, paren, print, print_primary, Spelling, symbol,
  spelled, NotSign, wave, mark, worded, MulSign, sign, mod_word, not_token, or_token, and_token,
  mul_token, mul_sign_op,
}
use agentic_rtl_engine.Expr.Grammar.Measure.{head_rank}

-- What a level's call gives for a sentence of value `m`, with `rest` after it.
abbrev pub Gives : Result (Value × List Token) → Result Value → List Token → Type 0
Gives r m rest = r ≡ (m >>= λ v. ok (v, rest))

module _ {A : Type 0} (sel : Token → Option A) (apply : A → Value → Value → Result Value)
    (operand : Parser) where
  -- The state of a level's loop: the sentence so far has value `m`, and the loop goes on.
  abbrev pub Loops : Result (Value × List Token) → Result Value → ℕ → List Token → Type 0
  Loops r m g rest = r ≡ (m >>= λ v. chain sel apply operand g v rest)

  pub loop_start :
      (r : Result (Value × List Token)) (m : Result Value) (f g : ℕ) (rest : List Token)
      → f ≡ g
      → Gives r m rest
      → Loops (r >>= λ (v, ts). chain sel apply operand f v ts) m g rest
  loop_start r m f g rest q h = rw (h, q) (>>=-assoc m _ _)

  pub loop_more :
      (r : Result (Value × List Token)) (m n : Result Value) (g : ℕ) (t : Token)
      (ts rest : List Token) (o : A)
      → sel t ≡ some o
      → Loops r m (suc g) (t ∷ ts)
      → Gives (operand ts) n rest
      → Loops r (m >>= λ v. n >>= λ w. apply o v w) g rest
  loop_more r (raises x) n g t ts rest o e h k = h
  loop_more r (ok v) (raises x) g t ts rest o e h k =
      h ∙ chain_step sel apply operand g v (t ∷ ts) o ts (next_op_yes sel t ts o e) ∙ (rw k)
  loop_more r (ok v) (ok w) g t ts rest o e h k =
      h ∙ chain_step sel apply operand g v (t ∷ ts) o ts (next_op_yes sel t ts o e) ∙ (rw k)

  pub loop_end :
      (r : Result (Value × List Token)) (m : Result Value) (g : ℕ) (rest : List Token)
      → next_op sel rest ≡ none
      → Loops r m (suc g) rest
      → Gives r m rest
  loop_end r m g rest e h = h ∙ >>=-cong m _ _ (λ v. chain_stop sel apply operand g v rest e)

-- No operator of a level follows, where what follows binds more loosely.
pub no_or : (ts : List Token) → head_rank ts < 1 → next_op or_op ts ≡ none
unfolding head_rank next_op or_op
no_or [] h = refl
no_or (t ∷ ts) h = ground arith

pub no_and : (ts : List Token) → head_rank ts < 2 → next_op and_op ts ≡ none
unfolding head_rank next_op and_op
no_and [] h = refl
no_and (t ∷ ts) h = ground arith

pub no_cmp : (ts : List Token) → head_rank ts < 3 → next_op cmp_op ts ≡ none
unfolding head_rank next_op cmp_op
no_cmp [] h = refl
no_cmp (t ∷ ts) h = ground arith

pub no_add : (ts : List Token) → head_rank ts < 4 → next_op add_op ts ≡ none
unfolding head_rank next_op add_op
no_add [] h = refl
no_add (t ∷ ts) h = ground arith

pub no_mul : (ts : List Token) → head_rank ts < 5 → next_op mul_op ts ≡ none
unfolding head_rank next_op mul_op
no_mul [] h = refl
no_mul (t ∷ ts) h = ground arith

pub no_bracket : (ts : List Token) → head_rank ts < 6 → next_op is_lbracket ts ≡ none
unfolding head_rank next_op is_lbracket
no_bracket [] h = refl
no_bracket (t ∷ ts) h = ground arith

pub atom_unary :
    (E : Parser) (st : Env) (p : Atom) (rest : List Token)
    → unary E st (print_primary p rest) ≡ primary E st (print_primary p rest)
unfolding print unary_op
atom_unary E st (paren e) rest = unary-none E st lparen _ refl
atom_unary E st (literal s n) rest = unary-none E st (number s n) _ refl
atom_unary E st truth rest = unary-none E st word_true _ refl
atom_unary E st falsity rest = unary-none E st word_false _ refl
atom_unary E st (variable s) rest = unary-none E st (name s) _ refl
atom_unary E st (element s e) rest = unary-none E st (name s) _ refl

pub or_sign : (s : Spelling) → or_op (or_token s) ≡ some tt
unfolding or_token or_op
or_sign symbol = refl
or_sign spelled = refl

pub and_sign : (s : Spelling) → and_op (and_token s) ≡ some tt
unfolding and_token and_op
and_sign symbol = refl
and_sign spelled = refl

pub mul_sign : (s : MulSign) → mul_op (mul_token s) ≡ some (mul_sign_op s)
unfolding mul_token mul_op mul_sign_op
mul_sign (sign o) = refl
mul_sign mod_word = refl

pub or_sign-rank : (s : Spelling) (ts : List Token) → head_rank (or_token s ∷ ts) < 2
unfolding or_token head_rank
or_sign-rank symbol ts = omega arith
or_sign-rank spelled ts = omega arith

pub and_sign-rank : (s : Spelling) (ts : List Token) → head_rank (and_token s ∷ ts) < 3
unfolding and_token head_rank
and_sign-rank symbol ts = omega arith
and_sign-rank spelled ts = omega arith

pub mul_sign-rank : (s : MulSign) (ts : List Token) → head_rank (mul_token s ∷ ts) < 6
unfolding mul_token head_rank
mul_sign-rank (sign o) ts = omega arith
mul_sign-rank mod_word ts = omega arith

pub add_sign-rank : (o : AddOp) (ts : List Token) → head_rank (add o ∷ ts) < 5
unfolding head_rank
add_sign-rank o ts = omega arith

pub cmp_sign-rank : (o : CmpOp) (ts : List Token) → head_rank (cmp o ∷ ts) < 4
unfolding head_rank
cmp_sign-rank o ts = omega arith

-- Closing words and brackets bind nothing.
pub closer-rank :
    (ts : List Token)
    → (head_rank (word_then ∷ ts) < 1)
      × (head_rank (word_else ∷ ts) < 1)
      × (head_rank (rparen ∷ ts) < 1)
      × (head_rank (rbracket ∷ ts) < 1)
unfolding head_rank
closer-rank ts = (omega arith, omega arith, omega arith, omega arith)

pub not_sign : (s : NotSign) → unary_op (not_token s) ≡ some true
unfolding not_token unary_op
not_sign wave = refl
not_sign mark = refl
not_sign worded = refl

-- What a call does with the value of its operand.
pub bind_pure :
    (r : Result (Value × List Token)) (m : Result Value) (rest : List Token)
    (g : Value → Result Value)
    → Gives r m rest
    → Gives (r >>= λ (v, ts). g v >>= λ v'. ok (v', ts)) (m >>= g) rest
bind_pure r (ok v) rest g h = rw h
bind_pure r (raises e) rest g h = rw h

module _ (E : Parser) (f : ℕ) (st : Env) where
  pub cmp_end :
      (r : Result (Value × List Token)) (m : Result Value) (rest : List Token)
      → next_op cmp_op rest ≡ none
      → Gives r m rest
      → Gives (r >>= λ (v, ts). cmp_tail E f st v ts) m rest
  cmp_end r (ok v) rest e h = rw h (cmp_tail_stop E f st v rest e)
  cmp_end r (raises x) rest e h = rw h

  pub cmp_more :
      (r : Result (Value × List Token)) (m n : Result Value) (o : CmpOp) (ts rest : List Token)
      → Gives r m (cmp o ∷ ts)
      → Gives (add_level E f st ts) n rest
      → Gives
          (r >>= λ (v, ts'). cmp_tail E f st v ts')
          (m >>= λ v. n >>= λ w. compare_values o v w)
          rest
  unfolding cmp_op
  cmp_more r (raises x) n o ts rest h k = rw h
  cmp_more r (ok v) n o ts rest h k = rw h (
      cmp_tail_step E f st v (cmp o ∷ ts) o ts (next_op_yes cmp_op (cmp o) ts o refl)
      ∙ second n (rw k))
    where
      second :
          (n : Result Value) {r : Result (Value × List Token)}
          → r ≡ (
              (n >>= λ w. ok (w, rest)) >>= λ (w, ts'). compare_values o v w >>= λ v'. ok (v', ts'))
          → r ≡ ((n >>= λ w. compare_values o v w) >>= λ v'. ok (v', rest))
      second (ok w) p = p
      second (raises x) p = p

module _ (E : Parser) (st : Env) where
  pub name_plain :
      (s : String) (rest : List Token)
      → next_op is_lbracket rest ≡ none
      → Gives (primary E st (name s ∷ rest)) (ok (lookup st s)) rest
  unfolding primary text
  name_plain s rest e = rw (e, primary)

  pub name_indexed :
      (s : String) (ts : List Token) (m : Result Value) (rest : List Token)
      → Gives (E ts) m (rbracket ∷ rest)
      → Gives (primary E st (name s ∷ lbracket ∷ ts)) (m >>= index_value (lookup st s)) rest
  unfolding primary is_lbracket is_rbracket text
  name_indexed s ts (ok v) rest h = rw h
  name_indexed s ts (raises x) rest h = rw h

  pub parenthesis :
      (ts : List Token) (m : Result Value) (rest : List Token)
      → Gives (E ts) m (rparen ∷ rest)
      → Gives (primary E st (lparen ∷ ts)) m rest
  unfolding primary is_rparen
  parenthesis ts (ok v) rest h = rw h
  parenthesis ts (raises x) rest h = rw h

pub conditional :
    (f : ℕ) (st : Env) (cs us ts rest : List Token) (c a b : Result Value)
    → Gives (expr f st cs) c (word_then ∷ us)
    → Gives (expr f st us) a (word_else ∷ ts)
    → Gives (expr f st ts) b rest
    → Gives
        (expr (suc f) st (word_if ∷ cs))
        (c >>= λ v. a >>= λ w. b >>= λ z. ok (choose v w z))
        rest
unfolding skip is_if is_then is_else
conditional f st cs us ts rest (raises x) a b hc ha hb =
    expr_if f st (word_if ∷ cs) tt cs refl ∙ (rw hc)
conditional f st cs us ts rest (ok v) (raises x) b hc ha hb =
    expr_if f st (word_if ∷ cs) tt cs refl ∙ (rw (hc, ha))
conditional f st cs us ts rest (ok v) (ok w) (raises x) hc ha hb =
    expr_if f st (word_if ∷ cs) tt cs refl ∙ (rw (hc, ha, hb))
conditional f st cs us ts rest (ok v) (ok w) (ok z) hc ha hb =
    expr_if f st (word_if ∷ cs) tt cs refl ∙ (rw (hc, ha, hb))

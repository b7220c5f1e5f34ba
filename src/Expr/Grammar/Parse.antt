-- ===== src/Expr/Grammar/Parse.antt =====
-- The interpreter evaluates every sentence of the grammar to its denotation: precedence, left
-- association, the propagation of X and of exceptions, and the extent of IF THEN ELSE.
use agentic_rtl_engine.Prelude.{
  ℕ, zero, suc, ◌+◌, ◌-◌, ◌≤◌, ◌<◌, ◌≡◌, refl, ◌∙◌, List, [], ◌∷◌, length, arith,
}
use agentic_rtl_engine.Prelude.Result.{Result, ok, raises, ◌>>=◌, >>=-assoc}
use agentic_rtl_engine.Expr.Value.{
  minus, Value, or_values, and_values, add_values, mul_values, not_value, neg_value,
}
use agentic_rtl_engine.Expr.Token.{
  Token, unary_op, or_op, and_op, add_op, mul_op, add, cmp, word_then, word_else, rparen, rbracket,
}
use agentic_rtl_engine.Expr.Interp.{
  Env, primary, unary, mul_level, add_level, cmp_level, and_level, or_level, expr, eval_tokens,
}
use agentic_rtl_engine.Expr.Steps.{
  cmp_level_lem, or_level_lem, and_level_lem, add_level_lem, mul_level_lem, expr_plain, unary_not,
  unary_minus,
}
use agentic_rtl_engine.Expr.Grammar.{
  Ex, ite, plain, Disj, or_one, or_more, Conj, and_one, and_more, Cmp, cmp_one, cmp_two, Sum,
  add_one, add_more, Product, mul_one, mul_more, Signed, negated, opposite, atom, Atom, literal,
  truth, falsity, variable, element, paren, print, print_or, print_and, print_cmp, print_add,
  print_mul, print_unary, print_primary, not_token, or_token, and_token, mul_token, mul_sign_op,
  denote, denote_or, denote_and, denote_cmp, denote_add, denote_mul, denote_unary, denote_primary,
}
use agentic_rtl_engine.Expr.Grammar.Measure.{
  size, size_or, size_and, size_cmp, size_add, size_mul, size_unary, size_primary, length-print,
  ops_or, ops_and, ops_add, ops_mul, ops_or-lt-size, ops_and-lt-size, ops_add-lt-size,
  ops_mul-lt-size, print_or-head, head_rank,
}
use agentic_rtl_engine.Expr.Grammar.Levels.{
  Gives, Loops, loop_start, loop_more, loop_end, no_or, no_and, no_cmp, no_add, no_mul, no_bracket,
  atom_unary, or_sign, and_sign, mul_sign, or_sign-rank, and_sign-rank, mul_sign-rank,
  add_sign-rank, cmp_sign-rank, closer-rank, not_sign, bind_pure, cmp_end, cmp_more, name_plain,
  name_indexed, parenthesis, conditional,
}

mutual
  unfolding size print denote ops_or ops_and ops_add ops_mul add_op unary_op primary

  or_lem :
      (o : Disj) (f g : ℕ) (st : Env) (rest : List Token)
      → size_or o ≤ f
      → f ≡ g + ops_or o
      → head_rank rest < 2
      → Loops or_op
          (λ _ a b. ok (or_values a b))
          (and_level (expr f st) f st)
          (or_level (expr f st) f st (print_or o rest))
          (denote_or o st)
          g
          rest
  or_lem (or_one a) f g st rest le e h =
      let k = f - ops_and a - 1 in
      let lt = ops_and-lt-size a in
      rw (or_level_lem (expr f st) f st (print_and a rest)) (
        loop_start _ _ _ _ (denote_and a st) f g rest (omega arith) (
          loop_end and_op _ _ _ (denote_and a st) k rest (no_and rest h)
            (and_lem a f (suc k) st rest le (omega arith) (omega arith))))
  or_lem (or_more l s r) f g st rest le e h =
      let k = f - ops_and r - 1 in
      let lt = ops_and-lt-size r in
      let ts = print_and r rest in
      loop_more or_op _ _ _ (denote_or l st) (denote_and r st) g (or_token s) ts rest tt (or_sign s)
        (or_lem l f (suc g) st (or_token s ∷ ts) (omega arith) (omega arith) (or_sign-rank s ts))
        (loop_end and_op _ _ _ (denote_and r st) k rest (no_and rest h)
          (and_lem r f (suc k) st rest (omega arith) (omega arith) (omega arith)))

  and_lem :
      (o : Conj) (f g : ℕ) (st : Env) (rest : List Token)
      → size_and o ≤ f
      → f ≡ g + ops_and o
      → head_rank rest < 3
      → Loops and_op
          (λ _ a b. ok (and_values a b))
          (cmp_level (expr f st) f st)
          (and_level (expr f st) f st (print_and o rest))
          (denote_and o st)
          g
          rest
  and_lem (and_one a) f g st rest le e h =
      rw (and_level_lem (expr f st) f st (print_cmp a rest))
        (loop_start _ _ _ _ (denote_cmp a st) f g rest (omega arith) (cmp_lem a f st rest le h))
  and_lem (and_more l s r) f g st rest le e h =
      let ts = print_cmp r rest in
      loop_more and_op _ _ _ (denote_and l st) (denote_cmp r st) g (and_token s) ts rest tt
        (and_sign s)
        (and_lem l f (suc g) st (and_token s ∷ ts) (omega arith) (omega arith) (and_sign-rank s ts))
        (cmp_lem r f st rest (omega arith) h)

  cmp_lem :
      (c : Cmp) (f : ℕ) (st : Env) (rest : List Token)
      → size_cmp c ≤ f
      → head_rank rest < 3
      → Gives (cmp_level (expr f st) f st (print_cmp c rest)) (denote_cmp c st) rest
  cmp_lem (cmp_one a) f st rest le h =
      let k = f - ops_add a - 1 in
      let lt = ops_add-lt-size a in
      rw (cmp_level_lem (expr f st) f st (print_add a rest)) (
        cmp_end (expr f st) f st _ (denote_add a st) rest (no_cmp rest h) (
          loop_end add_op _ _ _ (denote_add a st) k rest (no_add rest (omega arith))
            (add_lem a f (suc k) st rest le (omega arith) (omega arith))))
  cmp_lem (cmp_two l o r) f st rest le h =
      let k = f - ops_add l - 1 in
      let k' = f - ops_add r - 1 in
      let lt = ops_add-lt-size l in
      let lt' = ops_add-lt-size r in
      let ts = print_add r rest in
      let cr = cmp_sign-rank o ts in
      rw (cmp_level_lem (expr f st) f st (print_add l (cmp o ∷ ts))) (
        cmp_more (expr f st) f st _ (denote_add l st) (denote_add r st) o ts rest
          (loop_end add_op _ _ _ (denote_add l st) k (cmp o ∷ ts) (no_add (cmp o ∷ ts) cr)
            (add_lem l f (suc k) st (cmp o ∷ ts) (omega arith) (omega arith) (omega arith)))
          (loop_end add_op _ _ _ (denote_add r st) k' rest (no_add rest (omega arith))
            (add_lem r f (suc k') st rest (omega arith) (omega arith) (omega arith))))

  add_lem :
      (o : Sum) (f g : ℕ) (st : Env) (rest : List Token)
      → size_add o ≤ f
      → f ≡ g + ops_add o
      → head_rank rest < 5
      → Loops add_op add_values
          (mul_level (expr f st) f st)
          (add_level (expr f st) f st (print_add o rest))
          (denote_add o st)
          g
          rest
  add_lem (add_one a) f g st rest le e h =
      let k = f - ops_mul a - 1 in
      let lt = ops_mul-lt-size a in
      rw (add_level_lem (expr f st) f st (print_mul a rest)) (
        loop_start _ _ _ _ (denote_mul a st) f g rest (omega arith) (
          loop_end mul_op _ _ _ (denote_mul a st) k rest (no_mul rest h)
            (mul_lem a f (suc k) st rest le (omega arith) (omega arith))))
  add_lem (add_more l o r) f g st rest le e h =
      let k = f - ops_mul r - 1 in
      let lt = ops_mul-lt-size r in
      let ts = print_mul r rest in
      loop_more add_op _ _ _ (denote_add l st) (denote_mul r st) g (add o) ts rest o refl
        (add_lem l f (suc g) st (add o ∷ ts) (omega arith) (omega arith) (add_sign-rank o ts))
        (loop_end mul_op _ _ _ (denote_mul r st) k rest (no_mul rest h)
          (mul_lem r f (suc k) st rest (omega arith) (omega arith) (omega arith)))

  mul_lem :
      (o : Product) (f g : ℕ) (st : Env) (rest : List Token)
      → size_mul o ≤ f
      → f ≡ g + ops_mul o
      → head_rank rest < 6
      → Loops mul_op mul_values
          (unary (expr f st) st)
          (mul_level (expr f st) f st (print_mul o rest))
          (denote_mul o st)
          g
          rest
  mul_lem (mul_one a) f g st rest le e h =
      rw (mul_level_lem (expr f st) f st (print_unary a rest))
        (loop_start _ _ _ _ (denote_unary a st) f g rest (omega arith) (unary_lem a f st rest le h))
  mul_lem (mul_more l s r) f g st rest le e h =
      let ts = print_unary r rest in
      loop_more mul_op _ _ _ (denote_mul l st) (denote_unary r st) g (mul_token s) ts rest
        (mul_sign_op s) (mul_sign s)
        (mul_lem l f (suc g) st (mul_token s ∷ ts) (omega arith) (omega arith) (mul_sign-rank s ts))
        (unary_lem r f st rest (omega arith) h)

  unary_lem :
      (u : Signed) (f : ℕ) (st : Env) (rest : List Token)
      → size_unary u ≤ f
      → head_rank rest < 6
      → Gives (unary (expr f st) st (print_unary u rest)) (denote_unary u st) rest
  unary_lem (negated s u) f st rest le h =
      rw (unary_not (expr f st) st (not_token s) (print_unary u rest) (not_sign s)) (
        bind_pure (unary (expr f st) st (print_unary u rest)) (denote_unary u st) rest
          (λ v. ok (not_value v)) (unary_lem u f st rest (omega arith) h))
  unary_lem (opposite u) f st rest le h =
      rw (unary_minus (expr f st) st (add minus) (print_unary u rest) refl) (
        bind_pure (unary (expr f st) st (print_unary u rest)) (denote_unary u st) rest neg_value
          (unary_lem u f st rest (omega arith) h))
  unary_lem (atom p) f st rest le h =
      rw (atom_unary (expr f st) st p rest) (primary_lem p f st rest le h)

  primary_lem :
      (p : Atom) (f : ℕ) (st : Env) (rest : List Token)
      → size_primary p ≤ f
      → head_rank rest < 6
      → Gives (primary (expr f st) st (print_primary p rest)) (denote_primary p st) rest
  primary_lem (literal s n) f st rest le h = refl
  primary_lem truth f st rest le h = refl
  primary_lem falsity f st rest le h = refl
  primary_lem (variable s) f st rest le h = name_plain (expr f st) st s rest (no_bracket rest h)
  primary_lem (element s e) f st rest le h =
      name_indexed (expr f st) st s (print e (rbracket ∷ rest)) (denote e st) rest
        (expr_lem e f st (rbracket ∷ rest) (omega arith) ((closer-rank rest).3))
  primary_lem (paren e) f st rest le h =
      parenthesis (expr f st) st (print e (rparen ∷ rest)) (denote e st) rest
        (expr_lem e f st (rparen ∷ rest) (omega arith) ((closer-rank rest).2))

  expr_lem :
      (e : Ex) (f : ℕ) (st : Env) (rest : List Token)
      → size e < f
      → head_rank rest < 1
      → Gives (expr f st (print e rest)) (denote e st) rest
  expr_lem (plain o) zero st rest le h = elim le [ ]
  expr_lem (ite c a b) zero st rest le h = elim le [ ]
  expr_lem (plain o) (suc f) st rest le h =
      let k = f - ops_or o - 1 in
      let lt = ops_or-lt-size o in
      rw (expr_plain f st (print_or o rest) (print_or-head o rest)) (
        loop_end or_op _ _ _ (denote_or o st) k rest (no_or rest h)
          (or_lem o f (suc k) st rest (omega arith) (omega arith) (omega arith)))
  expr_lem (ite c a b) (suc f) st rest le h =
      let ts = print b rest in
      let us = print a (word_else ∷ ts) in
      conditional f st (print c (word_then ∷ us)) us ts rest (denote c st) (denote a st)
        (denote b st) (expr_lem c f st (word_then ∷ us) (omega arith) ((closer-rank us).0))
        (expr_lem a f st (word_else ∷ ts) (omega arith) ((closer-rank ts).1))
        (expr_lem b f st rest (omega arith) h)

-- A sentence of the grammar in the module's comment is evaluated to its meaning: operators of one
-- level from left to right, the levels by their precedence, a chosen branch with both branches
-- evaluated, X and exceptions passed on.
pub eval_tokens-print : (e : Ex) (st : Env) → eval_tokens st (print e []) ≡ denote e st
unfolding eval_tokens head_rank
eval_tokens-print e st =
    let n = length-print e [] in
    rw (expr_lem e (suc (length (print e []))) st [] (omega arith) (omega arith))
      (>>=-assoc (denote e st) (λ v. ok (v, [])) (λ (v, rest). ok v) ∙ ok_last (denote e st))
  where
    ok_last : (m : Result Value) → (m >>= λ v. ok v) ≡ m
    ok_last (ok v) = refl
    ok_last (raises x) = refl

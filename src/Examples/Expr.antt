-- ===== src/Examples/Expr.antt =====
-- Expressions of the size that the refinement's obligations have.
use agentic_rtl_engine.Prelude.{◌≡◌, ◌≢◌, refl, [], ◌∷◌}
use agentic_rtl_engine.Prelude.Result.{ok, raises, out_of_fuel}
use agentic_rtl_engine.Expr.Value.{x, num, plus, minus, times, gt}
use agentic_rtl_engine.Expr.Token.{lparen, add, number, name, word}
use agentic_rtl_engine.Expr.Interp.{Env, eval_tokens}
use agentic_rtl_engine.Expr.Total.{eval_tokens_total}
use agentic_rtl_engine.Expr.Grammar.{
  Ex, ite, plain, or_one, and_one, cmp_one, cmp_two, Sum, add_one, add_more, Product, mul_one,
  mul_more, sign, atom, Atom, literal, variable, print, denote, mul_token,
}
use agentic_rtl_engine.Expr.Grammar.Parse.{eval_tokens-print}
use agentic_rtl_engine.Expr.Lexer.{to_int, tokenize, eval}
use agentic_rtl_engine.Expr.Lexer.Unlex.{unlex, tokenize-unlex, eval-unlex-print}

abbrev state : Env
state = ("k", num 3) ∷ ("a", num 5) ∷ ("d", x) ∷ []

abbrev factor : Atom → Product
factor t = mul_one (atom t)

abbrev sum : Sum → Ex
sum s = plain (or_one (and_one (cmp_one s)))

-- IF k > 0 THEN a - k - 1 ELSE 2 * a
abbrev sentence : Ex
sentence =
    ite
      (plain (
        or_one (
          and_one
            (cmp_two (add_one (factor (variable "k"))) gt (add_one (factor (literal "0" 0)))))))
      (sum (
        add_more (add_more (add_one (factor (variable "a"))) minus (factor (variable "k"))) minus
          (factor (literal "1" 1))))
      (sum (add_one (mul_more (factor (literal "2" 2)) (sign times) (atom (variable "a")))))

eval_leans_left : eval state "a - k - 1" ≡ ok (num 1)
unfolding eval
eval_leans_left = refl

eval_precedence : eval state "IF k > 0 /\\ ~(a = 4) THEN a + 2 * k ELSE d" ≡ ok (num 11)
unfolding eval
eval_precedence = refl

eval_unknown : eval state "d AND FALSE" ≡ ok x
unfolding eval
eval_unknown = refl

eval-unlex-print_example : eval state (unlex (print sentence [])) ≡ denote sentence state
unfolding print tokenize unlex word to_int mul_token
eval-unlex-print_example = eval-unlex-print sentence state (
  tt,
  (
    ((refl, tt), refl),
    (
      tt,
      (
        ((refl, tt), refl),
        (
          tt,
          (
            ((refl, tt), refl),
            (
              tt,
              (
                ((refl, tt), refl),
                (
                  tt,
                  (((refl, tt), refl), (tt, (((refl, tt), refl), (tt, (((refl, tt), refl), tt))))),
                ),
              ),
            ),
          ),
        ),
      ),
    ),
  ),
)

eval_tokens-print_example : eval_tokens state (print sentence []) ≡ denote sentence state
eval_tokens-print_example = eval_tokens-print sentence state

eval_tokens_total_example :
    eval_tokens state (lparen ∷ name "a" ∷ add plus ∷ []) ≢ raises out_of_fuel
eval_tokens_total_example = eval_tokens_total state (lparen ∷ name "a" ∷ add plus ∷ [])

tokenize-unlex_example :
    tokenize (unlex (name "a" ∷ add minus ∷ number "12" 12 ∷ []))
    ≡ name "a" ∷ add minus ∷ number "12" 12 ∷ []
unfolding word to_int
tokenize-unlex_example =
    tokenize-unlex (name "a" ∷ add minus ∷ number "12" 12 ∷ [])
      (((refl, tt), refl), (tt, (((refl, (refl, tt)), refl), tt)))

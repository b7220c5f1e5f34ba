-- ===== src/Expr/Lexer.antt =====
-- pipeline/cocotb/spec_sim.py, `_TOKEN_RE`, `_tokenize` and `_eval`: the text of an expression,
-- over ASCII characters.
pub mod Unlex
use Prim.Native.Char.{Char, code}
use agentic_rtl_engine.Prelude.{
  ℕ, zero, suc, ◌+◌, ◌-◌, ◌*◌, String, Bool, true, false, ◌||◌, ◌&&◌, Option, none, some, List, [],
  ◌∷◌, leb, ◌==◌, if◌then◌else◌,
}
use agentic_rtl_engine.Prelude.Result.{Result, ok}
use agentic_rtl_engine.Prelude.Dict.{get}
use agentic_rtl_engine.Expr.Value.{
  or_values, and_values, compare_values, add_values, mul_values, not_value, neg_value, choose,
  index_value, Value, x, plus, minus, times, over, modulo, eq, ne, le, ge, lt, gt,
}
use agentic_rtl_engine.Expr.Token.{
  Token, disj, conj, tilde, bang, cmp, add, mul, lbracket, rbracket, lparen, rparen, number, word,
  text, or_op, and_op, cmp_op, add_op, mul_op, unary_op, is_if, is_then, is_else, is_rparen,
  is_rbracket, is_lbracket,
}
use agentic_rtl_engine.Expr.Interp.{Env, eval_tokens}

-- `\d`, `[A-Za-z_]` and `\w`.
abbrev pub is_digit : ℕ → Bool
is_digit c = leb 48 c && leb c 57

abbrev pub is_letter : ℕ → Bool
is_letter c = (leb 65 c && leb c 90) || (leb 97 c && leb c 122) || (c == 95)

abbrev pub is_word : ℕ → Bool
is_word c = is_letter c || is_digit c

-- The longest prefix whose characters pass the test, and the rest.
unfoldable pub span : (ℕ → Bool) → String → String × String
span p String.[] = (String.[], String.[])
span p (String.◌∷◌ c s) =
    let found = span p s in
    if p (code c) then (String.◌∷◌ c found.0, found.1) else (String.[], String.◌∷◌ c s)

-- `int` of a run of digits.
unfoldable pub to_int : ℕ → String → ℕ
to_int n String.[] = n
to_int n (String.◌∷◌ c s) = to_int (n * 10 + (code c - 48)) s

-- The text behind a first character `d`.
unfoldable pub begins : ℕ → String → Option String
begins d String.[] = none
begins d (String.◌∷◌ c s) = if code c == d then some s else none

-- The longer token `t`, if `d` follows, else the shorter match.
unfoldable pub longer : ℕ → Token → Option (Token × String) → String → Option (Token × String)
unfolding begins
longer d t shorter s = elim (begins d s) [ none ↦ shorter | some r ↦ some (t, r) ]

unfoldable pub symbol_at : ℕ → String → Option (Token × String)
unfolding longer
symbol_at c s =
    if c == b'/'
    then longer 92 conj (longer b'=' (cmp ne) (some (mul over, s)) s) s
    else if c == 92
    then longer b'/' disj none s
    else if c == b'<'
    then longer b'=' (cmp le) (some (cmp lt, s)) s
    else if c == b'>'
    then longer b'=' (cmp ge) (some (cmp gt, s)) s
    else if c == b'='
    then some (cmp eq, s)
    else if c == b'-'
    then some (add minus, s)
    else if c == b'+'
    then some (add plus, s)
    else if c == b'*'
    then some (mul times, s)
    else if c == b'%'
    then some (mul modulo, s)
    else if c == b'~'
    then some (tilde, s)
    else if c == b'!'
    then some (bang, s)
    else if c == b'['
    then some (lbracket, s)
    else if c == b']'
    then some (rbracket, s)
    else if c == b'('
    then some (lparen, s)
    else if c == b')'
    then some (rparen, s)
    else none

-- The token that the regular expression matches at a character, with the text after it. `none`
-- is white space, the prime (a token that is dropped) and any character that begins no token.
unfoldable pub token_at : Char → String → Option (Token × String)
unfolding span to_int symbol_at word
token_at c s =
    let run = span is_digit s in
    let letters = span is_word s in
    if is_digit (code c)
    then some (number (String.◌∷◌ c run.0) (to_int 0 (String.◌∷◌ c run.0)), run.1)
    else if is_letter (code c)
    then some (word (String.◌∷◌ c letters.0), letters.1)
    else symbol_at (code c) s

-- The loop of `_tokenize`, on fuel: it goes on behind the match, or one character further.
unfoldable pub tokenize_from : ℕ → String → List Token
tokenize_from zero s = []
tokenize_from (suc f) String.[] = []
tokenize_from (suc f) (String.◌∷◌ c s) = elim (token_at c s) [
  | none ↦ tokenize_from f s
  | some (t, rest) ↦ t ∷ tokenize_from f rest
]

unfoldable pub char_count : String → ℕ
char_count String.[] = 0
char_count (String.◌∷◌ c s) = suc (char_count s)

unfoldable pub tokenize : String → List Token
unfolding tokenize_from token_at char_count
tokenize s = tokenize_from (char_count s) s

-- `_eval(expr, state)`; the expression `None` is X.
unfoldable pub eval : Env → String → Result Value
unfolding tokenize eval_tokens text or_op and_op cmp_op add_op mul_op unary_op is_if is_then is_else
    is_rparen is_rbracket is_lbracket or_values and_values compare_values add_values mul_values
    not_value neg_value choose index_value get
eval st s = eval_tokens st (tokenize s)

unfoldable pub eval_optional : Env → Option String → Result Value
unfolding eval
eval_optional st none = ok x
eval_optional st (some s) = eval st s

-- ===== src/Expr/Lexer/Unlex.antt =====
-- Tokens written out, each with a space behind it, are read back by `_tokenize`.
use Prim.Native.Char.{Char, code}
use agentic_rtl_engine.Prelude.{
  ℕ, zero, suc, ◌+◌, ◌≤◌, ◌<◌, ◌≡◌, refl, ap, ◌∙◌, String, Bool, true, false, some, List, [], ◌∷◌,
  All, arith,
}
use agentic_rtl_engine.Expr.Value.{eq, ne, le, ge, lt, gt, plus, minus, times, over, modulo}
use agentic_rtl_engine.Expr.Token.{Token, cmp, add, mul, number, name, text, word}
use agentic_rtl_engine.Expr.Interp.{Env, eval_tokens}
use agentic_rtl_engine.Expr.Grammar.{Ex, print, denote}
use agentic_rtl_engine.Expr.Grammar.Parse.{eval_tokens-print}
use agentic_rtl_engine.Expr.Lexer.{
  is_digit, is_letter, is_word, span, to_int, token_at, tokenize_from, char_count, tokenize, eval,
}

abbrev pub Chars : (ℕ → Bool) → String → Type 0
Chars p String.[] = Unit
Chars p (String.◌∷◌ c s) = (p (code c) ≡ true) × Chars p s

-- The spellings that the lexer makes such a token of.
abbrev pub IsDigits : String → Type 0
IsDigits String.[] = ⊥
IsDigits (String.◌∷◌ c s) = Chars is_digit (String.◌∷◌ c s)

abbrev pub IsIdent : String → Type 0
IsIdent String.[] = ⊥
IsIdent (String.◌∷◌ c s) = (is_letter (code c) ≡ true) × Chars is_word s

abbrev pub IsLexed : Token → Type 0
IsLexed (number s n) = IsDigits s × (to_int 0 s ≡ n)
IsLexed (name s) = IsIdent s × (word s ≡ name s)
IsLexed _ = Unit

abbrev space : Char
space = " "

unfoldable pub prepend : String → String → String
prepend String.[] r = r
prepend (String.◌∷◌ c s) r = String.◌∷◌ c (prepend s r)

unfoldable pub unlex : List Token → String
unfolding prepend text
unlex [] = String.[]
unlex (t ∷ ts) = prepend (text t) (String.◌∷◌ space (unlex ts))

char_count-prepend : (s r : String) → char_count (prepend s r) ≡ char_count s + char_count r
unfolding char_count prepend
char_count-prepend String.[] r = omega arith
char_count-prepend (String.◌∷◌ c s) r = omega (arith, char_count-prepend s r)

-- A run ends at a character that fails its test.
span-prepend :
    (p : ℕ → Bool) (s r : String)
    → p (code space) ≡ false
    → Chars p s
    → span p (prepend s (String.◌∷◌ space r)) ≡ (s, String.◌∷◌ space r)
unfolding span prepend
span-prepend p String.[] r e h = rw e
span-prepend p (String.◌∷◌ c s) r e h = rw (h.0, span-prepend p s r e h.1)

digits_at :
    (c : Char) (s r : String)
    → Chars is_digit (String.◌∷◌ c s)
    → token_at c (prepend s (String.◌∷◌ space r))
      ≡ some (number (String.◌∷◌ c s) (to_int 0 (String.◌∷◌ c s)), String.◌∷◌ space r)
unfolding token_at
digits_at c s r h = rw (h.0, span-prepend is_digit s r refl h.1)

letter-not-digit : (c : ℕ) → is_letter c ≡ true → is_digit c ≡ false
letter-not-digit c h = ground arith

token_step :
    (f : ℕ) (c : Char) (s rest : String) (t : Token)
    → token_at c s ≡ some (t, rest)
    → tokenize_from (suc f) (String.◌∷◌ c s) ≡ t ∷ tokenize_from f rest
unfolding tokenize_from
token_step f c s rest t e = rw (e, tokenize_from)

ident_at :
    (c : Char) (s r : String)
    → IsIdent (String.◌∷◌ c s)
    → token_at c (prepend s (String.◌∷◌ space r)) ≡ some (word (String.◌∷◌ c s), String.◌∷◌ space r)
unfolding token_at
ident_at c s r h =
    let plain : (is_digit (code c) ≡ false) = letter-not-digit (code c) h.0 in
    rw (plain, h.0, span-prepend is_word s r refl h.1)

token_of_text :
    (f : ℕ) (t : Token) (r : String)
    → IsLexed t
    → tokenize_from (suc f) (prepend (text t) (String.◌∷◌ space r))
      ≡ t ∷ tokenize_from f (String.◌∷◌ space r)
unfolding text tokenize_from token_at prepend
token_of_text f (number String.[] n) r h = absurd (h.0)
token_of_text f (number (String.◌∷◌ c s) n) r h =
    token_step f c (prepend s (String.◌∷◌ space r)) _ _ (digits_at c s r h.0)
    ∙ ap (λ k. number (String.◌∷◌ c s) k ∷ tokenize_from f (String.◌∷◌ space r)) h.1
token_of_text f (name String.[]) r h = absurd (h.0)
token_of_text f (name (String.◌∷◌ c s)) r h =
    token_step f c (prepend s (String.◌∷◌ space r)) _ _ (ident_at c s r h.0)
    ∙ ap (λ t. t ∷ tokenize_from f (String.◌∷◌ space r)) h.1
token_of_text f (cmp eq) r h = refl
token_of_text f (cmp ne) r h = refl
token_of_text f (cmp le) r h = refl
token_of_text f (cmp ge) r h = refl
token_of_text f (cmp lt) r h = refl
token_of_text f (cmp gt) r h = refl
token_of_text f (add plus) r h = refl
token_of_text f (add minus) r h = refl
token_of_text f (mul times) r h = refl
token_of_text f (mul over) r h = refl
token_of_text f (mul modulo) r h = refl
token_of_text f _ r h = refl

text-nonempty : (t : Token) → IsLexed t → 0 < char_count (text t)
unfolding text char_count
text-nonempty (number String.[] n) h = absurd (h.0)
text-nonempty (name String.[]) h = absurd (h.0)
text-nonempty (number (String.◌∷◌ c s) n) h = omega arith
text-nonempty (name (String.◌∷◌ c s)) h = omega arith
text-nonempty (cmp eq) h = omega arith
text-nonempty (cmp ne) h = omega arith
text-nonempty (cmp le) h = omega arith
text-nonempty (cmp ge) h = omega arith
text-nonempty (cmp lt) h = omega arith
text-nonempty (cmp gt) h = omega arith
text-nonempty (add plus) h = omega arith
text-nonempty (add minus) h = omega arith
text-nonempty (mul times) h = omega arith
text-nonempty (mul over) h = omega arith
text-nonempty (mul modulo) h = omega arith
text-nonempty _ h = omega arith

space_step : (f : ℕ) (r : String) → tokenize_from (suc f) (String.◌∷◌ space r) ≡ tokenize_from f r
unfolding tokenize_from token_at
space_step f r = refl

no_text : (f : ℕ) → tokenize_from f (unlex []) ≡ []
unfolding tokenize_from unlex
no_text zero = refl
no_text (suc f) = refl

unlex-cons :
    (t : Token) (ts : List Token) → unlex (t ∷ ts) ≡ prepend (text t) (String.◌∷◌ space (unlex ts))
unfolding unlex
unlex-cons t ts = refl

char_count-unlex :
    (t : Token) (ts : List Token)
    → char_count (unlex (t ∷ ts)) ≡ char_count (text t) + suc (char_count (unlex ts))
unfolding char_count
char_count-unlex t ts = rw unlex-cons (char_count-prepend (text t) (String.◌∷◌ space (unlex ts)))

tokenize_from-unlex :
    (ts : List Token) (f : ℕ)
    → All IsLexed ts
    → char_count (unlex ts) ≤ f
    → tokenize_from f (unlex ts) ≡ ts
tokenize_from-unlex [] f h l = no_text f
tokenize_from-unlex (t ∷ ts) zero h l = absurd (omega (arith, char_count-unlex t ts))
tokenize_from-unlex (t ∷ ts) (suc zero) h l =
    absurd (omega (arith, char_count-unlex t ts, text-nonempty t h.0))
tokenize_from-unlex (t ∷ ts) (suc (suc f)) h l =
    let l' : (char_count (unlex ts) ≤ f) =
      omega (arith, char_count-unlex t ts, text-nonempty t h.0) in
    rw (unlex-cons t ts, token_of_text (suc f) t (unlex ts) h.0, space_step)
      (ap (λ r. t ∷ r) (tokenize_from-unlex ts f h.1 l'))

-- The tokens that are written out are the tokens that are read.
pub tokenize-unlex : (ts : List Token) → All IsLexed ts → tokenize (unlex ts) ≡ ts
unfolding tokenize
tokenize-unlex ts h = tokenize_from-unlex ts (char_count (unlex ts)) h (omega arith)

eval_lem : (st : Env) (s : String) → eval st s ≡ eval_tokens st (tokenize s)
unfolding eval
eval_lem st s = refl

-- The text of a sentence is evaluated to the sentence's meaning.
pub eval-unlex-print :
    (e : Ex) (st : Env) → All IsLexed (print e []) → eval st (unlex (print e [])) ≡ denote e st
eval-unlex-print e st h = rw (eval_lem, tokenize-unlex (print e []) h) (eval_tokens-print e st)

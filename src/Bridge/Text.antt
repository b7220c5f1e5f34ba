-- ===== src/Bridge/Text.antt =====
-- The texts that the composition writes, as `_tokenize` reads them.
use Prim.Native.Char.{Char, code}
use Prim.Native.String.{◌++◌}
use agentic_rtl_engine.Prelude.{
  ℕ, zero, suc, ◌≤◌, ◌≡◌, refl, ap, ◌∙◌, subst, String, Bool, true, false, Option, none, some, ◌∷◌,
  ◌==◌, arith, if◌then◌else◌, Bool-cases, inl, inr,
}
use text.Mathlib.TextLemmas.{nil-append, cons-append}
use agentic_rtl_engine.Expr.Lexer.Unlex.{prepend}
use agentic_rtl_engine.Expr.Token.{Token}
use agentic_rtl_engine.Expr.Lexer.{
  is_digit, is_letter, is_word, span, begins, longer, symbol_at, token_at, tokenize_from,
  char_count, tokenize,
}

-- A match leaves no more than there was.
abbrev Leaves : String → Option (Token × String) → Type 0
Leaves s none = Unit
Leaves s (some (t, rest)) = char_count rest ≤ char_count s

begins-Leaves :
    (d : ℕ) (t : Token) (o : Option (Token × String)) (s : String)
    → Leaves s o
    → Leaves s (longer d t o s)
unfolding longer begins char_count
begins-Leaves d t o String.[] h = h
begins-Leaves d t o (String.◌∷◌ c s) h = elim (Bool-cases (code c == d)) [
  | inl e ↦ rw (Leaves, e) (omega arith)
  | inr e ↦ rw (Leaves, e) h
]

if-Leaves :
    (b : Bool) (s : String) (p q : Option (Token × String))
    → Leaves s p
    → Leaves s q
    → Leaves s (if b then p else q)
if-Leaves true s p q hp hq = hp
if-Leaves false s p q hp hq = hq

span-Leaves : (p : ℕ → Bool) (s : String) → char_count (span p s).1 ≤ char_count s
unfolding span char_count
span-Leaves p String.[] = omega arith
span-Leaves p (String.◌∷◌ c s) = elim (Bool-cases (p (code c))) [
  | inl e ↦ rw e (omega (arith, span-Leaves p s))
  | inr e ↦ rw e (omega arith)
]

same-Leaves : (s : String) (t : Token) → Leaves s (some (t, s))
same-Leaves s t = omega arith

none-Leaves : (s : String) → Leaves s none
none-Leaves s = tt

symbol_at-Leaves : (c : ℕ) (s : String) → Leaves s (symbol_at c s)
unfolding symbol_at
symbol_at-Leaves c s = search (if-Leaves, begins-Leaves, same-Leaves, none-Leaves) depth 24

token_at-Leaves : (c : Char) (s : String) → Leaves s (token_at c s)
unfolding token_at
token_at-Leaves c s =
    if-Leaves (is_digit (code c)) s _ _ (span-Leaves is_digit s)
      (if-Leaves (is_letter (code c)) s _ _ (span-Leaves is_word s) (symbol_at-Leaves (code c) s))

-- More fuel than characters changes nothing.
tokenize_from_enough :
    (f g : ℕ) (s : String)
    → char_count s ≤ f
    → char_count s ≤ g
    → tokenize_from f s ≡ tokenize_from g s
unfolding tokenize_from char_count
tokenize_from_enough zero zero s hf hg = refl
tokenize_from_enough (suc f) zero String.[] hf hg = refl
tokenize_from_enough zero (suc g) String.[] hf hg = refl
tokenize_from_enough (suc f) (suc g) String.[] hf hg = refl
tokenize_from_enough zero (suc g) (String.◌∷◌ c s) hf hg = absurd (omega arith)
tokenize_from_enough (suc f) zero (String.◌∷◌ c s) hf hg = absurd (omega arith)
tokenize_from_enough (suc f) (suc g) (String.◌∷◌ c s) hf hg =
    by_match (token_at c s) (token_at-Leaves c s)
      (λ r l. tokenize_from_enough f g r (omega arith) (omega arith))
  where
    by_match :
        (o : Option (Token × String))
        → Leaves s o
        → ((r : String) → char_count r ≤ char_count s → tokenize_from f r ≡ tokenize_from g r)
        → (elim o [ none ↦ tokenize_from f s | some (t, rest) ↦ t ∷ tokenize_from f rest ])
          ≡ (elim o [ none ↦ tokenize_from g s | some (t, rest) ↦ t ∷ tokenize_from g rest ])
    by_match none h k = k s (omega arith)
    by_match (some (t, rest)) h k = ap (λ ts. t ∷ ts) (k rest h)

match_step :
    (f : ℕ) (c : Char) (s : String) (t : Token) (rest : String)
    → token_at c s ≡ some (t, rest)
    → tokenize_from (suc f) (String.◌∷◌ c s) ≡ t ∷ tokenize_from f rest
unfolding tokenize_from
match_step f c s t rest e = rw (tokenize_from, e) refl

skip_step :
    (f : ℕ) (c : Char) (s : String)
    → token_at c s ≡ none
    → tokenize_from (suc f) (String.◌∷◌ c s) ≡ tokenize_from f s
unfolding tokenize_from
skip_step f c s e = rw (tokenize_from, e) refl

-- A token and what it leaves; a character that begins none.
pub tokenize_match :
    (c : Char) (s : String) (t : Token) (rest : String)
    → token_at c s ≡ some (t, rest)
    → tokenize (String.◌∷◌ c s) ≡ t ∷ tokenize rest
unfolding tokenize char_count
tokenize_match c s t rest e =
    let shorter : (char_count rest ≤ char_count s) = subst (Leaves s) e (token_at-Leaves c s) in
    match_step (char_count s) c s t rest e
    ∙ ap (λ ts. t ∷ ts)
        (tokenize_from_enough (char_count s) (char_count rest) rest shorter (omega arith))

pub tokenize_skip :
    (c : Char) (s : String) → token_at c s ≡ none → tokenize (String.◌∷◌ c s) ≡ tokenize s
unfolding tokenize char_count
tokenize_skip c s e = skip_step (char_count s) c s e

-- A text in front of another, character by character.
pub append-prepend : (s r : String) → s ++ r ≡ prepend s r
unfolding prepend
append-prepend String.[] r = nil-append r
append-prepend (String.◌∷◌ c s) r =
    cons-append c s r ∙ ap (λ k. String.◌∷◌ c k) (append-prepend s r)

-- ===== src/Compiler2/Trim.antt =====
-- Texts without space around them, and what is behind a prefix, as pipeline/compilers/compiler2.py
-- asks for them.
use Prim.Native.Char.{Char, code}
use text.Mathlib.TextLemmas.{cons-ne-nil}
use agentic_rtl_engine.Prelude.{
  ◌+◌, ◌≤◌, ◌≡◌, refl, ap, sym, ◌∙◌, String, Bool, true, false, ◌&&◌, none, some, arith, ◌==◌,
  ==_iff, if◌then◌else◌, str_eq, eq_iff, Bool-cases, inl, inr,
}
use agentic_rtl_engine.Expr.Lexer.{char_count}
use agentic_rtl_engine.Expr.Lexer.Unlex.{prepend}
use agentic_rtl_engine.Bridge.{is_space, strip, strip_end}
use agentic_rtl_engine.Compiler2.Text.{behind}

strip_end-strip_end : (s : String) → strip_end (strip_end s) ≡ strip_end s
unfolding strip_end
strip_end-strip_end String.[] = refl
strip_end-strip_end (String.◌∷◌ c s) = by_test (is_space (code c)) (strip_end-strip_end s) refl
  where
    by_test :
        (b : Bool)
        → strip_end (strip_end s) ≡ strip_end s
        → is_space (code c) ≡ b
        → (let kept = if b && str_eq (strip_end s) "" then "" else String.◌∷◌ c (strip_end s) in
            strip_end kept ≡ kept)
    by_test b h e = elim (Bool-cases (b && str_eq (strip_end s) "")) [
      | inl d ↦ rw d refl
      | inr d ↦ rw d (rw (e, h, d) refl)
    ]

strip_end_word :
    (c : Char) (s : String)
    → is_space (code c) ≡ false
    → strip_end (String.◌∷◌ c s) ≡ String.◌∷◌ c (strip_end s)
unfolding strip_end
strip_end_word c s e = rw e refl

strip_word :
    (c : Char) (s : String)
    → is_space (code c) ≡ false
    → strip (String.◌∷◌ c s) ≡ String.◌∷◌ c (strip_end s)
unfolding strip
strip_word c s e = rw e refl

pub strip-strip : (s : String) → strip (strip s) ≡ strip s
unfolding strip
strip-strip String.[] = refl
strip-strip (String.◌∷◌ c s) = elim (Bool-cases (is_space (code c))) [
  | inl e ↦ rw e (strip-strip s)
  | inr e ↦
      ap strip (strip_word c s e)
      ∙ strip_word c (strip_end s) e
      ∙ ap (String.◌∷◌ c) (strip_end-strip_end s)
      ∙ sym (strip_word c s e)
]

-- A text that ends in no space, and is not empty.
abbrev pub IsTrimmed : String → Type 0
IsTrimmed s = (strip_end s ≡ s) × (str_eq s "" ≡ false)

pub cons_nonempty : (c : Char) (s : String) → str_eq (String.◌∷◌ c s) "" ≡ false
cons_nonempty c s = elim (Bool-cases (str_eq (String.◌∷◌ c s) "")) [
  | inl e ↦ absurd (cons-ne-nil c s ((eq_iff (String.◌∷◌ c s) "").0 e))
  | inr e ↦ e
]

pub prepend-IsTrimmed : (a s : String) → IsTrimmed s → IsTrimmed (prepend a s)
unfolding prepend strip_end
prepend-IsTrimmed String.[] s h = h
prepend-IsTrimmed (String.◌∷◌ c a) s h =
    let rest = prepend-IsTrimmed a s h in
    (rw (rest.0, rest.1) (kept (is_space (code c))), cons_nonempty c (prepend a s))
  where
    kept :
        (b : Bool)
        → (if b && false then "" else String.◌∷◌ c (prepend a s)) ≡ String.◌∷◌ c (prepend a s)
    kept true = refl
    kept false = refl

pub behind-prepend : (p r : String) → behind p (prepend p r) ≡ some r
unfolding behind prepend
behind-prepend String.[] r = refl
behind-prepend (String.◌∷◌ c p) r = rw ((==_iff (code c) (code c)).1 refl) (behind-prepend p r)

-- A prefix that a text long enough does not have.
pub behind-none :
    (p a r : String)
    → char_count p ≤ char_count a
    → behind p a ≡ none
    → behind p (prepend a r) ≡ none
unfolding behind prepend char_count
behind-none String.[] a r l h = cc
behind-none (String.◌∷◌ c p) String.[] r l h = absurd (omega (arith, l))
behind-none (String.◌∷◌ c p) (String.◌∷◌ d a) r l h = elim (Bool-cases (code c == code d)) [
  | inl e ↦ rw e (behind-none p a r (omega (arith, l)) (rw e at h))
  | inr e ↦ rw e refl
]

pub prepend_assoc : (a s r : String) → prepend (prepend a s) r ≡ prepend a (prepend s r)
unfolding prepend
prepend_assoc String.[] s r = refl
prepend_assoc (String.◌∷◌ c a) s r = ap (String.◌∷◌ c) (prepend_assoc a s r)

pub char_count-prepend : (a s : String) → char_count (prepend a s) ≡ char_count a + char_count s
unfolding prepend char_count
char_count-prepend String.[] s = omega arith
char_count-prepend (String.◌∷◌ c a) s = omega (arith, char_count-prepend a s)

-- ===== src/Compiler2/Fuel.antt =====
-- `translate_expr` of pipeline/compilers/compiler2.py goes on with shorter texts.
use Prim.Native.Char.{Char, code}
use Prim.Native.String.{◌++◌}
use agentic_rtl_engine.Prelude.{
  ℕ, zero, suc, ◌+◌, ◌-◌, ◌≤◌, ◌≡◌, refl, ap, ◌∙◌, String, Bool, true, false, ◌&&◌, Option, none,
  some, arith, ◌==◌, if◌then◌else◌, str_eq,
}
use agentic_rtl_engine.Expr.Lexer.{char_count}
use agentic_rtl_engine.Bridge.{is_space, strip, strip_end, starts_with}
use agentic_rtl_engine.Compiler2.Text.{behind, with_char}
use agentic_rtl_engine.Compiler2.Translate.{
  cut_at, split_if_then_else, char_before, inside_from, strip_enclosing_parens, inner_conditional,
  translate_basic, ternary, translate_expr_from, translate_expr,
}

if-shorter :
    (n : ℕ) (b : Bool) (s t : String)
    → char_count s ≤ n
    → char_count t ≤ n
    → char_count (if b then s else t) ≤ n
if-shorter n true s t hs ht = hs
if-shorter n false s t hs ht = ht

strip_end-shorter : (s : String) → char_count (strip_end s) ≤ char_count s
unfolding strip_end char_count
strip_end-shorter String.[] = omega arith
strip_end-shorter (String.◌∷◌ c s) =
    if-shorter (suc (char_count s)) (is_space (code c) && str_eq (strip_end s) "") _ _ (omega arith)
      (omega (arith, strip_end-shorter s))

strip-shorter : (s : String) → char_count (strip s) ≤ char_count s
unfolding strip char_count
strip-shorter String.[] = omega arith
strip-shorter (String.◌∷◌ c s) =
    if-shorter (suc (char_count s)) (is_space (code c)) _ _ (omega (arith, strip-shorter s))
      (strip_end-shorter (String.◌∷◌ c s))

-- What an answer holds is no longer than `n`.
abbrev Within : ℕ → Option String → Type 0
Within n none = Unit
Within n (some s) = char_count s ≤ n

abbrev BothWithin : ℕ → Option (String × String) → Type 0
BothWithin n none = Unit
BothWithin n (some (a, b)) = (char_count a ≤ n) × (char_count b ≤ n)

abbrev ThreeWithin : ℕ → Option (String × String × String) → Type 0
ThreeWithin n none = Unit
ThreeWithin n (some (c, t, e)) = (char_count t ≤ n) × (char_count e ≤ n)

-- What is behind a prefix, with the prefix.
abbrev Fits : String → String → Option String → Type 0
Fits p s none = Unit
Fits p s (some r) = char_count p + char_count r ≤ char_count s

behind-Fits : (p s : String) → Fits p s (behind p s)
unfolding behind char_count
behind-Fits String.[] s = omega arith
behind-Fits (String.◌∷◌ c p) String.[] = tt
behind-Fits (String.◌∷◌ c p) (String.◌∷◌ d s) =
    by_test (code c == code d) (behind p s) (behind-Fits p s)
  where
    by_test :
        (b : Bool) (o : Option String)
        → Fits p s o
        → Fits (String.◌∷◌ c p) (String.◌∷◌ d s) (if b then o else none)
    by_test true none h = tt
    by_test true (some r) h = unfold char_count in omega (arith, h)
    by_test false o h = tt

with_char-BothWithin :
    (c : Char) (n : ℕ) (o : Option (String × String))
    → BothWithin n o
    → BothWithin (suc n) (with_char c o)
unfolding with_char char_count
with_char-BothWithin c n none h = tt
with_char-BothWithin c n (some (a, b)) h = (omega (arith, h.0), omega (arith, h.1))

if-BothWithin :
    (n : ℕ) (b : Bool) (p q : Option (String × String))
    → BothWithin n p
    → BothWithin n q
    → BothWithin n (if b then p else q)
if-BothWithin n true p q hp hq = hp
if-BothWithin n false p q hp hq = hq

cut_at-BothWithin :
    (keyword : String) (opened closed : ℕ) (s : String)
    → BothWithin (char_count s) (cut_at keyword opened closed s)
unfolding cut_at char_count
cut_at-BothWithin keyword opened closed String.[] = tt
cut_at-BothWithin keyword opened closed (String.◌∷◌ c s) =
    let deeper =
      λ (o k : ℕ). with_char-BothWithin c (char_count s) _ (cut_at-BothWithin keyword o k s) in
    if-BothWithin _ (code c == b'(') _ _ (deeper (opened + 1) closed) (
      if-BothWithin _ (code c == b')') _ _ (deeper opened (closed + 1)) (
        if-BothWithin _ (opened == closed) _ _
          (here (behind keyword (String.◌∷◌ c s)) (behind-Fits keyword (String.◌∷◌ c s))
            (deeper opened closed))
          (deeper opened closed)))
  where
    here :
        (o : Option String)
        → Fits keyword (String.◌∷◌ c s) o
        → BothWithin (suc (char_count s)) (with_char c (cut_at keyword opened closed s))
        → BothWithin (suc (char_count s)) (elim o [
          | none ↦ with_char c (cut_at keyword opened closed s)
          | some rest ↦ some ("", rest)
        ])
    here none w h = h
    here (some rest) w h = unfold char_count in (omega arith, omega (arith, w))

split_if_then_else-ThreeWithin :
    (f : ℕ) (s : String) → char_count s ≤ suc f → ThreeWithin f (split_if_then_else s)
unfolding split_if_then_else char_count
split_if_then_else-ThreeWithin f s h = by_if (behind "IF " s) (behind-Fits "IF " s)
  where
    by_else :
        (cond after_then : String) (o : Option (String × String))
        → char_count after_then ≤ f
        → BothWithin (char_count after_then) o
        → ThreeWithin f (elim o [
          | none ↦ none
          | some (then_val, else_val) ↦ some (strip cond, strip then_val, strip else_val)
        ])
    by_else cond after_then none l w = tt
    by_else cond after_then (some (t, e)) l w =
        (omega (arith, strip-shorter t, w.0, l), omega (arith, strip-shorter e, w.1, l))

    by_then :
        (rest : String) (o : Option (String × String))
        → char_count rest ≤ f
        → BothWithin (char_count rest) o
        → ThreeWithin f (elim o [
          | none ↦ none
          | some (cond, after_then) ↦ elim (cut_at " ELSE " 0 0 after_then) [
            | none ↦ none
            | some (then_val, else_val) ↦ some (strip cond, strip then_val, strip else_val)
          ]
        ])
    by_then rest none l w = tt
    by_then rest (some (cond, after_then)) l w =
        by_else cond after_then (cut_at " ELSE " 0 0 after_then) (omega (arith, w.1, l))
          (cut_at-BothWithin " ELSE " 0 0 after_then)

    by_if :
        (o : Option String)
        → Fits "IF " s o
        → ThreeWithin f (elim o [
          | none ↦ none
          | some rest ↦ elim (cut_at " THEN " 0 0 rest) [
            | none ↦ none
            | some (cond, after_then) ↦ elim (cut_at " ELSE " 0 0 after_then) [
              | none ↦ none
              | some (then_val, else_val) ↦ some (strip cond, strip then_val, strip else_val)
            ]
          ]
        ])
    by_if none w = tt
    by_if (some rest) w =
        by_then rest (cut_at " THEN " 0 0 rest) (unfold char_count in omega (arith, w, h))
          (cut_at-BothWithin " THEN " 0 0 rest)

char_before-Within :
    (c : Char) (n : ℕ) (o : Option String) → Within n o → Within (suc n) (char_before c o)
unfolding char_before char_count
char_before-Within c n none h = tt
char_before-Within c n (some s) h = omega (arith, h)

if-Within :
    (n : ℕ) (b : Bool) (p q : Option String)
    → Within n p
    → Within n q
    → Within n (if b then p else q)
if-Within n true p q hp hq = hp
if-Within n false p q hp hq = hq

inside_from-Within : (depth : ℕ) (s : String) → Within (char_count s) (inside_from depth s)
unfolding inside_from char_count
inside_from-Within depth String.[] = tt
inside_from-Within depth (String.◌∷◌ c s) =
    let at = λ (d : ℕ). char_before-Within c (char_count s) _ (inside_from-Within d s) in
    let nothing : (char_count "" ≤ suc (char_count s)) = unfold char_count in omega arith in
    if-Within _ (code c == b'(') _ _ (at (depth + 1)) (
      if-Within _ (code c == b')') _ _
        (if-Within _ (depth == 1) _ _ (if-Within _ (str_eq s "") (some "") none nothing tt)
          (at (depth - 1)))
        (at depth))

inner_conditional-Within :
    (f : ℕ) (s : String) → char_count s ≤ suc f → Within f (inner_conditional s)
unfolding inner_conditional strip_enclosing_parens char_count
inner_conditional-Within f s h = by_open (behind "(" s) (behind-Fits "(" s)
  where
    by_inner :
        (rest : String) (o : Option String)
        → char_count rest ≤ f
        → Within (char_count rest) o
        → Within f (elim o [
          | none ↦ none
          | some inner ↦ if starts_with "IF " (strip inner) then some inner else none
        ])
    by_inner rest none l w = tt
    by_inner rest (some inner) l w =
        if-Within f (starts_with "IF " (strip inner)) (some inner) none (omega (arith, l, w)) tt

    by_open :
        (o : Option String)
        → Fits "(" s o
        → Within f
            (elim (elim o as (λ x. Option String) [
              | none ↦ none
              | some rest ↦ inside_from 1 rest
            ]) [
              | none ↦ none
              | some inner ↦ if starts_with "IF " (strip inner) then some inner else none
            ])
    by_open none w = tt
    by_open (some rest) w =
        by_inner rest (inside_from 1 rest) (unfold char_count in omega (arith, w, h))
          (inside_from-Within 1 rest)

-- One round, over the answers for shorter texts.
abbrev pub translate_stripped : (String → String) → String → String
translate_stripped continue expr = elim (split_if_then_else expr) [
  | some (cond, then_val, else_val) ↦
      ternary (translate_basic cond) (continue then_val) (continue else_val)
  | none ↦ elim (inner_conditional expr) [
    | none ↦ translate_basic expr
    | some inner ↦ "(" ++ (continue inner ++ ")")
  ]
]

unfoldable pub translate_round : (String → String) → String → String
translate_round continue expr = translate_stripped continue (strip expr)

translate_round-cong :
    (n : ℕ) (j k : String → String) (s : String)
    → char_count s ≤ suc n
    → ((t : String) → char_count t ≤ n → j t ≡ k t)
    → translate_round j s ≡ translate_round k s
unfolding translate_round
translate_round-cong n j k s h same =
    let l : (char_count (strip s) ≤ suc n) = omega (arith, strip-shorter s, h) in
    by_split (split_if_then_else (strip s)) (split_if_then_else-ThreeWithin n (strip s) l)
      (by_inner (inner_conditional (strip s)) (inner_conditional-Within n (strip s) l))
  where
    by_inner :
        (o : Option String)
        → Within n o
        → (elim o [ none ↦ translate_basic (strip s) | some inner ↦ "(" ++ (j inner ++ ")") ])
          ≡ (elim o [ none ↦ translate_basic (strip s) | some inner ↦ "(" ++ (k inner ++ ")") ])
    by_inner none w = refl
    by_inner (some inner) w = ap (λ t. "(" ++ (t ++ ")")) (same inner w)

    by_split :
        {a b : String} (o : Option (String × String × String))
        → ThreeWithin n o
        → a ≡ b
        → (elim o [
          | none ↦ a
          | some (cond, then_val, else_val) ↦
              ternary (translate_basic cond) (j then_val) (j else_val)
        ])
          ≡ (elim o [
            | none ↦ b
            | some (cond, then_val, else_val) ↦
                ternary (translate_basic cond) (k then_val) (k else_val)
          ])
    by_split none w e = e
    by_split (some (cond, t, e)) w h =
        ap (λ x. ternary (translate_basic cond) x (j e)) (same t w.0)
        ∙ ap (ternary (translate_basic cond) (k t)) (same e w.1)

-- More fuel than characters changes nothing.
translate_expr_from_enough :
    (f g : ℕ) (s : String)
    → char_count s ≤ f
    → char_count s ≤ g
    → translate_expr_from f s ≡ translate_expr_from g s
unfolding translate_expr_from char_count strip split_if_then_else inner_conditional behind
    strip_enclosing_parens translate_round
translate_expr_from_enough zero zero s hf hg = refl
translate_expr_from_enough (suc f) zero String.[] hf hg = refl
translate_expr_from_enough zero (suc g) String.[] hf hg = refl
translate_expr_from_enough zero (suc g) (String.◌∷◌ c s) hf hg = absurd (omega (arith, hf))
translate_expr_from_enough (suc f) zero (String.◌∷◌ c s) hf hg = absurd (omega (arith, hg))
translate_expr_from_enough (suc f) (suc g) s hf hg =
    translate_round-cong (char_count s - 1) (translate_expr_from f) (translate_expr_from g) s
      (omega arith)
      (λ t h. translate_expr_from_enough f g t (omega (arith, h, hf)) (omega (arith, h, hg)))

-- The fuel is enough: `translate_expr` answers as one round of the source's recursion does over
-- `translate_expr` itself, for every text.
pub translate_expr-translate_round :
    (expr : String) → translate_expr expr ≡ translate_round translate_expr expr
unfolding translate_expr translate_round
translate_expr-translate_round expr =
    translate_expr_from_enough (char_count expr) (suc (char_count expr)) expr (omega arith)
      (omega arith)
    ∙ unfold_round
    ∙ translate_round-cong (char_count expr - 1) (translate_expr_from (char_count expr))
        translate_expr expr (omega arith)
        (λ t h.
          translate_expr_from_enough (char_count expr) (char_count t) t (omega (arith, h))
            (omega arith))
  where
    unfold_round :
        translate_expr_from (suc (char_count expr)) expr
        ≡ translate_round (translate_expr_from (char_count expr)) expr
    unfold_round = unfold translate_expr_from translate_round in refl

-- ===== src/Compiler2/Ternary.antt =====
-- What `translate_expr` of pipeline/compilers/compiler2.py makes of the conditionals that
-- pipeline/refinement/bridge.py composes.
use Prim.Native.Char.{Char, code}
use Prim.Native.String.{◌++◌}
use text.Mathlib.TextLemmas.{cons-ne-nil}
use agentic_rtl_engine.Prelude.{
  ℕ, ◌+◌, ◌≡◌, ◌≢◌, refl, ap, sym, ◌∙◌, subst, String, Bool, true, false, All, List, [], ◌∷◌,
  Option, none, some, arith, ◌==◌, if◌then◌else◌, Bool-cases, inl, inr,
}
use agentic_rtl_engine.Expr.Lexer.{char_count}
use agentic_rtl_engine.Expr.Lexer.Unlex.{prepend}
use agentic_rtl_engine.Bridge.{
  strip, then_value, nested_if, next_state, per_action, clauses_for, default_for,
}
use agentic_rtl_engine.Bridge.Text.{append-prepend}
use agentic_rtl_engine.Rules.IfChain.{drop}
use agentic_rtl_engine.Spec.{Action}
use agentic_rtl_engine.Compiler2.Text.{behind, with_char}
use agentic_rtl_engine.Compiler2.Translate.{
  cut_at, split_if_then_else, inner_conditional, translate_basic, ternary, translate_expr,
}
use agentic_rtl_engine.Compiler2.Trim.{
  strip-strip, IsTrimmed, prepend-IsTrimmed, behind-prepend, behind-none, prepend_assoc,
  char_count-prepend,
}
use agentic_rtl_engine.Compiler2.Fuel.{
  translate_stripped, translate_round, translate_expr-translate_round,
}

-- A text in front of a keyword ends where the keyword stands.
abbrev pub IsSealed : String → String → Type 0
IsSealed keyword s = cut_at keyword 0 0 (s ++ keyword) ≡ some (s, "")

first_of : Option (String × String) → String
first_of none = ""
first_of (some (a, b)) = a

without_first : Option (String × String) → Option (String × String)
unfolding drop
without_first none = none
without_first (some (a, b)) = some (drop 1 a, b)

with_char_inj :
    (c : Char) (o : Option (String × String)) (a b : String)
    → with_char c o ≡ some (String.◌∷◌ c a, b)
    → o ≡ some (a, b)
unfolding with_char without_first drop
with_char_inj c none a b h = cc
with_char_inj c (some (x, y)) a b h = ap without_first h

with_char_nonempty :
    (c : Char) (o : Option (String × String)) (b : String) → with_char c o ≢ some ("", b)
unfolding with_char first_of
with_char_nonempty c none b h = cc
with_char_nonempty c (some (x, y)) b h = cons-ne-nil c x (ap first_of h)

-- The tests of `cut_at` at a character.
abbrev cut_here :
    Bool
    → Bool
    → Bool
    → Option String
    → Option (String × String)
    → Option (String × String)
    → Option (String × String)
    → Option (String × String)
cut_here opens closes level found inner outer later =
    if opens
    then inner
    else if closes
    then outer
    else if level
    then elim found [ none ↦ later | some rest ↦ some ("", rest) ]
    else later

cut_here-same :
    (opens closes level : Bool) (found found' : Option String)
    (inner inner' outer outer' later later' : Option (String × String)) (c : Char) (s r : String)
    → (found ≡ none → found' ≡ none)
    → (inner ≡ some (String.◌∷◌ c s, "") → inner' ≡ some (String.◌∷◌ c s, r))
    → (outer ≡ some (String.◌∷◌ c s, "") → outer' ≡ some (String.◌∷◌ c s, r))
    → (later ≡ some (String.◌∷◌ c s, "") → later' ≡ some (String.◌∷◌ c s, r))
    → cut_here opens closes level found inner outer later ≡ some (String.◌∷◌ c s, "")
    → cut_here opens closes level found' inner' outer' later' ≡ some (String.◌∷◌ c s, r)
unfolding first_of
cut_here-same true closes level found found' i i' o o' l l' c s r n hi ho hl h = hi h
cut_here-same false true level found found' i i' o o' l l' c s r n hi ho hl h = ho h
cut_here-same false false false found found' i i' o o' l l' c s r n hi ho hl h = hl h
cut_here-same false false true none found' i i' o o' l l' c s r n hi ho hl h = rw (n refl) (hl h)
cut_here-same false false true (some x) found' i i' o o' l l' c s r n hi ho hl h =
    absurd (cons-ne-nil c s (sym (ap first_of h)))

module _ (word r : String) where
  abbrev keyword : String
  keyword = String.◌∷◌ " " word

  cut_at-prepend :
      (opened closed : ℕ) (s : String)
      → cut_at keyword opened closed (prepend s keyword) ≡ some (s, "")
      → cut_at keyword opened closed (prepend s (prepend keyword r)) ≡ some (s, r)
  unfolding cut_at prepend
  cut_at-prepend opened closed String.[] h = elim (Bool-cases (opened == closed)) [
    | inl e ↦ rw (e, behind-prepend word r) refl
    | inr e ↦ absurd (with_char_nonempty " " (cut_at keyword opened closed word) "" (rw e at h))
  ]
  cut_at-prepend opened closed (String.◌∷◌ c s) h =
      cut_here-same (code c == b'(') (code c == b')') (opened == closed)
        (behind keyword (String.◌∷◌ c (prepend s keyword)))
        (behind keyword (String.◌∷◌ c (prepend s (prepend keyword r))))
        (with_char c (cut_at keyword (opened + 1) closed (prepend s keyword))) _
        (with_char c (cut_at keyword opened (closed + 1) (prepend s keyword))) _
        (with_char c (cut_at keyword opened closed (prepend s keyword))) _ c s r none_before
        (λ e. ap (with_char c) (cut_at-prepend (opened + 1) closed s (with_char_inj c _ s "" e)))
        (λ e. ap (with_char c) (cut_at-prepend opened (closed + 1) s (with_char_inj c _ s "" e)))
        (λ e. ap (with_char c) (cut_at-prepend opened closed s (with_char_inj c _ s "" e))) h
    where
      none_before :
          behind keyword (String.◌∷◌ c (prepend s keyword)) ≡ none
          → behind keyword (String.◌∷◌ c (prepend s (prepend keyword r))) ≡ none
      none_before e =
          ap (λ t. behind keyword (String.◌∷◌ c t)) (sym (prepend_assoc s keyword r))
          ∙ behind-none keyword (String.◌∷◌ c (prepend s keyword)) r
              (unfold char_count in omega (arith, char_count-prepend s keyword)) e

-- A conditional, character by character.
abbrev conditional : String → String → String → String
conditional g t d = prepend "IF " (prepend g (prepend " THEN " (prepend t (prepend " ELSE " d))))

conditional-IsTrimmed : (g t d : String) → IsTrimmed d → IsTrimmed (conditional g t d)
conditional-IsTrimmed g t d h = prepend-IsTrimmed "IF " _ (
    prepend-IsTrimmed g _
      (prepend-IsTrimmed " THEN " _ (prepend-IsTrimmed t _ (prepend-IsTrimmed " ELSE " d h))))

strip-conditional : (g t d : String) → IsTrimmed d → strip (conditional g t d) ≡ conditional g t d
unfolding strip prepend
strip-conditional g t d h = (conditional-IsTrimmed g t d h).0

sealed_prepend :
    (w s r : String)
    → IsSealed (String.◌∷◌ " " w) s
    → cut_at (String.◌∷◌ " " w) 0 0 (prepend s (prepend (String.◌∷◌ " " w) r)) ≡ some (s, r)
sealed_prepend w s r h =
    cut_at-prepend w r 0 0 s
      (subst (λ t. cut_at (String.◌∷◌ " " w) 0 0 t ≡ some (s, "")) (append-prepend s _) h)

split_if_then_else-conditional :
    (g t d : String)
    → IsSealed " THEN " g
    → IsSealed " ELSE " t
    → split_if_then_else (conditional g t d) ≡ some (strip g, strip t, strip d)
unfolding split_if_then_else prepend behind
split_if_then_else-conditional g t d hg ht =
    ap
      (λ (o : Option (String × String)). elim o as (λ x. Option (String × String × String)) [
        | none ↦ none
        | some (cond, after_then) ↦
            elim (cut_at " ELSE " 0 0 after_then) as (λ x. Option (String × String × String)) [
              | none ↦ none
              | some (then_val, else_val) ↦ some (strip cond, strip then_val, strip else_val)
            ]
      ])
      (sealed_prepend "THEN " g (prepend t (prepend " ELSE " d)) hg)
    ∙ ap
        (λ (o : Option (String × String)). elim o as (λ x. Option (String × String × String)) [
          | none ↦ none
          | some (then_val, else_val) ↦ some (strip g, strip then_val, strip else_val)
        ])
        (sealed_prepend "ELSE " t d ht)

translate_basic-strip : (s : String) → translate_basic (strip s) ≡ translate_basic s
unfolding translate_basic
translate_basic-strip s = rw (strip-strip s) refl

translate_expr-strip : (s : String) → translate_expr (strip s) ≡ translate_expr s
unfolding translate_round
translate_expr-strip s =
    translate_expr-translate_round (strip s)
    ∙ ap (translate_stripped translate_expr) (strip-strip s)
    ∙ sym (translate_expr-translate_round s)

translate_expr-conditional :
    (g t d : String)
    → IsSealed " THEN " g
    → IsSealed " ELSE " t
    → IsTrimmed d
    → translate_expr (conditional g t d)
      ≡ ternary (translate_basic g) (translate_expr t) (translate_expr d)
unfolding translate_round
translate_expr-conditional g t d hg ht hd =
    translate_expr-translate_round (conditional g t d)
    ∙ ap (translate_stripped translate_expr) (strip-conditional g t d hd)
    ∙ ap
        (λ (o : Option (String × String × String)). elim o as (λ x. String) [
          | some (cond, then_val, else_val) ↦
              ternary (translate_basic cond) (translate_expr then_val) (translate_expr else_val)
          | none ↦ elim (inner_conditional (conditional g t d)) as (λ x. String) [
            | none ↦ translate_basic (conditional g t d)
            | some inner ↦ "(" ++ (translate_expr inner ++ ")")
          ]
        ])
        (split_if_then_else-conditional g t d hg ht)
    ∙ ap (λ c. ternary c (translate_expr (strip t)) (translate_expr (strip d)))
        (translate_basic-strip g)
    ∙ ap (λ x. ternary (translate_basic g) x (translate_expr (strip d))) (translate_expr-strip t)
    ∙ ap (ternary (translate_basic g) (translate_expr t)) (translate_expr-strip d)

-- The conditional expression of Verilog over the clauses.
abbrev pub ternaries : List (String × String) → String → String
ternaries [] default = translate_expr default
ternaries ((guard, value) ∷ clauses) default =
    ternary (translate_basic guard) (translate_expr (then_value value)) (ternaries clauses default)

abbrev pub IsClause : String × String → Type 0
IsClause (guard, value) = IsSealed " THEN " guard × IsSealed " ELSE " (then_value value)

nested_if-conditional :
    (g v : String) (clauses : List (String × String)) (default : String)
    → nested_if ((g, v) ∷ clauses) default
      ≡ conditional g (then_value v) (nested_if clauses default)
unfolding nested_if
nested_if-conditional g v clauses default =
    append-prepend "IF " _
    ∙ ap (prepend "IF ") (
        append-prepend g _
        ∙ ap (prepend g) (
            append-prepend " THEN " _
            ∙ ap (prepend " THEN ") (
                append-prepend (then_value v) _
                ∙ ap (prepend (then_value v))
                    (append-prepend " ELSE " (nested_if clauses default)))))

nested_if-IsTrimmed :
    (clauses : List (String × String)) (default : String)
    → IsTrimmed default
    → IsTrimmed (nested_if clauses default)
unfolding nested_if
nested_if-IsTrimmed [] default h = h
nested_if-IsTrimmed ((g, v) ∷ clauses) default h =
    subst IsTrimmed (sym (nested_if-conditional g v clauses default)) (
      conditional-IsTrimmed g (then_value v) (nested_if clauses default)
        (nested_if-IsTrimmed clauses default h))

-- A composed conditional becomes the conditional expression over the translated guards and values in
-- the same order, where each guard and each value ends at its own keyword, and the default is not
-- empty and ends in no space.
pub translate_expr-nested_if :
    (clauses : List (String × String)) (default : String)
    → All IsClause clauses
    → IsTrimmed default
    → translate_expr (nested_if clauses default) ≡ ternaries clauses default
unfolding nested_if
translate_expr-nested_if [] default hc hd = refl
translate_expr-nested_if ((g, v) ∷ clauses) default hc hd =
    ap translate_expr (nested_if-conditional g v clauses default)
    ∙ translate_expr-conditional g (then_value v) (nested_if clauses default) hc.0.0 hc.0.1
        (nested_if-IsTrimmed clauses default hd)
    ∙ ap (ternary (translate_basic g) (translate_expr (then_value v)))
        (translate_expr-nested_if clauses default hc.1 hd)

-- The right side that the compiler emits for the next state of a target of clocked actions: a
-- conditional expression over the clauses that the actions give it, in their order, and its default,
-- where each guard and each value ends at its own keyword, and the default is not empty and ends in
-- no space.
pub translate_expr-next_state :
    (actions : List Action) (var : String)
    → All IsClause (clauses_for var (per_action actions))
    → IsTrimmed (default_for var (per_action actions))
    → translate_expr (next_state actions var)
      ≡ ternaries (clauses_for var (per_action actions)) (default_for var (per_action actions))
unfolding next_state
translate_expr-next_state actions var hc hd =
    translate_expr-nested_if (clauses_for var (per_action actions))
      (default_for var (per_action actions)) hc hd

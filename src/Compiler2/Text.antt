-- ===== src/Compiler2/Text.antt =====
-- What pipeline/compilers/compiler2.py asks of texts: their lines, what is behind a prefix, and the
-- substitution of every match from left to right.
use Prim.Native.Char.{Char, code}
use Prim.Native.String.{◌++◌}
use agentic_rtl_engine.Prelude.{
  ℕ, zero, suc, String, Bool, true, false, Option, none, some, List, [], ◌∷◌, ◌==◌, if◌then◌else◌,
}
use agentic_rtl_engine.Expr.Lexer.{is_word, span, char_count}
use agentic_rtl_engine.Bridge.{is_space, starts_with}

-- The pieces of a text between the characters that pass the test; `text.split("\n")`.
unfoldable pub in_first : Char → List String → List String
in_first c [] = String.◌∷◌ c String.[] ∷ []
in_first c (piece ∷ pieces) = String.◌∷◌ c piece ∷ pieces

unfoldable pub split_on : (ℕ → Bool) → String → List String
unfolding in_first
split_on test String.[] = "" ∷ []
split_on test (String.◌∷◌ c s) =
    let pieces = split_on test s in if test (code c) then "" ∷ pieces else in_first c pieces

unfoldable pub split_lines : String → List String
unfolding split_on
split_lines s = split_on (λ c. c == 10) s

-- `"\n".join(lines)`
unfoldable pub join_lines : List String → String
join_lines [] = ""
join_lines (line ∷ []) = line
join_lines (line ∷ next ∷ lines) = line ++ ("\n" ++ join_lines (next ∷ lines))

-- The text behind a prefix.
unfoldable pub behind : String → String → Option String
behind String.[] s = some s
behind (String.◌∷◌ c p) String.[] = none
behind (String.◌∷◌ c p) (String.◌∷◌ d s) = if code c == code d then behind p s else none

-- The texts before and behind a first occurrence.
unfoldable pub with_char : Char → Option (String × String) → Option (String × String)
with_char c none = none
with_char c (some (before, after)) = some (String.◌∷◌ c before, after)

unfoldable pub cut_first : String → String → Option (String × String)
unfolding behind with_char
cut_first pattern String.[] = none
cut_first pattern (String.◌∷◌ c s) = elim (behind pattern (String.◌∷◌ c s)) [
  | none ↦ with_char c (cut_first pattern s)
  | some rest ↦ some ("", rest)
]

-- The text behind `\s*`.
unfoldable pub drop_spaces : String → String
drop_spaces String.[] = String.[]
drop_spaces (String.◌∷◌ c s) = if is_space (code c) then drop_spaces s else String.◌∷◌ c s

unfoldable pub begins_space : String → Bool
begins_space String.[] = false
begins_space (String.◌∷◌ c s) = is_space (code c)

-- `re.sub(r"\\\*[^\n]*", "", text)`, from a place inside or outside a comment.
unfoldable pub comment_free_from : Bool → String → String
unfolding starts_with
comment_free_from inside String.[] = String.[]
comment_free_from true (String.◌∷◌ c s) =
    let behind_line = String.◌∷◌ c (comment_free_from false s) in
    let later = comment_free_from true s in if code c == 10 then behind_line else later
comment_free_from false (String.◌∷◌ c s) =
    let skipped = comment_free_from true s in
    let kept = String.◌∷◌ c (comment_free_from false s) in
    if starts_with "\\*" (String.◌∷◌ c s) then skipped else kept

unfoldable pub comment_free : String → String
unfolding comment_free_from
comment_free s = comment_free_from false s

-- `re.sub`: `matched` counts the characters of a match, 0 where there is none; `skip` characters are
-- left of the match before.
unfoldable pub replace_from : (String → ℕ) → String → ℕ → String → String
replace_from matched by skip String.[] = String.[]
replace_from matched by (suc skip) (String.◌∷◌ c s) = replace_from matched by skip s
replace_from matched by zero (String.◌∷◌ c s) = elim (matched (String.◌∷◌ c s)) [
  | zero ↦ String.◌∷◌ c (replace_from matched by zero s)
  | suc more ↦ by ++ replace_from matched by more s
]

unfoldable pub count_literal : String → String → ℕ
unfolding starts_with char_count
count_literal pattern s = if starts_with pattern s then char_count pattern else 0

-- `text.replace(pattern, by)`
unfoldable pub replace_literal : String → String → String → String
unfolding replace_from count_literal
replace_literal pattern by s = replace_from (count_literal pattern) by 0 s

-- The maximal runs of `\w`, each in its place, on fuel: the characters of the text are enough.
unfoldable pub change_words_from : (String → String) → ℕ → String → String
unfolding span
change_words_from change zero s = String.[]
change_words_from change (suc f) String.[] = String.[]
change_words_from change (suc f) (String.◌∷◌ c s) =
    let found = span is_word s in
    let changed = change (String.◌∷◌ c found.0) ++ change_words_from change f found.1 in
    let kept = String.◌∷◌ c (change_words_from change f s) in
    if is_word (code c) then changed else kept

unfoldable pub change_words : (String → String) → String → String
unfolding change_words_from char_count
change_words change s = change_words_from change (char_count s) s

unfoldable pub words_from : ℕ → String → List String
unfolding span
words_from zero s = []
words_from (suc f) String.[] = []
words_from (suc f) (String.◌∷◌ c s) =
    let found = span is_word s in
    let first = String.◌∷◌ c found.0 ∷ words_from f found.1 in
    let later = words_from f s in if is_word (code c) then first else later

unfoldable pub words : String → List String
unfolding words_from char_count
words s = words_from (char_count s) s

-- The text inside and behind a block that begins here.
unfoldable pub block_at : String → String → String → Option (String × String)
unfolding behind cut_first
block_at opening closing s = elim (behind opening s) [
  | none ↦ none
  | some inner ↦ cut_first closing inner
]

-- A text with `by inner` in the place of each block, on fuel: the characters of the text are enough.
unfoldable pub replace_blocks_from : String → String → (String → String) → ℕ → String → String
unfolding block_at
replace_blocks_from opening closing by zero s = s
replace_blocks_from opening closing by (suc f) String.[] = String.[]
replace_blocks_from opening closing by (suc f) (String.◌∷◌ c s) =
    elim (block_at opening closing (String.◌∷◌ c s)) [
      | none ↦ String.◌∷◌ c (replace_blocks_from opening closing by f s)
      | some (inner, rest) ↦ by inner ++ replace_blocks_from opening closing by f rest
    ]

unfoldable pub replace_blocks : String → String → (String → String) → String → String
unfolding replace_blocks_from char_count
replace_blocks opening closing by s = replace_blocks_from opening closing by (char_count s) s

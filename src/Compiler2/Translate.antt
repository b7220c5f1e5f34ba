-- ===== src/Compiler2/Translate.antt =====
-- pipeline/compilers/compiler2.py, `_split_if_then_else`, `_translate_basic`,
-- `_strip_enclosing_parens` and `translate_expr`. The four substitutions of words are one pass: each
-- replaces whole words by text without letters.
use Prim.Native.Char.{Char, code}
use Prim.Native.String.{◌++◌}
use agentic_rtl_engine.Prelude.{
  ℕ, zero, suc, ◌+◌, ◌-◌, String, Bool, not, ◌&&◌, ◌||◌, Option, none, some, ◌==◌, if◌then◌else◌,
  str_eq,
}
use agentic_rtl_engine.Expr.Lexer.{char_count}
use agentic_rtl_engine.Bridge.{strip, starts_with}
use agentic_rtl_engine.Compiler2.Text.{
  behind, with_char, drop_spaces, replace_from, replace_literal, change_words,
}

-- The texts before and behind a first keyword at depth 0; the depth is the parentheses opened less
-- those closed.
unfoldable pub cut_at : String → ℕ → ℕ → String → Option (String × String)
unfolding behind with_char
cut_at keyword opened closed String.[] = none
cut_at keyword opened closed (String.◌∷◌ c s) =
    let inner = with_char c (cut_at keyword (opened + 1) closed s) in
    let outer = with_char c (cut_at keyword opened (closed + 1) s) in
    let later = with_char c (cut_at keyword opened closed s) in
    let here : Option (String × String) = elim (behind keyword (String.◌∷◌ c s)) [
      | none ↦ later
      | some rest ↦ some ("", rest)
    ] in
    if code c == b'('
    then inner
    else if code c == b')'
    then outer
    else if opened == closed
    then here
    else later

unfoldable pub split_if_then_else : String → Option (String × String × String)
unfolding behind cut_at strip
split_if_then_else text = elim (behind "IF " text) [
  | none ↦ none
  | some rest ↦ elim (cut_at " THEN " 0 0 rest) [
    | none ↦ none
    | some (cond, after_then) ↦ elim (cut_at " ELSE " 0 0 after_then) [
      | none ↦ none
      | some (then_val, else_val) ↦ some (strip cond, strip then_val, strip else_val)
    ]
  ]
]

unfoldable pub verilog_word : String → String
verilog_word w =
    if str_eq w "AND"
    then "&&"
    else if str_eq w "OR"
    then "||"
    else if str_eq w "NOT"
    then "!"
    else if str_eq w "mod"
    then "%"
    else w

-- `<<\s*>>`
unfoldable pub count_empty_sequence : String → ℕ
unfolding behind drop_spaces char_count
count_empty_sequence s = elim (behind "<<" s) [
  | none ↦ 0
  | some inner ↦ elim (behind ">>" (drop_spaces inner)) [
    | none ↦ 0
    | some rest ↦ char_count s - char_count rest
  ]
]

-- `(?<![!<>=])=(?!=)` becomes `==`; `before` is the character before the text, 0 where none is.
unfoldable pub is_relational : ℕ → Bool
is_relational c = c == b'!' || (c == b'<' || (c == b'>' || c == b'='))

unfoldable pub double_equals : ℕ → String → String
unfolding is_relational starts_with
double_equals before String.[] = String.[]
double_equals before (String.◌∷◌ c s) =
    let rest = String.◌∷◌ c (double_equals (code c) s) in
    if code c == b'=' && not (is_relational before || starts_with "=" s)
    then String.◌∷◌ c rest
    else rest

unfoldable pub formal_only : String
formal_only = "/* FORMAL_ONLY */"

unfoldable pub translate_symbols : String → String
unfolding replace_from replace_literal change_words count_empty_sequence formal_only verilog_word
    double_equals
translate_symbols e = double_equals 0 (
    replace_literal "/=" "!=" (
      replace_literal "~" "!" (
        replace_literal "\\/" "||" (
          replace_literal "/\\" "&&"
            (change_words verilog_word (replace_from count_empty_sequence formal_only 0 e))))))

unfoldable pub translate_basic : String → String
unfolding strip starts_with formal_only translate_symbols
translate_basic expr =
    let e = strip expr in
    if starts_with "Append(" e || (str_eq e "<< >>" || str_eq e "<<>>")
    then formal_only
    else translate_symbols e

-- The text inside one pair of parentheses that the text begins and ends with; `depth` are open.
unfoldable pub char_before : Char → Option String → Option String
char_before c none = none
char_before c (some s) = some (String.◌∷◌ c s)

unfoldable pub inside_from : ℕ → String → Option String
unfolding char_before
inside_from depth String.[] = none
inside_from depth (String.◌∷◌ c s) =
    let inner = char_before c (inside_from (depth + 1) s) in
    let outer = char_before c (inside_from (depth - 1) s) in
    let later = char_before c (inside_from depth s) in
    let closed : Option String = if str_eq s "" then some "" else none in
    if code c == b'('
    then inner
    else if code c == b')'
    then (if depth == 1 then closed else outer)
    else later

unfoldable pub strip_enclosing_parens : String → Option String
unfolding behind inside_from
strip_enclosing_parens expr = elim (behind "(" expr) [ none ↦ none | some s ↦ inside_from 1 s ]

unfoldable pub inner_conditional : String → Option String
unfolding strip_enclosing_parens strip starts_with
inner_conditional expr = elim (strip_enclosing_parens expr) [
  | none ↦ none
  | some inner ↦ if starts_with "IF " (strip inner) then some inner else none
]

unfoldable pub ternary : String → String → String → String
ternary c t e = "(" ++ (c ++ (") ? (" ++ (t ++ (") : (" ++ (e ++ ")")))))

-- `translate_expr`, on fuel: the characters of the text are enough.
unfoldable pub translate_expr_from : ℕ → String → String
unfolding split_if_then_else inner_conditional translate_basic ternary strip
translate_expr_from zero expr = translate_basic expr
translate_expr_from (suc f) expr = elim (split_if_then_else (strip expr)) [
  | some (cond, then_val, else_val) ↦
      ternary (translate_basic cond) (translate_expr_from f then_val)
        (translate_expr_from f else_val)
  | none ↦ elim (inner_conditional (strip expr)) [
    | none ↦ translate_basic (strip expr)
    | some inner ↦ "(" ++ (translate_expr_from f inner ++ ")")
  ]
]

unfoldable pub translate_expr : String → String
unfolding translate_expr_from char_count
translate_expr expr = translate_expr_from (char_count expr) expr

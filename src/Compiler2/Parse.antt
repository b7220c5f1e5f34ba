-- ===== src/Compiler2/Parse.antt =====
-- pipeline/compilers/compiler2.py: `_extract_block`, `_join_conjuncts`, `parse_combinational`,
-- `_split_reset_else`, `_parse_assignments` and `parse_sequential`. Text is ASCII.
use Prim.Native.Char.{code}
use Prim.Native.String.{◌++◌}
use agentic_rtl_engine.Prelude.{
  String, Bool, false, not, ◌&&◌, ◌||◌, Option, none, some, List, [], ◌∷◌, map, ◌==◌, if◌then◌else◌,
  str_eq,
}
use agentic_rtl_engine.Expr.Lexer.{is_word, span}
use agentic_rtl_engine.Bridge.{strip, strip_end, starts_with}
use agentic_rtl_engine.Compiler2.{base_name, is_emitted}
use agentic_rtl_engine.Compiler2.Text.{
  split_lines, join_lines, behind, drop_spaces, begins_space, comment_free,
}
use agentic_rtl_engine.Compiler2.Translate.{translate_expr}

unfoldable pub begins_word : String → Bool
begins_word String.[] = false
begins_word (String.◌∷◌ c s) = is_word (code c)

-- The shortest text before a line that begins with a word or with `====`, or before the end.
unfoldable pub block_body : String → String
unfolding begins_word starts_with
block_body String.[] = String.[]
block_body (String.◌∷◌ c s) =
    let rest = block_body s in
    if code c == 10 && (begins_word s || starts_with "====" s) then String.[] else String.◌∷◌ c rest

-- The text behind `name\s*==\s*`.
unfoldable pub behind_equals : Option String → Option String
unfolding behind drop_spaces
behind_equals none = none
behind_equals (some s) = elim (behind "==" (drop_spaces s)) [
  | none ↦ none
  | some body ↦ some (drop_spaces body)
]

unfoldable pub extract_block : String → String → Option String
unfolding behind behind_equals block_body
extract_block name String.[] = none
extract_block name (String.◌∷◌ c s) = elim (behind_equals (behind name (String.◌∷◌ c s))) [
  | none ↦ extract_block name s
  | some body ↦ some (block_body body)
]

-- A line without its comment and the space around it.
unfoldable pub clean_line : String → String
unfolding comment_free strip strip_end
clean_line line = strip (strip_end (comment_free line))

-- The loop of `_join_conjuncts`.
unfoldable pub join_from : String → List String → List String
unfolding clean_line starts_with
join_from current [] = if str_eq current "" then [] else current ∷ []
join_from current (raw_line ∷ lines) =
    let stripped = clean_line raw_line in
    let skipped = join_from current lines in
    let first = join_from stripped lines in
    let longer = join_from (current ++ (" " ++ stripped)) lines in
    if str_eq stripped ""
    then skipped
    else if starts_with "/\\" stripped
    then (if str_eq current "" then first else current ∷ first)
    else if str_eq current ""
    then skipped
    else longer

unfoldable pub join_conjuncts : String → List String
unfolding join_from split_lines
join_conjuncts text = join_from "" (split_lines text)

-- `(?:\[[^\]]*\])?`: an index, and the text behind it.
unfoldable pub closed_index : String × String → Option (String × String)
closed_index (inner, String.[]) = none
closed_index (inner, String.◌∷◌ c s) = some ("[" ++ (inner ++ "]"), s)

unfoldable pub read_index : String → Option (String × String)
unfolding behind span closed_index
read_index s = elim (behind "[" s) [
  | none ↦ some ("", s)
  | some inner ↦ closed_index (span (λ c. not (c == b']')) inner)
]

-- `\w+(?:\[[^\]]*\])?`
unfoldable pub read_lhs : String → Option (String × String)
unfolding span read_index
read_lhs s =
    let found = span is_word s in
    if str_eq found.0 "" then none else elim (read_index found.1) [
      | none ↦ none
      | some (index, rest) ↦ some (found.0 ++ index, rest)
    ]

-- `'\s*=\s*(.*)`, stripped.
unfoldable pub read_primed : String → Option String
unfolding behind drop_spaces strip
read_primed s = elim (behind "'" s) [
  | none ↦ none
  | some rest ↦ elim (behind "=" (drop_spaces rest)) [ none ↦ none | some expr ↦ some (strip expr) ]
]

-- The target and the expression of a conjunct.
unfoldable pub read_assigned : Option (String × String) → Option (String × String)
unfolding read_primed
read_assigned none = none
read_assigned (some (var, rest)) = elim (read_primed rest) [
  | none ↦ none
  | some expr ↦ some (var, expr)
]

unfoldable pub read_conjunct : String → Option (String × String)
unfolding behind drop_spaces read_lhs read_assigned
read_conjunct conj = elim (behind "/\\" conj) [
  | none ↦ none
  | some s ↦ read_assigned (read_lhs (drop_spaces s))
]

-- The conjuncts that assign a target which passes the test.
unfoldable pub read_all : (String → Bool) → List String → List (String × String)
unfolding read_conjunct
read_all test [] = []
read_all test (conj ∷ conjuncts) = elim (read_conjunct conj) [
  | none ↦ read_all test conjuncts
  | some (var, expr) ↦
      let rest = read_all test conjuncts in if test var then (var, expr) ∷ rest else rest
]

-- The targets and the translated expressions of `parse_combinational`.
unfoldable pub parse_combinational : String → String → List (String × String)
unfolding extract_block join_conjuncts read_all is_emitted base_name translate_expr
parse_combinational reset_port tla = elim (extract_block "CombinationalLogic" tla) [
  | none ↦ []
  | some block ↦
      map (λ a. (a.0, translate_expr a.1))
        (read_all (λ v. is_emitted reset_port (base_name v)) (join_conjuncts block))
]

unfoldable pub parse_assignments : String → String → List (String × String)
unfolding join_conjuncts read_all is_emitted base_name
parse_assignments reset_port text =
    read_all (λ v. is_emitted reset_port (base_name v) && not (str_eq (base_name v) "clk"))
      (join_conjuncts text)

-- `/\\\s*IF\s+{reset_port}\s*` at the start of a line.
unfoldable pub is_reset_if : String → String → Bool
unfolding behind drop_spaces begins_space starts_with
is_reset_if reset_port stripped = elim (behind "/\\" stripped) [
  | none ↦ false
  | some s ↦ elim (behind "IF" (drop_spaces s)) [
    | none ↦ false
    | some rest ↦ begins_space rest && starts_with reset_port (drop_spaces rest)
  ]
]

-- The loop of `_split_reset_else`: the lines of the THEN part and the others.
unfoldable pub split_from : String → Bool → List String → List String × List String
unfolding comment_free strip_end strip is_reset_if
split_from reset_port in_then [] = ([], [])
split_from reset_port in_then (line ∷ lines) =
    let clean = strip_end (comment_free line) in
    let stripped = strip clean in
    let same = split_from reset_port in_then lines in
    let other = split_from reset_port (not in_then) lines in
    if str_eq stripped ""
    then same
    else if not in_then && is_reset_if reset_port stripped
    then other
    else if in_then && str_eq stripped "ELSE"
    then other
    else if in_then
    then (clean ∷ same.0, same.1)
    else (same.0, clean ∷ same.1)

unfoldable pub split_reset_else : String → String → String × String
unfolding split_from split_lines join_lines
split_reset_else reset_port block =
    let parts = split_from reset_port false (split_lines block) in
    (join_lines parts.0, join_lines parts.1)

-- The assignments under the reset and the others.
unfoldable pub parse_sequential : String → String → List (String × String) × List (String × String)
unfolding extract_block split_reset_else parse_assignments
parse_sequential reset_port tla = elim (extract_block "UpdatePipeline" tla) [
  | none ↦ ([], [])
  | some block ↦
      let parts = split_reset_else reset_port block in
      (parse_assignments reset_port parts.0, parse_assignments reset_port parts.1)
]

-- The names that assignments drive.
unfoldable pub bases : List (String × String) → List String
unfolding base_name
bases assigns = map (λ a. base_name a.0) assigns

-- ===== src/Compiler2/Variables.antt =====
-- pipeline/compilers/compiler2.py, `extract_variables` and `_range`.
use Prim.Native.Char.{code}
use Prim.Native.String.{◌++◌}
use agentic_rtl_engine.Prelude.{
  ℕ, ◌-◌, String, Bool, false, not, ◌&&◌, ◌||◌, Option, none, some, List, [], ◌∷◌, leb, ◌==◌,
  if◌then◌else◌, str_eq,
}
use agentic_rtl_engine.Prelude.Decimal.{decimal}
use agentic_rtl_engine.Prelude.Dict.{Dict, get, put}
use agentic_rtl_engine.Expr.Lexer.{is_digit, is_word, span, to_int}
use agentic_rtl_engine.Bridge.{is_space, starts_with}
use agentic_rtl_engine.Compiler2.{CompilerState, is_fixed_input}
use agentic_rtl_engine.Compiler2.Text.{
  split_on, split_lines, behind, drop_spaces, begins_space, comment_free, words, replace_blocks,
}

-- `\s*\w+\s*==` or `={4,}` at the start of a line.
unfoldable pub begins_section : String → Bool
unfolding span drop_spaces starts_with
begins_section s =
    let found = span is_word (drop_spaces s) in
    (not (str_eq found.0 "") && starts_with "==" (drop_spaces found.1)) || starts_with "====" s

unfoldable pub section_body : String → String
unfolding begins_section
section_body String.[] = String.[]
section_body (String.◌∷◌ c s) =
    let rest = section_body s in
    if code c == 10 && begins_section s then String.[] else String.◌∷◌ c rest

-- The text behind `VARIABLES\s+` up to the next definition.
unfoldable pub behind_variables : String → Option String
unfolding behind begins_space section_body drop_spaces
behind_variables s = elim (behind "VARIABLES" s) [
  | none ↦ none
  | some rest ↦ if begins_space rest then some (section_body (drop_spaces rest)) else none
]

unfoldable pub variables_section : String → Option String
unfolding behind_variables
variables_section String.[] = none
variables_section (String.◌∷◌ c s) = elim (behind_variables (String.◌∷◌ c s)) [
  | none ↦ variables_section s
  | some raw ↦ some raw
]

-- `\s*(\d+)`, as a number.
unfoldable pub read_number : Option String → Option ℕ
unfolding span drop_spaces to_int
read_number none = none
read_number (some s) =
    let digits = (span is_digit (drop_spaces s)).0 in
    if str_eq digits "" then none else some (to_int 0 digits)

-- `re.search(r"\\\*\s*width:\s*(\d+)", line)`
unfoldable pub width_at : String → Option ℕ
unfolding behind drop_spaces read_number
width_at s = elim (behind "\\*" s) [
  | none ↦ none
  | some note ↦ read_number (behind "width:" (drop_spaces note))
]

unfoldable pub find_width : String → Option ℕ
unfolding width_at
find_width String.[] = none
find_width (String.◌∷◌ c s) = elim (width_at (String.◌∷◌ c s)) [
  | none ↦ find_width s
  | some w ↦ some w
]

-- `re.search(r"\bdepth:\s*(\d+)", line)`, from a place behind a word's character or not.
unfoldable pub find_depth : Bool → String → Option ℕ
unfolding behind read_number
find_depth in_word String.[] = none
find_depth in_word (String.◌∷◌ c s) =
    let later = find_depth (is_word (code c)) s in
    let here : Option ℕ = elim (read_number (behind "depth:" (String.◌∷◌ c s))) [
      | none ↦ later
      | some d ↦ some d
    ] in
    if in_word then later else here

unfoldable pub put_found : String → Option ℕ → Dict ℕ → Dict ℕ
unfolding put
put_found name none d = d
put_found name (some n) d = put name n d

-- The loop over the lines: the widths and the depths.
unfoldable pub read_sizes : List String → Dict ℕ → Dict ℕ → Dict ℕ × Dict ℕ
unfolding find_width find_depth words comment_free put put_found
read_sizes [] widths depths = (widths, depths)
read_sizes (line ∷ lines) widths depths = elim (find_width line) [
  | none ↦ read_sizes lines widths depths
  | some w ↦ elim (words (comment_free line)) [
    | [] ↦ read_sizes lines widths depths
    | name ∷ more ↦
        read_sizes lines (put name w widths) (put_found name (find_depth false line) depths)
  ]
]

unfoldable pub is_name : String → Bool
unfolding span
is_name s = not (str_eq s "") && str_eq (span is_word s).1 ""

unfoldable pub keep_names : List String → List String
unfolding is_name
keep_names [] = []
keep_names (piece ∷ pieces) =
    let rest = keep_names pieces in if is_name piece then piece ∷ rest else rest

unfoldable pub section_names : String → List String
unfolding keep_names split_on replace_blocks comment_free
section_names raw = keep_names (
    split_on (λ c. is_space c || c == b',')
      (replace_blocks "(*" "*)" (λ inner. "") (comment_free raw)))

-- `extract_variables`: the names, the widths and the depths.
unfoldable pub extract_variables : String → List String × Dict ℕ × Dict ℕ
unfolding variables_section read_sizes split_lines section_names
extract_variables tla = elim (variables_section tla) [
  | none ↦ ([], [], [])
  | some raw ↦
      let sizes = read_sizes (split_lines raw) [] [] in (section_names raw, sizes.0, sizes.1)
]

-- `_range`
unfoldable pub range_of : Option ℕ → String
unfolding decimal
range_of none = ""
range_of (some w) = if leb w 1 then "" else "[" ++ (decimal (w - 1) ++ ":0] ")

unfoldable pub bit_range : CompilerState → String → String
unfolding is_fixed_input range_of get
bit_range g v = if is_fixed_input g.reset_port v then "" else range_of (get v g.widths)

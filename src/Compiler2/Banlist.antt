-- ===== src/Compiler2/Banlist.antt =====
-- pipeline/compilers/compiler2.py, `_BANLIST`, `_strip_comments` and `verify_banlist`. The order of
-- the entries chooses the text of the exception, which is left out.
use Prim.Native.Char.{code}
use agentic_rtl_engine.Prelude.{
  String, Bool, true, false, ◌&&◌, ◌||◌, List, [], ◌∷◌, ◌==◌, if◌then◌else◌,
}
use agentic_rtl_engine.Prelude.Dict.{contains}
use agentic_rtl_engine.Prelude.Result.{Result, raises, ok, value_error}
use agentic_rtl_engine.Expr.Lexer.{is_digit, is_word}
use agentic_rtl_engine.Bridge.{starts_with}
use agentic_rtl_engine.Compiler2.Text.{drop_spaces, words, replace_blocks}

-- The newlines of a text.
unfoldable pub newlines : String → String
newlines String.[] = String.[]
newlines (String.◌∷◌ c s) =
    let rest = newlines s in if code c == 10 then String.◌∷◌ c rest else rest

-- `re.sub(r"//[^\n]*", "", text)`, from a place inside or outside a comment.
unfoldable pub drop_line_comments : Bool → String → String
unfolding starts_with
drop_line_comments inside String.[] = String.[]
drop_line_comments true (String.◌∷◌ c s) =
    let behind_line = String.◌∷◌ c (drop_line_comments false s) in
    let later = drop_line_comments true s in if code c == 10 then behind_line else later
drop_line_comments false (String.◌∷◌ c s) =
    let skipped = drop_line_comments true s in
    let kept = String.◌∷◌ c (drop_line_comments false s) in
    if starts_with "//" (String.◌∷◌ c s) then skipped else kept

unfoldable pub strip_comments : String → String
unfolding drop_line_comments replace_blocks newlines
strip_comments verilog = drop_line_comments false (replace_blocks "/*" "*/" newlines verilog)

abbrev pub banned_words : List String
banned_words =
    "logic" ∷ "always_ff" ∷ "always_comb" ∷ "always_latch" ∷ "interface" ∷ "modport" ∷ "typedef"
    ∷ "initial" ∷ "IF" ∷ "THEN" ∷ "ELSE" ∷ "IN" ∷ "LET" ∷ "CASE" ∷ "FORMAL_ONLY" ∷ []

unfoldable pub any_banned : List String → Bool
unfolding contains
any_banned [] = false
any_banned (w ∷ ws) = contains w banned_words || any_banned ws

unfoldable pub first_passes : Bool → String → Bool
first_passes digit String.[] = false
first_passes true (String.◌∷◌ c s) = is_digit (code c)
first_passes false (String.◌∷◌ c s) = is_word (code c)

-- `#\s*\d` and `\$\w+`
unfoldable pub has_symbol : String → Bool
unfolding first_passes drop_spaces
has_symbol String.[] = false
has_symbol (String.◌∷◌ c s) =
    (code c == b'#' && first_passes true (drop_spaces s))
    || (code c == b'$' && first_passes false s)
    || has_symbol s

unfoldable pub is_banned : String → Bool
unfolding strip_comments any_banned words has_symbol
is_banned verilog =
    let stripped = strip_comments verilog in any_banned (words stripped) || has_symbol stripped

-- `verify_banlist`: a BanlistViolation is a ValueError.
unfoldable pub verify_banlist : String → Result {0} Unit
unfolding is_banned
verify_banlist verilog = if is_banned verilog then raises value_error else ok tt

-- ===== src/Bridge/LeftSide.antt =====
-- pipeline/refinement/bridge.py, `_INDEXED_LHS_RE` and `_lhs_base`: the left side of an update. An
-- index that is white space is one space.
use Prim.Native.Char.{code}
use agentic_rtl_engine.Prelude.{
  String, Bool, false, ◌||◌, Option, none, some, ◌==◌, if◌then◌else◌, str_eq,
}
use agentic_rtl_engine.Expr.Lexer.{is_letter, is_word, span}
use agentic_rtl_engine.Bridge.{strip}

-- The text before a last `]`.
unfoldable pub before_bracket : String → Option String
before_bracket String.[] = none
before_bracket (String.◌∷◌ c s) =
    let rest = before_bracket s in
    let longer : Option String = elim rest [ none ↦ none | some t ↦ some (String.◌∷◌ c t) ] in
    if str_eq s "" then (if code c == b']' then some "" else none) else longer

unfoldable pub has_break : String → Bool
has_break String.[] = false
has_break (String.◌∷◌ c s) = (code c == 10) || has_break s

unfoldable pub index_of : String → Option String
unfolding strip has_break
index_of inner =
    if str_eq inner ""
    then none
    else if str_eq (strip inner) ""
    then some " "
    else if has_break (strip inner)
    then none
    else some (strip inner)

unfoldable pub behind_base : String → Option String
unfolding strip index_of before_bracket
behind_base String.[] = none
behind_base (String.◌∷◌ c s) =
    let index : Option String = elim (before_bracket s) [
      | none ↦ none
      | some inner ↦ index_of inner
    ] in
    if code c == b'[' then index else none

-- `_INDEXED_LHS_RE.match(lhs.strip())`: the base and the index.
unfoldable pub split_stripped : String → Option (String × String)
unfolding span strip behind_base
split_stripped String.[] = none
split_stripped (String.◌∷◌ c s) =
    let found = span is_word s in
    let parts : Option (String × String) = elim (behind_base (strip found.1)) [
      | none ↦ none
      | some index ↦ some (String.◌∷◌ c found.0, index)
    ] in
    if is_letter (code c) then parts else none

unfoldable pub split_lhs : String → Option (String × String)
unfolding split_stripped strip
split_lhs lhs = split_stripped (strip lhs)

-- `_lhs_base`
unfoldable pub lhs_base : String → String
unfolding split_lhs strip
lhs_base lhs = elim (split_lhs lhs) [ none ↦ strip lhs | some (base, index) ↦ base ]

-- ===== src/Rules/IfChain.antt =====
-- pipeline/refinement/rules/schedule_handshake_fsm.py: `_subst`, `_top_kw` and `_parse_if_chain`,
-- on the text of an expression. An index is the number of the characters before it.
use Prim.Native.Char.{code}
use Prim.Native.String.{◌++◌}
use agentic_rtl_engine.Prelude.{
  ℕ, zero, suc, ◌+◌, ◌-◌, String, ◌&&◌, Option, none, some, List, [], ◌∷◌, ltb, ◌==◌, if◌then◌else◌,
}
use agentic_rtl_engine.Prelude.Dict.{Dict, get}
use agentic_rtl_engine.Expr.Lexer.{is_letter, is_word, span, char_count}
use agentic_rtl_engine.Bridge.{strip, starts_with}

-- `e[:n]` and `e[n:]`
unfoldable pub take : ℕ → String → String
take zero s = String.[]
take (suc n) String.[] = String.[]
take (suc n) (String.◌∷◌ c s) = String.◌∷◌ c (take n s)

unfoldable pub drop : ℕ → String → String
drop zero s = s
drop (suc n) String.[] = String.[]
drop (suc n) (String.◌∷◌ c s) = drop n s

-- `_subst`, on fuel: the characters of the text are enough.
unfoldable pub replacement : Dict String → String → String
replacement mapping name = elim (get name mapping) [ none ↦ name | some e ↦ "(" ++ (e ++ ")") ]

unfoldable pub subst_from : ℕ → Dict String → String → String
unfolding span replacement
subst_from zero mapping s = String.[]
subst_from (suc f) mapping String.[] = String.[]
subst_from (suc f) mapping (String.◌∷◌ c s) =
    let found = span is_word s in
    let replaced = replacement mapping (String.◌∷◌ c found.0) ++ subst_from f mapping found.1 in
    let kept = String.◌∷◌ c (subst_from f mapping s) in
    if is_letter (code c) then replaced else kept

unfoldable pub subst_names : String → Dict String → String
unfolding subst_from char_count
subst_names expr mapping = subst_from (char_count expr) mapping expr

-- The loop of `_top_kw` from the index `i` on; the depth is the parentheses opened less those closed.
unfoldable pub top_keyword_from : String → ℕ → ℕ → ℕ → String → Option ℕ
unfolding starts_with
top_keyword_from target opened closed i String.[] = none
top_keyword_from target opened closed i (String.◌∷◌ c s) =
    let inner = top_keyword_from target (opened + 1) closed (i + 1) s in
    let outer = top_keyword_from target opened (closed + 1) (i + 1) s in
    let later = top_keyword_from target opened closed (i + 1) s in
    if code c == b'('
    then inner
    else if code c == b')'
    then outer
    else if opened == closed && starts_with target (String.◌∷◌ c s)
    then some i
    else later

unfoldable pub top_keyword : String → String → Option ℕ
unfolding top_keyword_from
top_keyword expr keyword = top_keyword_from (" " ++ (keyword ++ " ")) 0 0 0 expr

-- The places of THEN and ELSE, where both are found in this order.
unfoldable pub split_places : String → Option (ℕ × ℕ)
unfolding top_keyword
split_places e = elim (top_keyword e "THEN") [
  | none ↦ none
  | some t ↦ elim (top_keyword e "ELSE") [
    | none ↦ none
    | some l ↦ if ltb l t then none else some (t, l)
  ]
]

-- `_parse_if_chain`, on fuel: each round drops more characters than the three of IF.
unfoldable pub parse_if_chain_from : ℕ → String → List (String × String) × String
unfolding take drop split_places strip starts_with
parse_if_chain_from zero e = ([], e)
parse_if_chain_from (suc f) e =
    let chain : List (String × String) × String = elim (split_places e) [
      | none ↦ ([], e)
      | some (t, l) ↦
          let rest = parse_if_chain_from f (strip (drop (l + 6) e)) in
          (
            (strip (take (t - 3) (drop 3 e)), strip (take (l - (t + 6)) (drop (t + 6) e))) ∷ rest.0,
            rest.1,
          )
    ] in
    if starts_with "IF " e then chain else ([], e)

unfoldable pub parse_if_chain : String → List (String × String) × String
unfolding parse_if_chain_from char_count strip
parse_if_chain expr = parse_if_chain_from (char_count expr) (strip expr)

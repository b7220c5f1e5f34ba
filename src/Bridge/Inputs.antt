-- ===== src/Bridge/Inputs.antt =====
-- pipeline/refinement/bridge.py: `_scan_identifiers`, `_free_inputs`, `_infer_free_input_width` and
-- `_free_input_width`. A set is a list without doubles.
-- Widths and hints are unsigned: a negative one, which `max(1, int(w))` raises to 1 in a hint and
-- which an inferred width keeps, is left out.
use Prim.Native.Char.{code}
use agentic_rtl_engine.Prelude.{
  ℕ, zero, suc, String, Bool, false, ◌||◌, Option, none, some, List, [], ◌∷◌, ◌++◌, map, ltb, ◌==◌,
  if◌then◌else◌, str_eq,
}
use agentic_rtl_engine.Prelude.Dict.{Dict, get, update, contains}
use agentic_rtl_engine.Expr.Lexer.{is_letter, is_word, span, char_count}
use agentic_rtl_engine.Kernel.Domain.{insert_name}
use agentic_rtl_engine.Spec.{Action, Spec, width_or_one}
use agentic_rtl_engine.Bridge.{strip, drop_prime, action_update_exprs}

-- `_scan_identifiers`, on fuel: the characters of the text are enough.
unfoldable pub scan_from : ℕ → String → List String
unfolding span drop_prime
scan_from zero s = []
scan_from (suc f) String.[] = []
scan_from (suc f) (String.◌∷◌ c s) =
    let found = span is_word s in
    let rest : List String = elim (drop_prime found.1) [
      | none ↦ scan_from f found.1
      | some behind ↦ scan_from f behind
    ] in
    let later = scan_from f s in if is_letter (code c) then String.◌∷◌ c found.0 ∷ rest else later

unfoldable pub scan_identifiers : String → List String
unfolding scan_from char_count
scan_identifiers expr = scan_from (char_count expr) expr

-- `_RESERVED_IDENTIFIERS`
abbrev pub reserved_identifiers : List String
reserved_identifiers =
    "IF" ∷ "THEN" ∷ "ELSE" ∷ "TRUE" ∷ "FALSE" ∷ "UNCHANGED" ∷ "CASE" ∷ "OTHER" ∷ "LET" ∷ "IN"
    ∷ "AND" ∷ "OR" ∷ "NOT" ∷ "MODULE" ∷ "EXTENDS" ∷ "VARIABLES" ∷ "CONSTANTS" ∷ "CONSTANT"
    ∷ "VARIABLE" ∷ []

unfoldable pub scan_updates : Dict String → List String
unfolding scan_identifiers
scan_updates [] = []
scan_updates ((lhs, expr) ∷ updates) =
    scan_identifiers expr ++ (scan_identifiers lhs ++ scan_updates updates)

abbrev pub is_reset_named : Option String → String → Bool
is_reset_named none name = false
is_reset_named (some reset) name = str_eq name reset

-- The guard of an action that is not the reset, and every composed update.
unfoldable pub scan_action : Option String → Action → List String
unfolding scan_identifiers scan_updates action_update_exprs
scan_action reset a =
    let guard : List String = elim a.guard [ none ↦ [] | some g ↦ scan_identifiers g ] in
    let updates = scan_updates (action_update_exprs a) in
    if is_reset_named reset a.name then updates else guard ++ updates

unfoldable pub scan_actions : Option String → List Action → List String
unfolding scan_action
scan_actions reset [] = []
scan_actions reset (a ∷ actions) = scan_action reset a ++ scan_actions reset actions

unfoldable pub add_free : List String → List String → List String → List String
add_free declared [] free = free
add_free declared (n ∷ names) free =
    let skipped = add_free declared names free in
    let added = add_free declared names (n ∷ free) in
    if contains n declared || (contains n reserved_identifiers || contains n free)
    then skipped
    else added

unfoldable pub sort_names : List String → List String
unfolding insert_name
sort_names [] = []
sort_names (n ∷ names) = insert_name n (sort_names names)

-- `_free_inputs`
unfoldable pub free_inputs : Spec → List String → List String
unfolding scan_actions add_free sort_names
free_inputs s declared = sort_names (add_free declared (scan_actions s.reset_action s.actions) [])

-- The text before a last parenthesis, and a text without the parentheses around it: fuel as above.
unfoldable pub before_paren : String → Option String
before_paren String.[] = none
before_paren (String.◌∷◌ c s) =
    let rest : Option String = elim (before_paren s) [
      | none ↦ none
      | some t ↦ some (String.◌∷◌ c t)
    ] in
    if str_eq s "" then (if code c == b')' then some "" else none) else rest

unfoldable pub inner_text : String → Option String
unfolding before_paren
inner_text String.[] = none
inner_text (String.◌∷◌ c s) = if code c == b'(' then before_paren s else none

unfoldable pub strip_parens : ℕ → String → String
unfolding inner_text strip
strip_parens zero s = s
strip_parens (suc f) s = elim (inner_text s) [ none ↦ s | some t ↦ strip_parens f (strip t) ]

abbrev pub wider : ℕ → Option ℕ → Option ℕ
wider w none = some w
wider w (some best) = if ltb best w then some w else some best

-- The widest target whose whole right side is the name.
unfoldable pub widest_target : String → Dict ℕ → Dict String → Option ℕ → Option ℕ
unfolding strip_parens strip char_count
widest_target name widths [] best = best
widest_target name widths ((var, expr) ∷ updates) best =
    let fed : Option ℕ = elim (get var widths) [ none ↦ best | some w ↦ wider w best ] in
    widest_target name widths updates
      (if str_eq (strip_parens (char_count expr) (strip expr)) name then fed else best)

unfoldable pub widest_in : String → Dict ℕ → List Action → Option ℕ → Option ℕ
unfolding widest_target action_update_exprs
widest_in name widths [] best = best
widest_in name widths (a ∷ actions) best =
    widest_in name widths actions (widest_target name widths (action_update_exprs a) best)

-- `_infer_free_input_width`
unfoldable pub infer_free_input_width : String → Spec → Option ℕ
unfolding widest_in width_or_one
infer_free_input_width name s =
    widest_in name (update [] (map (λ v. (v.name, width_or_one v.width)) s.variables)) s.actions
      none

-- `_free_input_width`: a hint of 0 is none.
unfoldable pub inferred_or_one : Option ℕ → ℕ
inferred_or_one none = 1
inferred_or_one (some w) = w

unfoldable pub free_input_width : String → Spec → Dict ℕ → ℕ
unfolding infer_free_input_width inferred_or_one
free_input_width name s port_widths = elim (get name port_widths) [
  | none ↦ inferred_or_one (infer_free_input_width name s)
  | some zero ↦ inferred_or_one (infer_free_input_width name s)
  | some (suc w) ↦ suc w
]

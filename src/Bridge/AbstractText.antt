-- ===== src/Bridge/AbstractText.antt =====
-- pipeline/refinement/bridge.py, `engine_spec_to_abstract_tla` and `_tla_primed_update`: the text for
-- the model checker, as its lines. A name has no line break.
use Prim.Native.Char.{code}
use Prim.Native.String.{◌++◌, count}
use agentic_rtl_engine.Prelude.{
  ℕ, suc, ◌+◌, ◌*◌, String, Bool, true, false, ◌&&◌, none, some, List, [], ◌∷◌, map, if◌then◌else◌,
}
use mathlib.Core.List.{◌++◌ as append}
use agentic_rtl_engine.Prelude.Decimal.{decimal}
use agentic_rtl_engine.Prelude.Dict.{Dict, contains}
use agentic_rtl_engine.Prelude.Result.{Result, ok, raises, value_error}
use agentic_rtl_engine.Expr.Lexer.{is_letter, is_word}
use agentic_rtl_engine.Spec.{Action, Spec}
use agentic_rtl_engine.Bridge.{action_update_exprs, guard_or_true}
use agentic_rtl_engine.Bridge.LeftSide.{split_lhs, lhs_base}
use agentic_rtl_engine.Bridge.RtlText.{repeat_text}
use agentic_rtl_engine.Rules.{is_empty, variable_names}

-- `_tla_primed_update`
unfoldable pub tla_primed_update : String × String → String
unfolding split_lhs
tla_primed_update (lhs, expr) = elim (split_lhs lhs) [
  | none ↦ lhs ++ ("' = " ++ expr)
  | some (base, index) ↦
      base ++ ("' = [" ++ (base ++ (" EXCEPT ![" ++ (index ++ ("] = " ++ (expr ++ "]"))))))
]

-- `re.match(r"^[A-Za-z_]\w*$", name)`
unfoldable pub all_word : String → Bool
all_word String.[] = true
all_word (String.◌∷◌ c s) = is_word (code c) && all_word s

unfoldable pub is_identifier : String → Bool
unfolding all_word
is_identifier String.[] = false
is_identifier (String.◌∷◌ c s) = is_letter (code c) && all_word s

unfoldable pub joined : List String → String
joined [] = ""
joined (n ∷ []) = n
joined (n ∷ m ∷ names) = n ++ (", " ++ joined (m ∷ names))

unfoldable pub name_lines : List String → List String
name_lines [] = []
name_lines (n ∷ []) = ("    " ++ n) ∷ []
name_lines (n ∷ m ∷ names) = ("    " ++ (n ++ ",")) ∷ name_lines (m ∷ names)

-- The names that an action leaves as they are.
unfoldable pub updated_bases : Dict String → List String
unfolding lhs_base
updated_bases updates = map (λ kv. lhs_base kv.0) updates

unfoldable pub unchanged_names : List String → List String → List String
unchanged_names updated [] = []
unchanged_names updated (n ∷ names) =
    let rest = unchanged_names updated names in if contains n updated then rest else n ∷ rest

abbrev unchanged_line : List String → String
unchanged_line names = "    /\\ UNCHANGED <<" ++ (joined names ++ ">>")

unfoldable pub action_lines : List String → Action → List String
unfolding joined updated_bases unchanged_names tla_primed_update action_update_exprs guard_or_true
    is_empty
action_lines names a =
    let composed = action_update_exprs a in
    let unchanged = unchanged_names (updated_bases composed) names in
    let guard : String = elim a.guard [ none ↦ "TRUE" | some g ↦ guard_or_true g ] in
    append
      ((a.name ++ " ==")
        ∷ ("    /\\ " ++ guard)
        ∷ map (λ kv. "    /\\ " ++ tla_primed_update kv) composed)
      (if is_empty unchanged then "" ∷ [] else unchanged_line unchanged ∷ "" ∷ [])

unfoldable pub named_actions : List Action → List Action
unfolding is_identifier
named_actions [] = []
named_actions (a ∷ actions) =
    let rest = named_actions actions in if is_identifier a.name then a ∷ rest else rest

unfoldable pub all_action_lines : List String → List Action → List String
unfolding action_lines
all_action_lines names [] = []
all_action_lines names (a ∷ actions) =
    append (action_lines names a) (all_action_lines names actions)

unfoldable pub invariant_lines : ℕ → List String → List String
unfolding decimal
invariant_lines i [] = []
invariant_lines i (inv ∷ invariants) =
    ("Inv" ++ (decimal i ++ " ==")) ∷ ("    " ++ inv) ∷ "" ∷ invariant_lines (suc i) invariants

unfoldable pub cfg_lines : ℕ → List String → List String
unfolding decimal
cfg_lines i [] = []
cfg_lines i (inv ∷ invariants) = ("INVARIANT Inv" ++ decimal i) ∷ cfg_lines (suc i) invariants

-- `engine_spec_to_abstract_tla`, before the lines are joined: the module and its configuration.
unfoldable pub engine_spec_to_abstract_tla : Spec → String → Result (List String × List String)
unfolding name_lines named_actions all_action_lines invariant_lines cfg_lines joined repeat_text
    is_empty variable_names
engine_spec_to_abstract_tla s module_name =
    let names = variable_names s.variables in
    let actions = named_actions s.actions in
    let sep : String = "--------------------" in
    let header : List String =
      (sep ++ (" MODULE " ++ (module_name ++ (" " ++ sep)))) ∷ "EXTENDS Integers" ∷ "" ∷ [] in
    let declarations : List String = "VARIABLES" ∷ append (name_lines names) ("" ∷ []) in
    let init : List String = "Init ==" ∷ ("    /\\ " ++ s.init) ∷ "" ∷ [] in
    let stutter : List String = "Stutter ==" ∷ unchanged_line names ∷ "" ∷ [] in
    let action_names : List String =
      if is_empty actions then "Stutter" ∷ [] else map (λ a. a.name) actions in
    let next : List String =
      "Next ==" ∷ append (map (λ n. "    \\/ " ++ n) action_names) ("" ∷ []) in
    let lines = append header (
      append declarations (
        append init (
          append (if is_empty actions then stutter else all_action_lines names actions) (
            append next (
              append (invariant_lines 0 s.invariants)
                (repeat_text (20 * 2 + count module_name + 9) "=" ∷ [])))))) in
    if is_empty names
    then raises value_error
    else ok (lines, "INIT Init" ∷ "NEXT Next" ∷ cfg_lines 0 s.invariants)

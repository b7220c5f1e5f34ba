-- ===== src/Bridge.antt =====
-- pipeline/refinement/bridge.py: the composition of the updates of actions into one next-state
-- expression for each target.
pub mod LeftSide
pub mod Inputs
pub mod Declared
pub mod Mentions
pub mod RtlText
pub mod Signals
pub mod AbstractText
pub mod Drivers
pub mod Text
pub mod Priority
pub mod Forward
use Prim.Native.Char.{code}
use Prim.Native.String.{◌++◌}
use agentic_rtl_engine.Prelude.{
  ℕ, zero, suc, String, Bool, true, false, not, ◌&&◌, ◌||◌, Option, none, some, List, [], ◌∷◌, map,
  leb, ◌==◌, if◌then◌else◌, str_eq,
}
use mathlib.Core.List.{◌++◌ as append}
use agentic_rtl_engine.Prelude.Dict.{Dict, get, put, update, contains}
use agentic_rtl_engine.Spec.{ActionUpdate, Guarded, Action}
use agentic_rtl_engine.Expr.Lexer.{is_letter, is_word, span, char_count}

unfoldable pub update_lhs : ActionUpdate → String
update_lhs u = if str_eq u.index "" then u.variable else u.variable ++ ("[" ++ (u.index ++ "]"))

-- `str.strip`, over ASCII.
abbrev pub is_space : ℕ → Bool
is_space c = (leb 9 c && leb c 13) || (leb 28 c && leb c 32)

unfoldable pub strip_end : String → String
strip_end String.[] = String.[]
strip_end (String.◌∷◌ c s) =
    let rest = strip_end s in
    if is_space (code c) && str_eq rest "" then String.[] else String.◌∷◌ c rest

unfoldable pub strip : String → String
unfolding strip_end
strip String.[] = String.[]
strip (String.◌∷◌ c s) =
    let rest = strip s in if is_space (code c) then rest else strip_end (String.◌∷◌ c s)

-- `s.startswith("IF ")`
unfoldable pub starts_with : String → String → Bool
starts_with String.[] s = true
starts_with (String.◌∷◌ c p) String.[] = false
starts_with (String.◌∷◌ c p) (String.◌∷◌ d s) = code c == code d && starts_with p s

unfoldable pub then_value : String → String
unfolding strip starts_with
then_value v = if starts_with "IF " (strip v) then "(" ++ (v ++ ")") else v

-- `_nested_if`
unfoldable pub nested_if : List (String × String) → String → String
unfolding then_value
nested_if [] default = default
nested_if ((guard, value) ∷ clauses) default =
    "IF " ++ (guard ++ (" THEN " ++ (then_value value ++ (" ELSE " ++ nested_if clauses default))))

-- `_ordered_assigned_vars` on the left sides of the groups, behind those that are listed.
unfoldable pub first_seen : List String → List String → List String
first_seen seen [] = []
first_seen seen (v ∷ targets) =
    let rest = first_seen seen targets in
    let fresh = first_seen (v ∷ seen) targets in
    if str_eq v "" || contains v seen then rest else v ∷ fresh

unfoldable pub targets_of : List (List String) → List String
targets_of [] = []
targets_of (group ∷ groups) = append group (targets_of groups)

unfoldable pub ordered_assigned_vars : List (List String) → List String
unfolding first_seen targets_of
ordered_assigned_vars groups = first_seen [] (targets_of groups)

unfoldable pub lhs_groups : List Guarded → List (List String)
unfolding update_lhs
lhs_groups parts = map (λ p. map update_lhs p.updates) parts

-- `… or "TRUE"`
unfoldable pub guard_or_true : String → String
guard_or_true g = if str_eq g "" then "TRUE" else g

-- The first update of a target in a branch.
unfoldable pub assigned_in : String → List ActionUpdate → Option String
unfolding update_lhs
assigned_in var [] = none
assigned_in var (u ∷ updates) =
    if str_eq (update_lhs u) var then some u.expression else assigned_in var updates

unfoldable pub branch_clauses : String → List Guarded → List (String × String)
unfolding assigned_in guard_or_true
branch_clauses var [] = []
branch_clauses var (branch ∷ branches) = elim (assigned_in var branch.updates) [
  | none ↦ branch_clauses var branches
  | some e ↦ (guard_or_true branch.guard, e) ∷ branch_clauses var branches
]

unfoldable pub alternation_exprs : List Guarded → Dict String
unfolding branch_clauses nested_if ordered_assigned_vars lhs_groups
alternation_exprs branches =
    map (λ var. (var, nested_if (branch_clauses var branches) var))
      (ordered_assigned_vars (lhs_groups branches))

-- `_substitute_idents`, on fuel: the characters of the text are enough.
unfoldable pub drop_prime : String → Option String
drop_prime String.[] = none
drop_prime (String.◌∷◌ c s) = if code c == 39 then some s else none

unfoldable pub splice : Dict String → String → String → String
splice subst name token = elim (get name subst) [ none ↦ token | some e ↦ e ]

unfoldable pub substitute_from : ℕ → Dict String → String → String
unfolding span drop_prime splice
substitute_from zero subst s = String.[]
substitute_from (suc f) subst String.[] = String.[]
substitute_from (suc f) subst (String.◌∷◌ c s) =
    let found = span is_word s in
    let name = String.◌∷◌ c found.0 in
    let replaced : String = elim (drop_prime found.1) [
      | none ↦ splice subst name name ++ substitute_from f subst found.1
      | some rest ↦ splice subst name (name ++ "'") ++ substitute_from f subst rest
    ] in
    let kept = String.◌∷◌ c (substitute_from f subst s) in
    if is_letter (code c) then replaced else kept

unfoldable pub substitute_idents : String → Dict String → String
unfolding substitute_from char_count
substitute_idents expr subst = substitute_from (char_count expr) subst expr

abbrev pub held : Dict String → String → String
held running var = elim (get var running) [ none ↦ var | some e ↦ e ]

-- One update of a step, over the running next-state expressions.
unfoldable pub run_update : String → ActionUpdate → Dict String → Dict String
unfolding update_lhs substitute_idents
run_update guard u running =
    let var = update_lhs u in
    let parenthesised = map (λ kv. (kv.0, "(" ++ (kv.1 ++ ")"))) running in
    let new_expr = substitute_idents u.expression parenthesised in
    let gated = "IF " ++ (guard ++ (" THEN " ++ (new_expr ++ (" ELSE " ++ held running var)))) in
    if str_eq var ""
    then running
    else if str_eq guard "TRUE"
    then put var new_expr running
    else put var gated running

unfoldable pub run_updates : String → List ActionUpdate → Dict String → Dict String
unfolding run_update
run_updates guard [] running = running
run_updates guard (u ∷ updates) running = run_updates guard updates (run_update guard u running)

unfoldable pub run_steps : List Guarded → Dict String → Dict String
unfolding run_updates guard_or_true
run_steps [] running = running
run_steps (step ∷ steps) running =
    run_steps steps (run_updates (guard_or_true step.guard) step.updates running)

-- `[(var, running[var]) for var in var_order]`; a target that no step assigned would be itself.
unfoldable pub sequential_exprs : List Guarded → Dict String
unfolding run_steps ordered_assigned_vars lhs_groups
sequential_exprs steps =
    let running = run_steps steps [] in
    map (λ var. (var, held running var)) (ordered_assigned_vars (lhs_groups steps))

unfoldable pub action_update_exprs : Action → Dict String
unfolding alternation_exprs sequential_exprs update_lhs
action_update_exprs a = elim a.branches [
  | [] ↦ elim a.sequential_steps [
    | [] ↦ map (λ u. (update_lhs u, u.expression)) a.updates
    | step ∷ steps ↦ sequential_exprs a.sequential_steps
  ]
  | branch ∷ branches ↦ alternation_exprs a.branches
]

unfoldable pub guard_text : Option String → String
unfolding strip guard_or_true
guard_text none = "TRUE"
guard_text (some g) = guard_or_true (strip (guard_or_true g))

-- Each action's guard and its expressions, the last one for a target that it lists twice.
unfoldable pub per_action : List Action → List (String × Dict String)
unfolding guard_text action_update_exprs
per_action [] = []
per_action (a ∷ actions) =
    (guard_text a.guard, update [] (action_update_exprs a)) ∷ per_action actions

unfoldable pub clauses_for : String → List (String × Dict String) → List (String × String)
clauses_for var [] = []
clauses_for var ((guard, updates) ∷ actions) = elim (get var updates) [
  | none ↦ clauses_for var actions
  | some e ↦
      let rest = clauses_for var actions in if str_eq guard "TRUE" then rest else (guard, e) ∷ rest
]

-- The first unconditional write, else the target itself.
unfoldable pub default_for : String → List (String × Dict String) → String
default_for var [] = var
default_for var ((guard, updates) ∷ actions) = elim (get var updates) [
  | none ↦ default_for var actions
  | some e ↦ let rest = default_for var actions in if str_eq guard "TRUE" then e else rest
]

unfoldable pub next_state : List Action → String → String
unfolding per_action clauses_for default_for nested_if
next_state actions var =
    let indexed = per_action actions in
    nested_if (clauses_for var indexed) (default_for var indexed)

abbrev pub written_by : List Action → List (List String)
written_by actions = map (λ a. map (λ kv. kv.0) (action_update_exprs a)) actions

-- `_compose_clocked_actions`
unfoldable pub compose_clocked_actions : List Action → Dict String
unfolding next_state ordered_assigned_vars
compose_clocked_actions actions =
    map (λ var. (var, next_state actions var)) (ordered_assigned_vars (written_by actions))

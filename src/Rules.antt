-- ===== src/Rules.antt =====
-- pipeline/refinement/rules/: the refinement rules, with a module for each, and the termination
-- check of pipeline/refinement/engine.py. A rule copies the spec that it is given, so `apply` is a
-- function of it. Parameters of another type than the rule's doc names are not modelled.
pub mod Initialization
pub mod Iteration
pub mod SequentialComposition
pub mod Assignment
pub mod Alternation
pub mod IntroduceVariable
pub mod LoopIntroduction
pub mod IfChain
pub mod ScheduleHandshakeFsm
pub mod Registry
pub mod Inversion
pub mod Installed
pub mod Names
pub mod Audits
pub mod Pass
pub mod Again
pub mod Formal
use Prim.Native.Char.{code}
use agentic_rtl_engine.Prelude.{
  ℕ, String, Bool, true, false, not, ◌&&◌, ◌||◌, Option, none, some, List, [], ◌∷◌, ◌++◌, map, ◌==◌,
  if◌then◌else◌, str_eq,
}
use agentic_rtl_engine.Prelude.Result.{Result, ok, raises, key_error, ◌>>=◌}
use agentic_rtl_engine.Prelude.Dict.{Dict, contains}
use agentic_rtl_engine.Spec.{Variable, ActionUpdate, Guarded, Action, Spec}
use agentic_rtl_engine.Bridge.{strip, starts_with}

pub record FreshVariable : Type 0 where
  pub name : String
  pub width : Option ℕ
  pub type : Option String
  pub reset_value : Option String

-- The keys of `params` that some rule reads.
pub record Params : Type 0 where
  pub action_name : Option String
  pub reset_values : Option (Dict String)
  pub reset_action_name : Option String
  pub steps : Option (List Guarded)
  pub updates : Option (List ActionUpdate)
  pub branches : Option (List Guarded)
  pub name : Option String
  pub type : Option String
  pub abstract : Option Bool
  pub reset_value : Option String
  pub width : Option ℕ
  pub postcondition : Option String
  pub invariant : Option String
  pub variant : Option String
  pub guard : Option String
  pub init : Option (Dict String)
  pub body : Option (Dict String)
  pub mapping : Option (Dict String)
  pub fresh_vars : Option (List FreshVariable)
  pub input_widths : Option (Dict ℕ)
  pub state_var : Option String
  pub done_var : Option String
  pub start : Option String

-- No parameter at all.
abbrev pub no_params : Params
no_params = record {
  action_name = none;
  reset_values = none;
  reset_action_name = none;
  steps = none;
  updates = none;
  branches = none;
  name = none;
  type = none;
  abstract = none;
  reset_value = none;
  width = none;
  postcondition = none;
  invariant = none;
  variant = none;
  guard = none;
  init = none;
  body = none;
  mapping = none;
  fresh_vars = none;
  input_widths = none;
  state_var = none;
  done_var = none;
  start = none;
}

-- `params[key]`
abbrev pub required {ℓ} : {A : Type ℓ} → Option A → Result A
required none = raises key_error
required (some a) = ok a

-- `params.get(key, default)`
abbrev pub get_or {ℓ} : {A : Type ℓ} → A → Option A → A
get_or d none = d
get_or d (some a) = a

unfoldable pub variable_names : List Variable → List String
variable_names variables = map (λ v. v.name) variables

unfoldable pub action_names : List Action → List String
action_names actions = map (λ a. a.name) actions

-- `a["name"] != spec.get("reset_action")`
unfoldable pub is_reset_action : Option String → Action → Bool
is_reset_action none a = false
is_reset_action (some name) a = str_eq a.name name

-- Whether a test holds for some action that is not the reset action.
unfoldable pub any_action : (Action → Bool) → Option String → List Action → Bool
unfolding is_reset_action
any_action test reset [] = false
any_action test reset (a ∷ actions) =
    (not (is_reset_action reset a) && test a) || any_action test reset actions

-- The first action of a name, and the change of the first action of a name.
unfoldable pub find_action : String → List Action → Option Action
find_action name [] = none
find_action name (a ∷ actions) = if str_eq a.name name then some a else find_action name actions

unfoldable pub change_action : String → (Action → Action) → List Action → List Action
change_action name f [] = []
change_action name f (a ∷ actions) =
    if str_eq a.name name then f a ∷ actions else a ∷ change_action name f actions

unfoldable pub is_empty {ℓ} : {A : Type ℓ} → List A → Bool
is_empty [] = true
is_empty (a ∷ l) = false

unfoldable pub updates_of : List Guarded → List ActionUpdate
updates_of [] = []
updates_of (p ∷ parts) = p.updates ++ updates_of parts

-- One update for each variable, the first.
unfoldable pub first_of_each : List String → List ActionUpdate → List ActionUpdate
first_of_each seen [] = []
first_of_each seen (u ∷ updates) =
    let rest = first_of_each seen updates in
    let fresh = first_of_each (u.variable ∷ seen) updates in
    if contains u.variable seen then rest else u ∷ fresh

unfoldable pub has_text : Option String → Bool
has_text none = false
has_text (some s) = not (str_eq s "")

-- `_is_identity_hold` (pipeline/refinement/bridge.py)
unfoldable pub all_hold : List ActionUpdate → Bool
all_hold [] = true
all_hold (u ∷ updates) = str_eq (strip u.expression) (strip u.variable) && all_hold updates

unfoldable pub is_identity_hold : Action → Bool
unfolding is_empty all_hold
is_identity_hold a =
    is_empty a.branches
    && (is_empty a.sequential_steps && (not (is_empty a.updates) && all_hold a.updates))

-- `is_rtl_style`, the loop over the variables and the loop over the actions.
unfoldable pub is_concrete : Variable → Bool
is_concrete v =
    not (get_or true v.abstract)
    && (not (str_eq v.type "")
        && (not (v.depth == 0)
            || (v.combinational || (elim v.reset_value [ none ↦ false | some r ↦ true ]))))

unfoldable pub is_clocked_logic : Action → Bool
unfolding is_identity_hold is_empty
is_clocked_logic a =
    is_identity_hold a || (a.combinational || (a.clocked && not (is_empty a.updates)))

unfoldable pub all_concrete : List Variable → Bool
unfolding is_concrete
all_concrete [] = true
all_concrete (v ∷ variables) = is_concrete v && all_concrete variables

unfoldable pub all_clocked_logic : Option String → List Action → Bool
unfolding is_reset_action is_clocked_logic
all_clocked_logic reset [] = true
all_clocked_logic reset (a ∷ actions) =
    (is_reset_action reset a || is_clocked_logic a) && all_clocked_logic reset actions

unfoldable pub is_rtl_style : Spec → Bool
unfolding all_concrete all_clocked_logic any_action is_empty has_text
is_rtl_style s =
    not (is_empty s.variables)
    && (has_text s.reset_action
        && (any_action (λ a. true) s.reset_action s.actions
            && (all_concrete s.variables && all_clocked_logic s.reset_action s.actions)))

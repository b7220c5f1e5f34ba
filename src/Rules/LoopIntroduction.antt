-- ===== src/Rules/LoopIntroduction.antt =====
-- pipeline/refinement/rules/loop_introduction.py. The kernel that discharges the obligations is an
-- argument: `discharge_loop_obligations` with the backend of the environment.
use Prim.Native.String.{◌++◌}
use agentic_rtl_engine.Prelude.{
  ◌-◌, ◌^◌, String, Bool, true, false, not, ◌&&◌, ◌||◌, Option, none, some, List, [], ◌∷◌, map,
  if◌then◌else◌, str_eq,
}
use mathlib.Core.List.{◌++◌ as append}
use agentic_rtl_engine.Prelude.Decimal.{decimal}
use agentic_rtl_engine.Prelude.Result.{Result, ok, raises, value_error, ◌>>=◌}
use agentic_rtl_engine.Prelude.Dict.{Dict, update, contains}
use agentic_rtl_engine.Kernel.{Derivation}
use agentic_rtl_engine.Kernel.Check.{ObligationResult}
use agentic_rtl_engine.Kernel.Backend.{Kernel}
use agentic_rtl_engine.Spec.{Variable, ActionUpdate, Action, Spec}
use agentic_rtl_engine.Rules.{
  FreshVariable, Params, get_or, any_action, find_action, change_action, variable_names,
}

-- Whether a target is a variable that is still abstract.
unfoldable pub is_abstract : String → List Variable → Bool
is_abstract name [] = false
is_abstract name (v ∷ variables) =
    let rest = is_abstract name variables in
    if str_eq v.name name && not (contains name (variable_names variables))
    then get_or false v.abstract
    else rest

unfoldable pub targets_abstract : List Variable → List ActionUpdate → Bool
unfolding is_abstract
targets_abstract variables [] = false
targets_abstract variables (u ∷ updates) =
    is_abstract u.variable variables || targets_abstract variables updates

unfoldable pub is_applicable : Spec → Bool
unfolding any_action targets_abstract
is_applicable s =
    any_action
      (λ a. not a.combinational && (a.spec_statement && targets_abstract s.variables a.updates))
      s.reset_action s.actions

unfoldable pub make_concrete : String → Variable → Variable
make_concrete name v = if str_eq v.name name then record v { abstract = some false } else v

-- A fresh variable is appended as a register, or made concrete where the name is taken.
unfoldable pub add_fresh : List FreshVariable → List Variable → List Variable
unfolding make_concrete decimal variable_names
add_fresh [] variables = variables
add_fresh (fv ∷ fresh) variables =
    let width = get_or 1 fv.width in
    let register : Variable = record {
      name = fv.name;
      type = get_or ("0.." ++ decimal (2 ^ width - 1)) fv.type;
      width = some width;
      depth = 0;
      abstract = some false;
      reset_value = fv.reset_value;
      clocked = true;
      combinational = false;
    } in
    add_fresh fresh (
      if contains fv.name (variable_names variables)
      then map (make_concrete fv.name) variables
      else append variables (register ∷ []))

unfoldable pub body_updates : Dict String → List ActionUpdate
body_updates body = map (λ kv. record { variable = kv.0; index = ""; expression = kv.1 }) body

-- The variables of the mapping and of the body are registers now.
unfoldable pub concretise : List String → Variable → Variable
concretise names v =
    if contains v.name names then record v { abstract = some false; clocked = true } else v

unfoldable pub install_loop : Derivation → ObligationResult → Action → Action
unfolding body_updates
install_loop d r a = record a {
  updates = body_updates d.body;
  guard = some d.guard;
  clocked = true;
  spec_statement = false;
  postcondition = none;
  refinement = some (record {
    invariant = d.invariant;
    variant = d.variant;
    guard = d.guard;
    mode = r.mode;
    cases_checked = r.cases_checked;
    obligations = r.obligations;
  });
  loop = some (record { init = d.init; body = d.body; variant = d.variant; guard = d.guard });
}

abbrev pub keys : Dict String → List String
keys d = map (λ kv. kv.0) d

unfoldable pub install : String → Derivation → List FreshVariable → ObligationResult → Spec → Spec
unfolding install_loop concretise add_fresh change_action
install name d fresh r s = record s {
  variables =
      map (concretise (append (keys d.mapping) (keys d.body))) (add_fresh fresh s.variables);
  actions = change_action name (install_loop d r) s.actions;
  abstraction_mapping = update s.abstraction_mapping d.mapping;
}

-- A parameter that must be there.
abbrev needed {ℓ} : {A : Type ℓ} → Option A → Result A
needed none = raises value_error
needed (some a) = ok a

unfoldable pub derivation_of : Params → Result (String × Derivation × List FreshVariable)
derivation_of p = do
  name ← needed p.action_name
  post ← needed p.postcondition
  invariant ← needed p.invariant
  variant ← needed p.variant
  guard ← needed p.guard
  init ← needed p.init
  body ← needed p.body
  mapping ← needed p.mapping
  fresh ← needed p.fresh_vars
  widths ← needed p.input_widths
  ok (
    name,
    record {
      post = post;
      invariant = invariant;
      variant = variant;
      guard = guard;
      init = init;
      body = body;
      mapping = mapping;
      input_widths = widths;
      exhaustive_threshold = 65536;
      max_iters = 64;
    },
    fresh,
  )

unfoldable pub introduce : Kernel → Spec → String → Derivation → List FreshVariable → Result Spec
unfolding find_action install
introduce kernel s name d fresh = kernel d >>= λ r.
    let installed : Result Spec = elim (find_action name s.actions) [
      | none ↦ ok s
      | some a ↦ ok (install name d fresh r s)
    ] in
    if r.ok then installed else ok s

unfoldable pub apply : Kernel → Spec → Params → Result Spec
unfolding derivation_of introduce
apply kernel s p = derivation_of p >>= λ (name, d, fresh). introduce kernel s name d fresh

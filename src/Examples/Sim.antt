-- ===== src/Examples/Sim.antt =====
-- A counter of two bits with an enable, an inverted output and a memory that it writes.
use agentic_rtl_engine.Prelude.{
  ℕ, not, subst, sym, String, Bool, if◌then◌else◌, ◌≡◌, refl, true, false, none, some, List, [],
  ◌∷◌, length, ◌+◌, ◌⊎◌,
}
use agentic_rtl_engine.Prelude.Result.{ok}
use agentic_rtl_engine.Prelude.Dict.{Dict, get, put, update, contains}
use agentic_rtl_engine.Expr.Value.{Value, x, num, arr}
use agentic_rtl_engine.Expr.Interp.{Env, lookup}
use agentic_rtl_engine.Expr.Lexer.{eval}
use agentic_rtl_engine.Sim.{
  Design, scalar, element, recompute_comb, commit, edge, mask, same_value, evaluate,
}
use agentic_rtl_engine.Spec.{Variable, Spec, plain_action}
use agentic_rtl_engine.Bridge.{compose_clocked_actions, next_state}
use agentic_rtl_engine.Bridge.Drivers.{is_written}
use agentic_rtl_engine.Bridge.LeftSide.{split_lhs}
use agentic_rtl_engine.Sim.Build.{clocked_actions, design_of, power_up_of}
use agentic_rtl_engine.Sim.Composed.{Reads, edge-next_state}
use agentic_rtl_engine.Sim.Settle.{IsSettled, Churns, recompute_comb-IsSettled}
use agentic_rtl_engine.Sim.Commit.{Clocked, IsScalar}
use agentic_rtl_engine.Sim.Edge.{is_combinational}

abbrev counter : Design
counter = record {
  reset_port = "reset";
  reset_active_low = false;
  widths = ("c", 2) ∷ ("d", 1) ∷ ("m", 2) ∷ [];
  reg_vars = "c" ∷ [];
  clocked_updates = scalar "c" "IF en = 1 THEN c + 1 ELSE c" ∷ element "m" "c" "c" ∷ [];
  comb_updates = ("d", "~c") ∷ [];
  reset_updates = ("c", "0") ∷ [];
}

abbrev before : Env
before = ("c", num 3) ∷ ("d", x) ∷ ("m", arr (none ∷ none ∷ none ∷ none ∷ [])) ∷ ("en", num 1) ∷ []

abbrev settled : Env
settled =
    ("c", num 3) ∷ ("d", num 0) ∷ ("m", arr (none ∷ none ∷ none ∷ none ∷ [])) ∷ ("en", num 1) ∷ []

abbrev after : Env
after =
    ("c", num 0) ∷ ("d", num 0) ∷ ("m", arr (none ∷ none ∷ none ∷ some 3 ∷ [])) ∷ ("en", num 1) ∷ []

abbrev behind : Env
behind =
    ("c", num 0) ∷ ("d", num 1) ∷ ("m", arr (none ∷ none ∷ none ∷ some 3 ∷ [])) ∷ ("en", num 1) ∷ []

abbrev power_up : Env
power_up = ("c", x) ∷ ("d", x) ∷ ("m", arr (none ∷ none ∷ none ∷ none ∷ [])) ∷ []

abbrev stimulus : List (Dict Value)
stimulus = (("en", num 1) ∷ []) ∷ (("en", num 0) ∷ []) ∷ (("reset", num 1) ∷ []) ∷ []

abbrev rows : List (Dict Value)
rows =
    (("c", num 1) ∷ ("d", num 0) ∷ [])
    ∷ (("c", num 1) ∷ ("d", num 0) ∷ [])
    ∷ (("c", num 0) ∷ ("d", num 1) ∷ [])
    ∷ []

settles : recompute_comb counter before ≡ ok settled
unfolding recompute_comb eval mask same_value get put lookup
settles = refl

wraps : commit counter settled false ≡ ok after
unfolding commit evaluate eval mask get put lookup update
wraps = refl

recompute_comb-IsSettled_example :
    IsSettled counter settled counter.comb_updates
    ⊎ Churns counter (length counter.comb_updates + 1) before settled
recompute_comb-IsSettled_example = recompute_comb-IsSettled counter before settled settles

abbrev signal : String → ℕ → ℕ → Bool → Variable
signal name width depth combinational = record {
  name = name;
  type = "0..3";
  width = some width;
  depth = depth;
  abstract = some false;
  reset_value = none;
  clocked = not combinational;
  combinational = combinational;
}

abbrev counter_spec : Spec
counter_spec = record {
  variables =
      signal "c" 2 0 false
      ∷ signal "d" 1 0 true
      ∷ signal "m" 2 4 false
      ∷ signal "reset" 1 0 false
      ∷ [];
  actions =
      record (plain_action "Count" (some "en = 1")
        (record { variable = "c"; index = ""; expression = "c + 1" } ∷ [])) { clocked = true }
      ∷ record (plain_action "Store" none
          (record { variable = "m"; index = " c "; expression = "c" } ∷ [])) { clocked = true }
      ∷ record (plain_action "Invert" none
          (record { variable = "d"; index = ""; expression = "~c" } ∷ [])) { combinational = true }
      ∷ plain_action "Reset" none (record { variable = "c"; index = ""; expression = "0" } ∷ [])
      ∷ [];
  init = "";
  invariants = [];
  abstraction_mapping = [];
  reset_action = some "Reset";
  properties = [];
}

builds_the_counter : design_of "reset" false counter_spec ≡ counter
unfolding design_of compose_clocked_actions get put update contains
builds_the_counter = refl

powers_up : power_up_of "reset" counter_spec ≡ power_up
unfolding power_up_of put
powers_up = refl

plain_name : split_lhs "c" ≡ none
unfolding split_lhs
plain_name = refl

-- The edge enables the counter, which wraps; the inverted output follows.
edge_wraps : edge counter (("en", num 1) ∷ []) false before ≡ ok behind
unfolding edge evaluate eval mask get put lookup update same_value
edge_wraps = refl

is_register : is_combinational counter "c" ≡ false
unfolding contains
is_register = refl

edge-next_state_example :
    (st : Env) × Reads (design_of "reset" false counter_spec) (("en", num 1) ∷ []) before st
    × Clocked (design_of "reset" false counter_spec) st behind "c" (
        if is_written "c" (clocked_actions counter_spec)
        then some (next_state (clocked_actions counter_spec) "c")
        else none)
edge-next_state_example =
    edge-next_state "reset" false counter_spec (("en", num 1) ∷ []) before behind "c" plain_name
      (subst (λ g. IsScalar "c" g.clocked_updates) (sym builds_the_counter) (refl, tt))
      (subst (λ g. is_combinational g "c" ≡ false) (sym builds_the_counter) is_register)
      (subst (λ g. edge g (("en", num 1) ∷ []) false before ≡ ok behind) (sym builds_the_counter)
        edge_wraps)

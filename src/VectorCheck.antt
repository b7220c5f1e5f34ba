-- ===== src/VectorCheck.antt =====
-- pipeline/cocotb/vector_check.py: the expected outputs of a refined spec against those of the first
-- agent. The files are arguments: the summary, the engine spec of the formal spec and the chain. The
-- simulator is the Python one. An exception of whatever the pre-flight calls is `none`, as in its
-- `except`; the test bench and the report are not written.
pub mod Agreement
pub mod Refined
use agentic_rtl_engine.Prelude.{
  ℕ, suc, ◌+◌, String, Bool, true, false, not, ◌&&◌, ◌||◌, Option, none, some, List, [], ◌∷◌, ◌++◌,
  map, length, if◌then◌else◌,
}
use agentic_rtl_engine.Prelude.Result.{Result, ok, raises, ◌>>=◌}
use agentic_rtl_engine.Prelude.Dict.{Dict, get, contains}
use agentic_rtl_engine.Expr.Value.{Value, x}
use agentic_rtl_engine.Spec.{Spec}
use agentic_rtl_engine.Engine.{Rule, Step, replay_chain}
use agentic_rtl_engine.Rules.{Params, is_empty}
use agentic_rtl_engine.Sim.{same_value, run}
use agentic_rtl_engine.Sim.Build.{design_of, power_up_of}

-- A value that the first agent expects is an unsigned number, null or a list of these; any other JSON
-- value, which `_compare` would compare as it is, is left out.
pub record TestVector : Type 0 where
  pub inputs : Dict Value
  pub expected : Dict Value

-- What is read of the summary; the ports are those whose direction is output.
pub record Summary : Type 0 where
  pub test_vectors : List TestVector
  pub output_ports : List String
  pub reset_port : String
  pub reset_active_low : Bool

pub record Disagreement : Type 0 where
  pub vector : ℕ
  pub port : String
  pub agent1 : Option Value
  pub spec : Option Value

-- `_reconstruct_refined_spec`
unfoldable pub reconstruct_refined_spec :
    List (Rule Spec Params) → Spec → List (Step Params) → Result (Option Spec)
unfolding replay_chain is_empty
reconstruct_refined_spec registry engine_spec chain =
    let replayed = replay_chain registry engine_spec chain >>= λ s. ok (some s) in
    if is_empty chain then ok none else replayed

abbrev pub present : Option Value → Bool
present none = false
present (some v) = true

abbrev pub value_of : Option Value → Value
value_of none = x
value_of (some v) = v

abbrev pub same_presence : Bool → Bool → Bool
same_presence true b = b
same_presence false b = not b

unfoldable pub differs_at : Dict Value → Dict Value → String → Bool
unfolding same_value
differs_at a s port =
    let av = get port a in
    let sv = get port s in
    not (same_value (value_of av) (value_of sv)) || not (same_presence (present av) (present sv))

unfoldable pub compare_ports : ℕ → Dict Value → Dict Value → List String → List Disagreement
unfolding differs_at
compare_ports i a s [] = []
compare_ports i a s (port ∷ ports) =
    let rest = compare_ports i a s ports in
    if differs_at a s port
    then record { vector = i; port = port; agent1 = get port a; spec = get port s } ∷ rest
    else rest

-- `_compare`, from the vector `i` on.
unfoldable pub compare_from :
    ℕ → List (Dict Value) → List (Dict Value) → List String → List Disagreement
unfolding compare_ports
compare_from i [] spec ports = []
compare_from i (a ∷ agent1) [] ports = []
compare_from i (a ∷ agent1) (s ∷ spec) ports =
    compare_ports i a s ports ++ compare_from (suc i) agent1 spec ports

-- Whether some row asserts a port, and whether one does for each of the ports.
unfoldable pub is_asserted : String → List (Dict Value) → Bool
is_asserted port [] = false
is_asserted port (row ∷ rows) = contains port (map (λ kv. kv.0) row) || is_asserted port rows

unfoldable pub all_asserted : List String → List (Dict Value) → Bool
unfolding is_asserted
all_asserted [] rows = true
all_asserted (port ∷ ports) rows = is_asserted port rows && all_asserted ports rows

pub record Report : Type 0 where
  pub agreed : Bool
  pub num_vectors : ℕ
  pub disagreements : List Disagreement
  pub expected : List (Dict Value)

-- The report on a refined spec.
unfoldable pub report_on : Summary → Spec → Result (Option Report)
unfolding run design_of power_up_of compare_from all_asserted is_empty
report_on summary refined =
    let stimulus = map (λ v. v.inputs) summary.test_vectors in
    let ports = summary.output_ports in
    let design = design_of summary.reset_port summary.reset_active_low refined in
    let derived = run design (power_up_of summary.reset_port refined) stimulus ports >>= λ rows.
    let disagreements = compare_from 0 (map (λ v. v.expected) summary.test_vectors) rows ports in
    ok (
      if all_asserted ports rows
      then some (record {
        agreed = is_empty disagreements;
        num_vectors = length stimulus;
        disagreements = disagreements;
        expected = rows;
      })
      else none) in
    if is_empty stimulus || is_empty ports then ok none else derived

-- `apply_spec_derived_vectors`
unfoldable pub apply_spec_derived_vectors :
    List (Rule Spec Params) → Summary → Spec → List (Step Params) → Option Report
unfolding reconstruct_refined_spec report_on
apply_spec_derived_vectors registry summary engine_spec chain =
    elim (reconstruct_refined_spec registry engine_spec chain >>= λ refined. elim refined [
      | none ↦ ok none
      | some s ↦ report_on summary s
    ]) [ raises e ↦ none | ok report ↦ report ]

-- ===== src/Examples/Rules.antt =====
-- A loop that counts to its input, from an abstract action to a clocked state machine.
use Prim.Native.String.{◌++◌}
use agentic_rtl_engine.Prelude.{
  ℕ, ◌≡◌, ◌⊎◌, refl, inl, true, false, String, ◌==◌, none, some, Option, List, [], ◌∷◌, length, map,
  In, if◌then◌else◌,
}
use agentic_rtl_engine.Prelude.Result.{Result, ok, raises, index_error}
use agentic_rtl_engine.Prelude.Dict.{get, put, update, contains}
use agentic_rtl_engine.Expr.Lexer.{eval}
use agentic_rtl_engine.Kernel.{apply_init, is_one, step_body, decreases, bind_mapping, portable}
use agentic_rtl_engine.Kernel.Domain.{exhaustive_proof}
use agentic_rtl_engine.Kernel.Backend.{Kernel, resolve_backend, discharge_loop_obligations}
use agentic_rtl_engine.Kernel.Check.{discharge, flags}
use agentic_rtl_engine.Spec.{Variable, Action, Audit, Spec, plain_action}
use agentic_rtl_engine.Engine.{Choice, choice, Setting, Run, start, run}
use agentic_rtl_engine.Rules.{
  FreshVariable, Params, variable_names, no_params, get_or, is_rtl_style,
}
use agentic_rtl_engine.Rules.IfChain.{parse_if_chain}
use agentic_rtl_engine.Rules.Initialization
use agentic_rtl_engine.Rules.Iteration
use agentic_rtl_engine.Rules.SequentialComposition
use agentic_rtl_engine.Rules.Assignment
use agentic_rtl_engine.Rules.Alternation
use agentic_rtl_engine.Rules.IntroduceVariable
use agentic_rtl_engine.Rules.ScheduleHandshakeFsm
use agentic_rtl_engine.Rules.LoopIntroduction
use agentic_rtl_engine.Prelude.Decimal.{decimal}
use agentic_rtl_engine.Rules.Registry.{tier1_rules}
use agentic_rtl_engine.Rules.Names.{HasNames}
use agentic_rtl_engine.Rules.Pass.{Discharged, run-HasNames, run-Discharged}
use agentic_rtl_engine.Prelude.{sym}
use agentic_rtl_engine.Prelude.Dict.{Unique}
use agentic_rtl_engine.Bridge.Forward.{FormalSpec, formal_spec_to_engine_spec, translate_bool_words}
use agentic_rtl_engine.Rules.Audits.{AllBacked}
use agentic_rtl_engine.Rules.Formal.{run-formal_spec_to_engine_spec}
use agentic_rtl_engine.Rules.Installed.{Introduced, apply-Introduced}
use agentic_rtl_engine.Rules.Again.{apply_again}

abbrev register : String → Variable
register name = record {
  name = name;
  type = "0..3";
  width = some 2;
  depth = 0;
  abstract = some true;
  reset_value = none;
  clocked = false;
  combinational = false;
}

abbrev compute : Action
compute =
    record (plain_action "Compute" (some "TRUE")
      (record { variable = "s"; index = ""; expression = "a" } ∷ [])) {
        spec_statement = true;
        postcondition = some "s = a";
      }

abbrev abstract_spec : Spec
abstract_spec = record {
  variables = register "s" ∷ [];
  actions = compute ∷ [];
  init = "";
  invariants = [];
  abstraction_mapping = [];
  reset_action = none;
  properties = [];
}

abbrev counter_register : FreshVariable
counter_register = record { name = "k"; width = some 2; type = none; reset_value = none }

abbrev loop_of : String → Params
loop_of guard = record no_params {
  action_name = some "Compute";
  postcondition = some "s = a";
  invariant = some "s + k = a";
  variant = some "k";
  guard = some guard;
  init = some (("s", "0") ∷ ("k", "a") ∷ []);
  body = some (("s", "s + 1") ∷ ("k", "k - 1") ∷ []);
  mapping = some [];
  fresh_vars = some (counter_register ∷ []);
  input_widths = some (("a", 2) ∷ []);
}

abbrev compute_only : Params
compute_only = record no_params { action_name = some "Compute" }

abbrev zeros : Params
zeros = record no_params { reset_values = some (("s", "0") ∷ ("k", "0") ∷ ("state", "0") ∷ []) }

abbrev kernel : Kernel
kernel = discharge_loop_obligations "auto" none none

abbrev answer : ℕ → Option (Choice Params)
answer n =
    if n == 0
    then some (choice "LoopIntroduction" (loop_of "k > 0"))
    else if n == 1
    then some (choice "ScheduleHandshakeFSM" compute_only)
    else some (choice "Initialization" zeros)

abbrev setting : Setting Spec Params
setting = record {
  registry = tier1_rules kernel;
  formal_spec = abstract_spec;
  termination_check = is_rtl_style;
  allowed_rule_names = none;
  pick_rule = λ n names s. answer n;
  tlc_check = none;
  max_steps = 4;
  params_json = λ p. get_or "" p.action_name;
  params_texts = λ p. [];
  spec_hash = λ s. decimal (length s.variables) ++ (":" ++ decimal (length s.actions));
}

abbrev returned : Result (Run Spec Params) → Run Spec Params
returned (ok r) = r
returned (raises e) = start setting []

abbrev final : Run Spec Params
final = returned (run setting [])

finishes : run setting [] ≡ ok final
unfolding run decimal contains discharge discharge_loop_obligations eval apply_init put get update
    is_one step_body decreases bind_mapping portable tier1_rules is_rtl_style parse_if_chain
    Initialization.is_applicable Iteration.is_applicable SequentialComposition.is_applicable
    Assignment.is_applicable Alternation.is_applicable IntroduceVariable.is_applicable
    LoopIntroduction.is_applicable variable_names LoopIntroduction.apply
    ScheduleHandshakeFsm.is_applicable ScheduleHandshakeFsm.apply Initialization.apply
finishes = refl

takes_three_steps :
    map (λ s. s.rule_name) final.chain
    ≡ "Initialization" ∷ "ScheduleHandshakeFSM" ∷ "LoopIntroduction" ∷ []
unfolding run decimal contains discharge discharge_loop_obligations eval apply_init put get update
    is_one step_body decreases bind_mapping portable tier1_rules is_rtl_style parse_if_chain
    Initialization.is_applicable Iteration.is_applicable SequentialComposition.is_applicable
    Assignment.is_applicable Alternation.is_applicable IntroduceVariable.is_applicable
    LoopIntroduction.is_applicable variable_names LoopIntroduction.apply
    ScheduleHandshakeFsm.is_applicable ScheduleHandshakeFsm.apply Initialization.apply
takes_three_steps = refl

abbrev first_of : List Action → Action
first_of [] = compute
first_of (a ∷ actions) = a

abbrev recorded : Audit
recorded = record {
  invariant = "s + k = a";
  variant = "k";
  guard = "k > 0";
  mode = exhaustive_proof;
  cases_checked = 4;
  obligations = flags true true true;
}

records_the_proof :
    In (first_of final.spec.actions) final.spec.actions
    × ((first_of final.spec.actions).refinement ≡ some recorded)
unfolding run decimal contains discharge discharge_loop_obligations eval apply_init put get update
    is_one step_body decreases bind_mapping portable tier1_rules is_rtl_style parse_if_chain
    Initialization.is_applicable Iteration.is_applicable SequentialComposition.is_applicable
    Assignment.is_applicable Alternation.is_applicable IntroduceVariable.is_applicable
    LoopIntroduction.is_applicable variable_names LoopIntroduction.apply
    ScheduleHandshakeFsm.is_applicable ScheduleHandshakeFsm.apply Initialization.apply
records_the_proof = (inl refl, refl)

runs_python : resolve_backend "auto" none none ≡ ok none
unfolding resolve_backend
runs_python = refl

run-Discharged_example : Discharged recorded (first_of final.spec.actions).loop
run-Discharged_example =
    run-Discharged "auto" none none setting [] final (first_of final.spec.actions) recorded
      runs_python refl (tt, tt) finishes records_the_proof.0 records_the_proof.1 refl

abbrev spec_of : Result Spec → Spec
spec_of (ok s) = s
spec_of (raises e) = abstract_spec

abbrev looped : Spec
looped = spec_of (LoopIntroduction.apply kernel abstract_spec (loop_of "k > 0"))

introduces : LoopIntroduction.apply kernel abstract_spec (loop_of "k > 0") ≡ ok looped
unfolding LoopIntroduction.apply discharge discharge_loop_obligations eval apply_init put get update
    is_one step_body decreases bind_mapping portable decimal contains variable_names
introduces = refl

apply-Introduced_example :
    (looped ≡ abstract_spec) ⊎ Introduced abstract_spec (loop_of "k > 0") looped
apply-Introduced_example =
    apply-Introduced "auto" none none abstract_spec (loop_of "k > 0") looped runs_python introduces

starts_distinct : HasNames abstract_spec
unfolding variable_names contains
starts_distinct = (refl, tt)

run-HasNames_example : HasNames final.spec
run-HasNames_example = run-HasNames kernel setting [] final refl starts_distinct finishes

-- An expression that ends early raises what the engine does not catch.
truncated_guard : LoopIntroduction.apply kernel abstract_spec (loop_of "k >") ≡ raises index_error
unfolding LoopIntroduction.apply discharge discharge_loop_obligations eval apply_init put get update
    is_one step_body decreases bind_mapping portable
truncated_guard = refl

iterates :
    Iteration.apply abstract_spec compute_only ≡ ok (Iteration.clock_spec "Compute" abstract_spec)
unfolding Iteration.apply
iterates = refl

apply_again_example :
    Iteration.apply (Iteration.clock_spec "Compute" abstract_spec) compute_only
    ≡ ok (Iteration.clock_spec "Compute" abstract_spec)
apply_again_example =
    apply_again abstract_spec compute_only (Iteration.clock_spec "Compute" abstract_spec) iterates

parses_a_chain :
    parse_if_chain "IF a = 1 THEN b ELSE IF (c = 1) THEN (IF d = 1 THEN 2 ELSE 3) ELSE e"
    ≡ (("a = 1", "b") ∷ ("(c = 1)", "(IF d = 1 THEN 2 ELSE 3)") ∷ [], "e")
unfolding parse_if_chain
parses_a_chain = refl

abbrev formal : FormalSpec
formal = record {
  variables = ("s", record { type = "0..3"; width = 2; depth = none }) ∷ [];
  transitions =
      record {
        label = "Compute";
        condition = "TRUE";
        updates = ("s", "a") ∷ [];
        combinational = false;
        spec_statement = true;
        postcondition = some "s = a";
      }
      ∷ [];
  initial = [];
  invariants = [];
}

bridges : formal_spec_to_engine_spec formal ≡ abstract_spec
unfolding formal_spec_to_engine_spec contains
bridges = refl

translates :
    translate_bool_words "NOT a AND band = 1 OR x mod 2 = 0" ≡ "~ a /\\ band = 1 \\/ x % 2 = 0"
unfolding translate_bool_words
translates = refl

declared_once : Unique formal.variables
unfolding get
declared_once = (refl, tt)

run-formal_spec_to_engine_spec_example : HasNames final.spec × AllBacked kernel final.spec
run-formal_spec_to_engine_spec_example =
    run-formal_spec_to_engine_spec kernel formal setting [] final declared_once refl (sym bridges)
      finishes

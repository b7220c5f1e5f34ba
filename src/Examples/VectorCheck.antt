-- ===== src/Examples/VectorCheck.antt =====
-- A counter that a pass clocks, and two vectors of which the first agent has miscounted one.
use agentic_rtl_engine.Prelude.{◌≡◌, refl, not, true, false, none, some, [], ◌∷◌, if◌then◌else◌}
use agentic_rtl_engine.Prelude.Result.{Result, ok, raises}
use agentic_rtl_engine.Prelude.Dict.{get, put, update, contains}
use agentic_rtl_engine.Expr.Value.{num}
use agentic_rtl_engine.Expr.Interp.{lookup}
use agentic_rtl_engine.Expr.Lexer.{eval}
use agentic_rtl_engine.Kernel.Check.{discharge}
use agentic_rtl_engine.Spec.{Variable, Spec, plain_action}
use agentic_rtl_engine.Engine.{Choice, choice, Setting, Run, Step, replay_chain, start}
use agentic_rtl_engine.Engine
use agentic_rtl_engine.Rules.{Params, no_params, get_or}
use agentic_rtl_engine.Rules.Initialization
use agentic_rtl_engine.Rules.Iteration
use agentic_rtl_engine.Rules.Registry.{tier1_rules}
use agentic_rtl_engine.Bridge.{compose_clocked_actions}
use agentic_rtl_engine.Sim
use agentic_rtl_engine.Sim.{mask, same_value}
use agentic_rtl_engine.Sim.Build.{design_of, power_up_of}
use agentic_rtl_engine.VectorCheck.{Summary, Report, apply_spec_derived_vectors}
use agentic_rtl_engine.VectorCheck.Agreement.{IsReport, apply_spec_derived_vectors-IsReport}
use agentic_rtl_engine.VectorCheck.Refined.{apply_spec_derived_vectors-run}

abbrev counter : Variable
counter = record {
  name = "c";
  type = "0..3";
  width = some 2;
  depth = 0;
  abstract = some false;
  reset_value = some "0";
  clocked = true;
  combinational = false;
}

abbrev engine_spec : Spec
engine_spec = record {
  variables = counter ∷ [];
  actions =
      plain_action "Count" (some "en = 1")
        (record { variable = "c"; index = ""; expression = "c + 1" } ∷ [])
      ∷ plain_action "Reset" none (record { variable = "c"; index = ""; expression = "0" } ∷ [])
      ∷ [];
  init = "";
  invariants = [];
  abstraction_mapping = [];
  reset_action = some "Reset";
  properties = [];
}

abbrev setting : Setting Spec Params
setting = record {
  registry = tier1_rules discharge;
  formal_spec = engine_spec;
  termination_check = λ s. not (Iteration.is_applicable s);
  allowed_rule_names = some ("Iteration" ∷ []);
  pick_rule =
      λ n names s. some (choice "Iteration" (record no_params { action_name = some "Count" }));
  tlc_check = none;
  max_steps = 1;
  params_json = λ p. get_or "" p.action_name;
  params_texts = λ p. [];
  spec_hash = λ s. if Iteration.is_applicable s then "abstract" else "clocked";
}

abbrev returned : Result (Run Spec Params) → Run Spec Params
returned (ok r) = r
returned (raises e) = start setting []

abbrev final : Run Spec Params
final = returned (Engine.run setting [])

abbrev summary : Summary
summary = record {
  test_vectors =
      record { inputs = ("en", num 1) ∷ []; expected = ("c", num 1) ∷ [] }
      ∷ record { inputs = ("en", num 0) ∷ []; expected = ("c", num 2) ∷ [] }
      ∷ [];
  output_ports = "c" ∷ [];
  reset_port = "reset";
  reset_active_low = false;
}

abbrev miscounted : Report
miscounted = record {
  agreed = false;
  num_vectors = 2;
  disagreements =
      record { vector = 1; port = "c"; agent1 = some (num 2); spec = some (num 1) } ∷ [];
  expected = (("c", num 1) ∷ []) ∷ (("c", num 1) ∷ []) ∷ [];
}

finishes : Engine.run setting [] ≡ ok final
unfolding Engine.run contains tier1_rules Initialization.is_applicable Iteration.is_applicable
    Iteration.apply
finishes = refl

starts_here : replay_chain setting.registry engine_spec [] ≡ ok engine_spec
unfolding replay_chain
starts_here = refl

reports :
    apply_spec_derived_vectors setting.registry summary engine_spec final.saved ≡ some miscounted
unfolding apply_spec_derived_vectors Engine.run contains tier1_rules Initialization.is_applicable
    Iteration.is_applicable Iteration.apply compose_clocked_actions get put update lookup mask
    same_value eval
reports = refl

apply_spec_derived_vectors-IsReport_example :
    IsReport setting.registry summary engine_spec final.saved miscounted
apply_spec_derived_vectors-IsReport_example =
    apply_spec_derived_vectors-IsReport setting.registry summary engine_spec final.saved miscounted
      reports

apply_spec_derived_vectors-run_example :
    Sim.run
      (design_of "reset" false final.spec)
      (power_up_of "reset" final.spec)
      ((("en", num 1) ∷ []) ∷ (("en", num 0) ∷ []) ∷ [])
      ("c" ∷ [])
    ≡ ok miscounted.expected
apply_spec_derived_vectors-run_example =
    apply_spec_derived_vectors-run setting engine_spec [] final summary miscounted starts_here
      finishes reports

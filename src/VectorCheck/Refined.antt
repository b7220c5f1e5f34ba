-- ===== src/VectorCheck/Refined.antt =====
-- The vector check behind a pass of the refinement engine.
use agentic_rtl_engine.Prelude.{◌≡◌, subst, sym, ◌∙◌, some, List, map}
use agentic_rtl_engine.Prelude.Result.{ok, ok_inj}
use agentic_rtl_engine.Spec.{Spec}
use agentic_rtl_engine.Engine.{Setting, Step, Run, replay_chain}
use agentic_rtl_engine.Engine
use agentic_rtl_engine.Engine.Replay.{run-replay_chain}
use agentic_rtl_engine.Rules.{Params}
use agentic_rtl_engine.Sim
use agentic_rtl_engine.Sim.Build.{design_of, power_up_of}
use agentic_rtl_engine.VectorCheck.{Summary, Report, apply_spec_derived_vectors}
use agentic_rtl_engine.VectorCheck.Agreement.{apply_spec_derived_vectors-IsReport}

-- Where a pass of the engine has returned, behind passes whose steps lead from the engine spec to
-- its first spec: the expected outputs of a report on the chain that it has saved are the rows that
-- the simulator has for the spec that it has returned.
pub apply_spec_derived_vectors-run :
    (g : Setting Spec Params) (engine_spec : Spec) (prefix : List (Step Params))
    (r : Run Spec Params) (summary : Summary) (report : Report)
    → replay_chain g.registry engine_spec prefix ≡ ok g.formal_spec
    → Engine.run g prefix ≡ ok r
    → apply_spec_derived_vectors g.registry summary engine_spec r.saved ≡ some report
    → Sim.run
        (design_of summary.reset_port summary.reset_active_low r.spec)
        (power_up_of summary.reset_port r.spec)
        (map (λ v. v.inputs) summary.test_vectors)
        summary.output_ports
      ≡ ok report.expected
apply_spec_derived_vectors-run g engine_spec prefix r summary report passed h reported =
    let found =
      apply_spec_derived_vectors-IsReport g.registry summary engine_spec r.saved report reported in
    let same : (found.refined ≡ r.spec) =
      ok_inj (sym found.replayed ∙ (run-replay_chain g engine_spec prefix passed r h).1) in
    subst
      (λ s.
        Sim.run (design_of summary.reset_port summary.reset_active_low s)
          (power_up_of summary.reset_port s) (map (λ v. v.inputs) summary.test_vectors)
          summary.output_ports
        ≡ ok report.expected)
      same found.simulated

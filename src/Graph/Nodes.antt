-- ===== src/Graph/Nodes.antt =====
-- pipeline/nodes/stage1.py to stage4.py and diagnose.py: what each node writes, by what it finds.
-- `retry_counts` has the keys "stage1" and "stage4_cocotb" here; a key that is missing counts 0.
use agentic_rtl_engine.Prelude.{ℕ, ◌+◌, String, Bool, true, Option, some}

-- The closed set of the routers (pipeline/schemas/envelope.py).
pub data Status : Type 0 where
  success error partial : Status

-- The state that travels through the graph, and the `status` of each artifact on disk, `none`
-- where the file is missing or cannot be read.
pub record PipelineRun : Type 0 where
  pub stage1_retries : ℕ
  pub cocotb_retries : ℕ
  pub last_diagnosis : Option String
  pub summary : Option Status
  pub testbench : Option Status
  pub rtl : Option Status
  pub evaluation : Option Status

pub data Stage1Answer : Type 0 where
  prompt_unreadable agent1_missing agent1_succeeded agent1_failed : Stage1Answer

pub data Stage2Answer : Type 0 where
  summary_invalid generator_missing generated generation_failed : Stage2Answer

-- `lowered s`: the status that `_run_stage3_from_spec` writes to 03_rtl_output.json.
pub data Stage3Answer : Type 0 where
  summary_invalid agent3_missing generation_failed : Stage3Answer
  lowered : Status → Stage3Answer

pub data ReviseAnswer : Type 0 where
  spec_unreadable agent3_missing revision_failed : ReviseAnswer
  lowered : Status → ReviseAnswer

pub data BacktrackAnswer : Type 0 where
  engine_missing compiler_missing spec_unreadable chain_empty replay_failed stalled :
      BacktrackAnswer
  compile_failed ports_differ compiled : BacktrackAnswer

pub data Stage4Answer : Type 0 where
  rtl_incomplete testbench_unreadable runner_missing runner_raised : Stage4Answer
  simulated : Bool → Stage4Answer

pub data DiagnoseAnswer : Type 0 where
  classified : String → DiagnoseAnswer
  unclassified crashed : DiagnoseAnswer

-- What the outside answers to whichever node runs.
pub record Answers : Type 0 where
  pub agent1 : Stage1Answer
  pub generator : Stage2Answer
  pub agent3 : Stage3Answer
  pub runner : Stage4Answer
  pub diagnoser : DiagnoseAnswer
  pub revision : ReviseAnswer
  pub backtrack : BacktrackAnswer

-- An unreadable prompt writes the error and leaves the counter alone.
unfoldable pub run_stage1 : Stage1Answer → PipelineRun → PipelineRun
run_stage1 prompt_unreadable s = record s { summary = some error }
run_stage1 agent1_missing s = record s {
  summary = some error;
  stage1_retries = s.stage1_retries + 1;
}
run_stage1 agent1_succeeded s = record s { summary = some success }
run_stage1 agent1_failed s = record s {
  summary = some error;
  stage1_retries = s.stage1_retries + 1;
}

unfoldable pub stage2_status : Stage2Answer → Option Status → Status
stage2_status generated (some success) = success
stage2_status a _ = error

unfoldable pub run_stage2 : Stage2Answer → PipelineRun → PipelineRun
unfolding stage2_status
run_stage2 a s = record s { testbench = some (stage2_status a s.summary) }

unfoldable pub stage3_status : Stage3Answer → Option Status → Status
stage3_status (lowered r) (some success) = r
stage3_status a _ = error

unfoldable pub run_stage3 : Stage3Answer → PipelineRun → PipelineRun
unfolding stage3_status
run_stage3 a s = record s { rtl = some (stage3_status a s.summary) }

unfoldable pub revised_status : ReviseAnswer → Status
revised_status (lowered r) = r
revised_status _ = error

unfoldable pub run_stage3_revise_cocotb : ReviseAnswer → PipelineRun → PipelineRun
unfolding revised_status
run_stage3_revise_cocotb a s = record s {
  cocotb_retries = s.cocotb_retries + 1;
  rtl = some (revised_status a);
}

unfoldable pub backtracked_status : BacktrackAnswer → Status
backtracked_status compiled = success
backtracked_status ports_differ = partial
backtracked_status _ = error

unfoldable pub run_stage3_backtrack_refinement : BacktrackAnswer → PipelineRun → PipelineRun
unfolding backtracked_status
run_stage3_backtrack_refinement a s = record s {
  cocotb_retries = s.cocotb_retries + 1;
  rtl = some (backtracked_status a);
}

-- Stage 4 needs RTL that is at least partial, and a testbench.
unfoldable pub simulation_status : Stage4Answer → Status
simulation_status (simulated true) = success
simulation_status _ = error

unfoldable pub with_testbench : Stage4Answer → Option Status → Status
unfolding simulation_status
with_testbench testbench_unreadable t = error
with_testbench a (some success) = simulation_status a
with_testbench a _ = error

unfoldable pub stage4_status : Stage4Answer → Option Status → Option Status → Status
unfolding with_testbench
stage4_status rtl_incomplete r t = error
stage4_status a (some success) t = with_testbench a t
stage4_status a (some partial) t = with_testbench a t
stage4_status a _ t = error

unfoldable pub run_stage4 : Stage4Answer → PipelineRun → PipelineRun
unfolding stage4_status
run_stage4 a s = record s { evaluation = some (stage4_status a s.rtl s.testbench) }

-- `result.get("failure_type", "spec")`, and "spec" where the diagnoser crashes.
unfoldable pub run_diagnose : DiagnoseAnswer → PipelineRun → PipelineRun
run_diagnose (classified t) s = record s { last_diagnosis = some t }
run_diagnose unclassified s = record s { last_diagnosis = some "spec" }
run_diagnose crashed s = record s { last_diagnosis = some "spec" }

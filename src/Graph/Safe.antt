-- ===== src/Graph/Safe.antt =====
-- What holds at each node of pipeline/graph.py, whatever the agents and tools answer.
use agentic_rtl_engine.Prelude.{ℕ, ◌≤◌, ◌<◌, ◌≡◌, some, List, [], ◌∷◌, arith}
use agentic_rtl_engine.Graph.Nodes.{Answers, success}
use agentic_rtl_engine.Graph.Route.{
  Node, stage1, stage2, stage3, stage4, diagnose, revise_cocotb, backtrack_refinement, finish,
}
use agentic_rtl_engine.Graph.{Config, step, run_graph, entry}

-- The simulation retries that a node may find used up.
abbrev pub RetriesAt : Node → ℕ → Type 0
RetriesAt diagnose c = c < 2
RetriesAt revise_cocotb c = c < 2
RetriesAt backtrack_refinement c = c < 2
RetriesAt _ c = c ≤ 2

pub record IsSafe (c : Config) : Type 0 where
  -- Stage 4 sees RTL of a completed refinement only.
  pub simulated : c.0 ≡ stage4 → c.1.rtl ≡ some success
  -- A success was simulated on the RTL on disk with a testbench, and ends the run.
  pub verified :
      c.1.evaluation ≡ some success
      → (c.0 ≡ finish) × (c.1.rtl ≡ some success) × (c.1.testbench ≡ some success)
  pub bounded : RetriesAt c.0 c.1.cocotb_retries

step-IsSafe : (a : Answers) (c : Config) → IsSafe c → IsSafe (step a c)
unfolding step
step-IsSafe a (stage1, s) h = record {
  simulated = ground arith;
  verified = ground arith;
  bounded = ground arith;
}
step-IsSafe a (stage2, s) h = record {
  simulated = ground arith;
  verified = ground arith;
  bounded = ground arith;
}
step-IsSafe a (stage3, s) h = record {
  simulated = ground arith;
  verified = ground arith;
  bounded = ground arith;
}
step-IsSafe a (stage4, s) h = record {
  simulated = ground arith;
  verified = ground arith;
  bounded = ground arith;
}
step-IsSafe a (diagnose, s) h = record {
  simulated = ground arith;
  verified = ground arith;
  bounded = ground arith;
}
step-IsSafe a (revise_cocotb, s) h = record {
  simulated = ground arith;
  verified = ground arith;
  bounded = ground arith;
}
step-IsSafe a (backtrack_refinement, s) h = record {
  simulated = ground arith;
  verified = ground arith;
  bounded = ground arith;
}
step-IsSafe a (finish, s) h = h

run_graph-IsSafe_from :
    (answers : List Answers) (c : Config) → IsSafe c → IsSafe (run_graph answers c)
unfolding run_graph
run_graph-IsSafe_from [] c h = h
run_graph-IsSafe_from (a ∷ answers) c h =
    run_graph-IsSafe_from answers (step a c) (step-IsSafe a c h)

-- In every state that the graph reaches: Stage 4 runs on RTL of a completed refinement, a
-- successful evaluation belongs to a finished run with that RTL and a testbench, and there are at
-- most two simulation retries.
pub run_graph-IsSafe : (answers : List Answers) → IsSafe (run_graph answers entry)
run_graph-IsSafe answers =
    run_graph-IsSafe_from answers entry
      (record { simulated = ground arith; verified = ground arith; bounded = omega arith })

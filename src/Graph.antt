-- ===== src/Graph.antt =====
-- pipeline/graph.py, pipeline/state.py and the stage nodes of pipeline/nodes/: the graph that runs
-- the stages, as a step function. What the agents, the tools and the disk answer is an argument of
-- a step; a node's own guards, its writes and its counters are the code's.
pub mod Nodes
pub mod Route
pub mod Halt
pub mod Safe
use agentic_rtl_engine.Prelude.{ℕ, String, Option, none, List, [], ◌∷◌}
use agentic_rtl_engine.Graph.Nodes.{
  PipelineRun, Answers, run_stage1, run_stage2, run_stage3, run_stage4, run_diagnose,
  run_stage3_revise_cocotb, run_stage3_backtrack_refinement,
}
use agentic_rtl_engine.Graph.Route.{
  Node, stage1, stage2, stage3, stage4, diagnose, revise_cocotb, backtrack_refinement, finish,
  route_after_stage1, route_after_stage3, route_after_stage4, route_after_diagnose,
}

-- The node that runs next, with the state and the artifacts on disk.
abbrev pub Config : Type 0
Config = Node × PipelineRun

-- One node of the graph, and the edge behind it.
unfoldable pub step : Answers → Config → Config
unfolding run_stage1 run_stage2 run_stage3 run_stage4 run_diagnose run_stage3_revise_cocotb
    run_stage3_backtrack_refinement route_after_stage1 route_after_stage3 route_after_stage4
    route_after_diagnose
step a (stage1, s) = let s' = run_stage1 a.agent1 s in (route_after_stage1 s', s')
step a (stage2, s) = (stage3, run_stage2 a.generator s)
step a (stage3, s) = let s' = run_stage3 a.agent3 s in (route_after_stage3 s', s')
step a (stage4, s) = let s' = run_stage4 a.runner s in (route_after_stage4 s', s')
step a (diagnose, s) = let s' = run_diagnose a.diagnoser s in (route_after_diagnose s', s')
step a (revise_cocotb, s) =
    let s' = run_stage3_revise_cocotb a.revision s in (route_after_stage3 s', s')
step a (backtrack_refinement, s) =
    let s' = run_stage3_backtrack_refinement a.backtrack s in (route_after_stage3 s', s')
step a (finish, s) = (finish, s)

-- The graph on a sequence of answers, one for each node that it runs. How many nodes LangGraph lets
-- a run have is that library's; its default is above the eleven that a run needs.
unfoldable pub run_graph : List Answers → Config → Config
run_graph [] c = c
run_graph (a ∷ answers) c = run_graph answers (step a c)

-- The state with which main.py enters the graph: no artifact but the prompt.
abbrev pub initial : PipelineRun
initial = record {
  stage1_retries = 0;
  cocotb_retries = 0;
  last_diagnosis = none;
  summary = none;
  testbench = none;
  rtl = none;
  evaluation = none;
}

abbrev pub entry : Config
entry = (stage1, initial)

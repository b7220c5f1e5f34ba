-- ===== src/Examples/Graph.antt =====
-- Runs of the graph whose simulation fails each time.
use agentic_rtl_engine.Prelude.{◌≡◌, false, List, [], ◌∷◌, arith}
use agentic_rtl_engine.Graph.Nodes.{
  Answers, success, agent1_succeeded, generated, lowered, engine_missing, simulated, classified,
  Stage1Answer,
}
use agentic_rtl_engine.Graph.Route.{finish}
use agentic_rtl_engine.Graph.{run_graph, entry}
use agentic_rtl_engine.Graph.Halt.{Readable, run_graph_halts}
use agentic_rtl_engine.Graph.Safe.{IsSafe, run_graph-IsSafe}

abbrev answer : Stage1Answer → Answers
answer a = record {
  agent1 = a;
  generator = generated;
  agent3 = lowered success;
  runner = simulated false;
  diagnoser = classified "cocotb";
  revision = lowered success;
  backtrack = engine_missing;
}

abbrev eleven : Stage1Answer → List Answers
eleven s = let a = answer s in a ∷ a ∷ a ∷ a ∷ a ∷ a ∷ a ∷ a ∷ a ∷ a ∷ a ∷ []

readable : Readable (answer agent1_succeeded)
readable p = cc

run_graph_halts_example : (run_graph (eleven agent1_succeeded) entry).0 ≡ finish
run_graph_halts_example =
    run_graph_halts (eleven agent1_succeeded)
      (
        readable,
        (
          readable,
          (
            readable,
            (
              readable,
              (
                readable,
                (readable, (readable, (readable, (readable, (readable, (readable, tt)))))),
              ),
            ),
          ),
        ),
      )
      (omega arith)

run_graph-IsSafe_example : IsSafe (run_graph (eleven agent1_succeeded) entry)
run_graph-IsSafe_example = run_graph-IsSafe (eleven agent1_succeeded)

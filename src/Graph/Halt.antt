-- ===== src/Graph/Halt.antt =====
-- How many nodes of pipeline/graph.py run, counted by the retries that are left.
use agentic_rtl_engine.Prelude.{
  ℕ, ◌+◌, ◌-◌, ◌*◌, ◌≤◌, ◌<◌, ◌≡◌, ◌≢◌, refl, List, [], ◌∷◌, All, length, arith, inl, inr, ◌⊎◌,
}
use agentic_rtl_engine.Graph.Nodes.{Answers, PipelineRun, prompt_unreadable}
use agentic_rtl_engine.Graph.Route.{
  Node, stage1, stage2, stage3, stage4, diagnose, revise_cocotb, backtrack_refinement, finish,
}
use agentic_rtl_engine.Graph.{Config, step, run_graph, entry}

-- The nodes that may still run, at most: three for each simulation retry that is left.
pub steps_left : Config → ℕ
steps_left (stage1, s) = 3 + (1 - s.stage1_retries) + (1 + 3 * (2 - s.cocotb_retries))
steps_left (stage2, s) = 2 + (1 + 3 * (2 - s.cocotb_retries))
steps_left (stage3, s) = 1 + (1 + 3 * (2 - s.cocotb_retries))
steps_left (stage4, s) = 1 + 3 * (2 - s.cocotb_retries)
steps_left (diagnose, s) = 3 + 3 * (1 - s.cocotb_retries)
steps_left (revise_cocotb, s) = 2 + 3 * (1 - s.cocotb_retries)
steps_left (backtrack_refinement, s) = 2 + 3 * (1 - s.cocotb_retries)
steps_left (finish, s) = 0

-- Stage 1 can read the prompt file.
abbrev pub Readable : Answers → Type 0
Readable a = a.agent1 ≢ prompt_unreadable

step-steps_left :
    (a : Answers) (c : Config) → Readable a → c.0 ≢ finish → steps_left (step a c) < steps_left c
unfolding step steps_left
step-steps_left a (stage1, s) h n = ground arith
step-steps_left a (stage2, s) h n = ground arith
step-steps_left a (stage3, s) h n = ground arith
step-steps_left a (stage4, s) h n = ground arith
step-steps_left a (diagnose, s) h n = ground arith
step-steps_left a (revise_cocotb, s) h n = ground arith
step-steps_left a (backtrack_refinement, s) h n = ground arith
step-steps_left a (finish, s) h n = absurd (n refl)

no_steps_left : (c : Config) → steps_left c ≤ 0 → c.0 ≡ finish
unfolding steps_left
no_steps_left (finish, s) h = refl
no_steps_left (stage1, s) h = absurd (omega arith)
no_steps_left (stage2, s) h = absurd (omega arith)
no_steps_left (stage3, s) h = absurd (omega arith)
no_steps_left (stage4, s) h = absurd (omega arith)
no_steps_left (diagnose, s) h = absurd (omega arith)
no_steps_left (revise_cocotb, s) h = absurd (omega arith)
no_steps_left (backtrack_refinement, s) h = absurd (omega arith)

run_graph-stays :
    (answers : List Answers) (s : PipelineRun) → (run_graph answers (finish, s)).0 ≡ finish
unfolding run_graph step
run_graph-stays [] s = refl
run_graph-stays (a ∷ answers) s = run_graph-stays answers s

is_finish-cases : (n : Node) → (n ≡ finish) ⊎ (n ≢ finish)
is_finish-cases finish = inl refl
is_finish-cases _ = inr cc

run_graph-finishes :
    (answers : List Answers) (c : Config)
    → All Readable answers
    → steps_left c ≤ length answers
    → (run_graph answers c).0 ≡ finish
unfolding run_graph
run_graph-finishes [] c h l = no_steps_left c l
run_graph-finishes (a ∷ answers) (n, s) h l = elim (is_finish-cases n) [
  | inl e ↦ rw e (run_graph-stays (a ∷ answers) s)
  | inr ne ↦
      run_graph-finishes answers (step a (n, s)) h.1
        (omega (arith, step-steps_left a (n, s) h.0 ne))
]

-- Whatever the agents and tools answer, the graph is at its end after eleven nodes, as long as
-- Stage 1 can read the prompt.
pub run_graph_halts :
    (answers : List Answers)
    → All Readable answers
    → 11 ≤ length answers
    → (run_graph answers entry).0 ≡ finish
unfolding steps_left
run_graph_halts answers h l = run_graph-finishes answers entry h (omega arith)

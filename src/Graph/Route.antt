-- ===== src/Graph/Route.antt =====
-- pipeline/graph.py: the edges.
use agentic_rtl_engine.Prelude.{
  ℕ, String, Bool, true, false, Option, none, some, leb, ltb, str_eq, if◌then◌else◌,
}
use agentic_rtl_engine.Graph.Nodes.{Status, success, error, partial, PipelineRun}

pub data Node : Type 0 where
  stage1 stage2 stage3 stage4 diagnose revise_cocotb backtrack_refinement finish : Node

abbrev pub max_stage1_retries : ℕ
max_stage1_retries = 1

abbrev pub max_cocotb_retries : ℕ
max_cocotb_retries = 2

-- `_read_status`: an artifact that cannot be read is an error.
unfoldable pub read_status : Option Status → Status
read_status none = error
read_status (some s) = s

unfoldable pub is_success : Option Status → Bool
unfolding read_status
is_success a = elim (read_status a) [ success ↦ true | error ↦ false | partial ↦ false ]

unfoldable pub route_after_stage1 : PipelineRun → Node
unfolding is_success
route_after_stage1 s =
    if is_success s.summary
    then stage2
    else if leb s.stage1_retries max_stage1_retries
    then stage1
    else finish

unfoldable pub route_after_stage3 : PipelineRun → Node
unfolding is_success
route_after_stage3 s = if is_success s.rtl then stage4 else finish

unfoldable pub route_after_stage4 : PipelineRun → Node
unfolding is_success
route_after_stage4 s =
    if is_success s.evaluation
    then finish
    else if ltb s.cocotb_retries max_cocotb_retries
    then diagnose
    else finish

-- A diagnosis that is missing, or is no "refinement", is a spec fault.
unfoldable pub is_refinement : Option String → Bool
is_refinement none = false
is_refinement (some t) = str_eq t "refinement"

unfoldable pub route_after_diagnose : PipelineRun → Node
unfolding is_refinement
route_after_diagnose s =
    if is_refinement s.last_diagnosis then backtrack_refinement else revise_cocotb

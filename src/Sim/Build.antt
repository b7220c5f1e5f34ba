-- ===== src/Sim/Build.antt =====
-- pipeline/cocotb/spec_sim.py, `SpecSimulator.__init__`: the simulator of an engine spec. The left
-- sides that `_edge` splits at each edge are split once.
use agentic_rtl_engine.Prelude.{
  String, Bool, false, not, ◌&&◌, ◌||◌, Option, none, some, List, [], ◌∷◌, ◌++◌, map, replicate,
  ◌==◌, if◌then◌else◌, str_eq,
}
use agentic_rtl_engine.Prelude.Dict.{Dict, put, update}
use agentic_rtl_engine.Expr.Value.{x, arr}
use agentic_rtl_engine.Expr.Interp.{Env}
use agentic_rtl_engine.Spec.{width_or_one, Variable, Action, Spec}
use agentic_rtl_engine.Bridge.LeftSide.{split_lhs, lhs_base}
use agentic_rtl_engine.Bridge.{action_update_exprs, compose_clocked_actions}
use agentic_rtl_engine.Sim.{Update, scalar, element, Design}

unfoldable pub to_update : String × String → Update
unfolding split_lhs
to_update (lhs, expr) = elim (split_lhs lhs) [
  | none ↦ scalar lhs expr
  | some (base, index) ↦ element base index expr
]

-- The variables that are no ports, and those of a kind.
unfoldable pub keep_variables : (Variable → Bool) → List Variable → List Variable
keep_variables test [] = []
keep_variables test (v ∷ variables) =
    let rest = keep_variables test variables in if test v then v ∷ rest else rest

unfoldable pub names_where : (Variable → Bool) → List Variable → List String
unfolding keep_variables
names_where test variables = map (λ v. v.name) (keep_variables test variables)

unfoldable pub is_port : String → Variable → Bool
is_port reset_port v = str_eq v.name reset_port || str_eq v.name "clk"

abbrev pub is_memory : Variable → Bool
is_memory v = not (v.depth == 0)

abbrev pub is_plain_register : Variable → Bool
is_plain_register v = not (is_memory v) && not v.combinational

unfoldable pub keep_actions : (Action → Bool) → List Action → List Action
keep_actions test [] = []
keep_actions test (a ∷ actions) =
    let rest = keep_actions test actions in if test a then a ∷ rest else rest

unfoldable pub is_called : Option String → Action → Bool
is_called none a = false
is_called (some name) a = str_eq a.name name

abbrev pub clocked_actions : Spec → List Action
clocked_actions s = keep_actions (λ a. a.clocked && not (is_called s.reset_action a)) s.actions

abbrev pub comb_actions : Spec → List Action
comb_actions s = keep_actions (λ a. a.combinational && not (is_called s.reset_action a)) s.actions

unfoldable pub all_updates : List Action → Dict String
unfolding action_update_exprs
all_updates [] = []
all_updates (a ∷ actions) = action_update_exprs a ++ all_updates actions

-- The updates of the first action of the reset's name, with the bases of their left sides.
unfoldable pub reset_exprs : List Action → Dict String
unfolding action_update_exprs lhs_base
reset_exprs [] = []
reset_exprs (a ∷ actions) = map (λ kv. (lhs_base kv.0, kv.1)) (action_update_exprs a)

unfoldable pub design_of : String → Bool → Spec → Design
unfolding keep_variables names_where is_port width_or_one keep_actions is_called all_updates
    reset_exprs to_update
design_of reset_port reset_active_low s =
    let variables = keep_variables (λ v. not (is_port reset_port v)) s.variables in
    record {
      reset_port = reset_port;
      reset_active_low = reset_active_low;
      widths = update [] (map (λ v. (v.name, width_or_one v.width)) variables);
      reg_vars = names_where is_plain_register variables;
      clocked_updates = map to_update (compose_clocked_actions (clocked_actions s));
      comb_updates = all_updates (comb_actions s);
      reset_updates = reset_exprs (keep_actions (is_called s.reset_action) s.actions);
    }

-- Every scalar is X, and so is every element of a memory; `depths` has the last depth of a name.
unfoldable pub put_scalars : List String → Env → Env
put_scalars [] st = st
put_scalars (n ∷ names) st = put_scalars names (put n x st)

unfoldable pub put_memories : List Variable → Env → Env
put_memories [] st = st
put_memories (v ∷ variables) st =
    put_memories variables (put v.name (arr (replicate v.depth none)) st)

unfoldable pub power_up_of : String → Spec → Env
unfolding keep_variables names_where is_port put_scalars put_memories
power_up_of reset_port s =
    let variables = keep_variables (λ v. not (is_port reset_port v)) s.variables in
    put_memories (keep_variables is_memory variables) (
      put_scalars (names_where (λ v. v.combinational) variables)
        (put_scalars (names_where is_plain_register variables) []))

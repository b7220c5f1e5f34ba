-- ===== src/Rules/ScheduleHandshakeFsm.antt =====
-- pipeline/refinement/rules/schedule_handshake_fsm.py: the rule.
use Prim.Native.String.{◌++◌}
use agentic_rtl_engine.Prelude.{
  String, Bool, true, false, not, ◌&&◌, Option, none, some, List, [], ◌∷◌, map, if◌then◌else◌,
  str_eq,
}
use mathlib.Core.List.{◌++◌ as append}
use agentic_rtl_engine.Prelude.Result.{Result, ok, raises, value_error, key_error, ◌>>=◌}
use agentic_rtl_engine.Prelude.Dict.{Dict, get, update, contains}
use agentic_rtl_engine.Spec.{Variable, ActionUpdate, LoopMarker, Action, Spec, plain_action}
use agentic_rtl_engine.Rules.{
  Params, get_or, any_action, find_action, change_action, variable_names,
}
use agentic_rtl_engine.Rules.IfChain.{subst_names, parse_if_chain}

unfoldable pub is_scheduled_later : Action → Bool
is_scheduled_later a = elim a.loop [ none ↦ false | some l ↦ true ]

unfoldable pub is_applicable : Spec → Bool
unfolding any_action is_scheduled_later variable_names
is_applicable s =
    any_action (λ a. is_scheduled_later a && not (contains "state" (variable_names s.variables)))
      s.reset_action s.actions

-- The names of the control signals.
pub record Signals : Type 0 where
  pub state_var : String
  pub done_var : String
  pub start : String

abbrev conditional : String → String → String → String
conditional g v rest = "IF " ++ (g ++ (" THEN " ++ (v ++ (" ELSE " ++ rest))))

unfoldable pub load_guard : Signals → String
load_guard g =
    "(("
    ++ (g.state_var ++ (" = 0) OR (" ++ (g.state_var ++ (" = 2)) AND " ++ (g.start ++ " = 1")))))

unfoldable pub state_next : Signals → String → String
unfolding load_guard
state_next g stay_busy = conditional (load_guard g) "1" (
    conditional (g.state_var ++ (" = 1 AND (" ++ (stay_busy ++ ")"))) "1"
      (conditional (g.state_var ++ " = 1") "2" (conditional (g.state_var ++ " = 2") "0" "0")))

-- The segments of a register's body, each under the condition of BUSY.
unfoldable pub busy_segments : Signals → List (String × String) → String → List (String × String)
busy_segments g [] default = (g.state_var ++ " = 1", default) ∷ []
busy_segments g ((guard, value) ∷ pairs) default =
    (g.state_var ++ (" = 1 AND (" ++ (guard ++ ")")), value) ∷ busy_segments g pairs default

unfoldable pub chain_of : List (String × String) → String → String
chain_of [] hold = hold
chain_of ((guard, value) ∷ segments) hold = conditional guard value (chain_of segments hold)

-- Load, step or hold: the next state of a loop register. An `init` that lacks it is a KeyError.
unfoldable pub register_update : Signals → Dict String → String → String → Result ActionUpdate
unfolding load_guard busy_segments chain_of parse_if_chain
register_update g init name body = elim (get name init) [
  | none ↦ raises key_error
  | some load ↦
      let parsed = parse_if_chain body in
      ok (record {
        variable = name;
        index = "";
        expression = chain_of ((load_guard g, load) ∷ busy_segments g parsed.0 parsed.1) name;
      })
]

unfoldable pub register_updates : Signals → Dict String → Dict String → Result (List ActionUpdate)
unfolding register_update
register_updates g init [] = ok []
register_updates g init ((name, body) ∷ rest) =
    register_update g init name body >>= λ u. register_updates g init rest >>= λ us. ok (u ∷ us)

unfoldable pub scheduled : Signals → LoopMarker → Action → Result Action
unfolding register_updates state_next subst_names
scheduled g loop a =
    let body = update [] (map (λ u. (u.variable, u.expression)) a.updates) in
    let stay_busy = subst_names (get_or loop.guard a.guard) body in
    register_updates g loop.init body >>= λ registers. ok (record a {
      updates =
          record { variable = g.state_var; index = ""; expression = state_next g stay_busy }
          ∷ registers;
      guard = some "TRUE";
      clocked = true;
      postcondition = none;
      loop = none;
    })

abbrev done_flag : Signals → Action
done_flag g =
    record (plain_action "DoneFlag" (some "TRUE")
      (record { variable = g.done_var; index = ""; expression = g.state_var ++ " = 2" } ∷ [])) {
        combinational = true;
      }

unfoldable pub add_variable : Variable → List Variable → List Variable
unfolding variable_names
add_variable v variables =
    if contains v.name (variable_names variables) then variables else append variables (v ∷ [])

abbrev state_register : Signals → Variable
state_register g = record {
  name = g.state_var;
  type = "0..2";
  width = some 2;
  depth = 0;
  abstract = some false;
  reset_value = some "0";
  clocked = true;
  combinational = false;
}

abbrev done_wire : Signals → Variable
done_wire g = record {
  name = g.done_var;
  type = "0..1";
  width = some 1;
  depth = 0;
  abstract = some false;
  reset_value = none;
  clocked = false;
  combinational = true;
}

unfoldable pub schedule : Signals → String → Action → Spec → Spec
unfolding add_variable change_action
schedule g name a s = record s {
  actions = append (change_action name (λ _. a) s.actions) (done_flag g ∷ []);
  variables = add_variable (done_wire g) (add_variable (state_register g) s.variables);
}

-- `isinstance(val, str) and val`
abbrev pub non_empty : String → Result String
non_empty s = if str_eq s "" then raises value_error else ok s

abbrev pub named : Option String → Result String
named none = raises value_error
named (some s) = non_empty s

unfoldable pub schedule_loop : Signals → String → Spec → Option LoopMarker → Action → Result Spec
unfolding scheduled schedule
schedule_loop g name s none a = ok s
schedule_loop g name s (some loop) a = scheduled g loop a >>= λ a'. ok (schedule g name a' s)

unfoldable pub apply : Spec → Params → Result Spec
unfolding find_action schedule_loop
apply s p = named p.action_name >>= λ name. non_empty (get_or "state" p.state_var) >>= λ state_var.
    non_empty (get_or "done" p.done_var) >>= λ done_var.
    non_empty (get_or "start" p.start) >>= λ start.
    let g : Signals = record { state_var = state_var; done_var = done_var; start = start } in
    elim (find_action name s.actions) [ none ↦ ok s | some a ↦ schedule_loop g name s a.loop a ]

-- ===== src/Kernel/Failure.antt =====
-- What can be wrong with a derivation at its inputs, by the texts in pipeline/refinement/obligations.py.
use agentic_rtl_engine.Prelude.{ℕ, zero, suc, ◌≡◌, false, List, In}
use agentic_rtl_engine.Prelude.Result.{ok}
use agentic_rtl_engine.Expr.Value.{Value}
use agentic_rtl_engine.Expr.Interp.{Env}
use agentic_rtl_engine.Expr.Lexer.{eval}
use agentic_rtl_engine.Kernel.{Derivation, apply_init, step_body, bind_mapping, decreases, portable}
use agentic_rtl_engine.Kernel.Check.{
  Obligation, o1, o2, o3, Detail, invariant_after_init, invariant_at_entry, body_breaks_invariant,
  post_at_exit, variant_not_decreased, guard_still_holds, Counterexample, run_loop,
}
use agentic_rtl_engine.Kernel.Loop.{Holds, HoldsNot, Round}

-- Rounds of the loop in which nothing is wrong.
pub data Rounds (d : Derivation) : ℕ → Env → Env → Type 0 where
  here : {env : Env} → Rounds d zero env env
  there :
      {k : ℕ} {env nxt exit : Env}
      → Round d env nxt
      → Holds nxt d.invariant
      → Rounds d k nxt exit
      → Rounds d (suc k) env exit

-- What is wrong with the derivation at the inputs, in the state.
pub data Failure (d : Derivation) (inputs : Env) : Obligation → Detail → Env → Type 0 where
  bad_init :
      {start : Env}
      → apply_init inputs d.init ≡ ok start
      → HoldsNot start d.invariant
      → Failure d inputs o1 invariant_after_init start
  bad_entry :
      {start : Env}
      → apply_init inputs d.init ≡ ok start
      → HoldsNot start d.invariant
      → Failure d inputs o2 invariant_at_entry start
  bad_body :
      {k : ℕ} {start env nxt : Env}
      → apply_init inputs d.init ≡ ok start
      → Rounds d k start env
      → Holds env d.guard
      → step_body env d.body ≡ ok nxt
      → HoldsNot nxt d.invariant
      → Failure d inputs o2 body_breaks_invariant env
  bad_variant :
      {k : ℕ} {start env nxt : Env} {before after : Value}
      → apply_init inputs d.init ≡ ok start
      → Rounds d k start env
      → Holds env d.guard
      → step_body env d.body ≡ ok nxt
      → eval env d.variant ≡ ok before
      → eval nxt d.variant ≡ ok after
      → decreases after before ≡ ok false
      → Failure d inputs o2 (variant_not_decreased before after) env
  endless :
      {start env : Env}
      → apply_init inputs d.init ≡ ok start
      → Rounds d d.max_iters start env
      → Holds env d.guard
      → Failure d inputs o2 (guard_still_holds d.max_iters) env
  bad_post :
      {start exit post_env : Env}
      → apply_init inputs d.init ≡ ok start
      → run_loop d d.max_iters start ≡ ok exit
      → bind_mapping exit d.mapping ≡ ok post_env
      → HoldsNot post_env d.post
      → Failure d inputs o3 post_at_exit post_env

-- A counterexample that reports a failure at the inputs.
pub record Explains (d : Derivation) (inputs : Env) (c : Counterexample) : Type 0 where
  pub same_inputs : c.inputs ≡ inputs
  pub state : Env
  pub same_state : c.state ≡ portable state
  pub failure : Failure d inputs c.obligation c.detail state

-- A failure at some valuation of the list.
abbrev pub IsExplained : Derivation → List Env → Counterexample → Type 0
IsExplained d valuations c = (inputs : Env) × In inputs valuations × Explains d inputs c

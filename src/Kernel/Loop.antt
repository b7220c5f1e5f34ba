-- ===== src/Kernel/Loop.antt =====
-- What the obligations mean: the derivation's loop as a relation, with no bound on its rounds.
-- `LoopRun d k env exit` says that the loop, entered in `env`, leaves in `exit` after `k` rounds,
-- that the invariant holds in each state on the way, and that each round lowers the variant.
use agentic_rtl_engine.Prelude.{ℕ, zero, suc, ◌≤◌, ◌≡◌, ◌≢◌, String, true}
use agentic_rtl_engine.Prelude.Result.{ok}
use agentic_rtl_engine.Expr.Value.{Value, num}
use agentic_rtl_engine.Expr.Interp.{Env}
use agentic_rtl_engine.Expr.Lexer.{eval}
use agentic_rtl_engine.Kernel.{Derivation, apply_init, step_body, bind_mapping, decreases}

-- The condition evaluates to 1, or to something else.
abbrev pub Holds : Env → String → Type 0
Holds env e = eval env e ≡ ok (num 1)

abbrev pub HoldsNot : Env → String → Type 0
HoldsNot env e = (v : Value) × (eval env e ≡ ok v) × (v ≢ num 1)

-- One round: the guard holds, the body leads to `nxt`, and the variant is less there.
pub record Round (d : Derivation) (env nxt : Env) : Type 0 where
  pub guarded : Holds env d.guard
  pub stepped : step_body env d.body ≡ ok nxt
  pub before : Value
  pub after : Value
  pub measured : eval env d.variant ≡ ok before
  pub measured_after : eval nxt d.variant ≡ ok after
  pub lowered : decreases after before ≡ ok true

pub data LoopRun (d : Derivation) : ℕ → Env → Env → Type 0 where
  leaves : {env : Env} → Holds env d.invariant → HoldsNot env d.guard → LoopRun d zero env env
  loops :
      {k : ℕ} {env nxt exit : Env}
      → Holds env d.invariant
      → Round d env nxt
      → LoopRun d k nxt exit
      → LoopRun d (suc k) env exit

-- The derivation is right on one valuation of the inputs.
pub record IsCorrectOn (d : Derivation) (inputs : Env) : Type 0 where
  pub start : Env
  pub starts : apply_init inputs d.init ≡ ok start
  pub rounds : ℕ
  pub in_time : rounds ≤ d.max_iters
  pub exit : Env
  pub run : LoopRun d rounds start exit
  pub post_env : Env
  pub bound : bind_mapping exit d.mapping ≡ ok post_env
  pub established : Holds post_env d.post

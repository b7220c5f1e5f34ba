-- ===== src/Kernel.antt =====
-- pipeline/refinement/obligations.py: the obligation kernel. The derivation and the execution of
-- its loop are here; the input domain, the checks and what they establish are below.
pub mod Domain
pub mod Check
pub mod Loop
pub mod Sound
pub mod Verdict
pub mod Failure
pub mod Blame
pub mod Refute
pub mod Backend
use agentic_rtl_engine.Prelude.{
  ℕ, zero, suc, String, Bool, true, false, Option, none, some, List, [], ◌∷◌,
}
use agentic_rtl_engine.Prelude.Result.{Result, ok, ◌>>=◌}
use agentic_rtl_engine.Prelude.Dict.{Dict, put}
use agentic_rtl_engine.Expr.Value.{Value, x, num, arr, lt, compare_values}
use agentic_rtl_engine.Expr.Interp.{Env}
use agentic_rtl_engine.Expr.Lexer.{eval}

-- The arguments of `discharge_loop_obligations`, but for the backend.
pub record Derivation : Type 0 where
  pub post : String
  pub invariant : String
  pub variant : String
  pub guard : String
  pub init : Dict String
  pub body : Dict String
  pub mapping : Dict String
  pub input_widths : Dict ℕ
  pub exhaustive_threshold : ℕ
  pub max_iters : ℕ

-- `_eval(…) == 1`: neither X nor a list is 1.
unfoldable pub is_one : Value → Bool
is_one (num (suc zero)) = true
is_one _ = false

-- `env[var] = _eval(expr, env)` for each item in order: a later expression reads the earlier ones.
unfoldable pub apply_init : Env → Dict String → Result Env
apply_init env [] = ok env
apply_init env ((var, expr) ∷ init) = eval env expr >>= λ v. apply_init (put var v env) init

-- `nxt[var] = _eval(expr, env)` for each item: every expression reads the state before.
unfoldable pub assign_all : Env → Env → Dict String → Result Env
assign_all env nxt [] = ok nxt
assign_all env nxt ((var, expr) ∷ body) = eval env expr >>= λ v. assign_all env (put var v nxt) body

unfoldable pub step_body : Env → Dict String → Result Env
unfolding assign_all
step_body env body = assign_all env env body

-- The state in which the postcondition is read: the abstract variables bound at the loop's exit.
unfoldable pub bind_mapping : Env → Dict String → Result Env
unfolding assign_all
bind_mapping env mapping = assign_all env env mapping

-- `after < before`; a measure that is X does not decrease.
unfoldable pub decreases : Value → Value → Result Bool
unfolding is_one
decreases after before = compare_values lt after before >>= λ r. ok (is_one r)

-- `_portable`: the items whose value is an int or X.
unfoldable pub portable : Env → Env
portable [] = []
portable ((k, arr l) ∷ env) = portable env
portable ((k, v) ∷ env) = (k, v) ∷ portable env

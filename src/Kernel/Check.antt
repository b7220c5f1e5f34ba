-- ===== src/Kernel/Check.antt =====
-- pipeline/refinement/obligations.py: the checks of the three obligations, and the Python kernel.
use agentic_rtl_engine.Prelude.{
  ℕ, zero, suc, Bool, true, false, Option, none, some, List, [], ◌∷◌, length, if◌then◌else◌,
}
use agentic_rtl_engine.Prelude.Result.{Result, ok, ◌>>=◌}
use agentic_rtl_engine.Expr.Value.{Value}
use agentic_rtl_engine.Expr.Interp.{Env}
use agentic_rtl_engine.Expr.Lexer.{eval}
use agentic_rtl_engine.Kernel.{
  Derivation, is_one, apply_init, step_body, bind_mapping, decreases, portable,
}
use agentic_rtl_engine.Kernel.Domain.{Mode, input_domain}

pub data Obligation : Type 0 where
  o1 o2 o3 : Obligation

-- The text in `detail`, with the values that it quotes.
pub data Detail : Type 0 where
  invariant_after_init invariant_at_entry body_breaks_invariant post_at_exit : Detail
  variant_not_decreased : Value → Value → Detail
  guard_still_holds : ℕ → Detail

pub record Counterexample : Type 0 where
  pub obligation : Obligation
  pub inputs : Env
  pub state : Env
  pub detail : Detail

pub record Flags : Type 0 where
  pub O1 : Bool
  pub O2 : Bool
  pub O3 : Bool

pub record ObligationResult : Type 0 where
  pub ok : Bool
  pub mode : Mode
  pub cases_checked : ℕ
  pub obligations : Flags
  pub counterexample : Option Counterexample

-- A check's outcome: `none` where it held.
abbrev pub Verdict : Type 0
Verdict = Result (Option Counterexample)

abbrev pub fails : Obligation → Env → Env → Detail → Verdict
fails o inputs env d =
    ok (some (record { obligation = o; inputs = inputs; state = portable env; detail = d }))

-- A check of one valuation after another, up to the first that fails.
unfoldable pub check_each : (Env → Verdict) → List Env → Verdict
check_each check [] = ok none
check_each check (inputs ∷ rest) =
    check inputs >>= λ r. elim r [ none ↦ check_each check rest | some c ↦ ok (some c) ]

unfoldable pub check_O1_at : Derivation → Env → Verdict
check_O1_at d inputs = apply_init inputs d.init >>= λ env. eval env d.invariant >>= λ inv.
    if is_one inv then ok none else fails o1 inputs env invariant_after_init

-- The end of a round: the variant is compared, and the loop goes on.
unfoldable pub compare_variant : Env → Env → Value → Value → Verdict → Verdict
compare_variant inputs env before after again = decreases after before >>= λ down.
    if down then again else fails o2 inputs env (variant_not_decreased before after)

-- The body of the loop of `_check_O2`; `again` is the rest of the loop.
unfoldable pub round_O2 : Derivation → Env → (Env → Verdict) → Env → Verdict
unfolding compare_variant
round_O2 d inputs again env = eval env d.variant >>= λ before. step_body env d.body >>= λ nxt.
    eval nxt d.invariant >>= λ inv.
    if is_one inv
    then (eval nxt d.variant >>= λ after. compare_variant inputs env before after (again nxt))
    else fails o2 inputs env body_breaks_invariant

-- The loop of `_check_O2`, with the rounds that are left of `max_iters`.
unfoldable pub walk_O2 : Derivation → Env → ℕ → Env → Verdict
walk_O2 d inputs zero env = eval env d.guard >>= λ g.
    if is_one g then fails o2 inputs env (guard_still_holds d.max_iters) else ok none
walk_O2 d inputs (suc rounds) env = eval env d.guard >>= λ g.
    if is_one g then round_O2 d inputs (walk_O2 d inputs rounds) env else ok none

unfoldable pub check_O2_at : Derivation → Env → Verdict
unfolding walk_O2 round_O2
check_O2_at d inputs = apply_init inputs d.init >>= λ env. eval env d.invariant >>= λ inv.
    if is_one inv then walk_O2 d inputs d.max_iters env else fails o2 inputs env invariant_at_entry

-- The loop of `_check_O3`: the state at the loop's exit, or after `max_iters` rounds.
unfoldable pub run_loop : Derivation → ℕ → Env → Result Env
run_loop d zero env = eval env d.guard >>= λ g. ok env
run_loop d (suc rounds) env = eval env d.guard >>= λ g.
    let round = step_body env d.body >>= λ nxt. run_loop d rounds nxt in
    if is_one g then round else ok env

unfoldable pub check_O3_at : Derivation → Env → Verdict
unfolding run_loop
check_O3_at d inputs = apply_init inputs d.init >>= λ env. run_loop d d.max_iters env >>= λ exit.
    bind_mapping exit d.mapping >>= λ post_env. eval post_env d.post >>= λ post.
    if is_one post then ok none else fails o3 inputs post_env post_at_exit

abbrev pub flags : Bool → Bool → Bool → Flags
flags a b c = record { O1 = a; O2 = b; O3 = c }

unfoldable pub failed : Mode → ℕ → Flags → Counterexample → ObligationResult
failed mode cases held c = record {
  ok = false;
  mode = mode;
  cases_checked = cases;
  obligations = held;
  counterexample = some c;
}

unfoldable pub accepted : Mode → ℕ → ObligationResult
accepted mode cases = record {
  ok = true;
  mode = mode;
  cases_checked = cases;
  obligations = flags true true true;
  counterexample = none;
}

-- The result that ends the entry point at a check that failed, or the checks that come next.
unfoldable pub or_failed :
    Mode → ℕ → Flags → Result ObligationResult → Option Counterexample → Result ObligationResult
unfolding failed
or_failed mode cases held next none = next
or_failed mode cases held next (some c) = ok (failed mode cases held c)

-- The pure Python kernel on a list of valuations.
unfoldable pub discharge_on : Derivation → List Env → Mode → Result ObligationResult
unfolding check_each check_O1_at check_O2_at check_O3_at or_failed accepted
discharge_on d valuations mode =
    let cases = length valuations in
    let third =
      check_each (check_O3_at d) valuations
      >>= or_failed mode cases (flags true true false) (ok (accepted mode cases)) in
    let second =
      check_each (check_O2_at d) valuations
      >>= or_failed mode cases (flags true false false) third in
    check_each (check_O1_at d) valuations >>= or_failed mode cases (flags false false false) second

unfoldable pub discharge : Derivation → Result ObligationResult
unfolding discharge_on input_domain
discharge d =
    let domain = input_domain d.input_widths d.exhaustive_threshold in
    discharge_on d domain.0 domain.1

-- ===== src/Kernel/Sound.antt =====
-- What a verdict of the kernel establishes: an accepted derivation is right on every valuation
-- that was checked.
use agentic_rtl_engine.Prelude.{
  ℕ, zero, suc, ◌≤◌, ◌≡◌, ◌≢◌, refl, ap, ◌∙◌, Bool, true, false, Option, none, some, List, [], ◌∷◌,
  All, arith, if◌then◌else◌, inl, inr, Bool-cases,
}
use agentic_rtl_engine.Prelude.Result.{Result, ok, raises, ◌>>=◌, >>=-eq-ok, >>=-at}
use agentic_rtl_engine.Expr.Value.{Value, x, num, arr}
use agentic_rtl_engine.Expr.Interp.{Env}
use agentic_rtl_engine.Expr.Lexer.{eval}
use agentic_rtl_engine.Kernel.{Derivation, is_one, apply_init, step_body, bind_mapping, decreases}
use agentic_rtl_engine.Kernel.Domain.{Mode}
use agentic_rtl_engine.Kernel.Check.{
  Counterexample, Verdict, check_each, round_O2, walk_O2, check_O2_at, run_loop, check_O3_at, Flags,
  ObligationResult, or_failed, discharge_on,
}
use agentic_rtl_engine.Kernel.Loop.{Holds, Round, LoopRun, leaves, loops, IsCorrectOn}

pub is_one-num : (v : Value) → is_one v ≡ true → v ≡ num 1
unfolding is_one
is_one-num (num (suc zero)) h = refl
is_one-num x h = cc
is_one-num (num zero) h = cc
is_one-num (num (suc (suc n))) h = cc
is_one-num (arr l) h = cc

pub ne_of_is_one : (v : Value) → is_one v ≡ false → v ≢ num 1
unfolding is_one
ne_of_is_one v h e = false-ne-true (rw e at h)
  where
    false-ne-true : ¬ (◌≡◌ {A = Bool} true false)
    false-ne-true p = cc

some-ne-none : (c : Counterexample) → ¬ (◌≡◌ {A = Verdict} (ok (some c)) (ok none))
some-ne-none c p = cc

-- A test that passes lets the check go on; one that fails ends it with a counterexample.
pub passes :
    (m : Result Value) (a : Verdict) (c : Counterexample)
    → (m >>= λ v. if is_one v then a else ok (some c)) ≡ ok none
    → (m ≡ ok (num 1)) × (a ≡ ok none)
passes (raises e) a c h = cc
passes (ok v) a c h = elim (Bool-cases (is_one v)) [
  | inl e ↦ (ap ok (is_one-num v e), rw e at h)
  | inr e ↦ absurd (some-ne-none c (rw e at h))
]

check_each-All :
    (check : Env → Verdict) (valuations : List Env)
    → check_each check valuations ≡ ok none
    → All (λ i. check i ≡ ok none) valuations
unfolding check_each
check_each-All check [] h = tt
check_each-All check (i ∷ rest) h =
    let (r, p, q) = >>=-eq-ok (check i) _ h in split r p q (check_each-All check rest)
  where
    split :
        (r : Option Counterexample)
        → check i ≡ ok r
        → elim r [ none ↦ check_each check rest | some c ↦ ok (some c) ] ≡ ok none
        → (check_each check rest ≡ ok none → All (λ i. check i ≡ ok none) rest)
        → All (λ i. check i ≡ ok none) (i ∷ rest)
    split none p q ih = (p, ih q)
    split (some c) p q ih = absurd (some-ne-none c q)

abbrev Leaves : Derivation → ℕ → Env → Type 0
Leaves d n env = (k : ℕ) × (exit : Env) × (k ≤ n) × LoopRun d k env exit

-- A round that finds nothing wrong is a round of the loop, and so is what follows.
turn_of_pass :
    (d : Derivation) (inputs : Env) (again : Env → Verdict) (env : Env)
    → Holds env d.guard
    → round_O2 d inputs again env ≡ ok none
    → (nxt : Env) × Round d env nxt × Holds nxt d.invariant × (again nxt ≡ ok none)
unfolding round_O2
turn_of_pass d inputs again env hg h =
    let (before, pb, q₁) = >>=-eq-ok (eval env d.variant) _ h in
    let (nxt, ps, q₂) = >>=-eq-ok (step_body env d.body) _ q₁ in
    let (inv, q₃) = passes (eval nxt d.invariant) _ _ q₂ in
    let (after, pa, q₄) = >>=-eq-ok (eval nxt d.variant) _ q₃ in
    let (down, pd, q₅) = >>=-eq-ok (decreases after before) _ q₄ in
    elim (Bool-cases down) [
      | inl e ↦ (
        nxt,
        record {
          guarded = hg;
          stepped = ps;
          before = before;
          after = after;
          measured = pb;
          measured_after = pa;
          lowered = pd ∙ ap ok e;
        },
        inv,
        rw e at q₅,
      )
      | inr e ↦ absurd (some-ne-none _ (rw e at q₅))
    ]

turn :
    (d : Derivation) (n : ℕ) (env nxt : Env)
    → Holds env d.invariant
    → Round d env nxt
    → Leaves d n nxt
    → Leaves d (suc n) env
turn d n env nxt inv r (k, exit, l, run) = (suc k, exit, omega arith, loops inv r run)

-- The walk of `_check_O2` that finds nothing wrong is a run of the loop, within the rounds.
walk_O2-run :
    (d : Derivation) (inputs : Env) (n : ℕ) (env : Env)
    → Holds env d.invariant
    → walk_O2 d inputs n env ≡ ok none
    → Leaves d n env
unfolding walk_O2
walk_O2-run d inputs zero env inv h =
    let (g, pg, q) = >>=-eq-ok (eval env d.guard) _ h in
    elim (Bool-cases (is_one g)) [
      | inl e ↦ absurd (some-ne-none _ (rw e at q))
      | inr e ↦ (0, env, omega arith, leaves inv (g, pg, ne_of_is_one g e))
    ]
walk_O2-run d inputs (suc n) env inv h =
    let (g, pg, q) = >>=-eq-ok (eval env d.guard) _ h in
    elim (Bool-cases (is_one g)) [
      | inl e ↦
          let (nxt, r, inv', q') =
            turn_of_pass d inputs (walk_O2 d inputs n) env (pg ∙ ap ok (is_one-num g e))
              (rw e at q) in
          turn d n env nxt inv r (walk_O2-run d inputs n nxt inv' q')
      | inr e ↦ (0, env, omega arith, leaves inv (g, pg, ne_of_is_one g e))
    ]

check_O2_at-run :
    (d : Derivation) (inputs : Env)
    → check_O2_at d inputs ≡ ok none
    → (start : Env) × (apply_init inputs d.init ≡ ok start) × Leaves d d.max_iters start
unfolding check_O2_at
check_O2_at-run d inputs h =
    let (start, ps, q) = >>=-eq-ok (apply_init inputs d.init) _ h in
    let (inv, q') = passes (eval start d.invariant) _ _ q in
    (start, ps, walk_O2-run d inputs d.max_iters start inv q')

is_one-other : (v : Value) → v ≢ num 1 → is_one v ≡ false
is_one-other v h = elim (Bool-cases (is_one v)) [ inl e ↦ absurd (h (is_one-num v e)) | inr e ↦ e ]

-- The loop of `_check_O3` follows a run to its exit.
run_loop-LoopRun :
    (d : Derivation) (n : ℕ) {k : ℕ} {env exit : Env}
    → LoopRun d k env exit
    → k ≤ n
    → run_loop d n env ≡ ok exit
unfolding run_loop is_one
run_loop-LoopRun d zero (leaves inv (g, pg, ne)) l = rw pg
run_loop-LoopRun d (suc n) (leaves inv (g, pg, ne)) l = rw (pg, is_one-other g ne)
run_loop-LoopRun d zero (loops inv r run) l = elim l [ ]
run_loop-LoopRun d (suc n) (loops inv r run) l =
    rw (r.guarded, r.stepped) (run_loop-LoopRun d n run (omega arith))

check_O3_at-post :
    (d : Derivation) (inputs start exit : Env)
    → apply_init inputs d.init ≡ ok start
    → run_loop d d.max_iters start ≡ ok exit
    → check_O3_at d inputs ≡ ok none
    → (post_env : Env) × (bind_mapping exit d.mapping ≡ ok post_env) × Holds post_env d.post
unfolding check_O3_at
check_O3_at-post d inputs start exit ps pr h =
    let q = >>=-at (run_loop d d.max_iters start) _ pr (>>=-at (apply_init inputs d.init) _ ps h) in
    let (post_env, pb, q') = >>=-eq-ok (bind_mapping exit d.mapping) _ q in
    (post_env, pb, (passes (eval post_env d.post) _ _ q').0)

checks-IsCorrectOn :
    (d : Derivation) (inputs : Env)
    → check_O2_at d inputs ≡ ok none
    → check_O3_at d inputs ≡ ok none
    → IsCorrectOn d inputs
checks-IsCorrectOn d inputs h₂ h₃ =
    let (start, ps, (k, exit, l, run)) = check_O2_at-run d inputs h₂ in
    let (post_env, pb, hp) =
      check_O3_at-post d inputs start exit ps (run_loop-LoopRun d d.max_iters run l) h₃ in
    record {
      start = start;
      starts = ps;
      rounds = k;
      in_time = l;
      exit = exit;
      run = run;
      post_env = post_env;
      bound = pb;
      established = hp;
    }

All-IsCorrectOn :
    (d : Derivation) (valuations : List Env)
    → All (λ i. check_O2_at d i ≡ ok none) valuations
    → All (λ i. check_O3_at d i ≡ ok none) valuations
    → All (IsCorrectOn d) valuations
All-IsCorrectOn d [] h₂ h₃ = tt
All-IsCorrectOn d (i ∷ rest) h₂ h₃ =
    (checks-IsCorrectOn d i h₂.0 h₃.0, All-IsCorrectOn d rest h₂.1 h₃.1)

-- A result that accepts comes from a check that found nothing, and from what comes next.
or_failed-accepts :
    (m : Verdict) (mode : Mode) (cases : ℕ) (held : Flags) (next : Result ObligationResult)
    (r : ObligationResult)
    → r.ok ≡ true
    → (m >>= or_failed mode cases held next) ≡ ok r
    → (m ≡ ok none) × (next ≡ ok r)
unfolding or_failed
or_failed-accepts (raises e) mode cases held next r acc h = cc
or_failed-accepts (ok none) mode cases held next r acc h = (refl, h)
or_failed-accepts (ok (some c)) mode cases held next r acc h = ground arith

-- The kernel accepts a derivation only if it is right on every valuation of its list.
pub discharge_on-IsCorrectOn :
    (d : Derivation) (valuations : List Env) (mode : Mode) (r : ObligationResult)
    → discharge_on d valuations mode ≡ ok r
    → r.ok ≡ true
    → All (IsCorrectOn d) valuations
unfolding discharge_on
discharge_on-IsCorrectOn d valuations mode r h acc =
    let (p₁, q₁) = or_failed-accepts _ _ _ _ _ r acc h in
    let (p₂, q₂) = or_failed-accepts _ _ _ _ _ r acc q₁ in
    let (p₃, q₃) = or_failed-accepts _ _ _ _ _ r acc q₂ in
    All-IsCorrectOn d valuations (check_each-All _ valuations p₂) (check_each-All _ valuations p₃)

-- ===== src/Kernel/Refute/Checks.antt =====
-- The counterexample of each check in Kernel/Check, at one valuation.
use agentic_rtl_engine.Prelude.{
  ℕ, zero, suc, ◌+◌, ◌≡◌, ◌≢◌, refl, ap, ◌∙◌, none, some, arith, if◌then◌else◌, ◌⊎◌, inl, inr,
  Bool-cases,
}
use mathlib.Core.Path.{subst}
use agentic_rtl_engine.Prelude.Result.{Result, ok, raises, ◌>>=◌, >>=-eq-ok}
use agentic_rtl_engine.Expr.Value.{Value, num}
use agentic_rtl_engine.Expr.Interp.{Env}
use agentic_rtl_engine.Expr.Lexer.{eval}
use agentic_rtl_engine.Kernel.{
  Derivation, is_one, apply_init, step_body, bind_mapping, decreases, portable,
}
use agentic_rtl_engine.Kernel.Check.{
  Obligation, Detail, Counterexample, Verdict, fails, check_O1_at, round_O2, walk_O2, check_O2_at,
  run_loop, check_O3_at,
}
use agentic_rtl_engine.Kernel.Loop.{Holds, Round}
use agentic_rtl_engine.Kernel.Sound.{is_one-num, ne_of_is_one}
use agentic_rtl_engine.Kernel.Failure.{
  Rounds, here, there, Failure, bad_init, bad_entry, bad_body, bad_variant, endless, bad_post,
  Explains,
}

explain :
    (d : Derivation) (inputs state : Env) (o : Obligation) (t : Detail) (c : Counterexample)
    → Failure d inputs o t state
    → fails o inputs state t ≡ ok (some c)
    → Explains d inputs c
explain d inputs state o t c f h =
    let found : Counterexample = record {
      obligation = o;
      inputs = inputs;
      state = portable state;
      detail = t;
    } in
    let e : (found ≡ c) = cc in
    subst (Explains d inputs) e
      (record { same_inputs = refl; state = state; same_state = refl; failure = f })

pub none-ne-some : {c : Counterexample} → ¬ (◌≡◌ {A = Verdict} (ok none) (ok (some c)))
none-ne-some p = cc

-- A test that fails, or the check that goes on.
stops :
    (m : Result Value) (a b : Verdict) (c : Counterexample)
    → (m >>= λ v. if is_one v then a else b) ≡ ok (some c)
    → ((m ≡ ok (num 1)) × (a ≡ ok (some c)))
      ⊎ ((v : Value) × (m ≡ ok v) × (v ≢ num 1) × (b ≡ ok (some c)))
stops (raises e) a b c h = cc
stops (ok v) a b c h = elim (Bool-cases (is_one v)) [
  | inl e ↦ inl (ap ok (is_one-num v e), rw e at h)
  | inr e ↦ inr (v, refl, ne_of_is_one v e, rw e at h)
]

pub check_O1_at-Explains :
    (d : Derivation) (inputs : Env) (c : Counterexample)
    → check_O1_at d inputs ≡ ok (some c)
    → Explains d inputs c
unfolding check_O1_at
check_O1_at-Explains d inputs c h =
    let (start, ps, q) = >>=-eq-ok (apply_init inputs d.init) _ h in
    elim (stops (eval start d.invariant) _ _ c q) [
      | inl (p, n) ↦ absurd (none-ne-some n)
      | inr (v, pv, ne, e) ↦ explain d inputs start _ _ c (bad_init ps (v, pv, ne)) e
    ]

Rounds-snoc :
    (d : Derivation) {k : ℕ} {start env nxt : Env}
    → Rounds d k start env
    → Round d env nxt
    → Holds nxt d.invariant
    → Rounds d (suc k) start nxt
Rounds-snoc d here r inv = there r inv here
Rounds-snoc d (there r' inv' rs) r inv = there r' inv' (Rounds-snoc d rs r inv)

module _ (d : Derivation) (inputs start : Env) (ps : apply_init inputs d.init ≡ ok start) where
  round_O2-Explains :
      (again : Env → Verdict) {k : ℕ} (env : Env) (c : Counterexample)
      → Rounds d k start env
      → Holds env d.guard
      → ((nxt : Env) → Rounds d (suc k) start nxt → again nxt ≡ ok (some c) → Explains d inputs c)
      → round_O2 d inputs again env ≡ ok (some c)
      → Explains d inputs c
  unfolding round_O2
  round_O2-Explains again env c rs hg next h =
      let (before, pb, q₁) = >>=-eq-ok (eval env d.variant) _ h in
      let (nxt, pn, q₂) = >>=-eq-ok (step_body env d.body) _ q₁ in
      elim (stops (eval nxt d.invariant) _ _ c q₂) [
        | inr (v, pv, ne, e) ↦ explain d inputs env _ _ c (bad_body ps rs hg pn (v, pv, ne)) e
        | inl (inv, q₃) ↦
            let (after, pa, q₄) = >>=-eq-ok (eval nxt d.variant) _ q₃ in
            let (down, pd, q₅) = >>=-eq-ok (decreases after before) _ q₄ in
            elim (Bool-cases down) [
              | inr e ↦
                  explain d inputs env _ _ c (bad_variant ps rs hg pn pb pa (pd ∙ ap ok e))
                    (rw e at q₅)
              | inl e ↦
                  next nxt
                    (Rounds-snoc d rs
                      (record {
                        guarded = hg;
                        stepped = pn;
                        before = before;
                        after = after;
                        measured = pb;
                        measured_after = pa;
                        lowered = pd ∙ ap ok e;
                      })
                      inv)
                    (rw e at q₅)
            ]
      ]

  walk_O2-Explains :
      (n k : ℕ) (env : Env) (c : Counterexample)
      → k + n ≡ d.max_iters
      → Rounds d k start env
      → walk_O2 d inputs n env ≡ ok (some c)
      → Explains d inputs c
  unfolding walk_O2
  walk_O2-Explains zero k env c m rs h =
      let (g, pg, q) = >>=-eq-ok (eval env d.guard) _ h in
      elim (Bool-cases (is_one g)) [
        | inl e ↦
            let full : (k ≡ d.max_iters) = omega arith in
            explain d inputs env _ _ c
              (endless ps (subst (λ k. Rounds d k start env) full rs) (pg ∙ ap ok (is_one-num g e)))
              (rw e at q)
        | inr e ↦ absurd (none-ne-some (rw e at q))
      ]
  walk_O2-Explains (suc n) k env c m rs h =
      let (g, pg, q) = >>=-eq-ok (eval env d.guard) _ h in
      elim (Bool-cases (is_one g)) [
        | inl e ↦
            round_O2-Explains (walk_O2 d inputs n) env c rs (pg ∙ ap ok (is_one-num g e))
              (λ nxt rs' h'. walk_O2-Explains n (suc k) nxt c (omega arith) rs' h') (rw e at q)
        | inr e ↦ absurd (none-ne-some (rw e at q))
      ]

pub check_O2_at-Explains :
    (d : Derivation) (inputs : Env) (c : Counterexample)
    → check_O2_at d inputs ≡ ok (some c)
    → Explains d inputs c
unfolding check_O2_at
check_O2_at-Explains d inputs c h =
    let (start, ps, q) = >>=-eq-ok (apply_init inputs d.init) _ h in
    elim (stops (eval start d.invariant) _ _ c q) [
      | inl (p, q') ↦ walk_O2-Explains d inputs start ps d.max_iters 0 start c (omega arith) here q'
      | inr (v, pv, ne, e) ↦ explain d inputs start _ _ c (bad_entry ps (v, pv, ne)) e
    ]

pub check_O3_at-Explains :
    (d : Derivation) (inputs : Env) (c : Counterexample)
    → check_O3_at d inputs ≡ ok (some c)
    → Explains d inputs c
unfolding check_O3_at
check_O3_at-Explains d inputs c h =
    let (start, ps, q₁) = >>=-eq-ok (apply_init inputs d.init) _ h in
    let (exit, pe, q₂) = >>=-eq-ok (run_loop d d.max_iters start) _ q₁ in
    let (post_env, pb, q₃) = >>=-eq-ok (bind_mapping exit d.mapping) _ q₂ in
    elim (stops (eval post_env d.post) _ _ c q₃) [
      | inl (p, n) ↦ absurd (none-ne-some n)
      | inr (v, pv, ne, e) ↦ explain d inputs post_env _ _ c (bad_post ps pe pb (v, pv, ne)) e
    ]

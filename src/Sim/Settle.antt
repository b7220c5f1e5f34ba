-- ===== src/Sim/Settle.antt =====
-- pipeline/cocotb/spec_sim.py, `_recompute_comb`: the state in which it leaves the signals.
use agentic_rtl_engine.Prelude.{
  ℕ, zero, suc, ◌+◌, ◌≡◌, refl, ap, subst, ◌∙◌, String, Bool, true, false, Option, none, some, List,
  [], ◌∷◌, length, arith, inl, inr, ◌⊎◌, Bool-cases, if◌then◌else◌, ◌==◌, ==_iff,
}
use agentic_rtl_engine.Prelude.Result.{ok, >>=-eq-ok}
use agentic_rtl_engine.Prelude.Dict.{Dict}
use agentic_rtl_engine.Expr.Value.{Value, x, num, arr}
use agentic_rtl_engine.Expr.Interp.{Env, lookup}
use agentic_rtl_engine.Sim.{
  Design, same_cells, same_value, evaluate, comb_round, settle, recompute_comb,
}

same_cells_sound : (l m : List (Option ℕ)) → same_cells l m ≡ true → l ≡ m
unfolding same_cells
same_cells_sound [] [] h = refl
same_cells_sound [] (b ∷ m) h = cc
same_cells_sound (none ∷ l) [] h = cc
same_cells_sound (some a ∷ l) [] h = cc
same_cells_sound (none ∷ l) (none ∷ m) h = ap (λ t. none ∷ t) (same_cells_sound l m h)
same_cells_sound (none ∷ l) (some b ∷ m) h = cc
same_cells_sound (some a ∷ l) (none ∷ m) h = cc
same_cells_sound (some a ∷ l) (some b ∷ m) h = elim (Bool-cases (a == b)) [
  | inl e ↦ let p : (a ≡ b) = (==_iff a b).0 e in let q = same_cells_sound l m (rw e at h) in cc
  | inr e ↦ absurd (false-ne (rw e at h))
]
  where
    false-ne : ¬ (◌≡◌ {A = Bool} false true)
    false-ne p = cc

pub same_value_sound : (a b : Value) → same_value a b ≡ true → a ≡ b
unfolding same_value
same_value_sound x x h = refl
same_value_sound x (num n) h = cc
same_value_sound x (arr l) h = cc
same_value_sound (num n) x h = cc
same_value_sound (num a) (num b) h = ap num ((==_iff a b).0 h)
same_value_sound (num a) (arr l) h = cc
same_value_sound (arr l) x h = cc
same_value_sound (arr l) (num b) h = cc
same_value_sound (arr l) (arr m) h = ap arr (same_cells_sound l m h)

-- Each combinational signal has the value of its definition.
abbrev pub IsSettled : Design → Env → Dict String → Type 0
IsSettled g st [] = Unit
IsSettled g st ((var, expr) ∷ updates) =
    (evaluate g st var expr ≡ ok (lookup st var)) × IsSettled g st updates

comb_round-changed :
    (g : Design) (updates : Dict String) (st st' : Env) (b : Bool)
    → comb_round g updates st true ≡ ok (st', b)
    → b ≡ true
unfolding comb_round
comb_round-changed g [] st st' b h = ground arith
comb_round-changed g ((var, expr) ∷ updates) st st' b h =
    let (new, p, q) = >>=-eq-ok (evaluate g st var expr) _ h in
    elim (Bool-cases (same_value new (lookup st var))) [
      | inl e ↦ comb_round-changed g updates st st' b (rw e at q)
      | inr e ↦ comb_round-changed g updates _ st' b (rw e at q)
    ]

comb_round-IsSettled :
    (g : Design) (updates : Dict String) (st st' : Env)
    → comb_round g updates st false ≡ ok (st', false)
    → (st ≡ st') × IsSettled g st updates
unfolding comb_round
comb_round-IsSettled g [] st st' h = (ground arith, tt)
comb_round-IsSettled g ((var, expr) ∷ updates) st st' h =
    let (new, p, q) = >>=-eq-ok (evaluate g st var expr) _ h in
    elim (Bool-cases (same_value new (lookup st var))) [
      | inl e ↦
          let (same, rest) = comb_round-IsSettled g updates st st' (rw e at q) in
          (same, (p ∙ ap ok (same_value_sound new (lookup st var) e), rest))
      | inr e ↦ absurd (true-ne (comb_round-changed g updates _ st' false (rw e at q)))
    ]
  where
    true-ne : ¬ (◌≡◌ {A = Bool} false true)
    true-ne p = cc

-- Rounds that each changed some signal.
pub data Churns (g : Design) : ℕ → Env → Env → Type 0 where
  quiet : {st : Env} → Churns g zero st st
  churn :
      {n : ℕ} {st st' st'' : Env}
      → comb_round g g.comb_updates st false ≡ ok (st', true)
      → Churns g n st' st''
      → Churns g (suc n) st st''

quiet_at : (g : Design) (st st' : Env) → st ≡ st' → Churns g zero st st'
quiet_at g st st' p = subst (Churns g zero st) p quiet

settle_step :
    (g : Design) (n : ℕ) (st next st' : Env) (changed : Bool)
    → ((s : Env) → settle g n s ≡ ok st' → IsSettled g st' g.comb_updates ⊎ Churns g n s st')
    → comb_round g g.comb_updates st false ≡ ok (next, changed)
    → (if changed then settle g n next else ok next) ≡ ok st'
    → IsSettled g st' g.comb_updates ⊎ Churns g (suc n) st st'
settle_step g n st next st' true ih p q = elim (ih next q) [
  | inl done ↦ inl done
  | inr churns ↦ inr (churn p churns)
]
settle_step g n st next st' false ih p q =
    let (same, settled) = comb_round-IsSettled g g.comb_updates st next p in
    let r : (st ≡ st') = ground arith in inl (subst (λ s. IsSettled g s g.comb_updates) r settled)

settle_cases :
    (g : Design) (n : ℕ) (st st' : Env)
    → settle g n st ≡ ok st'
    → IsSettled g st' g.comb_updates ⊎ Churns g n st st'
unfolding settle
settle_cases g zero st st' h = inr (quiet_at g st st' (ground arith))
settle_cases g (suc n) st st' h =
    let ((next, changed), p, q) = >>=-eq-ok (comb_round g g.comb_updates st false) _ h in
    settle_step g n st next st' changed (λ s. settle_cases g n s st') p q

-- When `_recompute_comb` returns, either every combinational signal has the value that its
-- definition gives in the state it leaves, or each of the rounds that it ran, one more than there are
-- definitions, changed a signal.
pub recompute_comb-IsSettled :
    (g : Design) (st st' : Env)
    → recompute_comb g st ≡ ok st'
    → IsSettled g st' g.comb_updates ⊎ Churns g (length g.comb_updates + 1) st st'
unfolding recompute_comb
recompute_comb-IsSettled g st st' h = settle_cases g (length g.comb_updates + 1) st st' h

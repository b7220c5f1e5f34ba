-- ===== src/Sim/Edge.antt =====
-- pipeline/cocotb/spec_sim.py, `_edge`: the inputs are set and the signals settled before the
-- commit, and the signals settle again behind it.
use agentic_rtl_engine.Prelude.{
  ℕ, zero, suc, ◌+◌, ◌≡◌, ◌⊎◌, refl, ap, sym, ◌∙◌, String, Bool, true, false, ◌||◌, Option, some,
  [], ◌∷◌, map, length, arith, Bool-cases, if◌then◌else◌, str_eq, eq_iff, inl, inr,
}
use agentic_rtl_engine.Prelude.Result.{ok, >>=-eq-ok, ok_inj}
use agentic_rtl_engine.Prelude.Dict.{Dict, get, put, contains, get-put}
use agentic_rtl_engine.Expr.Value.{Value}
use agentic_rtl_engine.Expr.Interp.{Env, lookup}
use agentic_rtl_engine.Sim.{
  Design, evaluate, same_value, comb_round, settle, recompute_comb, set_inputs, commit, edge,
}
use agentic_rtl_engine.Sim.Settle.{IsSettled, Churns, recompute_comb-IsSettled}

-- The last value that the inputs give a name, else what it had.
abbrev pub driven : String → Dict Value → Option Value → Option Value
driven k [] last = last
driven k ((j, v) ∷ inputs) last = driven k inputs (if str_eq j k then some v else last)

-- What a name holds when the inputs have been set: the clock and the reset are no state.
abbrev pub HasInput : Design → Dict Value → Env → Env → String → Type 0
HasInput g inputs st given k =
    get k given
    ≡ (if str_eq k "clk" || str_eq k g.reset_port then get k st else driven k inputs (get k st))

abbrev pub is_combinational : Design → String → Bool
is_combinational g k = contains k (map (λ u. u.0) g.comb_updates)

set_inputs-HasInput :
    (g : Design) (inputs : Dict Value) (st : Env) (k : String)
    → HasInput g inputs st (set_inputs g inputs st) k
unfolding set_inputs
set_inputs-HasInput g [] st k = elim (Bool-cases (str_eq k "clk" || str_eq k g.reset_port)) [
  | inl e ↦ rw e refl
  | inr e ↦ rw e refl
]
set_inputs-HasInput g ((j, v) ∷ inputs) st k =
    set_inputs-HasInput g inputs _ k ∙ by_same (Bool-cases (str_eq j k))
  where
    control : String → Bool
    control n = str_eq n "clk" || str_eq n g.reset_port

    next : Env
    next = if control j then st else put j v st

    by_same :
        (str_eq j k ≡ true) ⊎ (str_eq j k ≡ false)
        → (if control k then get k next else driven k inputs (get k next)) ≡ (
            if control k
            then get k st
            else driven k inputs (if str_eq j k then some v else get k st))
    by_same (inl p) =
        let same : (control j ≡ control k) = ap control ((eq_iff j k).0 p) in
        elim (Bool-cases (control k)) [
          | inl c ↦ rw (same, c) refl
          | inr c ↦ rw (same, c, get-put j k v st, p) refl
        ]
    by_same (inr p) = elim (Bool-cases (control j)) [
      | inl c ↦ rw (c, p) refl
      | inr c ↦ rw (c, get-put j k v st, p) refl
    ]

-- The signals that are recomputed are the combinational ones.
comb_round-get :
    (g : Design) (updates : Dict String) (st st' : Env) (b b' : Bool) (k : String)
    → contains k (map (λ u. u.0) updates) ≡ false
    → comb_round g updates st b ≡ ok (st', b')
    → get k st' ≡ get k st
unfolding comb_round contains
comb_round-get g [] st st' b b' k c h = ground arith
comb_round-get g ((var, expr) ∷ updates) st st' b b' k c h =
    let other : (str_eq var k ≡ false) = ground arith in
    let later : (contains k (map (λ u. u.0) updates) ≡ false) = ground arith in
    let (new, p, q) = >>=-eq-ok (evaluate g st var expr) _ h in
    elim (Bool-cases (same_value new (lookup st var))) [
      | inl e ↦ comb_round-get g updates st st' b b' k later (rw e at q)
      | inr e ↦
          comb_round-get g updates (put var new st) st' true b' k later (rw e at q)
          ∙ rw (get-put var k new st, other) refl
    ]

settle-get :
    (g : Design) (n : ℕ) (st st' : Env) (k : String)
    → is_combinational g k ≡ false
    → settle g n st ≡ ok st'
    → get k st' ≡ get k st
unfolding settle
settle-get g zero st st' k c h = ground arith
settle-get g (suc n) st st' k c h =
    let ((next, changed), p, q) = >>=-eq-ok (comb_round g g.comb_updates st false) _ h in
    elim (Bool-cases changed) [
      | inl e ↦ settle-get g n next st' k c (rw e at q) ∙ comb_round-get g _ st next _ _ k c p
      | inr e ↦ ap (get k) (sym (ok_inj (rw e at q))) ∙ comb_round-get g _ st next _ _ k c p
    ]

pub recompute_comb-get :
    (g : Design) (st st' : Env) (k : String)
    → is_combinational g k ≡ false
    → recompute_comb g st ≡ ok st'
    → get k st' ≡ get k st
unfolding recompute_comb
recompute_comb-get g st st' k = settle-get g (length g.comb_updates + 1) st st' k

-- Each combinational signal has the value of its definition, or every round changed a signal.
abbrev pub Recomputed : Design → Env → Env → Type 0
Recomputed g st st' = IsSettled g st' g.comb_updates ⊎ Churns g (length g.comb_updates + 1) st st'

-- An edge: the state with the inputs, the state that is committed and the state behind the commit.
pub record IsEdge (g : Design) (inputs : Dict Value) (is_reset : Bool) (st st' : Env) : Type 0 where
  pub given : Env
  pub before : Env
  pub committed : Env
  pub has_inputs : (k : String) → HasInput g inputs st given k
  pub settled : Recomputed g given before
  pub kept : (k : String) → is_combinational g k ≡ false → get k before ≡ get k given
  pub commits : commit g before is_reset ≡ ok committed
  pub settled_after : Recomputed g committed st'
  pub kept_after : (k : String) → is_combinational g k ≡ false → get k st' ≡ get k committed

pub edge-IsEdge :
    (g : Design) (inputs : Dict Value) (is_reset : Bool) (st st' : Env)
    → edge g inputs is_reset st ≡ ok st'
    → IsEdge g inputs is_reset st st'
unfolding edge
edge-IsEdge g inputs is_reset st st' h =
    let given = set_inputs g inputs st in
    let (before, p, q) = >>=-eq-ok (recompute_comb g given) _ h in
    let (committed, p', q') = >>=-eq-ok (commit g before is_reset) _ q in
    record {
      given = given;
      before = before;
      committed = committed;
      has_inputs = set_inputs-HasInput g inputs st;
      settled = recompute_comb-IsSettled g given before p;
      kept = λ k c. recompute_comb-get g given before k c p;
      commits = p';
      settled_after = recompute_comb-IsSettled g committed st' q';
      kept_after = λ k c. recompute_comb-get g committed st' k c q';
    }

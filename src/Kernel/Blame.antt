-- ===== src/Kernel/Blame.antt =====
-- The obligation that the counterexample of each check in Kernel/Check names.
use agentic_rtl_engine.Prelude.{
  ℕ, zero, suc, ◌≡◌, ◌∙◌, Bool, true, false, none, some, List, [], ◌∷◌, if◌then◌else◌,
}
use agentic_rtl_engine.Prelude.Result.{Result, ok, ◌>>=◌, >>=-eq-ok}
use agentic_rtl_engine.Expr.Interp.{Env}
use agentic_rtl_engine.Expr.Lexer.{eval}
use agentic_rtl_engine.Kernel.{Derivation, is_one, apply_init, step_body, bind_mapping, decreases}
use agentic_rtl_engine.Kernel.Check.{
  Obligation, o1, o2, o3, Detail, Counterexample, Verdict, fails, check_each, check_O1_at,
  compare_variant, round_O2, walk_O2, check_O2_at, run_loop, check_O3_at,
}

-- A check whose counterexamples name the obligation.
abbrev pub Names : Obligation → Verdict → Type 0
Names o m = (c : Counterexample) → m ≡ ok (some c) → c.obligation ≡ o

Names-held : (o : Obligation) → Names o (ok none)
Names-held o c h = cc

Names-fails : (o : Obligation) (i env : Env) (t : Detail) → Names o (fails o i env t)
Names-fails o i env t c h = cc

Names-bind :
    {A : Type 0} (o : Obligation) (m : Result A) (f : A → Verdict)
    → ((a : A) → Names o (f a))
    → Names o (m >>= f)
Names-bind o m f n c h = let (a, p, q) = >>=-eq-ok m f h in n a c q

Names-if :
    (o : Obligation) (b : Bool) (m n : Verdict)
    → Names o m
    → Names o n
    → Names o (if b then m else n)
Names-if o true m n p q = p
Names-if o false m n p q = q

pub check_each-Names :
    (o : Obligation) (check : Env → Verdict)
    → ((i : Env) → Names o (check i))
    → (valuations : List Env) → Names o (check_each check valuations)
unfolding check_each
check_each-Names o check n [] c h = Names-held o c h
check_each-Names o check n (i ∷ rest) c h =
    let (r, p, q) = >>=-eq-ok (check i) _ h in
    elim r
        as (λ r.
          check i ≡ ok r
          → (elim r [ none ↦ check_each check rest | some c ↦ ok (some c) ]) ≡ ok (some c)
          → c.obligation ≡ o) [
            | none ↦ λ p q. check_each-Names o check n rest c q
            | some c' ↦ λ p q. n i c (p ∙ q)
          ]
      p q

pub check_O1_at-Names : (d : Derivation) (i : Env) → Names o1 (check_O1_at d i)
unfolding check_O1_at
check_O1_at-Names d i = Names-bind o1 (apply_init i d.init) _ (λ env.
    Names-bind o1 (eval env d.invariant) _
      (λ inv. Names-if o1 (is_one inv) _ _ (Names-held o1) (Names-fails o1 i env _)))

round_O2-Names :
    (d : Derivation) (i : Env) (again : Env → Verdict) (env : Env)
    → ((e : Env) → Names o2 (again e))
    → Names o2 (round_O2 d i again env)
unfolding round_O2 compare_variant
round_O2-Names d i again env n = Names-bind o2 (eval env d.variant) _ (λ before.
    Names-bind o2 (step_body env d.body) _ (λ nxt. Names-bind o2 (eval nxt d.invariant) _ (λ inv.
      Names-if o2 (is_one inv) _ _
        (Names-bind o2 (eval nxt d.variant) _ (λ after.
          Names-bind o2 (decreases after before) _
            (λ down. Names-if o2 down _ _ (n nxt) (Names-fails o2 i env _))))
        (Names-fails o2 i env _))))

walk_O2-Names :
    (d : Derivation) (i : Env) (rounds : ℕ) (env : Env) → Names o2 (walk_O2 d i rounds env)
unfolding walk_O2
walk_O2-Names d i zero env =
    Names-bind o2 (eval env d.guard) _
      (λ g. Names-if o2 (is_one g) _ _ (Names-fails o2 i env _) (Names-held o2))
walk_O2-Names d i (suc rounds) env = Names-bind o2 (eval env d.guard) _ (λ g.
    Names-if o2 (is_one g) _ _
      (round_O2-Names d i (walk_O2 d i rounds) env (walk_O2-Names d i rounds)) (Names-held o2))

pub check_O2_at-Names : (d : Derivation) (i : Env) → Names o2 (check_O2_at d i)
unfolding check_O2_at
check_O2_at-Names d i = Names-bind o2 (apply_init i d.init) _ (λ env.
    Names-bind o2 (eval env d.invariant) _ (λ inv.
      Names-if o2 (is_one inv) _ _ (walk_O2-Names d i d.max_iters env) (Names-fails o2 i env _)))

pub check_O3_at-Names : (d : Derivation) (i : Env) → Names o3 (check_O3_at d i)
unfolding check_O3_at
check_O3_at-Names d i = Names-bind o3 (apply_init i d.init) _ (λ env.
    Names-bind o3 (run_loop d d.max_iters env) _ (λ exit.
      Names-bind o3 (bind_mapping exit d.mapping) _ (λ post_env.
        Names-bind o3 (eval post_env d.post) _
          (λ post. Names-if o3 (is_one post) _ _ (Names-held o3) (Names-fails o3 i post_env _)))))

-- ===== src/Engine/Rounds.antt =====
-- A property of the loop's variables that every way of a round keeps holds where `run` returns.
use agentic_rtl_engine.Prelude.{
  ℕ, zero, suc, ◌+◌, ◌≡◌, refl, ap, subst, ◌∙◌, String, true, false, Option, none, some, List, [],
  ◌∷◌, length, arith, leb, if◌then◌else◌, str_eq, Bool-cases, inl, inr,
}
use agentic_rtl_engine.Prelude.Result.{Error, Result, ok, raises, key_error, >>=-eq-ok, ok_inj}
use agentic_rtl_engine.Engine.{
  Rule, Choice, malformed, choice, Setting, Step, Run, is_excluded, find_rule, names_of,
  applicable_rules, allowed_rules, validate_pick, roll_back, strike, exclude_here, is_caught,
  passes_tlc, commit_step, consider, recover, apply_choice, judge, attempt, run_from, start, run,
}

exclude_here-spec :
    {S P : Type 0} (name json : String) (r : Run S P) → (exclude_here name json r).spec ≡ r.spec
unfolding exclude_here
exclude_here-spec name json r = refl

module _ {S P : Type 0} (g : Setting S P) (prefix : List (Step P)) where
  -- What a round has checked when it commits a choice.
  pub record Committed (r : Run S P) (name : String) (params : P) (new : S) : Type 0 where
    pub rule : Rule S P
    pub found : find_rule name g.registry ≡ some rule
    pub applied : rule.apply r.spec params ≡ ok new
    pub changed : str_eq (g.spec_hash new) (g.spec_hash r.spec) ≡ false
    pub fresh : is_excluded name (g.params_json params) (r.excluded_at (length r.chain)) ≡ false

  pub record Keeps (I : Run S P → Type 0) : Type 0 where
    pub excludes : (r : Run S P) (name json : String) → I r → I (exclude_here name json r)
    pub counts : (r : Run S P) (f : ℕ → ℕ) → I r → I (record r { invalid_counts = f })
    pub rolls :
        (r r' : Run S P) → I r → g.termination_check r.spec ≡ false → roll_back g r ≡ ok r' → I r'
    pub commits :
        (r : Run S P) (name : String) (params : P) (new : S)
        → I r
        → g.termination_check r.spec ≡ false
        → Committed r name params new
        → I (commit_step g prefix name params new r)

  validate_pick-fresh :
      (name : String) (params : P) (names : List String) (excluded : List (String × String))
      → validate_pick g (choice name params) names excluded ≡ true
      → is_excluded name (g.params_json params) excluded ≡ false
  unfolding validate_pick
  validate_pick-fresh name params names excluded h = ground arith

  module _ (I : Run S P → Type 0) (k : Keeps I) (r : Run S P)
      (going : g.termination_check r.spec ≡ false) where
    strike-Keeps : (q r' : Run S P) → q.spec ≡ r.spec → I q → strike g q ≡ ok r' → I r'
    unfolding strike
    strike-Keeps q r' same i h = elim (Bool-cases (leb 3 (q.invalid_counts (length q.chain) + 1))) [
      | inl e ↦ k.rolls _ r' (k.counts q _ i) (ap g.termination_check same ∙ going) (rw e at h)
      | inr e ↦ subst I (ok_inj (rw e at h)) (k.counts q _ i)
    ]

    consider-Keeps :
        (n : ℕ) (name : String) (params : P) (new : S) (r' : Run S P)
        → I r
        → (str_eq (g.spec_hash new) (g.spec_hash r.spec) ≡ false → Committed r name params new)
        → consider g prefix n name params new r ≡ ok r'
        → I r'
    unfolding consider
    consider-Keeps n name params new r' i c h =
        elim (Bool-cases (str_eq (g.spec_hash new) (g.spec_hash r.spec))) [
          | inl e ↦
              strike-Keeps (exclude_here name (g.params_json params) r) r'
                (exclude_here-spec name (g.params_json params) r) (k.excludes r name _ i)
                (rw e at h)
          | inr e ↦ elim (Bool-cases (passes_tlc g n new)) [
            | inl p ↦ subst I (ok_inj (rw (e, p) at h)) (k.commits r name params new i going (c e))
            | inr p ↦ subst I (ok_inj (rw (e, p) at h)) (k.excludes r name _ i)
          ]
        ]

    recover-Keeps :
        (name : String) (params : P) (e : Error) (r' : Run S P)
        → I r
        → recover g name params e r ≡ ok r'
        → I r'
    unfolding recover
    recover-Keeps name params e r' i h = elim (Bool-cases (is_caught e)) [
      | inl p ↦ subst I (ok_inj (rw p at h)) (k.excludes r name _ i)
      | inr p ↦ cc (rw p at h)
    ]

    apply_choice-Keeps :
        (n : ℕ) (name : String) (params : P) (r' : Run S P)
        → I r
        → is_excluded name (g.params_json params) (r.excluded_at (length r.chain)) ≡ false
        → apply_choice g prefix n name params r ≡ ok r'
        → I r'
    unfolding apply_choice
    apply_choice-Keeps n name params r' i fresh h = by_rule (find_rule name g.registry) refl h
      where
        by_result :
            (rule : Rule S P) (m : Result S)
            → find_rule name g.registry ≡ some rule
            → rule.apply r.spec params ≡ m
            → (elim m [
              | raises e ↦ recover g name params e r
              | ok new ↦ consider g prefix n name params new r
            ])
              ≡ ok r'
            → I r'
        by_result rule (raises e) found applied q = recover-Keeps name params e r' i q
        by_result rule (ok new) found applied q =
            consider-Keeps n name params new r' i
              (λ changed. record {
                rule = rule;
                found = found;
                applied = applied;
                changed = changed;
                fresh = fresh;
              })
              q

        by_rule :
            (o : Option (Rule S P))
            → find_rule name g.registry ≡ o
            → (elim o [
              | none ↦ raises key_error
              | some rule ↦ elim (rule.apply r.spec params) [
                | raises e ↦ recover g name params e r
                | ok new ↦ consider g prefix n name params new r
              ]
            ])
              ≡ ok r'
            → I r'
        by_rule none found q = cc
        by_rule (some rule) found q = by_result rule (rule.apply r.spec params) found refl q

    judge-Keeps :
        (n : ℕ) (names : List String) (c : Choice P) (r' : Run S P)
        → I r
        → judge g prefix n names c r ≡ ok r'
        → I r'
    unfolding judge
    judge-Keeps n names malformed r' i h = strike-Keeps r r' refl i h
    judge-Keeps n names (choice name params) r' i h =
        let excluded = r.excluded_at (length r.chain) in
        elim (Bool-cases (validate_pick g (choice name params) names excluded)) [
          | inl e ↦
              apply_choice-Keeps n name params r' i
                (validate_pick-fresh name params names excluded e) (rw e at h)
          | inr e ↦ strike-Keeps r r' refl i (rw e at h)
        ]

    pub attempt-Keeps : (n : ℕ) (r' : Run S P) → I r → attempt g prefix n r ≡ ok r' → I r'
    unfolding attempt
    attempt-Keeps n r' i h =
        by_names
          (names_of (allowed_rules g.allowed_rule_names (applicable_rules r.spec g.registry))) h
      where
        by_pick :
            (names : List String) (o : Option (Choice P))
            → (elim o [ none ↦ strike g r | some c ↦ judge g prefix n names c r ]) ≡ ok r'
            → I r'
        by_pick names none q = strike-Keeps r r' refl i q
        by_pick names (some c) q = judge-Keeps n names c r' i q

        by_names :
            (names : List String)
            → (elim names [
              | [] ↦ if g.termination_check r.spec then ok r else roll_back g r
              | name ∷ rest ↦ elim (g.pick_rule n (name ∷ rest) r.spec) [
                | none ↦ strike g r
                | some c ↦ judge g prefix n (name ∷ rest) c r
              ]
            ])
              ≡ ok r'
            → I r'
        by_names [] q = k.rolls r r' i going (rw going at q)
        by_names (name ∷ rest) q = by_pick (name ∷ rest) (g.pick_rule n (name ∷ rest) r.spec) q

  -- A property that each way of a round keeps holds in the end, where the check holds too.
  pub run_from-Keeps :
      (I : Run S P → Type 0)
      → Keeps I
      → (left n : ℕ) (r r' : Run S P) → I r
      → run_from g prefix left n r ≡ ok r'
      → I r' × (g.termination_check r'.spec ≡ true)
  unfolding run_from
  run_from-Keeps I k zero n r r' i h = elim (Bool-cases (g.termination_check r.spec)) [
    | inl e ↦
        let p = ok_inj (rw e at h) in
        (subst I p i, subst (λ q. g.termination_check q.spec ≡ true) p e)
    | inr e ↦ cc (rw e at h)
  ]
  run_from-Keeps I k (suc left) n r r' i h = elim (Bool-cases (g.termination_check r.spec)) [
    | inl e ↦
        let p = ok_inj (rw e at h) in
        (subst I p i, subst (λ q. g.termination_check q.spec ≡ true) p e)
    | inr e ↦
        let (mid, p, q) = >>=-eq-ok (attempt g prefix n r) _ (rw e at h) in
        run_from-Keeps I k left (suc n) mid r' (attempt-Keeps I k r e n mid i p) q
  ]

  pub run-Keeps :
      (I : Run S P → Type 0)
      → Keeps I
      → (r' : Run S P) → I (start g prefix)
      → run g prefix ≡ ok r'
      → I r' × (g.termination_check r'.spec ≡ true)
  unfolding run
  run-Keeps I k r' i h = run_from-Keeps I k g.max_steps 0 (start g prefix) r' i h

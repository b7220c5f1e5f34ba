-- ===== src/Engine/Refused.antt =====
-- pipeline/refinement/engine.py: what `run` has refused at a depth, against the chain that it returns.
use agentic_rtl_engine.Prelude.{
  ℕ, zero, suc, ◌+◌, ◌<◌, ◌≤◌, ◌≡◌, refl, ap, sym, subst, ◌∙◌, String, Bool, true, false, ◌&&◌,
  ◌||◌, Option, none, some, List, [], ◌∷◌, length, arith, ◌==◌, ==_iff, leb, str_eq, eq_iff,
  if◌then◌else◌, Bool-cases, inl, inr, In, All,
}
use agentic_rtl_engine.Prelude.Result.{Error, Result, ok, raises, key_error, >>=-eq-ok, ok_inj}
use agentic_rtl_engine.Engine.{
  Rule, Setting, Step, Run, Excluded, exclude, is_excluded, find_rule, names_of, applicable_rules,
  has_remaining, replay_chain, max_backtrack_depth, backtrack, roll_back, strike, exclude_here,
  is_caught, passes_tlc, commit_step, consider, recover, apply_choice, attempt, run_from, start,
}
use agentic_rtl_engine.Engine.Rounds.{Keeps, attempt-Keeps, run_from-Keeps}

exclude_other :
    (depth : ℕ) (name json : String) (excluded : Excluded) (d : ℕ)
    → d < depth
    → exclude depth name json excluded d ≡ excluded d
unfolding exclude
exclude_other depth name json excluded d l = ground arith

-- An exclusion adds its choice, and takes none away.
exclude_self :
    (depth : ℕ) (name json : String) (excluded : Excluded)
    → In (name, json) (exclude depth name json excluded depth)
unfolding exclude
exclude_self depth name json excluded = rw ((==_iff depth depth).1 refl) (inl refl)

exclude_more :
    (depth : ℕ) (name json : String) (excluded : Excluded) (d : ℕ) (c : String × String)
    → In c (excluded d)
    → In c (exclude depth name json excluded d)
unfolding exclude
exclude_more depth name json excluded d c m = elim (Bool-cases (d == depth)) [
  | inl e ↦ rw e (inr m)
  | inr e ↦ rw e m
]

is_excluded-In :
    (name json : String) (choices : List (String × String))
    → In (name, json) choices
    → is_excluded name json choices ≡ true
unfolding is_excluded
is_excluded-In name json [] m = absurd m
is_excluded-In name json ((n, j) ∷ choices) (inl e) =
    let p : (n ≡ name) = ap (λ c. c.0) e in
    let q : (j ≡ json) = ap (λ c. c.1) e in rw ((eq_iff n name).1 p, (eq_iff j json).1 q) refl
is_excluded-In name json ((n, j) ∷ choices) (inr m) =
    either (str_eq n name && str_eq j json) _ (is_excluded-In name json choices m)
  where
    either : (a b : Bool) → b ≡ true → (a || b) ≡ true
    either true b h = refl
    either false b h = h

module _ {S P : Type 0} (g : Setting S P) where
  -- No step of the chain is an excluded choice of its depth.
  abbrev pub IsFresh : List (Step P) → Excluded → Type 0
  IsFresh [] excluded = Unit
  IsFresh (s ∷ earlier) excluded =
      (s.step ≡ length earlier)
      × (is_excluded s.rule_name (g.params_json s.params) (excluded (length earlier)) ≡ false)
      × IsFresh earlier excluded

  -- An exclusion at a depth that the chain has not, or no longer, leaves the chain fresh.
  exclude-IsFresh :
      (depth : ℕ) (name json : String) (chain : List (Step P)) (excluded : Excluded)
      → length chain ≤ depth
      → IsFresh chain excluded
      → IsFresh chain (exclude depth name json excluded)
  exclude-IsFresh depth name json [] excluded l f = tt
  exclude-IsFresh depth name json (s ∷ earlier) excluded l f = (
    f.0,
    ap (is_excluded s.rule_name (g.params_json s.params))
          (exclude_other depth name json excluded (length earlier) (omega arith))
        ∙ f.1,
    exclude-IsFresh depth name json earlier excluded (omega arith) f.2,
  )

  -- A choice that is excluded at a depth, and a chain without excluded choices.
  abbrev Holds : ℕ → String × String → List (Step P) → Excluded → Type 0
  Holds d c chain excluded = IsFresh chain excluded × In c (excluded d)

  exclude-Holds :
      (d : ℕ) (c : String × String) (depth : ℕ) (name json : String) (chain : List (Step P))
      (excluded : Excluded)
      → length chain ≤ depth
      → Holds d c chain excluded
      → Holds d c chain (exclude depth name json excluded)
  exclude-Holds d c depth name json chain excluded l h = (
    exclude-IsFresh depth name json chain excluded l h.0,
    exclude_more depth name json excluded d c h.1,
  )

  backtrack-parts :
      {s s' : S} {c c' : List (Step P)} {x x' : Excluded}
      → ◌≡◌ {A = Result (S × List (Step P) × Excluded)} (ok (s, c, x)) (ok (s', c', x'))
      → (c ≡ c') × (x ≡ x')
  backtrack-parts p = (cc, cc)

  backtrack_keeps :
      (Q : List (Step P) → Excluded → Type 0)
      → ((s : Step P) (chain : List (Step P)) (excluded : Excluded)
          → Q (s ∷ chain) excluded
          → Q chain (exclude s.step s.rule_name (g.params_json s.params) excluded))
      → (depth : ℕ) (chain : List (Step P)) (excluded : Excluded) (spec : S)
        (chain' : List (Step P)) (excluded' : Excluded)
      → Q chain excluded
      → backtrack g depth chain excluded ≡ ok (spec, chain', excluded')
      → Q chain' excluded'
  unfolding backtrack
  backtrack_keeps Q k zero chain excluded spec chain' excluded' f h = cc
  backtrack_keeps Q k (suc depth) [] excluded spec chain' excluded' f h = cc
  backtrack_keeps Q k (suc depth) (last ∷ chain) excluded spec chain' excluded' f h =
      let ex = exclude last.step last.rule_name (g.params_json last.params) excluded in
      let (found, p, q) = >>=-eq-ok (replay_chain g.registry g.formal_spec chain) _ h in
      elim (Bool-cases
        (has_remaining (names_of (applicable_rules found g.registry)) (ex (length chain)))) [
          | inl e ↦
              let (c, x) = backtrack-parts (rw e at q) in
              subst (λ y. Q chain' y) x (subst (λ y. Q y ex) c (k last chain excluded f))
          | inr e ↦
              backtrack_keeps Q k depth chain ex spec chain' excluded' (k last chain excluded f)
                (rw e at q)
        ]

  roll_back_keeps :
      (Q : List (Step P) → Excluded → Type 0)
      → ((s : Step P) (chain : List (Step P)) (excluded : Excluded)
          → Q (s ∷ chain) excluded
          → Q chain (exclude s.step s.rule_name (g.params_json s.params) excluded))
      → (r r' : Run S P) → Q r.chain r.excluded_at
      → roll_back g r ≡ ok r'
      → Q r'.chain r'.excluded_at
  unfolding roll_back
  roll_back_keeps Q k r r' f h =
      let ((spec, chain, excluded), p, q) =
        >>=-eq-ok (backtrack g max_backtrack_depth r.chain r.excluded_at) _ h in
      subst (λ (x : Run S P). Q x.chain x.excluded_at) (ok_inj q)
        (backtrack_keeps Q k max_backtrack_depth r.chain r.excluded_at spec chain excluded f p)

  rolled-IsFresh :
      (s : Step P) (chain : List (Step P)) (excluded : Excluded)
      → IsFresh (s ∷ chain) excluded
      → IsFresh chain (exclude s.step s.rule_name (g.params_json s.params) excluded)
  rolled-IsFresh s chain excluded f =
      exclude-IsFresh s.step s.rule_name (g.params_json s.params) chain excluded (omega arith) f.2

  rolled-Holds :
      (d : ℕ) (c : String × String) (s : Step P) (chain : List (Step P)) (excluded : Excluded)
      → Holds d c (s ∷ chain) excluded
      → Holds d c chain (exclude s.step s.rule_name (g.params_json s.params) excluded)
  rolled-Holds d c s chain excluded h =
      (rolled-IsFresh s chain excluded h.0, exclude_more _ _ _ excluded d c h.1)

  module _ (prefix : List (Step P)) where
    IsFresh-Keeps : Keeps g prefix (λ r. IsFresh r.chain r.excluded_at)
    unfolding exclude_here commit_step
    IsFresh-Keeps = record {
      excludes = λ r name json f.
          exclude-IsFresh (length r.chain) name json r.chain r.excluded_at (omega arith) f;
      counts = λ r n f. f;
      rolls = λ r r' f going h. roll_back_keeps IsFresh rolled-IsFresh r r' f h;
      commits = λ r name params new f going c. (refl, c.fresh, f);
    }

    Holds-Keeps :
        (d : ℕ) (c : String × String) → Keeps g prefix (λ r. Holds d c r.chain r.excluded_at)
    unfolding exclude_here commit_step
    Holds-Keeps d c = record {
      excludes = λ r name json h.
          exclude-Holds d c (length r.chain) name json r.chain r.excluded_at (omega arith) h;
      counts = λ r n h. h;
      rolls = λ r r' h going p. roll_back_keeps (Holds d c) (rolled-Holds d c) r r' h p;
      commits = λ r name params new h going k. ((refl, k.fresh, h.0), h.1);
    }

    -- The states of the loop of `run`.
    pub data Reached : Run S P → Type 0 where
      begin : Reached (start g prefix)
      round :
          {r r' : Run S P} (n : ℕ)
          → Reached r
          → g.termination_check r.spec ≡ false
          → attempt g prefix n r ≡ ok r'
          → Reached r'

    Reached-IsFresh : (r : Run S P) → Reached r → IsFresh r.chain r.excluded_at
    Reached-IsFresh r begin = tt
    Reached-IsFresh r' (round {r} n h going p) =
        attempt-Keeps g prefix (λ r. IsFresh r.chain r.excluded_at) IsFresh-Keeps r going n r'
          (Reached-IsFresh r h) p

    -- Why the loop refuses a choice that it has tried: the rule has raised what the loop catches, the
    -- spec has the hash that it had, or the model checker does not pass it.
    pub data Refuses (n : ℕ) (r : Run S P) (rule : Rule S P) (params : P) : Type 0 where
      raised :
          (e : Error)
          → rule.apply r.spec params ≡ raises e
          → is_caught e ≡ true
          → Refuses n r rule params
      no_op :
          (new : S)
          → rule.apply r.spec params ≡ ok new
          → str_eq (g.spec_hash new) (g.spec_hash r.spec) ≡ true
          → Refuses n r rule params
      failed_tlc :
          (new : S)
          → rule.apply r.spec params ≡ ok new
          → str_eq (g.spec_hash new) (g.spec_hash r.spec) ≡ false
          → passes_tlc g n new ≡ false
          → Refuses n r rule params

    abbrev counted : Run S P → Run S P
    counted r =
        let depth = length r.chain in
        record r {
          invalid_counts = λ d. if d == depth then r.invalid_counts d + 1 else r.invalid_counts d;
        }

    strike-Holds :
        (d : ℕ) (c : String × String) (r r' : Run S P)
        → Holds d c r.chain r.excluded_at
        → strike g r ≡ ok r'
        → Holds d c r'.chain r'.excluded_at
    unfolding strike
    strike-Holds d c r r' h p = elim (Bool-cases (leb 3 (r.invalid_counts (length r.chain) + 1))) [
      | inl e ↦ roll_back_keeps (Holds d c) (rolled-Holds d c) (counted r) r' h (rw e at p)
      | inr e ↦ subst (λ (x : Run S P). Holds d c x.chain x.excluded_at) (ok_inj (rw e at p)) h
    ]

    here-Holds :
        (r : Run S P) (name json : String)
        → IsFresh r.chain r.excluded_at
        → Holds
            (length r.chain)
            (name, json)
            (exclude_here name json r).chain
            (exclude_here name json r).excluded_at
    unfolding exclude_here
    here-Holds r name json f = (
      exclude-IsFresh (length r.chain) name json r.chain r.excluded_at (omega arith) f,
      exclude_self (length r.chain) name json r.excluded_at,
    )

    -- A choice is tried by the rule of its name.
    apply_choice_tried :
        (n : ℕ) (r : Run S P) (rule : Rule S P) (name : String) (params : P) (m : Result S)
        → find_rule name g.registry ≡ some rule
        → rule.apply r.spec params ≡ m
        → apply_choice g prefix n name params r ≡ (elim m [
          | raises e ↦ recover g name params e r
          | ok new ↦ consider g prefix n name params new r
        ])
    unfolding apply_choice
    apply_choice_tried n r rule name params m found tried =
        ap
          (λ (o : Option (Rule S P)). elim o as (λ _. Result (Run S P)) [
            | none ↦ raises key_error
            | some rule ↦ elim (rule.apply r.spec params) [
              | raises e ↦ recover g name params e r
              | ok new ↦ consider g prefix n name params new r
            ]
          ])
          found
        ∙ ap
            (λ (m : Result S). elim m as (λ _. Result (Run S P)) [
              | raises e ↦ recover g name params e r
              | ok new ↦ consider g prefix n name params new r
            ])
            tried

    refused-Holds :
        (n : ℕ) (r r' : Run S P) (rule : Rule S P) (name : String) (params : P)
        → IsFresh r.chain r.excluded_at
        → find_rule name g.registry ≡ some rule
        → Refuses n r rule params
        → apply_choice g prefix n name params r ≡ ok r'
        → Holds (length r.chain) (name, g.params_json params) r'.chain r'.excluded_at
    unfolding recover consider
    refused-Holds n r r' rule name params f found (raised e a caught) h =
        let q : (recover g name params e r ≡ ok r') =
          sym (apply_choice_tried n r rule name params (raises e) found a) ∙ h in
        subst
          (λ (x : Run S P).
            Holds (length r.chain) (name, g.params_json params) x.chain x.excluded_at)
          (ok_inj (rw caught at q)) (here-Holds r name (g.params_json params) f)
    refused-Holds n r r' rule name params f found (no_op new a same) h =
        let q : (consider g prefix n name params new r ≡ ok r') =
          sym (apply_choice_tried n r rule name params (ok new) found a) ∙ h in
        strike-Holds (length r.chain) (name, g.params_json params)
          (exclude_here name (g.params_json params) r) r'
          (here-Holds r name (g.params_json params) f) (rw same at q)
    refused-Holds n r r' rule name params f found (failed_tlc new a differs failed) h =
        let q : (consider g prefix n name params new r ≡ ok r') =
          sym (apply_choice_tried n r rule name params (ok new) found a) ∙ h in
        subst
          (λ (x : Run S P).
            Holds (length r.chain) (name, g.params_json params) x.chain x.excluded_at)
          (ok_inj (rw (differs, failed) at q)) (here-Holds r name (g.params_json params) f)

    -- No step of a chain is a choice at a depth.
    abbrev pub Avoids : ℕ → String → String → List (Step P) → Type 0
    Avoids d name json chain =
        All (λ s. s.step ≡ d → s.rule_name ≡ name → g.params_json s.params ≡ json → ⊥) chain

    Holds-Avoids :
        (d : ℕ) (name json : String) (chain : List (Step P)) (excluded : Excluded)
        → Holds d (name, json) chain excluded
        → Avoids d name json chain
    Holds-Avoids d name json [] excluded h = tt
    Holds-Avoids d name json (s ∷ earlier) excluded ((e, f, later), m) = (
      λ p q t.
          let at : (length earlier ≡ d) = sym e ∙ p in
          let bad : (is_excluded name json (excluded d) ≡ false) =
            subst (λ k. is_excluded name json (excluded k) ≡ false) at
              (subst (λ j. is_excluded name j (excluded (length earlier)) ≡ false) t
                (subst
                  (λ k. is_excluded k (g.params_json s.params) (excluded (length earlier)) ≡ false)
                  q f)) in
          absurd (false-ne (sym bad ∙ is_excluded-In name json (excluded d) m)),
      Holds-Avoids d name json earlier excluded (later, m),
    )
      where
        false-ne : ¬ (◌≡◌ {A = Bool} false true)
        false-ne z = cc

    -- In a state that the loop of `run` has reached, a rule is tried and the choice refused: the rule
    -- has raised what the loop catches, the spec has the hash that it had, or the model checker does
    -- not pass it. Where the loop then goes on and returns, the chain that it returns has no step at
    -- that depth with that rule and the same parameters, as they are written in JSON.
    pub run_from-Avoids :
        (n m left : ℕ) (r r' final : Run S P) (rule : Rule S P) (name : String) (params : P)
        → Reached r
        → find_rule name g.registry ≡ some rule
        → Refuses n r rule params
        → apply_choice g prefix n name params r ≡ ok r'
        → run_from g prefix left m r' ≡ ok final
        → Avoids (length r.chain) name (g.params_json params) final.chain
    run_from-Avoids n m left r r' final rule name params reached found refused h p =
        let d = length r.chain in
        let c : String × String = (name, g.params_json params) in
        let held =
          refused-Holds n r r' rule name params (Reached-IsFresh r reached) found refused h in
        Holds-Avoids d name (g.params_json params) final.chain final.excluded_at
          (run_from-Keeps g prefix (λ (x : Run S P). Holds d c x.chain x.excluded_at)
            (Holds-Keeps d c) left m r' final held p).0

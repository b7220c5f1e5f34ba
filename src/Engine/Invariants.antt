-- ===== src/Engine/Invariants.antt =====
-- A property of specs that every rule of the registry preserves, through the engine's loop.
use agentic_rtl_engine.Prelude.{
  ℕ, zero, suc, ◌≡◌, refl, subst, String, Bool-cases, Option, none, some, List, [], ◌∷◌, length,
  str_eq, true, inl, inr, All,
}
use agentic_rtl_engine.Prelude.Result.{Result, ok, raises, value_error, >>=-eq-ok, ok_inj}
use agentic_rtl_engine.Engine.{
  Rule, Setting, Step, Run, Excluded, find_rule, names_of, applicable_rules, has_remaining, exclude,
  replay_chain, max_backtrack_depth, backtrack, roll_back, exclude_here, commit_step, run,
}
use agentic_rtl_engine.Engine.Rounds.{run-Keeps}

abbrev pub Preserves : {S P : Type 0} → (S → Type 0) → (S → P → Result S) → Type 0
Preserves {S} {P} I apply = (s : S) (p : P) (s' : S) → I s → apply s p ≡ ok s' → I s'

module _ {S P : Type 0} (I : S → Type 0) where
  abbrev pub AllPreserve : List (Rule S P) → Type 0
  AllPreserve rules = All (λ r. Preserves I r.apply) rules

  find_rule-Preserves :
      (name : String) (rules : List (Rule S P)) (rule : Rule S P)
      → AllPreserve rules
      → find_rule name rules ≡ some rule
      → Preserves I rule.apply
  unfolding find_rule
  find_rule-Preserves name [] rule a h = cc
  find_rule-Preserves name (r ∷ rules) rule a h = elim (Bool-cases (str_eq r.name name)) [
    | inl e ↦ subst (λ o. elim o [ none ↦ Unit | some q ↦ Preserves I q.apply ]) (rw e at h) a.0
    | inr e ↦ find_rule-Preserves name rules rule a.1 (rw e at h)
  ]

  replay_chain-Preserves :
      (rules : List (Rule S P)) (initial : S) (chain : List (Step P)) (s : S)
      → AllPreserve rules
      → I initial
      → replay_chain rules initial chain ≡ ok s
      → I s
  unfolding replay_chain
  replay_chain-Preserves rules initial [] s a i h = subst I (ok_inj h) i
  replay_chain-Preserves rules initial (step ∷ earlier) s a i h =
      let (before, p, q) = >>=-eq-ok (replay_chain rules initial earlier) _ h in
      by_rule before (replay_chain-Preserves rules initial earlier before a i p)
        (find_rule step.rule_name rules) (find_rule-Preserves step.rule_name rules) q
    where
      by_rule :
          (before : S)
          → I before
          → (o : Option (Rule S P))
          → ((rule : Rule S P) → AllPreserve rules → o ≡ some rule → Preserves I rule.apply)
          → (elim o [ none ↦ raises value_error | some r ↦ r.apply before step.params ]) ≡ ok s
          → I s
      by_rule before j none k q = cc
      by_rule before j (some r) k q = k r a refl before step.params s j q

  module _ (g : Setting S P) (a : AllPreserve g.registry) (i : I g.formal_spec) where
    backtrack-Preserves :
        (depth : ℕ) (chain : List (Step P)) (excluded : Excluded) (spec : S)
        (chain' : List (Step P)) (excluded' : Excluded)
        → backtrack g depth chain excluded ≡ ok (spec, chain', excluded')
        → I spec
    unfolding backtrack
    backtrack-Preserves zero chain excluded spec chain' excluded' h = cc
    backtrack-Preserves (suc depth) [] excluded spec chain' excluded' h = cc
    backtrack-Preserves (suc depth) (last ∷ chain) excluded spec chain' excluded' h =
        let ex = exclude last.step last.rule_name (g.params_json last.params) excluded in
        let (found, p, q) = >>=-eq-ok (replay_chain g.registry g.formal_spec chain) _ h in
        elim (Bool-cases
          (has_remaining (names_of (applicable_rules found g.registry)) (ex (length chain)))) [
            | inl e ↦
                subst I (first (rw e at q))
                  (replay_chain-Preserves g.registry g.formal_spec chain found a i p)
            | inr e ↦ backtrack-Preserves depth chain ex spec chain' excluded' (rw e at q)
          ]
      where
        first :
            {s : S} {c : List (Step P)} {x : Excluded}
            → ◌≡◌ {A = Result (S × List (Step P) × Excluded)}
                (ok (s, c, x))
                (ok (spec, chain', excluded'))
            → s ≡ spec
        first p = cc

    roll_back-Preserves : (r r' : Run S P) → roll_back g r ≡ ok r' → I r'.spec
    unfolding roll_back
    roll_back-Preserves r r' h =
        let ((spec, chain, excluded), p, q) =
          >>=-eq-ok (backtrack g max_backtrack_depth r.chain r.excluded_at) _ h in
        subst (λ x. I x.spec) (ok_inj q)
          (backtrack-Preserves max_backtrack_depth r.chain r.excluded_at spec chain excluded p)

    -- What every rule of the registry preserves and the first spec has, the spec has that `run`
    -- returns, whatever it has picked and rolled back.
    pub run-Preserves :
        (prefix : List (Step P)) (r : Run S P)
        → run g prefix ≡ ok r
        → I r.spec × (g.termination_check r.spec ≡ true)
    unfolding exclude_here commit_step
    run-Preserves prefix r h =
        run-Keeps g prefix (λ x. I x.spec)
          (record {
            excludes = λ r name json j. j;
            counts = λ r f j. j;
            rolls = λ r r' j going p. roll_back-Preserves r r' p;
            commits = λ r name params new j going c.
                find_rule-Preserves name g.registry c.rule a c.found r.spec params new j c.applied;
          })
          r i h

-- ===== src/Engine/Replay.antt =====
-- The chain of the engine and its replay: what the file on disk holds when `run` returns.
use agentic_rtl_engine.Prelude.{
  ℕ, zero, suc, ◌≡◌, ◌≢◌, ◌⊎◌, refl, ap, sym, subst, ◌∙◌, String, Bool, true, false, some, List, [],
  ◌∷◌, ◌++◌, length, str_eq, eq_iff, Bool-cases, inl, inr,
}
use agentic_rtl_engine.Prelude.Result.{Result, ok, >>=-eq-ok, ok_inj, >>=-at}
use agentic_rtl_engine.Engine.{
  Rule, Setting, Step, Run, Excluded, exclude, find_rule, names_of, applicable_rules, has_remaining,
  replay_chain, renumber_steps, max_backtrack_depth, backtrack, roll_back, exclude_here,
  commit_step, start, run,
}
use agentic_rtl_engine.Engine.Rounds.{Committed, Keeps, run-Keeps}

replay_chain-renumber_steps :
    {S P : Type 0} (rules : List (Rule S P)) (base : S) (chain : List (Step P))
    → replay_chain rules base (renumber_steps chain) ≡ replay_chain rules base chain
unfolding replay_chain renumber_steps
replay_chain-renumber_steps rules base [] = refl
replay_chain-renumber_steps rules base (s ∷ earlier) =
    rw (replay_chain-renumber_steps rules base earlier)

replay_chain-append :
    {S P : Type 0} (rules : List (Rule S P)) (base mid : S) (chain prefix : List (Step P))
    → replay_chain rules base prefix ≡ ok mid
    → replay_chain rules base (chain ++ prefix) ≡ replay_chain rules mid chain
unfolding replay_chain
replay_chain-append rules base mid [] prefix h = h
replay_chain-append rules base mid (s ∷ chain) prefix h =
    rw (replay_chain-append rules base mid chain prefix h)

module _ {S P : Type 0} (g : Setting S P) where
  abbrev replayed : List (Step P) → Result S
  replayed chain = replay_chain g.registry g.formal_spec chain

  -- What a step of a chain records: the spec that the steps before it lead to, the one that it leads
  -- to, and that they differ; and the termination check fails before it.
  pub record IsRecorded (s : Step P) (earlier : List (Step P)) : Type 0 where
    pub before : S
    pub after : S
    pub reached : replayed earlier ≡ ok before
    pub reaches : replayed (s ∷ earlier) ≡ ok after
    pub numbered : s.step ≡ length earlier
    pub hashed_before : s.pre_hash ≡ g.spec_hash before
    pub hashed_after : s.post_hash ≡ g.spec_hash after
    pub differs : s.pre_hash ≢ s.post_hash
    pub unfinished : g.termination_check before ≡ false

  abbrev pub AllRecorded : List (Step P) → Type 0
  AllRecorded [] = Unit
  AllRecorded (s ∷ earlier) = IsRecorded s earlier × AllRecorded earlier

  -- A rollback ends at a shorter chain of the same steps, in the spec that it leads to.
  backtrack-AllRecorded :
      (depth : ℕ) (chain : List (Step P)) (excluded : Excluded) (spec : S) (chain' : List (Step P))
      (excluded' : Excluded)
      → AllRecorded chain
      → backtrack g depth chain excluded ≡ ok (spec, chain', excluded')
      → AllRecorded chain' × (replayed chain' ≡ ok spec) × (g.termination_check spec ≡ false)
  unfolding backtrack
  backtrack-AllRecorded zero chain excluded spec chain' excluded' a h = cc
  backtrack-AllRecorded (suc depth) [] excluded spec chain' excluded' a h = cc
  backtrack-AllRecorded (suc depth) (last ∷ chain) excluded spec chain' excluded' a h =
      let ex = exclude last.step last.rule_name (g.params_json last.params) excluded in
      let q = >>=-at (replayed chain) _ a.0.reached h in
      elim (Bool-cases
        (has_remaining (names_of (applicable_rules a.0.before g.registry)) (ex (length chain)))) [
          | inl e ↦
              let p : ((a.0.before ≡ spec) × (chain ≡ chain')) = parts (rw e at q) in
              (
                subst AllRecorded p.1 a.1,
                ap replayed (sym p.1) ∙ a.0.reached ∙ ap ok p.0,
                subst (λ s. g.termination_check s ≡ false) p.0 a.0.unfinished,
              )
          | inr e ↦ backtrack-AllRecorded depth chain ex spec chain' excluded' a.1 (rw e at q)
        ]
    where
      parts :
          {s : S} {c : List (Step P)} {x : Excluded}
          → ◌≡◌ {A = Result (S × List (Step P) × Excluded)}
              (ok (s, c, x))
              (ok (spec, chain', excluded'))
          → (s ≡ spec) × (c ≡ chain')
      parts p = (cc, cc)

  replayed-cons :
      (s : Step P) (earlier : List (Step P)) (spec new : S) (rule : Rule S P)
      → replayed earlier ≡ ok spec
      → find_rule s.rule_name g.registry ≡ some rule
      → rule.apply spec s.params ≡ ok new
      → replayed (s ∷ earlier) ≡ ok new
  unfolding replay_chain
  replayed-cons s earlier spec new rule reached found applied = rw (reached, found) applied

  differ : (a b : String) → str_eq a b ≡ false → b ≢ a
  differ a b h p = cc ((eq_iff a b).1 (sym p))

  module _ (base : S) (prefix : List (Step P))
      (passed : replay_chain g.registry base prefix ≡ ok g.formal_spec) where
    record IsSaved (r : Run S P) : Type 0 where
      pub current : replayed r.chain ≡ ok r.spec
      pub recorded : AllRecorded r.chain
      pub on_disk :
          (replay_chain g.registry base r.saved ≡ ok r.spec) ⊎ (g.termination_check r.spec ≡ false)

    roll_back-IsSaved : (r r' : Run S P) → IsSaved r → roll_back g r ≡ ok r' → IsSaved r'
    unfolding roll_back
    roll_back-IsSaved r r' i h =
        let ((spec, chain, excluded), p, q) =
          >>=-eq-ok (backtrack g max_backtrack_depth r.chain r.excluded_at) _ h in
        let (a, c, t) =
          backtrack-AllRecorded max_backtrack_depth r.chain r.excluded_at spec chain excluded
            i.recorded p in
        subst IsSaved (ok_inj q) (record { current = c; recorded = a; on_disk = inr t })

    commit_step-IsSaved :
        (r : Run S P) (name : String) (params : P) (new : S)
        → IsSaved r
        → g.termination_check r.spec ≡ false
        → Committed g prefix r name params new
        → IsSaved (commit_step g prefix name params new r)
    unfolding commit_step
    commit_step-IsSaved r name params new i going c =
        let s : Step P = record {
          step = length r.chain;
          rule_name = name;
          params = params;
          pre_hash = g.spec_hash r.spec;
          post_hash = g.spec_hash new;
        } in
        let reaches = replayed-cons s r.chain r.spec new c.rule i.current c.found c.applied in
        record {
          current = reaches;
          recorded = (
            record {
              before = r.spec;
              after = new;
              reached = i.current;
              reaches = reaches;
              numbered = refl;
              hashed_before = refl;
              hashed_after = refl;
              differs = differ (g.spec_hash new) (g.spec_hash r.spec) c.changed;
              unfinished = going;
            },
            i.recorded,
          );
          on_disk = inl (
              replay_chain-renumber_steps g.registry base ((s ∷ r.chain) ++ prefix)
              ∙ replay_chain-append g.registry base g.formal_spec (s ∷ r.chain) prefix passed
              ∙ reaches);
        }

    IsSaved-Keeps : Keeps g prefix IsSaved
    unfolding exclude_here
    IsSaved-Keeps = record {
      excludes = λ r name json i. record {
        current = i.current;
        recorded = i.recorded;
        on_disk = i.on_disk;
      };
      counts = λ r f i. record { current = i.current; recorded = i.recorded; on_disk = i.on_disk };
      rolls = λ r r' i going h. roll_back-IsSaved r r' i h;
      commits = commit_step-IsSaved;
    }

    start-IsSaved : IsSaved (start g prefix)
    unfolding replay_chain
    start-IsSaved = record { current = refl; recorded = tt; on_disk = inl passed }

    -- When `run` returns, its spec passes the termination check, and the chain on disk, with the steps
    -- of earlier passes that lead from a base to this pass's spec, replays from that base to it.
    pub run-replay_chain :
        (r : Run S P)
        → run g prefix ≡ ok r
        → (g.termination_check r.spec ≡ true) × (replay_chain g.registry base r.saved ≡ ok r.spec)
    run-replay_chain r h =
        let (i, done) = run-Keeps g prefix IsSaved IsSaved-Keeps r start-IsSaved h in
        (done, finished i.on_disk done)
      where
        finished : {A : Type 0} {b : Bool} → A ⊎ (b ≡ false) → b ≡ true → A
        finished (inl a) p = a
        finished (inr q) p = cc

    -- Where the steps of earlier passes lead from a base to this pass's first spec: when `run`
    -- returns, each step of this pass's chain has its place as its number, and the hashes of the
    -- specs that the chain replays to before and behind it, which differ; and the termination check
    -- fails before it.
    pub run-AllRecorded : (r : Run S P) → run g prefix ≡ ok r → AllRecorded r.chain
    run-AllRecorded r h = (run-Keeps g prefix IsSaved IsSaved-Keeps r start-IsSaved h).0.recorded

-- ===== src/Engine.antt =====
-- pipeline/refinement/engine.py: the loop that refines a spec by rules that a picker chooses, with
-- its backtracking. The spec, the parameters of a rule, the rules and the callables that `run` is
-- given are arguments. A chain has its last step first.
pub mod Rounds
pub mod Replay
pub mod Invariants
pub mod Refused
use Prim.Native.String.{count}
use agentic_rtl_engine.Prelude.{
  ℕ, zero, suc, ◌+◌, String, Bool, true, false, not, ◌&&◌, ◌||◌, Option, none, some, List, [], ◌∷◌,
  ◌++◌, length, ltb, leb, ◌==◌, if◌then◌else◌, str_eq, map,
}
use agentic_rtl_engine.Prelude.Result.{
  Error, Result, ok, raises, value_error, key_error, type_error, refinement_stall, ◌>>=◌,
}
use agentic_rtl_engine.Prelude.Dict.{contains}

-- A rule of the registry (pipeline/refinement/rules/base.py).
pub record Rule (S P : Type 0) : Type 0 where
  pub name : String
  pub is_applicable : S → Bool
  pub apply : S → P → Result S

-- What `pick_rule` returns: no dict with a name and parameters, or a choice.
pub data Choice (P : Type 0) : Type 0 where
  malformed : Choice P
  choice : String → P → Choice P

-- The arguments of `run`, and the functions of other libraries that it uses: `json.dumps` of the
-- parameters and the hash of a spec. A callable that asks an agent or a tool has the number of the
-- round, since it may answer differently each time; `none` is an exception.
pub record Setting (S P : Type 0) : Type 0 where
  pub registry : List (Rule S P)
  pub formal_spec : S
  pub termination_check : S → Bool
  pub allowed_rule_names : Option (List String)
  pub pick_rule : ℕ → List String → S → Option (Choice P)
  pub tlc_check : Option (ℕ → S → Bool)
  pub max_steps : ℕ
  pub params_json : P → String
  pub params_texts : P → List String
  pub spec_hash : S → String

pub record Step (P : Type 0) : Type 0 where
  pub step : ℕ
  pub rule_name : String
  pub params : P
  pub pre_hash : String
  pub post_hash : String

-- The excluded choices of each depth.
abbrev pub Excluded : Type 0
Excluded = ℕ → List (String × String)

-- The variables of the loop of `run`; `saved` is the chain on disk.
pub record Run (S P : Type 0) : Type 0 where
  pub spec : S
  pub chain : List (Step P)
  pub excluded_at : Excluded
  pub invalid_counts : ℕ → ℕ
  pub saved : List (Step P)

abbrev pub max_backtrack_depth : ℕ
max_backtrack_depth = 5

unfoldable pub exclude : ℕ → String → String → Excluded → Excluded
exclude depth name json excluded d = if d == depth then (name, json) ∷ excluded d else excluded d

unfoldable pub is_excluded : String → String → List (String × String) → Bool
is_excluded name json [] = false
is_excluded name json ((n, j) ∷ choices) =
    (str_eq n name && str_eq j json) || is_excluded name json choices

unfoldable pub is_allowed : Option (List String) → String → Bool
is_allowed none name = true
is_allowed (some names) name = contains name names

-- `_renumber_steps`
unfoldable pub renumber_steps : {P : Type 0} → List (Step P) → List (Step P)
renumber_steps [] = []
renumber_steps (s ∷ earlier) = record s { step = length earlier } ∷ renumber_steps earlier

unfoldable pub has_long : List String → Bool
has_long [] = false
has_long (t ∷ texts) = ltb 2000 (count t) || has_long texts

-- Whether a rule that applies has no excluded choice at this depth.
unfoldable pub has_remaining : List String → List (String × String) → Bool
has_remaining [] excluded = false
has_remaining (n ∷ names) excluded =
    not (contains n (map (λ c. c.0) excluded)) || has_remaining names excluded

-- The exceptions of a rule that the loop catches.
unfoldable pub is_caught : Error → Bool
is_caught value_error = true
is_caught key_error = true
is_caught type_error = true
is_caught _ = false

module _ {S P : Type 0} where
  unfoldable pub find_rule : String → List (Rule S P) → Option (Rule S P)
  find_rule name [] = none
  find_rule name (r ∷ rules) = if str_eq r.name name then some r else find_rule name rules

  unfoldable pub names_of : List (Rule S P) → List String
  names_of rules = map (λ r. r.name) rules

  unfoldable pub applicable_rules : S → List (Rule S P) → List (Rule S P)
  applicable_rules spec [] = []
  applicable_rules spec (r ∷ rules) =
      let rest = applicable_rules spec rules in if r.is_applicable spec then r ∷ rest else rest

  unfoldable pub allowed_rules : Option (List String) → List (Rule S P) → List (Rule S P)
  unfolding is_allowed
  allowed_rules allowed [] = []
  allowed_rules allowed (r ∷ rules) =
      let rest = allowed_rules allowed rules in if is_allowed allowed r.name then r ∷ rest else rest

  -- `_replay_chain`
  unfoldable pub replay_chain : List (Rule S P) → S → List (Step P) → Result S
  unfolding find_rule
  replay_chain registry initial [] = ok initial
  replay_chain registry initial (s ∷ earlier) = replay_chain registry initial earlier >>= λ spec.
      elim (find_rule s.rule_name registry) [
        | none ↦ raises value_error
        | some r ↦ r.apply spec s.params
      ]

  -- `_validate_pick`: whether there is no error.
  unfoldable pub validate_pick :
      Setting S P → Choice P → List String → List (String × String) → Bool
  unfolding is_excluded has_long
  validate_pick g malformed names excluded = false
  validate_pick g (choice name params) names excluded =
      not (str_eq name "")
      && (contains name names
          && (not (is_excluded name (g.params_json params) excluded)
              && not (has_long (g.params_texts params))))

  -- `_backtrack`, with the rollbacks that are left.
  unfoldable pub backtrack :
      Setting S P → ℕ → List (Step P) → Excluded → Result (S × List (Step P) × Excluded)
  unfolding exclude replay_chain names_of applicable_rules has_remaining
  backtrack g zero chain excluded = raises refinement_stall
  backtrack g (suc depth) [] excluded = raises refinement_stall
  backtrack g (suc depth) (last ∷ chain) excluded =
      let excluded' = exclude last.step last.rule_name (g.params_json last.params) excluded in
      let further = backtrack g depth chain excluded' in
      replay_chain g.registry g.formal_spec chain >>= λ spec.
      let names = names_of (applicable_rules spec g.registry) in
      if has_remaining names (excluded' (length chain))
      then ok (spec, chain, excluded')
      else further

  unfoldable pub roll_back : Setting S P → Run S P → Result (Run S P)
  unfolding backtrack
  roll_back g r =
      backtrack g max_backtrack_depth r.chain r.excluded_at >>= λ (spec, chain, excluded).
      ok (record r { spec = spec; chain = chain; excluded_at = excluded })

  -- An invalid pick: the third at a depth backtracks.
  unfoldable pub strike : Setting S P → Run S P → Result (Run S P)
  unfolding roll_back
  strike g r =
      let depth = length r.chain in
      let counted = record r {
        invalid_counts = λ d. if d == depth then r.invalid_counts d + 1 else r.invalid_counts d;
      } in
      if leb 3 (r.invalid_counts depth + 1) then roll_back g counted else ok counted

  unfoldable pub exclude_here : String → String → Run S P → Run S P
  unfolding exclude
  exclude_here name json r = record r {
    excluded_at = exclude (length r.chain) name json r.excluded_at;
  }

  unfoldable pub passes_tlc : Setting S P → ℕ → S → Bool
  passes_tlc g n spec = elim g.tlc_check [ none ↦ true | some check ↦ check n spec ]

  -- The step is appended and the chain persisted behind the prefix of earlier passes.
  unfoldable pub commit_step : Setting S P → List (Step P) → String → P → S → Run S P → Run S P
  unfolding renumber_steps
  commit_step g prefix name params spec r =
      let depth = length r.chain in
      let chain =
        record {
          step = depth;
          rule_name = name;
          params = params;
          pre_hash = g.spec_hash r.spec;
          post_hash = g.spec_hash spec;
        }
        ∷ r.chain in
      record {
        spec = spec;
        chain = chain;
        excluded_at = r.excluded_at;
        invalid_counts = λ d. if d == depth then 0 else r.invalid_counts d;
        saved = renumber_steps (chain ++ prefix);
      }

  -- A candidate spec: the no-op guard, the model checker, the commit.
  unfoldable pub consider :
      Setting S P → List (Step P) → ℕ → String → P → S → Run S P → Result (Run S P)
  unfolding exclude_here strike passes_tlc commit_step
  consider g prefix n name params new r =
      let excluded = exclude_here name (g.params_json params) r in
      if str_eq (g.spec_hash new) (g.spec_hash r.spec)
      then strike g excluded
      else if passes_tlc g n new
      then ok (commit_step g prefix name params new r)
      else ok excluded

  -- A rule that raised: its choice is excluded, or the exception leaves the loop.
  unfoldable pub recover : Setting S P → String → P → Error → Run S P → Result (Run S P)
  unfolding is_caught exclude_here
  recover g name params e r =
      if is_caught e then ok (exclude_here name (g.params_json params) r) else raises e

  unfoldable pub apply_choice :
      Setting S P → List (Step P) → ℕ → String → P → Run S P → Result (Run S P)
  unfolding find_rule consider recover
  apply_choice g prefix n name params r = elim (find_rule name g.registry) [
    | none ↦ raises key_error
    | some rule ↦ elim (rule.apply r.spec params) [
      | raises e ↦ recover g name params e r
      | ok new ↦ consider g prefix n name params new r
    ]
  ]

  unfoldable pub judge :
      Setting S P → List (Step P) → ℕ → List String → Choice P → Run S P → Result (Run S P)
  unfolding validate_pick strike apply_choice
  judge g prefix n names malformed r = strike g r
  judge g prefix n names (choice name params) r =
      if validate_pick g (choice name params) names (r.excluded_at (length r.chain))
      then apply_choice g prefix n name params r
      else strike g r

  -- One round of the loop, with the number of the round.
  unfoldable pub attempt : Setting S P → List (Step P) → ℕ → Run S P → Result (Run S P)
  unfolding applicable_rules allowed_rules names_of roll_back strike judge
  attempt g prefix n r =
      elim (names_of (allowed_rules g.allowed_rule_names (applicable_rules r.spec g.registry))) [
        | [] ↦ if g.termination_check r.spec then ok r else roll_back g r
        | name ∷ names ↦ elim (g.pick_rule n (name ∷ names) r.spec) [
          | none ↦ strike g r
          | some c ↦ judge g prefix n (name ∷ names) c r
        ]
      ]

  -- The loop of `run`, with the rounds that are left of `max_steps`.
  unfoldable pub run_from : Setting S P → List (Step P) → ℕ → ℕ → Run S P → Result (Run S P)
  unfolding attempt
  run_from g prefix zero n r = if g.termination_check r.spec then ok r else raises refinement_stall
  run_from g prefix (suc left) n r =
      let round = attempt g prefix n r >>= λ r'. run_from g prefix left (suc n) r' in
      if g.termination_check r.spec then ok r else round

  abbrev pub start : Setting S P → List (Step P) → Run S P
  start g prefix = record {
    spec = g.formal_spec;
    chain = [];
    excluded_at = λ d. [];
    invalid_counts = λ d. 0;
    saved = prefix;
  }

  -- `run`, with the chain that earlier passes left on disk.
  unfoldable pub run : Setting S P → List (Step P) → Result (Run S P)
  unfolding run_from
  run g prefix = run_from g prefix g.max_steps 0 (start g prefix)

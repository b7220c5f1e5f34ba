-- ===== src/VectorCheck/Agreement.antt =====
-- What a report of the vector check says.
use agentic_rtl_engine.Prelude.{
  ℕ, suc, ◌≡◌, ◌↔◌, refl, ap, sym, subst, ◌∙◌, String, Bool, true, false, not, ◌&&◌, ◌||◌, Option,
  none, some, List, [], ◌∷◌, ◌++◌, map, All, arith, Bool-cases, inl, inr, In, str_eq, ==_iff,
}
use agentic_rtl_engine.Prelude.Result.{Result, ok, raises, >>=-eq-ok, ok_inj}
use agentic_rtl_engine.Prelude.Dict.{Dict, get, contains}
use agentic_rtl_engine.Expr.Value.{Value, x, num, arr}
use agentic_rtl_engine.Spec.{Spec}
use agentic_rtl_engine.Engine.{Rule, Step, replay_chain}
use agentic_rtl_engine.Rules.{Params, is_empty}
use agentic_rtl_engine.Sim.{same_cells, same_value, run}
use agentic_rtl_engine.Sim.Settle.{same_value_sound}
use agentic_rtl_engine.Sim.Build.{design_of, power_up_of}
use agentic_rtl_engine.VectorCheck.{
  Summary, Report, reconstruct_refined_spec, differs_at, compare_ports, compare_from, is_asserted,
  all_asserted, present, value_of, same_presence, report_on, apply_spec_derived_vectors,
}

-- Two lists of rows, as far as both go, have the same at each port: the same value, or both none.
abbrev pub Agree : List (Dict Value) → List (Dict Value) → List String → Type 0
Agree [] spec ports = Unit
Agree (a ∷ agent1) [] ports = Unit
Agree (a ∷ agent1) (s ∷ spec) ports =
    All (λ port. get port a ≡ get port s) ports × Agree agent1 spec ports

-- Some row has a value for a port.
abbrev pub Asserted : List (Dict Value) → String → Type 0
Asserted rows port = (row : Dict Value) × (v : Value) × In row rows × (get port row ≡ some v)

same_option :
    (a b : Option Value)
    → (not (same_value (value_of a) (value_of b)) || not (same_presence (present a) (present b)))
      ≡ false
    → a ≡ b
same_option none none h = refl
same_option none (some w) h = absurd (ground (arith, h))
same_option (some v) none h = absurd (ground (arith, h))
same_option (some v) (some w) h = ap some (same_value_sound v w (ground (arith, h)))

differs_at-eq :
    (a s : Dict Value) (port : String) → differs_at a s port ≡ false → get port a ≡ get port s
unfolding differs_at
differs_at-eq a s port h = same_option (get port a) (get port s) h

same_cells_refl : (l : List (Option ℕ)) → same_cells l l ≡ true
unfolding same_cells
same_cells_refl [] = refl
same_cells_refl (none ∷ l) = same_cells_refl l
same_cells_refl (some a ∷ l) = rw ((==_iff a a).1 refl) (same_cells_refl l)

same_value_refl : (v : Value) → same_value v v ≡ true
unfolding same_value
same_value_refl x = refl
same_value_refl (num n) = (==_iff n n).1 refl
same_value_refl (arr l) = same_cells_refl l

differs_at_refl :
    (a s : Dict Value) (port : String) → get port a ≡ get port s → differs_at a s port ≡ false
unfolding differs_at
differs_at_refl a s port e = rw (e, same_value_refl (value_of (get port s))) (once (get port s))
  where
    once : (o : Option Value) → not (same_presence (present o) (present o)) ≡ false
    once none = refl
    once (some v) = refl

is_empty-append : {A : Type 0} (l m : List A) → is_empty (l ++ m) ≡ (is_empty l && is_empty m)
unfolding is_empty
is_empty-append [] m = refl
is_empty-append (a ∷ l) m = refl

compare_ports_agree :
    (i : ℕ) (a s : Dict Value) (ports : List String)
    → (is_empty (compare_ports i a s ports) ≡ true) ↔ All (λ port. get port a ≡ get port s) ports
unfolding compare_ports is_empty
compare_ports_agree i a s [] = (λ h. tt, λ h. refl)
compare_ports_agree i a s (port ∷ ports) =
    let ih = compare_ports_agree i a s ports in
    elim (Bool-cases (differs_at a s port)) [
      | inl e ↦ (
        λ h. absurd (false-ne (rw e at h)),
        λ h. absurd (false-ne (sym (differs_at_refl a s port h.0) ∙ e)),
      )
      | inr e ↦ (λ h. (differs_at-eq a s port e, ih.0 (rw e at h)), λ h. rw e (ih.1 h.1))
    ]
  where
    false-ne : ¬ (◌≡◌ {A = Bool} false true)
    false-ne p = cc

compare_from-Agree :
    (i : ℕ) (agent1 spec : List (Dict Value)) (ports : List String)
    → (is_empty (compare_from i agent1 spec ports) ≡ true) ↔ Agree agent1 spec ports
unfolding compare_from is_empty
compare_from-Agree i [] spec ports = (λ h. tt, λ h. refl)
compare_from-Agree i (a ∷ agent1) [] ports = (λ h. tt, λ h. refl)
compare_from-Agree i (a ∷ agent1) (s ∷ spec) ports =
    let split =
      is_empty-append (compare_ports i a s ports) (compare_from (suc i) agent1 spec ports) in
    let first = compare_ports_agree i a s ports in
    let rest = compare_from-Agree (suc i) agent1 spec ports in
    (
      λ h. let both = sym split ∙ h in (first.0 (ground arith), rest.0 (ground arith)),
      λ h. split ∙ rw (first.1 h.0, rest.1 h.1) refl,
    )

get-keys :
    (port : String) (row : Dict Value)
    → contains port (map (λ kv. kv.0) row) ≡ true
    → (v : Value) × (get port row ≡ some v)
unfolding contains get
get-keys port [] h = absurd (ground (arith, h))
get-keys port ((k, v) ∷ row) h = elim (Bool-cases (str_eq k port)) [
  | inl e ↦ (v, rw e refl)
  | inr e ↦ let (w, p) = get-keys port row (rw e at h) in (w, rw e p)
]

is_asserted-Asserted :
    (port : String) (rows : List (Dict Value)) → is_asserted port rows ≡ true → Asserted rows port
unfolding is_asserted
is_asserted-Asserted port [] h = absurd (ground (arith, h))
is_asserted-Asserted port (row ∷ rows) h =
    elim (Bool-cases (contains port (map (λ kv. kv.0) row))) [
      | inl e ↦ let (v, p) = get-keys port row e in (row, v, inl refl, p)
      | inr e ↦
          let (later, v, m, p) = is_asserted-Asserted port rows (rw e at h) in (later, v, inr m, p)
    ]

all_asserted-All :
    (ports : List String) (rows : List (Dict Value))
    → all_asserted ports rows ≡ true
    → All (Asserted rows) ports
unfolding all_asserted
all_asserted-All [] rows h = tt
all_asserted-All (port ∷ ports) rows h =
    (is_asserted-Asserted port rows (ground arith), all_asserted-All ports rows (ground arith))

-- What a report is of: the spec that the chain replays to, simulated on the vectors' inputs.
pub record IsReport (registry : List (Rule Spec Params)) (summary : Summary) (engine_spec : Spec)
    (chain : List (Step Params)) (report : Report) : Type 0 where
  pub refined : Spec
  pub replayed : replay_chain registry engine_spec chain ≡ ok refined
  pub simulated :
      run
        (design_of summary.reset_port summary.reset_active_low refined)
        (power_up_of summary.reset_port refined)
        (map (λ v. v.inputs) summary.test_vectors)
        summary.output_ports
      ≡ ok report.expected
  pub asserted : All (Asserted report.expected) summary.output_ports
  pub agreement :
      (report.agreed ≡ true)
      ↔ Agree (map (λ v. v.expected) summary.test_vectors) report.expected summary.output_ports

report_on-IsReport :
    (registry : List (Rule Spec Params)) (summary : Summary) (engine_spec refined : Spec)
    (chain : List (Step Params)) (report : Report)
    → replay_chain registry engine_spec chain ≡ ok refined
    → report_on summary refined ≡ ok (some report)
    → IsReport registry summary engine_spec chain report
unfolding report_on
report_on-IsReport registry summary engine_spec refined chain report replays h =
    elim (Bool-cases
      (is_empty (map (λ v. v.inputs) summary.test_vectors) || is_empty summary.output_ports)) [
        | inl e ↦ absurd (cc (rw e at h))
        | inr e ↦
            let (rows, p, q) =
              >>=-eq-ok
                (run (design_of summary.reset_port summary.reset_active_low refined)
                  (power_up_of summary.reset_port refined)
                  (map (λ v. v.inputs) summary.test_vectors) summary.output_ports)
                _ (rw e at h) in
            elim (Bool-cases (all_asserted summary.output_ports rows)) [
              | inr n ↦ absurd (cc (rw n at q))
              | inl t ↦
                  subst (IsReport registry summary engine_spec chain)
                    (some_inj (ok_inj (rw t at q)))
                    (record {
                      refined = refined;
                      replayed = replays;
                      simulated = p;
                      asserted = all_asserted-All summary.output_ports rows t;
                      agreement = compare_from-Agree 0 _ rows summary.output_ports;
                    })
            ]
      ]
  where
    some_inj : {a b : Report} → ◌≡◌ {A = Option Report} (some a) (some b) → a ≡ b
    some_inj p = cc

reconstruct_refined_spec-replay_chain :
    (registry : List (Rule Spec Params)) (engine_spec refined : Spec) (chain : List (Step Params))
    → reconstruct_refined_spec registry engine_spec chain ≡ ok (some refined)
    → replay_chain registry engine_spec chain ≡ ok refined
unfolding reconstruct_refined_spec
reconstruct_refined_spec-replay_chain registry engine_spec refined chain h =
    elim (Bool-cases (is_empty chain)) [
      | inl e ↦ absurd (cc (rw e at h))
      | inr e ↦
          let (s, p, q) = >>=-eq-ok (replay_chain registry engine_spec chain) _ (rw e at h) in
          p ∙ ap ok (same q)
    ]
  where
    same : {a b : Spec} → ◌≡◌ {A = Result (Option Spec)} (ok (some a)) (ok (some b)) → a ≡ b
    same p = cc

-- A report that the pre-flight gives is of the spec that the chain replays to: its expected outputs
-- are the simulator's rows for the vectors' inputs, each output port has a value in some row, and
-- it reports agreement exactly when the first agent's expected outputs and these rows, as far as
-- both go, have the same value or both none at each output port.
pub apply_spec_derived_vectors-IsReport :
    (registry : List (Rule Spec Params)) (summary : Summary) (engine_spec : Spec)
    (chain : List (Step Params)) (report : Report)
    → apply_spec_derived_vectors registry summary engine_spec chain ≡ some report
    → IsReport registry summary engine_spec chain report
unfolding apply_spec_derived_vectors
apply_spec_derived_vectors-IsReport registry summary engine_spec chain report h =
    let outcome = found _ h in
    let (o, p, q) = >>=-eq-ok (reconstruct_refined_spec registry engine_spec chain) _ outcome in
    by_spec o p q
  where
    found :
        (m : Result (Option Report))
        → (elim m [ raises e ↦ none | ok r ↦ r ]) ≡ some report
        → m ≡ ok (some report)
    found (raises e) h = cc
    found (ok r) h = ap ok h

    by_spec :
        (o : Option Spec)
        → reconstruct_refined_spec registry engine_spec chain ≡ ok o
        → (elim o [ none ↦ ok none | some s ↦ report_on summary s ]) ≡ ok (some report)
        → IsReport registry summary engine_spec chain report
    by_spec none p q = absurd (cc q)
    by_spec (some s) p q =
        report_on-IsReport registry summary engine_spec s chain report
          (reconstruct_refined_spec-replay_chain registry engine_spec s chain p) q

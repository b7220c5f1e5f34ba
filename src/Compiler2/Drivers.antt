-- ===== src/Compiler2/Drivers.antt =====
-- The drivers of a signal of the emitted module, pipeline/compilers/compiler2.py.
use agentic_rtl_engine.Prelude.{
  ◌≡◌, refl, ap, sym, subst, String, Bool, true, false, not, ◌&&◌, ◌||◌, List, [], ◌∷◌, ◌++◌, map,
  Option, none, some, arith, if◌then◌else◌, str_eq, eq_iff, ◌⊎◌, inl, inr, Bool-cases,
}
use agentic_rtl_engine.Prelude.Dict.{contains, contains-append}
use agentic_rtl_engine.Compiler2.{
  Class, fixed_input, input, output_wire, output_reg, internal_reg, dropped, is_fixed_input,
  is_verify, is_internal_reg, base_name, is_emitted, classify,
}
use agentic_rtl_engine.Compiler2.Parse.{
  read_conjunct, read_all, extract_block, parse_combinational, parse_assignments, parse_sequential,
  bases, join_conjuncts, split_reset_else,
}
use agentic_rtl_engine.Compiler2.Emit.{read_blocks, any_shared}
use agentic_rtl_engine.Compiler2.Translate.{translate_expr}

-- What drives a signal of a class: an `assign` and the clocked block.
abbrev pub IsDriven : Class → Bool → Bool → Type 0
IsDriven fixed_input comb seq = (comb ≡ false) × (seq ≡ false)
IsDriven dropped comb seq = (comb ≡ false) × (seq ≡ false)
IsDriven input comb seq = (comb ≡ false) × (seq ≡ false)
IsDriven output_wire comb seq = (comb ≡ true) × (seq ≡ false)
IsDriven output_reg comb seq = (comb ≡ false) × (seq ≡ true)
IsDriven internal_reg comb seq = (comb && seq) ≡ false

-- The base of each target that is read is emitted.
contains-read_all :
    (reset_port k : String) (test : String → Bool) (conjuncts : List String)
    → ((v : String) → test v ≡ true → is_emitted reset_port (base_name v) ≡ true)
    → contains k (bases (read_all test conjuncts)) ≡ true
    → is_emitted reset_port k ≡ true
unfolding read_all bases contains
contains-read_all reset_port k test [] passes h = absurd (ground (arith, h))
contains-read_all reset_port k test (conj ∷ conjuncts) passes h =
    by_match (read_conjunct conj) (contains-read_all reset_port k test conjuncts passes) h
  where
    by_match :
        (o : Option (String × String))
        → (contains k (bases (read_all test conjuncts)) ≡ true → is_emitted reset_port k ≡ true)
        → contains k (
            bases (elim o [
              | none ↦ read_all test conjuncts
              | some (var, expr) ↦
                  let rest = read_all test conjuncts in
                  if test var then (var, expr) ∷ rest else rest
            ]))
          ≡ true
        → is_emitted reset_port k ≡ true
    by_match none later h = later h
    by_match (some (var, expr)) later h = elim (Bool-cases (test var)) [
      | inl t ↦ elim (Bool-cases (str_eq (base_name var) k)) [
        | inl e ↦
            subst (λ n. is_emitted reset_port n ≡ true) ((eq_iff (base_name var) k).0 e)
              (passes var t)
        | inr e ↦ later (rw (t, contains, e) at h)
      ]
      | inr t ↦ later (rw t at h)
    ]

bases-map :
    (assigns : List (String × String))
    → bases (map (λ a. (a.0, translate_expr a.1)) assigns) ≡ bases assigns
unfolding bases
bases-map [] = refl
bases-map (a ∷ assigns) = ap (λ l. base_name a.0 ∷ l) (bases-map assigns)

contains-parse_combinational :
    (reset_port tla k : String)
    → contains k (bases (parse_combinational reset_port tla)) ≡ true
    → is_emitted reset_port k ≡ true
unfolding parse_combinational
contains-parse_combinational reset_port tla k = by_block (extract_block "CombinationalLogic" tla)
  where
    by_block :
        (o : Option String)
        → contains k (
            bases (elim o [
              | none ↦ []
              | some block ↦
                  map
                    (λ a. (a.0, translate_expr a.1))
                    (read_all (λ v. is_emitted reset_port (base_name v)) (join_conjuncts block))
            ]))
          ≡ true
        → is_emitted reset_port k ≡ true
    by_block none h = absurd (unfold bases contains in ground (arith, h))
    by_block (some block) h =
        contains-read_all reset_port k _ (join_conjuncts block) (λ v p. p)
          (subst (λ l. contains k l ≡ true) (bases-map _) h)

contains-parse_assignments :
    (reset_port text k : String)
    → contains k (bases (parse_assignments reset_port text)) ≡ true
    → is_emitted reset_port k ≡ true
unfolding parse_assignments
contains-parse_assignments reset_port text k h =
    contains-read_all reset_port k _ (join_conjuncts text) (λ v p. ground (arith, p)) h

bases-append :
    (assigns more : List (String × String)) → bases (assigns ++ more) ≡ bases assigns ++ bases more
unfolding bases
bases-append [] more = refl
bases-append (a ∷ assigns) more = ap (λ l. base_name a.0 ∷ l) (bases-append assigns more)

either : {r : Type 0} (a b : Bool) → (a ≡ true → r) → (b ≡ true → r) → (a || b) ≡ true → r
either true b f g h = f refl
either false b f g h = g h

contains-parse_sequential :
    (reset_port tla k : String)
    → contains k
        (bases ((parse_sequential reset_port tla).0 ++ (parse_sequential reset_port tla).1))
      ≡ true
    → is_emitted reset_port k ≡ true
unfolding parse_sequential
contains-parse_sequential reset_port tla k = by_block (extract_block "UpdatePipeline" tla)
  where
    by_block :
        (o : Option String)
        → (let r : List (String × String) × List (String × String) = elim o [
          | none ↦ ([], [])
          | some block ↦
              let parts = split_reset_else reset_port block in
              (parse_assignments reset_port parts.0, parse_assignments reset_port parts.1)
        ] in
            contains k (bases (r.0 ++ r.1)) ≡ true)
        → is_emitted reset_port k ≡ true
    by_block none h = absurd (unfold bases contains in ground (arith, h))
    by_block (some block) h =
        let parts = split_reset_else reset_port block in
        either (contains k (bases (parse_assignments reset_port parts.0)))
          (contains k (bases (parse_assignments reset_port parts.1)))
          (contains-parse_assignments reset_port parts.0 k)
          (contains-parse_assignments reset_port parts.1 k)
          (rw (bases-append, contains-append) at h)

-- A name that both lists hold, where they share one.
pub any_shared-cases :
    (comb seq : List String)
    → ((k : String) × ((contains k comb && contains k seq) ≡ true) × (any_shared comb seq ≡ true))
      ⊎ (((k : String) → (contains k comb && contains k seq) ≡ false)
          × (any_shared comb seq ≡ false))
unfolding contains any_shared
any_shared-cases [] seq = inr (λ k. refl, refl)
any_shared-cases (v ∷ comb) seq = elim (Bool-cases (contains v seq)) [
  | inl e ↦ inl (v, rw ((eq_iff v v).1 refl, e) refl, rw e refl)
  | inr e ↦ elim (any_shared-cases comb seq) [
    | inl (k, h, s) ↦ inl (k, ground (arith, h), rw e s)
    | inr (h, s) ↦ inr (λ k. other k e (h k), rw e s)
  ]
]
  where
    other :
        (k : String)
        → contains v seq ≡ false
        → (contains k comb && contains k seq) ≡ false
        → ((str_eq v k || contains k comb) && contains k seq) ≡ false
    other k e h = elim (Bool-cases (str_eq v k)) [
      | inl p ↦ rw p (subst (λ n. contains n seq ≡ false) ((eq_iff v k).0 p) e)
      | inr p ↦ rw p h
    ]

none_of : (b : Bool) → (b ≡ true → false ≡ true) → b ≡ false
none_of true h = sym (h refl)
none_of false h = refl

tests-IsDriven :
    (fixed verify memory register comb seq : Bool)
    → (comb ≡ true → (not fixed && not verify) ≡ true)
    → (seq ≡ true → (not fixed && not verify) ≡ true)
    → (comb && seq) ≡ false
    → IsDriven
        (if fixed
          then fixed_input
          else if verify
          then dropped
          else if memory
          then internal_reg
          else if register
          then internal_reg
          else if seq
          then output_reg
          else if comb
          then output_wire
          else input)
        comb
        seq
tests-IsDriven true verify memory register comb seq c s n = (none_of comb c, none_of seq s)
tests-IsDriven false true memory register comb seq c s n = (none_of comb c, none_of seq s)
tests-IsDriven false false true register comb seq c s n = n
tests-IsDriven false false false true comb seq c s n = n
tests-IsDriven false false false false true true c s n = absurd (ground (arith, n))
tests-IsDriven false false false false false true c s n = (refl, refl)
tests-IsDriven false false false false true false c s n = (refl, refl)
tests-IsDriven false false false false false false c s n = (refl, refl)

pub classify-IsDriven :
    (reset_port tla k : String)
    → (let g = (read_blocks reset_port tla).signals in
        (contains k g.comb_vars && contains k g.seq_vars) ≡ false
        → IsDriven (classify g k) (contains k g.comb_vars) (contains k g.seq_vars))
unfolding read_blocks classify
classify-IsDriven reset_port tla k n =
    tests-IsDriven (is_fixed_input reset_port k) (is_verify k) _ (is_internal_reg k) _ _
      (contains-parse_combinational reset_port tla k) (contains-parse_sequential reset_port tla k) n

-- ===== src/Rules/Names.antt =====
-- The names of the variables, under the refinement rules.
use agentic_rtl_engine.Prelude.{
  ◌≡◌, refl, ap, sym, subst, String, false, ◌||◌, List, [], ◌∷◌, ◌++◌, map, arith, str_eq, eq_iff,
  Bool-cases, inl, inr,
}
use agentic_rtl_engine.Prelude.Result.{>>=-eq-ok, ok_inj}
use agentic_rtl_engine.Prelude.Dict.{Dict, contains}
use agentic_rtl_engine.Kernel.{Derivation}
use agentic_rtl_engine.Kernel.Check.{ObligationResult}
use agentic_rtl_engine.Kernel.Backend.{Kernel}
use agentic_rtl_engine.Spec.{Variable, Spec}
use agentic_rtl_engine.Engine.Invariants.{Preserves, AllPreserve}
use agentic_rtl_engine.Rules.{FreshVariable, required, variable_names}
use agentic_rtl_engine.Rules.Initialization
use agentic_rtl_engine.Rules.Iteration
use agentic_rtl_engine.Rules.SequentialComposition
use agentic_rtl_engine.Rules.Assignment
use agentic_rtl_engine.Rules.Alternation
use agentic_rtl_engine.Rules.IntroduceVariable
use agentic_rtl_engine.Rules.LoopIntroduction
use agentic_rtl_engine.Rules.ScheduleHandshakeFsm
use agentic_rtl_engine.Rules.Registry.{tier1_rules}
use agentic_rtl_engine.Rules.Inversion.{
  Iteration-cases, LoopIntroduction-cases, ScheduleHandshakeFsm-cases,
}

-- No name twice.
abbrev pub Distinct : List String → Type 0
Distinct [] = Unit
Distinct (n ∷ names) = (contains n names ≡ false) × Distinct names

abbrev pub HasNames : Spec → Type 0
HasNames s = Distinct (variable_names s.variables)

variable_names-map :
    (f : Variable → Variable) (variables : List Variable)
    → ((v : Variable) → (f v).name ≡ v.name)
    → variable_names (map f variables) ≡ variable_names variables
unfolding variable_names
variable_names-map f [] h = refl
variable_names-map f (v ∷ variables) h = rw (h v, variable_names-map f variables h)

variable_names-append :
    (variables : List Variable) (v : Variable)
    → variable_names (variables ++ (v ∷ [])) ≡ variable_names variables ++ (v.name ∷ [])
unfolding variable_names
variable_names-append [] v = refl
variable_names-append (w ∷ variables) v = ap (λ l. w.name ∷ l) (variable_names-append variables v)

contains-append :
    (n m : String) (names : List String)
    → contains n (names ++ (m ∷ [])) ≡ (contains n names || str_eq m n)
unfolding contains
contains-append n m [] = ground arith
contains-append n m (k ∷ names) = ground (arith, contains-append n m names)

Distinct-append :
    (names : List String) (n : String)
    → Distinct names
    → contains n names ≡ false
    → Distinct (names ++ (n ∷ []))
unfolding contains
Distinct-append [] n d h = (refl, tt)
Distinct-append (m ∷ names) n d h = (
  ground (arith, contains-append m n names, eq_iff n m, eq_iff m n),
  Distinct-append names n d.1 (ground arith),
)

-- A change of the variables that keeps their names, and a new variable.
map-Distinct :
    (f : Variable → Variable) (variables : List Variable)
    → ((v : Variable) → (f v).name ≡ v.name)
    → Distinct (variable_names variables)
    → Distinct (variable_names (map f variables))
map-Distinct f variables h d = subst Distinct (sym (variable_names-map f variables h)) d

append-Distinct :
    (variables : List Variable) (v : Variable)
    → contains v.name (variable_names variables) ≡ false
    → Distinct (variable_names variables)
    → Distinct (variable_names (variables ++ (v ∷ [])))
append-Distinct variables v h d =
    subst Distinct (sym (variable_names-append variables v))
      (Distinct-append (variable_names variables) v.name d h)

reset_variable-name :
    (values : Dict String) (excluded : List String) (v : Variable)
    → (Initialization.reset_variable values excluded v).name ≡ v.name
unfolding Initialization.reset_variable
reset_variable-name values excluded v = ground arith

Initialization-HasNames : Preserves HasNames Initialization.apply
unfolding Initialization.apply
Initialization-HasNames s p s' d h =
    let (values, e, q) = >>=-eq-ok (required p.reset_values) _ h in
    let excluded = Initialization.no_reset_names s.variables in
    subst HasNames (ok_inj q) (
      map-Distinct (Initialization.reset_variable values excluded) s.variables
        (reset_variable-name values excluded) d)

clock_variable-name :
    (names : List String) (v : Variable) → (Iteration.clock_variable names v).name ≡ v.name
unfolding Iteration.clock_variable
clock_variable-name names v = ground arith

Iteration-HasNames : Preserves HasNames Iteration.apply
unfolding Iteration.clock_spec
Iteration-HasNames s p s' d h = elim (Iteration-cases s p s' h) [
  | inl e ↦ subst HasNames (sym e) d
  | inr c ↦
      subst HasNames (sym c.changed)
        (map-Distinct (Iteration.clock_variable _) s.variables (clock_variable-name _) d)
]

SequentialComposition-HasNames : Preserves HasNames SequentialComposition.apply
unfolding SequentialComposition.apply
SequentialComposition-HasNames s p s' d h =
    let (name, e, q) = >>=-eq-ok (required p.action_name) _ h in
    let (steps, e', q') = >>=-eq-ok (required p.steps) _ q in subst HasNames (ok_inj q') d

Assignment-HasNames : Preserves HasNames Assignment.apply
unfolding Assignment.apply
Assignment-HasNames s p s' d h =
    let (name, e, q) = >>=-eq-ok (required p.action_name) _ h in
    let (updates, e', q') = >>=-eq-ok (required p.updates) _ q in subst HasNames (ok_inj q') d

Alternation-HasNames : Preserves HasNames Alternation.apply
unfolding Alternation.apply
Alternation-HasNames s p s' d h =
    let (name, e, q) = >>=-eq-ok (required p.action_name) _ h in
    let (branches, e', q') = >>=-eq-ok (required p.branches) _ q in subst HasNames (ok_inj q') d

IntroduceVariable-HasNames : Preserves HasNames IntroduceVariable.apply
unfolding IntroduceVariable.apply
IntroduceVariable-HasNames s p s' d h =
    let (name, e, q) = >>=-eq-ok (required p.name) _ h in
    let (type, e', q') = >>=-eq-ok (required p.type) _ q in
    elim (Bool-cases (contains name (variable_names s.variables))) [
      | inl c ↦ cc (rw c at q')
      | inr c ↦ subst HasNames (ok_inj (rw c at q')) (append-Distinct s.variables _ c d)
    ]

make_concrete-name :
    (name : String) (v : Variable) → (LoopIntroduction.make_concrete name v).name ≡ v.name
unfolding LoopIntroduction.make_concrete
make_concrete-name name v = ground arith

concretise-name :
    (names : List String) (v : Variable) → (LoopIntroduction.concretise names v).name ≡ v.name
unfolding LoopIntroduction.concretise
concretise-name names v = ground arith

add_fresh-Distinct :
    (fresh : List FreshVariable) (variables : List Variable)
    → Distinct (variable_names variables)
    → Distinct (variable_names (LoopIntroduction.add_fresh fresh variables))
unfolding LoopIntroduction.add_fresh
add_fresh-Distinct [] variables d = d
add_fresh-Distinct (fv ∷ fresh) variables d =
    elim (Bool-cases (contains fv.name (variable_names variables))) [
      | inl c ↦ rw c (
          add_fresh-Distinct fresh _ (
            map-Distinct (LoopIntroduction.make_concrete fv.name) variables
              (make_concrete-name fv.name) d))
      | inr c ↦ rw c (add_fresh-Distinct fresh _ (append-Distinct variables _ c d))
    ]

install-HasNames :
    (name : String) (d : Derivation) (fresh : List FreshVariable) (r : ObligationResult) (s : Spec)
    → HasNames s
    → HasNames (LoopIntroduction.install name d fresh r s)
unfolding LoopIntroduction.install
install-HasNames name d fresh r s h =
    map-Distinct (LoopIntroduction.concretise _) _ (concretise-name _)
      (add_fresh-Distinct fresh s.variables h)

LoopIntroduction-HasNames : (kernel : Kernel) → Preserves HasNames (LoopIntroduction.apply kernel)
LoopIntroduction-HasNames kernel s p s' d h = elim (LoopIntroduction-cases kernel s p s' h) [
  | inl e ↦ subst HasNames (sym e) d
  | inr c ↦
      subst HasNames (sym c.changed) (install-HasNames c.name c.derivation c.fresh c.result s d)
]

add_variable-Distinct :
    (v : Variable) (variables : List Variable)
    → Distinct (variable_names variables)
    → Distinct (variable_names (ScheduleHandshakeFsm.add_variable v variables))
unfolding ScheduleHandshakeFsm.add_variable
add_variable-Distinct v variables d =
    elim (Bool-cases (contains v.name (variable_names variables))) [
      | inl c ↦ rw c d
      | inr c ↦ rw c (append-Distinct variables v c d)
    ]

ScheduleHandshakeFsm-HasNames : Preserves HasNames ScheduleHandshakeFsm.apply
unfolding ScheduleHandshakeFsm.schedule
ScheduleHandshakeFsm-HasNames s p s' d h = elim (ScheduleHandshakeFsm-cases s p s' h) [
  | inl e ↦ subst HasNames (sym e) d
  | inr c ↦
      subst HasNames (sym c.changed)
        (add_variable-Distinct _ _ (add_variable-Distinct _ s.variables d))
]

-- Each rule of the registry that returns keeps the names of the variables distinct.
pub tier1_rules-HasNames : (kernel : Kernel) → AllPreserve HasNames (tier1_rules kernel)
unfolding tier1_rules
tier1_rules-HasNames kernel = (
  Initialization-HasNames,
  (
    Iteration-HasNames,
    (
      SequentialComposition-HasNames,
      (
        Assignment-HasNames,
        (
          Alternation-HasNames,
          (
            IntroduceVariable-HasNames,
            (LoopIntroduction-HasNames kernel, (ScheduleHandshakeFsm-HasNames, tt)),
          ),
        ),
      ),
    ),
  ),
)

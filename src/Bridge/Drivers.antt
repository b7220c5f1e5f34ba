-- ===== src/Bridge/Drivers.antt =====
-- The targets of a composition of clocked actions, pipeline/refinement/bridge.py.
use agentic_rtl_engine.Prelude.{
  ◌≡◌, refl, ap, subst, ◌∙◌, String, Bool, true, false, not, ◌&&◌, ◌||◌, Option, none, some, List,
  [], ◌∷◌, map, arith, if◌then◌else◌, str_eq, eq_iff, Bool-cases, inl, inr,
}
use agentic_rtl_engine.Prelude.Dict.{Dict, get, contains, Unique}
use agentic_rtl_engine.Spec.{Action}
use agentic_rtl_engine.Bridge.{
  first_seen, ordered_assigned_vars, targets_of, next_state, written_by, compose_clocked_actions,
}

abbrev tagged : (String → String) → List String → Dict String
tagged f names = map (λ v. (v, f v)) names

-- What a table over the listed targets holds of a name.
get-tagged :
    (f : String → String) (v : String) (names : List String)
    → get v (tagged f names) ≡ (if contains v names then some (f v) else none)
unfolding get contains
get-tagged f v [] = refl
get-tagged f v (n ∷ names) = elim (Bool-cases (str_eq n v)) [
  | inl e ↦ rw e (ap (λ k. some (f k)) ((eq_iff n v).0 e))
  | inr e ↦ rw e (get-tagged f v names)
]

-- The two ways of `first_seen` at a name, as Booleans: the name is the one that is asked for, a
-- later name is, and the one that is asked for is empty or listed before.
skipped_name :
    (same later empty before : Bool)
    → (same ≡ true → (empty || before) ≡ true)
    → (later && (not empty && not before)) ≡ ((same || later) && (not empty && not before))
skipped_name true later true before h = ground arith
skipped_name true later false true h = ground arith
skipped_name true later false false h = absurd (ground (arith, h refl))
skipped_name false later empty before h = refl

listed_name :
    (same later empty before : Bool)
    → (same ≡ true → (empty || before) ≡ false)
    → (same || (later && (not empty && not (same || before))))
      ≡ ((same || later) && (not empty && not before))
listed_name true later true before h = absurd (ground (arith, h refl))
listed_name true later false true h = absurd (ground (arith, h refl))
listed_name true later false false h = refl
listed_name false later empty before h = refl

-- A target is listed when it is written, is not empty and has not been listed before.
first_seen-contains :
    (v : String) (seen names : List String)
    → contains v (first_seen seen names)
      ≡ (contains v names && (not (str_eq v "") && not (contains v seen)))
unfolding first_seen contains
first_seen-contains v seen [] = refl
first_seen-contains v seen (n ∷ names) = elim (Bool-cases (str_eq n "" || contains n seen)) [
  | inl e ↦
      rw (e, first_seen-contains v seen names)
        (skipped_name (str_eq n v) (contains v names) (str_eq v "") (contains v seen) (same e))
  | inr e ↦
      rw (e, first_seen-contains v (n ∷ seen) names)
        (listed_name (str_eq n v) (contains v names) (str_eq v "") (contains v seen) (same e))
]
  where
    same :
        {b : Bool}
        → (str_eq n "" || contains n seen) ≡ b
        → str_eq n v ≡ true
        → (str_eq v "" || contains v seen) ≡ b
    same {b} e p = subst (λ k. (str_eq k "" || contains k seen) ≡ b) ((eq_iff n v).0 p) e

contains_head : (n : String) (seen : List String) → contains n (n ∷ seen) ≡ true
unfolding contains
contains_head n seen = rw ((eq_iff n n).1 refl) refl

never : (a b : Bool) (o : Option String) → (if a && (b && false) then o else none) ≡ none
never true true o = refl
never true false o = refl
never false b o = refl

and_true : (b : Bool) → (b && true) ≡ b
and_true true = refl
and_true false = refl

first_seen-Unique :
    (f : String → String) (seen names : List String) → Unique (tagged f (first_seen seen names))
unfolding first_seen
first_seen-Unique f seen [] = tt
first_seen-Unique f seen (n ∷ names) = elim (Bool-cases (str_eq n "" || contains n seen)) [
  | inl e ↦ rw e (first_seen-Unique f seen names)
  | inr e ↦ rw e (unlisted, first_seen-Unique f (n ∷ seen) names)
]
  where
    unlisted : get n (tagged f (first_seen (n ∷ seen) names)) ≡ none
    unlisted =
        get-tagged f n _
        ∙ rw (first_seen-contains n (n ∷ seen) names, contains_head n seen) (never _ _ _)

abbrev pub is_written : String → List Action → Bool
is_written v actions = contains v (targets_of (written_by actions)) && not (str_eq v "")

-- Every target has one driver: the composition has no target twice.
pub compose_clocked_actions-Unique :
    (actions : List Action) → Unique (compose_clocked_actions actions)
unfolding compose_clocked_actions ordered_assigned_vars contains
compose_clocked_actions-Unique actions =
    first_seen-Unique (next_state actions) [] (targets_of (written_by actions))

-- The composition drives a target exactly when some action writes it and its name is not empty, and
-- then by its one next-state expression.
pub get-compose_clocked_actions :
    (actions : List Action) (v : String)
    → get v (compose_clocked_actions actions)
      ≡ (if is_written v actions then some (next_state actions v) else none)
unfolding compose_clocked_actions ordered_assigned_vars contains
get-compose_clocked_actions actions v =
    get-tagged (next_state actions) v _
    ∙ rw (first_seen-contains v [] (targets_of (written_by actions)), and_true (not (str_eq v "")))
        refl

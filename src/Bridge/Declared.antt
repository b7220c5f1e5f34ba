-- ===== src/Bridge/Declared.antt =====
-- The free inputs of a spec, pipeline/refinement/bridge.py.
use Prim.Native.Nat.{Ordering}
use Prim.Native.String.{compare}
use agentic_rtl_engine.Prelude.{
  ◌≡◌, refl, ap, subst, ◌∙◌, String, Bool, true, false, not, ◌&&◌, ◌||◌, List, [], ◌∷◌, arith,
  str_eq, eq_iff, Bool-cases, inl, inr,
}
use agentic_rtl_engine.Prelude.Dict.{contains}
use agentic_rtl_engine.Kernel.Domain.{insert_name}
use agentic_rtl_engine.Spec.{Spec}
use agentic_rtl_engine.Bridge.Inputs.{
  reserved_identifiers, scan_actions, add_free, sort_names, free_inputs,
}

or_swap : (a b c : Bool) → (a || (b || c)) ≡ (b || (a || c))
or_swap a b c = ground arith

contains-insert_name :
    (k n : String) (names : List String)
    → contains k (insert_name n names) ≡ (str_eq n k || contains k names)
unfolding contains insert_name
contains-insert_name k n [] = refl
contains-insert_name k n (m ∷ names) = by_order (compare n m) (contains-insert_name k n names)
  where
    by_order :
        (o : Ordering)
        → contains k (insert_name n names) ≡ (str_eq n k || contains k names)
        → contains k (elim o [ Ordering.gt ↦ m ∷ insert_name n names | _ ↦ n ∷ m ∷ names ])
          ≡ (str_eq n k || (str_eq m k || contains k names))
    by_order Ordering.lt h = refl
    by_order Ordering.eq h = refl
    by_order Ordering.gt h =
        ap (λ b. str_eq m k || b) h ∙ or_swap (str_eq m k) (str_eq n k) (contains k names)

pub contains-sort_names :
    (k : String) (names : List String) → contains k (sort_names names) ≡ contains k names
unfolding contains sort_names
contains-sort_names k [] = refl
contains-sort_names k (n ∷ names) =
    contains-insert_name k n (sort_names names)
    ∙ ap (λ b. str_eq n k || b) (contains-sort_names k names)

-- A name that is neither declared nor reserved.
abbrev pub is_free : List String → String → Bool
is_free declared n = not (contains n declared || contains n reserved_identifiers)

-- The two ways of `add_free` at a name, as Booleans: the name is the one that is asked for, it is
-- declared, reserved or there already.
skipped_name :
    (same later declared reserved before : Bool)
    → (same ≡ true → (declared || (reserved || before)) ≡ true)
    → (before || (later && not (declared || reserved)))
      ≡ (before || ((same || later) && not (declared || reserved)))
skipped_name true later true reserved before h = ground arith
skipped_name true later false true before h = ground arith
skipped_name true later false false true h = refl
skipped_name true later false false false h = absurd (ground (arith, h refl))
skipped_name false later declared reserved before h = refl

added_name :
    (same later declared reserved before : Bool)
    → (same ≡ true → (declared || (reserved || before)) ≡ false)
    → ((same || before) || (later && not (declared || reserved)))
      ≡ (before || ((same || later) && not (declared || reserved)))
added_name true later true reserved before h = absurd (ground (arith, h refl))
added_name true later false true before h = absurd (ground (arith, h refl))
added_name true later false false before h = ground arith
added_name false later declared reserved before h = refl

contains-add_free :
    (k : String) (declared names free : List String)
    → contains k (add_free declared names free)
      ≡ (contains k free || (contains k names && is_free declared k))
unfolding add_free contains
contains-add_free k declared [] free = ground arith
contains-add_free k declared (n ∷ names) free =
    elim (Bool-cases
      (contains n declared || (contains n reserved_identifiers || contains n free))) [
        | inl e ↦
            rw (e, contains-add_free k declared names free)
              (skipped_name (str_eq n k) (contains k names) (contains k declared)
                (contains k reserved_identifiers) (contains k free) (same e))
        | inr e ↦
            rw (e, contains-add_free k declared names (n ∷ free))
              (added_name (str_eq n k) (contains k names) (contains k declared)
                (contains k reserved_identifiers) (contains k free) (same e))
      ]
  where
    same :
        {b : Bool}
        → (contains n declared || (contains n reserved_identifiers || contains n free)) ≡ b
        → str_eq n k ≡ true
        → (contains k declared || (contains k reserved_identifiers || contains k free)) ≡ b
    same {b} e p =
        subst
          (λ x. (contains x declared || (contains x reserved_identifiers || contains x free)) ≡ b)
          ((eq_iff n k).0 p) e

pub contains-free_inputs :
    (s : Spec) (declared : List String) (k : String)
    → contains k (free_inputs s declared)
      ≡ (contains k (scan_actions s.reset_action s.actions) && is_free declared k)
unfolding free_inputs contains
contains-free_inputs s declared k =
    contains-sort_names k (add_free declared (scan_actions s.reset_action s.actions) [])
    ∙ contains-add_free k declared (scan_actions s.reset_action s.actions) []
    ∙ nothing_before
  where
    nothing_before :
        (contains k []
          || (contains k (scan_actions s.reset_action s.actions) && is_free declared k))
        ≡ (contains k (scan_actions s.reset_action s.actions) && is_free declared k)
    nothing_before = refl

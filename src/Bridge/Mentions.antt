-- ===== src/Bridge/Mentions.antt =====
-- Which identifiers of a spec `_free_inputs` scans, pipeline/refinement/bridge.py.
use agentic_rtl_engine.Prelude.{
  ◌≡◌, ◌⊎◌, ◌↔◌, refl, ap, sym, subst, ◌∙◌, String, Bool, true, false, not, ◌&&◌, ◌||◌, Option,
  none, some, List, [], ◌∷◌, ◌++◌, arith, eq_iff, Bool-cases, inl, inr, In,
}
use agentic_rtl_engine.Prelude.Dict.{contains, contains-append}
use agentic_rtl_engine.Spec.{Action, Spec}
use agentic_rtl_engine.Bridge.{action_update_exprs}
use agentic_rtl_engine.Bridge.Inputs.{
  reserved_identifiers, is_reset_named, scan_identifiers, scan_updates, scan_action, scan_actions,
  free_inputs,
}
use agentic_rtl_engine.Bridge.Declared.{contains-free_inputs}

-- A name that occurs in a text, as one of its identifiers.
abbrev pub Occurs : String → String → Type 0
Occurs k expr = contains k (scan_identifiers expr) ≡ true

-- Where a name is mentioned: in the guard of an action that is not the reset, or on either side of a
-- composed update of any action.
pub data Mentions (k : String) (reset : Option String) : List Action → Type 0 where
  guard_of :
      {a : Action} {g : String} {actions : List Action}
      → ¬ (reset ≡ some a.name)
      → a.guard ≡ some g
      → Occurs k g
      → Mentions k reset (a ∷ actions)
  update_of :
      {a : Action} {actions : List Action} (lhs expr : String)
      → In (lhs, expr) (action_update_exprs a)
      → Occurs k expr ⊎ Occurs k lhs
      → Mentions k reset (a ∷ actions)
  later :
      {a : Action} {actions : List Action}
      → Mentions k reset actions
      → Mentions k reset (a ∷ actions)

-- One of two tests, and either of them.
or-cases : (a b : Bool) → (a || b) ≡ true → (a ≡ true) ⊎ (b ≡ true)
or-cases true b h = inl refl
or-cases false b h = inr h

or_left : (a b : Bool) → a ≡ true → (a || b) ≡ true
or_left a b h = rw h refl

or_right : (a b : Bool) → b ≡ true → (a || b) ≡ true
or_right true b h = refl
or_right false b h = h

-- A name in one of two lists.
append-cases :
    (k : String) (l m : List String)
    → contains k (l ++ m) ≡ true
    → (contains k l ≡ true) ⊎ (contains k m ≡ true)
append-cases k l m h = or-cases (contains k l) (contains k m) (sym (contains-append k l m) ∙ h)

in_left : (k : String) (l m : List String) → contains k l ≡ true → contains k (l ++ m) ≡ true
in_left k l m h = contains-append k l m ∙ or_left (contains k l) (contains k m) h

in_right : (k : String) (l m : List String) → contains k m ≡ true → contains k (l ++ m) ≡ true
in_right k l m h = contains-append k l m ∙ or_right (contains k l) (contains k m) h

-- What is scanned of the updates.
abbrev UpdateMentions : String → List (String × String) → Type 0
UpdateMentions k updates =
    (lhs expr : String) × In (lhs, expr) updates × (Occurs k expr ⊎ Occurs k lhs)

scan_updates-mentions :
    (k : String) (updates : List (String × String))
    → contains k (scan_updates updates) ≡ true
    → UpdateMentions k updates
unfolding scan_updates
scan_updates-mentions k [] h = absurd (unfold contains in ground (arith, h))
scan_updates-mentions k ((lhs, expr) ∷ updates) h =
    elim (append-cases k (scan_identifiers expr) _ h) [
      | inl e ↦ (lhs, expr, inl refl, inl e)
      | inr q ↦ elim (append-cases k (scan_identifiers lhs) _ q) [
        | inl e ↦ (lhs, expr, inl refl, inr e)
        | inr e ↦ let (l, x, m, o) = scan_updates-mentions k updates e in (l, x, inr m, o)
      ]
    ]

scan_updates_complete :
    (k lhs expr : String) (updates : List (String × String))
    → In (lhs, expr) updates
    → Occurs k expr ⊎ Occurs k lhs
    → contains k (scan_updates updates) ≡ true
unfolding scan_updates
scan_updates_complete k lhs expr [] m o = absurd m
scan_updates_complete k lhs expr ((l, x) ∷ updates) (inl e) o = elim o [
  | inl p ↦ in_left k (scan_identifiers x) _ (subst (λ u. Occurs k u.1) (sym e) p)
  | inr p ↦
      in_right k (scan_identifiers x) _
        (in_left k (scan_identifiers l) _ (subst (λ u. Occurs k u.0) (sym e) p))
]
scan_updates_complete k lhs expr ((l, x) ∷ updates) (inr m) o =
    in_right k (scan_identifiers x) _
      (in_right k (scan_identifiers l) _ (scan_updates_complete k lhs expr updates m o))

-- The reset's name, as the scan tests it.
is_reset_named-eq :
    (reset : Option String) (name : String) → is_reset_named reset name ≡ true → reset ≡ some name
is_reset_named-eq none name h = absurd (ground (arith, h))
is_reset_named-eq (some r) name h = ap some (sym ((eq_iff name r).0 h))

is_reset_named-ne :
    (reset : Option String) (name : String)
    → is_reset_named reset name ≡ false
    → ¬ (reset ≡ some name)
is_reset_named-ne none name h p = cc
is_reset_named-ne (some r) name h p =
    let same : (r ≡ name) = cc in absurd (false-ne (sym h ∙ (eq_iff name r).1 (sym same)))
  where
    false-ne : ¬ (◌≡◌ {A = Bool} false true)
    false-ne q = cc

guard_names : Option String → List String
guard_names o = elim o [ none ↦ [] | some g ↦ scan_identifiers g ]

guard_names-some :
    (k : String) (o : Option String)
    → contains k (guard_names o) ≡ true
    → (g : String) × (o ≡ some g) × Occurs k g
unfolding guard_names
guard_names-some k none h = absurd (unfold contains in ground (arith, h))
guard_names-some k (some g) h = (g, refl, h)

scan_actions-Mentions :
    (k : String) (reset : Option String) (actions : List Action)
    → contains k (scan_actions reset actions) ≡ true
    → Mentions k reset actions
unfolding scan_actions scan_action guard_names
scan_actions-Mentions k reset [] h = absurd (unfold contains in ground (arith, h))
scan_actions-Mentions k reset (a ∷ actions) h = elim (append-cases k (scan_action reset a) _ h) [
  | inr e ↦ later (scan_actions-Mentions k reset actions e)
  | inl e ↦ elim (Bool-cases (is_reset_named reset a.name)) [
    | inl r ↦
        let (l, x, m, o) = scan_updates-mentions k (action_update_exprs a) (rw r at e) in
        update_of l x m o
    | inr r ↦ elim (append-cases k (guard_names a.guard) _ (rw r at e)) [
      | inl q ↦
          let (g, p, o) = guard_names-some k a.guard q in
          guard_of (is_reset_named-ne reset a.name r) p o
      | inr q ↦
          let (l, x, m, o) = scan_updates-mentions k (action_update_exprs a) q in update_of l x m o
    ]
  ]
]

pub Mentions-scan_actions :
    (k : String) (reset : Option String) (actions : List Action)
    → Mentions k reset actions
    → contains k (scan_actions reset actions) ≡ true
unfolding scan_actions scan_action guard_names
Mentions-scan_actions k reset [] m = elim m [ ]
Mentions-scan_actions k reset (a ∷ actions) (guard_of ne e o) =
    in_left k (scan_action reset a) _ (elim (Bool-cases (is_reset_named reset a.name)) [
      | inl r ↦ absurd (ne (is_reset_named-eq reset a.name r))
      | inr r ↦ rw r (in_left k (guard_names a.guard) _ (rw e o))
    ])
Mentions-scan_actions k reset (a ∷ actions) (update_of l x m o) =
    let found = scan_updates_complete k l x (action_update_exprs a) m o in
    in_left k (scan_action reset a) _ (elim (Bool-cases (is_reset_named reset a.name)) [
      | inl r ↦ rw r found
      | inr r ↦ rw r (in_right k (guard_names a.guard) _ found)
    ])
Mentions-scan_actions k reset (a ∷ actions) (later m) =
    in_right k (scan_action reset a) _ (Mentions-scan_actions k reset actions m)

-- The free inputs of a spec are exactly the identifiers that the guard of an action other than the
-- reset or either side of a composed update of any action mentions, and that are neither declared
-- nor reserved.
pub free_inputs-Mentions :
    (s : Spec) (declared : List String) (k : String)
    → (contains k (free_inputs s declared) ≡ true) ↔ (
        Mentions k s.reset_action s.actions
        × (contains k declared ≡ false)
        × (contains k reserved_identifiers ≡ false))
free_inputs-Mentions s declared k =
    let scanned = contains k (scan_actions s.reset_action s.actions) in
    (
      λ h.
          let (a, b, c) =
            and-parts scanned (contains k declared) (contains k reserved_identifiers)
              (sym (contains-free_inputs s declared k) ∙ h) in
          (scan_actions-Mentions k s.reset_action s.actions a, b, c),
      λ h.
          contains-free_inputs s declared k
          ∙ and-join scanned (contains k declared) (contains k reserved_identifiers)
              (Mentions-scan_actions k s.reset_action s.actions h.0) h.1 h.2,
    )
  where
    and-parts : (a b c : Bool) → (a && not (b || c)) ≡ true → (a ≡ true) × (b ≡ false) × (c ≡ false)
    and-parts true true c h = absurd (ground (arith, h))
    and-parts true false true h = absurd (ground (arith, h))
    and-parts true false false h = (refl, refl, refl)
    and-parts false b c h = absurd (ground (arith, h))

    and-join : (a b c : Bool) → a ≡ true → b ≡ false → c ≡ false → (a && not (b || c)) ≡ true
    and-join a b c p q r = rw (p, q, r) refl

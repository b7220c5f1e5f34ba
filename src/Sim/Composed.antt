-- ===== src/Sim/Composed.antt =====
-- An edge of the simulator of a spec against the composition of the spec's clocked actions.
use agentic_rtl_engine.Prelude.{
  ◌≡◌, refl, ap, sym, subst, ◌∙◌, String, Bool, false, Option, none, some, List, [], ◌∷◌, map,
  if◌then◌else◌, str_eq, eq_iff, Bool-cases, inl, inr,
}
use agentic_rtl_engine.Prelude.Result.{ok}
use agentic_rtl_engine.Prelude.Dict.{Dict, get, Unique, or_else}
use agentic_rtl_engine.Expr.Value.{Value, x}
use agentic_rtl_engine.Expr.Interp.{Env, lookup}
use agentic_rtl_engine.Spec.{Spec}
use agentic_rtl_engine.Bridge.{compose_clocked_actions, next_state}
use agentic_rtl_engine.Bridge.Drivers.{
  is_written, compose_clocked_actions-Unique, get-compose_clocked_actions,
}
use agentic_rtl_engine.Sim.{Update, scalar, element, Design, commit, edge}
use agentic_rtl_engine.Sim.Edge.{HasInput, Recomputed, is_combinational, edge-IsEdge}
use agentic_rtl_engine.Sim.Commit.{Clocked, IsScalar, driver, commit-Clocked}
use agentic_rtl_engine.Bridge.LeftSide.{split_lhs}
use agentic_rtl_engine.Sim.Build.{to_update, clocked_actions, design_of}

to_update_plain : (k e : String) → split_lhs k ≡ none → to_update (k, e) ≡ scalar k e
unfolding to_update
to_update_plain k e h = rw (to_update, h) refl

-- An update of another left side does not drive a name.
driver_other :
    (k lhs e : String) (updates : List Update) (last : Option String)
    → str_eq lhs k ≡ false
    → driver k (to_update (lhs, e) ∷ updates) last ≡ driver k updates last
unfolding to_update
driver_other k lhs e updates last h = by_split (split_lhs lhs)
  where
    by_split :
        (o : Option (String × String))
        → driver k
            ((elim o [ none ↦ scalar lhs e | some (base, index) ↦ element base index e ]) ∷ updates)
            last
          ≡ driver k updates last
    by_split none = rw h refl
    by_split (some (base, index)) = refl

-- The driver of a name is what a composition without doubles holds of it.
driver-get :
    (k : String) (d : Dict String) (last : Option String)
    → split_lhs k ≡ none
    → Unique d
    → driver k (map to_update d) last ≡ or_else (get k d) last
unfolding get
driver-get k [] last h u = refl
driver-get k ((j, e) ∷ d) last h u = elim (Bool-cases (str_eq j k)) [
  | inl p ↦
      let same : (j ≡ k) = (eq_iff j k).0 p in
      let plain : (to_update (j, e) ≡ scalar j e) =
        to_update_plain j e (subst (λ n. split_lhs n ≡ none) (sym same) h) in
      let alone : (get k d ≡ none) = subst (λ n. get n d ≡ none) same u.0 in
      ap (λ w. driver k (w ∷ map to_update d) last) plain
      ∙ ap (λ b. driver k (map to_update d) (if b then some e else last)) p
      ∙ driver-get k d (some e) h u.1
      ∙ rw (p, alone) refl
  | inr p ↦ driver_other k j e (map to_update d) last p ∙ driver-get k d last h u.1 ∙ rw p refl
]

commit-next_state :
    (reset_port : String) (low : Bool) (s : Spec) (st st' : Env) (k : String)
    → split_lhs k ≡ none
    → IsScalar k (design_of reset_port low s).clocked_updates
    → commit (design_of reset_port low s) st false ≡ ok st'
    → Clocked
        (design_of reset_port low s)
        st
        st'
        k
        (if is_written k (clocked_actions s) then some (next_state (clocked_actions s) k) else none)
unfolding design_of
commit-next_state reset_port low s st st' k plain scalars h =
    let actions = clocked_actions s in
    let drives =
      driver-get k (compose_clocked_actions actions) none plain
        (compose_clocked_actions-Unique actions)
      ∙ or_none (get k (compose_clocked_actions actions))
      ∙ get-compose_clocked_actions actions k in
    subst (Clocked (design_of reset_port low s) st st' k) drives
      (commit-Clocked (design_of reset_port low s) st st' k scalars h)
  where
    or_none : (o : Option String) → or_else o none ≡ o
    or_none none = refl
    or_none (some e) = refl

-- What the edge commits, a name has that is not recomputed behind the commit.
Clocked-kept :
    (g : Design) (st committed st' : Env) (k : String) (o : Option String)
    → get k st' ≡ get k committed
    → Clocked g st committed k o
    → Clocked g st st' k o
unfolding lookup
Clocked-kept g st committed st' k none e c = ap (λ v. elim v [ none ↦ x | some a ↦ a ]) e ∙ c
Clocked-kept g st committed st' k (some expr) e c =
    c ∙ ap (λ v. ok (elim v [ none ↦ x | some a ↦ a ])) (sym e)

-- The state in which an edge reads its next states: each name that is not combinational has what it
-- had, or the last value that the inputs give it, and the combinational signals are settled.
pub record Reads (g : Design) (inputs : Dict Value) (st before : Env) : Type 0 where
  pub given : Env
  pub has_inputs : (k : String) → HasInput g inputs st given k
  pub kept : (k : String) → is_combinational g k ≡ false → get k before ≡ get k given
  pub settled : Recomputed g given before

-- An edge without a reset that returns, in the simulator of a spec. It reads the next states in a
-- state in which a name has the last value that the inputs give it, the clock and the reset aside,
-- or else keeps its value, but for the combinational signals: each of these has the value of its
-- definition, or each of the rounds, one more than there are definitions, changed a signal. When it
-- returns, a name that some clocked action writes holds the value, masked to its width, that the
-- composition's one next-state expression for it has in that state, and a name that none writes
-- holds what it has in that state. This is for a name that is not combinational, has no index, and is
-- not a memory that an update writes; the written name is not empty.
pub edge-next_state :
    (reset_port : String) (low : Bool) (s : Spec) (inputs : Dict Value) (st st' : Env) (k : String)
    → split_lhs k ≡ none
    → IsScalar k (design_of reset_port low s).clocked_updates
    → is_combinational (design_of reset_port low s) k ≡ false
    → edge (design_of reset_port low s) inputs false st ≡ ok st'
    → (before : Env) × Reads (design_of reset_port low s) inputs st before
      × Clocked (design_of reset_port low s) before st' k (
          if is_written k (clocked_actions s)
          then some (next_state (clocked_actions s) k)
          else none)
edge-next_state reset_port low s inputs st st' k plain scalars register h =
    let g = design_of reset_port low s in
    let e = edge-IsEdge g inputs false st st' h in
    (
      e.before,
      record { given = e.given; has_inputs = e.has_inputs; kept = e.kept; settled = e.settled },
      Clocked-kept g e.before e.committed st' k _ (e.kept_after k register)
          (commit-next_state reset_port low s e.before e.committed k plain scalars e.commits),
    )

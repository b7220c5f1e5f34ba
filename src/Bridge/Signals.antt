-- ===== src/Bridge/Signals.antt =====
-- The signals that the text for the second compiler declares, pipeline/refinement/bridge.py.
use agentic_rtl_engine.Prelude.{
  ℕ, ◌≡◌, refl, ap, ◌∙◌, String, Bool, true, false, not, ◌&&◌, ◌||◌, List, [], ◌∷◌, ◌++◌, map,
  arith,
}
use agentic_rtl_engine.Prelude.Dict.{Dict, contains, contains-append}
use agentic_rtl_engine.Spec.{Spec}
use agentic_rtl_engine.Bridge.Inputs.{reserved_identifiers, free_inputs}
use agentic_rtl_engine.Bridge.Declared.{is_free, contains-free_inputs}
use agentic_rtl_engine.Bridge.Mentions.{Mentions, Mentions-scan_actions}
use agentic_rtl_engine.Bridge.RtlText.{
  SizedVar, sized_names, declared_vars, sized_input, sized_vars,
}

sized_names-append :
    (vars : List SizedVar) (s : Spec) (port_widths : Dict ℕ) (names : List String)
    → sized_names (vars ++ map (sized_input s port_widths) names) ≡ sized_names vars ++ names
unfolding sized_input
sized_names-append [] s port_widths [] = refl
sized_names-append [] s port_widths (n ∷ names) =
    ap (λ l. n ∷ l) (sized_names-append [] s port_widths names)
sized_names-append (v ∷ vars) s port_widths names =
    ap (λ l. v.name ∷ l) (sized_names-append vars s port_widths names)

-- Each identifier that the guard of an action other than the reset or either side of a composed
-- update of any action mentions is a declared signal of the text or a reserved word.
pub contains-sized_vars :
    (s : Spec) (reset_port : String) (port_widths : Dict ℕ) (k : String)
    → Mentions k s.reset_action s.actions
    → (contains k (sized_names (sized_vars reset_port port_widths s))
        || contains k reserved_identifiers)
      ≡ true
unfolding sized_vars
contains-sized_vars s reset_port port_widths k h =
    let declared = sized_names (declared_vars reset_port s) in
    let names =
      ap (contains k)
        (sized_names-append (declared_vars reset_port s) s port_widths (free_inputs s declared))
      ∙ contains-append k declared (free_inputs s declared) in
    let free = contains-free_inputs s declared k in
    decide (contains k declared) (contains k reserved_identifiers) _ names (
      free ∙ ap (λ b. b && is_free declared k) (Mentions-scan_actions k s.reset_action s.actions h))
  where
    decide :
        (d r : Bool) {f : Bool} (all : Bool)
        → all ≡ (d || f)
        → f ≡ (true && not (d || r))
        → (all || r) ≡ true
    decide true r all p q = ground (arith, p)
    decide false true all p q = ground arith
    decide false false all p q = ground (arith, p, q)

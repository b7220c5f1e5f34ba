-- ===== src/Rules/Formal.antt =====
-- A pass of the engine on the engine spec of a formal spec.
use agentic_rtl_engine.Prelude.{
  ◌≡◌, refl, sym, subst, String, false, none, List, [], ◌∷◌, map, All, arith,
}
use agentic_rtl_engine.Prelude.Result.{ok}
use agentic_rtl_engine.Prelude.Dict.{Dict, get, contains, Unique}
use agentic_rtl_engine.Kernel.Backend.{Kernel}
use agentic_rtl_engine.Spec.{Spec}
use agentic_rtl_engine.Bridge.Forward.{
  VarDecl, Transition, FormalSpec, engine_variable, engine_action, formal_spec_to_engine_spec,
}
use agentic_rtl_engine.Engine.{Setting, Step, Run, run}
use agentic_rtl_engine.Engine.Invariants.{AllPreserve, run-Preserves}
use agentic_rtl_engine.Rules.{Params, variable_names}
use agentic_rtl_engine.Rules.Registry.{tier1_rules}
use agentic_rtl_engine.Rules.Names.{Distinct, HasNames}
use agentic_rtl_engine.Rules.Audits.{Backed, AllBacked, tier1_rules-AllBacked}
use agentic_rtl_engine.Rules.Pass.{run-HasNames}

contains_absent :
    (comb stmt : List String) (n : String) (variables : Dict VarDecl)
    → get n variables ≡ none
    → contains n (variable_names (map (engine_variable comb stmt) variables)) ≡ false
unfolding get contains variable_names engine_variable
contains_absent comb stmt n [] h = refl
contains_absent comb stmt n ((m, v) ∷ variables) h =
    ground (arith, h, contains_absent comb stmt n variables)

engine_variable-Distinct :
    (comb stmt : List String) (variables : Dict VarDecl)
    → Unique variables
    → Distinct (variable_names (map (engine_variable comb stmt) variables))
unfolding variable_names engine_variable
engine_variable-Distinct comb stmt [] u = tt
engine_variable-Distinct comb stmt ((n, v) ∷ variables) u =
    (contains_absent comb stmt n variables u.0, engine_variable-Distinct comb stmt variables u.1)

engine_action-Backed :
    (kernel : Kernel) (transitions : List Transition)
    → All (λ a. Backed kernel a.refinement a.loop) (map engine_action transitions)
unfolding engine_action
engine_action-Backed kernel [] = tt
engine_action-Backed kernel (t ∷ transitions) = (tt, engine_action-Backed kernel transitions)

-- A pass with the registry of the repository on the engine spec of a formal spec, whose variables
-- are a dict: in the spec that `run` returns the variables have distinct names, and each record of
-- discharged obligations is of a derivation that the kernel has accepted.
pub run-formal_spec_to_engine_spec :
    (kernel : Kernel) (f : FormalSpec) (g : Setting Spec Params) (prefix : List (Step Params))
    (r : Run Spec Params)
    → Unique f.variables
    → g.registry ≡ tier1_rules kernel
    → g.formal_spec ≡ formal_spec_to_engine_spec f
    → run g prefix ≡ ok r
    → HasNames r.spec × AllBacked kernel r.spec
unfolding formal_spec_to_engine_spec
run-formal_spec_to_engine_spec kernel f g prefix r u e s h =
    let names : HasNames g.formal_spec =
      subst HasNames (sym s) (engine_variable-Distinct _ _ f.variables u) in
    let backed : AllBacked kernel g.formal_spec =
      subst (AllBacked kernel) (sym s) (engine_action-Backed kernel f.transitions) in
    (
      run-HasNames kernel g prefix r e names h,
      (run-Preserves (AllBacked kernel) g
          (subst (AllPreserve (AllBacked kernel)) (sym e) (tier1_rules-AllBacked kernel)) backed
          prefix r h).0,
    )

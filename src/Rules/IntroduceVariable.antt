-- ===== src/Rules/IntroduceVariable.antt =====
-- pipeline/refinement/rules/introduce_variable.py
use agentic_rtl_engine.Prelude.{Bool, true, false, some, [], ◌∷◌, ◌++◌, if◌then◌else◌}
use agentic_rtl_engine.Prelude.Result.{Result, ok, raises, value_error, ◌>>=◌}
use agentic_rtl_engine.Prelude.Dict.{contains}
use agentic_rtl_engine.Spec.{Variable, Spec}
use agentic_rtl_engine.Rules.{Params, required, get_or, variable_names}

unfoldable pub is_applicable : Spec → Bool
is_applicable s = true

unfoldable pub apply : Spec → Params → Result Spec
unfolding variable_names
apply s p = required p.name >>= λ name. required p.type >>= λ type.
    let variable : Variable = record {
      name = name;
      type = type;
      width = some (get_or 1 p.width);
      depth = 0;
      abstract = some (get_or true p.abstract);
      reset_value = p.reset_value;
      clocked = false;
      combinational = false;
    } in
    if contains name (variable_names s.variables)
    then raises value_error
    else ok (record s { variables = s.variables ++ (variable ∷ []) })

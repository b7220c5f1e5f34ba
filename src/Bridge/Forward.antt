-- ===== src/Bridge/Forward.antt =====
-- pipeline/refinement/bridge.py, `formal_spec_to_engine_spec` with `_translate_bool_words` and
-- `_build_update`, and the data of pipeline/schemas/tla_schema.py. The four substitutions of words
-- are one pass: each replaces whole words by text without letters. A set of names is a list.
use Prim.Native.Char.{code}
use Prim.Native.String.{◌++◌}
use agentic_rtl_engine.Prelude.{
  ℕ, zero, suc, String, Bool, false, not, ◌||◌, Option, none, some, List, [], ◌∷◌, map,
  if◌then◌else◌, str_eq,
}
use mathlib.Core.List.{◌++◌ as append}
use agentic_rtl_engine.Prelude.Dict.{Dict, contains}
use agentic_rtl_engine.Expr.Lexer.{is_word, span, char_count}
use agentic_rtl_engine.Spec.{Variable, ActionUpdate, Action, Spec}
use agentic_rtl_engine.Bridge.{strip}
use agentic_rtl_engine.Bridge.LeftSide.{split_lhs, lhs_base}

pub record VarDecl : Type 0 where
  pub type : String
  pub width : ℕ
  pub depth : Option ℕ

pub record Transition : Type 0 where
  pub label : String
  pub condition : String
  pub updates : Dict String
  pub combinational : Bool
  pub spec_statement : Bool
  pub postcondition : Option String

pub record FormalSpec : Type 0 where
  pub variables : Dict VarDecl
  pub transitions : List Transition
  pub initial : Dict String
  pub invariants : List String

-- `_BOOL_WORD_SUBS`
unfoldable pub symbol_of : String → String
symbol_of w =
    if str_eq w "AND"
    then "/\\"
    else if str_eq w "OR"
    then "\\/"
    else if str_eq w "NOT"
    then "~"
    else if str_eq w "mod"
    then "%"
    else w

-- `_translate_bool_words`, on fuel: the characters of the text are enough.
unfoldable pub translate_from : ℕ → String → String
unfolding span symbol_of
translate_from zero s = String.[]
translate_from (suc f) String.[] = String.[]
translate_from (suc f) (String.◌∷◌ c s) =
    let found = span is_word s in
    let replaced = symbol_of (String.◌∷◌ c found.0) ++ translate_from f found.1 in
    let kept = String.◌∷◌ c (translate_from f s) in if is_word (code c) then replaced else kept

unfoldable pub translate_bool_words : String → String
unfolding translate_from char_count
translate_bool_words expr = translate_from (char_count expr) expr

-- `_build_update`
unfoldable pub build_update : String × String → ActionUpdate
unfolding translate_bool_words split_lhs strip
build_update (key, value) = elim (split_lhs key) [
  | none ↦ record { variable = strip key; index = ""; expression = translate_bool_words value }
  | some (base, index) ↦ record {
    variable = base;
    index = translate_bool_words index;
    expression = translate_bool_words value;
  }
]

-- The bases that the transitions of a kind update.
unfoldable pub targets_where : (Transition → Bool) → List Transition → List String
unfolding lhs_base
targets_where test [] = []
targets_where test (t ∷ transitions) =
    let rest = targets_where test transitions in
    if test t then append (map (λ kv. lhs_base kv.0) t.updates) rest else rest

unfoldable pub engine_variable : List String → List String → String × VarDecl → Variable
engine_variable comb_targets spec_stmt_targets (name, var) = record {
  name = name;
  type = var.type;
  width = some var.width;
  depth = elim var.depth [ none ↦ 0 | some d ↦ d ];
  abstract = some (contains name spec_stmt_targets || not (contains name comb_targets));
  reset_value = none;
  clocked = false;
  combinational = contains name comb_targets;
}

unfoldable pub engine_action : Transition → Action
unfolding translate_bool_words build_update
engine_action t = record {
  name = t.label;
  guard = some (translate_bool_words t.condition);
  updates = map build_update t.updates;
  branches = [];
  sequential_steps = [];
  clocked = false;
  combinational = t.combinational;
  spec_statement = t.spec_statement;
  postcondition = if t.spec_statement then t.postcondition else none;
  refinement = none;
  loop = none;
}

unfoldable pub init_text : Dict String → String
init_text [] = ""
init_text ((name, expr) ∷ []) = name ++ (" = " ++ expr)
init_text ((name, expr) ∷ kv ∷ initial) =
    name ++ (" = " ++ (expr ++ (" /\\ " ++ init_text (kv ∷ initial))))

unfoldable pub formal_spec_to_engine_spec : FormalSpec → Spec
unfolding targets_where engine_variable engine_action init_text
formal_spec_to_engine_spec f =
    let comb_targets = targets_where (λ t. t.combinational) f.transitions in
    let spec_stmt_targets = targets_where (λ t. t.spec_statement) f.transitions in
    record {
      variables = map (engine_variable comb_targets spec_stmt_targets) f.variables;
      actions = map engine_action f.transitions;
      init = init_text f.initial;
      invariants = f.invariants;
      abstraction_mapping = [];
      reset_action = none;
      properties = [];
    }

-- ===== src/Examples/Bridge.antt =====
-- The counter of the comment above `_compose_clocked_actions`, and a sequence of two steps.
use agentic_rtl_engine.Prelude.{◌≡◌, refl, some, none, List, [], ◌∷◌, String, if◌then◌else◌}
use agentic_rtl_engine.Prelude.Dict.{get, put, update, contains, Unique}
use agentic_rtl_engine.Spec.{ActionUpdate, Action, Guarded, plain_action}
use Prim.Native.Char.{Char}
use Prim.Native.String.{◌++◌}
use agentic_rtl_engine.Prelude.{ap, ◌∙◌}
use agentic_rtl_engine.Prelude.Result.{ok}
use agentic_rtl_engine.Expr.Value.{num, choose}
use agentic_rtl_engine.Expr.Token.{name, word}
use agentic_rtl_engine.Expr.Interp.{Env, lookup}
use agentic_rtl_engine.Expr.Grammar.{
  Ex, plain, or_one, and_one, cmp_one, add_one, mul_one, atom, variable, print, denote,
}
use agentic_rtl_engine.Expr.Lexer.{span, symbol_at, token_at, tokenize, eval}
use agentic_rtl_engine.Expr.Lexer.Unlex.{prepend}
use agentic_rtl_engine.Bridge.Text.{append-prepend, tokenize_match, tokenize_skip}
use agentic_rtl_engine.Prelude.{◌↔◌, inl, true, false}
use agentic_rtl_engine.Spec.{Spec}
use agentic_rtl_engine.Bridge.Inputs.{scan_identifiers, free_inputs, free_input_width}
use agentic_rtl_engine.Prelude.{◌||◌}
use agentic_rtl_engine.Prelude.Decimal.{decimal}
use agentic_rtl_engine.Bridge.Inputs.{reserved_identifiers}
use agentic_rtl_engine.Bridge.RtlText.{sized_names, sized_vars, engine_spec_to_rtl_tla}
use agentic_rtl_engine.Bridge.Signals.{contains-sized_vars}
use agentic_rtl_engine.Bridge.AbstractText.{tla_primed_update, engine_spec_to_abstract_tla}
use agentic_rtl_engine.Bridge.Mentions.{Mentions, update_of, free_inputs-Mentions}
use agentic_rtl_engine.Bridge.Priority.{IsText, Sentence, texts, first_holding, eval-nested_if}
use agentic_rtl_engine.Bridge.{
  compose_clocked_actions, sequential_exprs, next_state, nested_if, clauses_for, per_action,
  default_for, action_update_exprs,
}
use agentic_rtl_engine.Bridge.Drivers.{
  is_written, compose_clocked_actions-Unique, get-compose_clocked_actions,
}

abbrev assign : String → String → ActionUpdate
assign v e = record { variable = v; index = ""; expression = e }

abbrev counter : List Action
counter =
    plain_action "Step" (some "count < 3") (assign "count" "count + 1" ∷ [])
    ∷ plain_action "Step" (some "count = 3") (assign "count" "0" ∷ [])
    ∷ []

counter_composed :
    compose_clocked_actions counter
    ≡ ("count", "IF count < 3 THEN count + 1 ELSE IF count = 3 THEN 0 ELSE count") ∷ []
unfolding compose_clocked_actions get put update contains
counter_composed = refl

abbrev steps : List Guarded
steps =
    record { label = ""; guard = ""; updates = assign "sum" "a + b" ∷ [] }
    ∷ record { label = ""; guard = "en = 1"; updates = assign "out" "sum * 2" ∷ [] }
    ∷ []

steps_read_earlier :
    sequential_exprs steps ≡ ("sum", "a + b") ∷ ("out", "IF en = 1 THEN (a + b) * 2 ELSE out") ∷ []
unfolding sequential_exprs get put contains
steps_read_earlier = refl

compose_clocked_actions-Unique_example : Unique (compose_clocked_actions counter)
compose_clocked_actions-Unique_example = compose_clocked_actions-Unique counter

get-compose_clocked_actions_example :
    get "count" (compose_clocked_actions counter)
    ≡ (if is_written "count" counter then some (next_state counter "count") else none)
get-compose_clocked_actions_example = get-compose_clocked_actions counter "count"

-- Texts of one letter.
abbrev named : Char → Ex
named c =
    plain
      (or_one (and_one (cmp_one (add_one (mul_one (atom (variable (String.◌∷◌ c String.[]))))))))

letter-IsText :
    (c : Char)
    → ((r : String)
        → token_at c (String.◌∷◌ " " r) ≡ some (name (String.◌∷◌ c String.[]), String.◌∷◌ " " r))
    → ((r : String)
        → token_at c (String.◌∷◌ ")" r) ≡ some (name (String.◌∷◌ c String.[]), String.◌∷◌ ")" r))
    → tokenize (String.◌∷◌ c String.[]) ≡ name (String.◌∷◌ c String.[]) ∷ []
    → IsText (String.◌∷◌ c String.[]) (named c)
unfolding prepend token_at symbol_at print
letter-IsText c spaced closed alone = record {
  alone = alone;
  spaced = λ r.
      ap tokenize (
        append-prepend (String.◌∷◌ c String.[]) (" " ++ r)
        ∙ ap (String.◌∷◌ c) (append-prepend " " r))
      ∙ tokenize_match c _ _ _ (spaced r)
      ∙ ap (λ ts. name (String.◌∷◌ c String.[]) ∷ ts) (tokenize_skip " " r refl);
  closed = λ r.
      ap tokenize (
        append-prepend (String.◌∷◌ c String.[]) (")" ++ r)
        ∙ ap (String.◌∷◌ c) (append-prepend ")" r))
      ∙ tokenize_match c _ _ _ (closed r)
      ∙ ap (λ ts. name (String.◌∷◌ c String.[]) ∷ ts) (tokenize_match ")" r _ r refl);
}

a-IsText : IsText "a" (named "a")
unfolding token_at span word tokenize
a-IsText = letter-IsText "a" (λ r. refl) (λ r. refl) refl

q-IsText : IsText "q" (named "q")
unfolding token_at span word tokenize
q-IsText = letter-IsText "q" (λ r. refl) (λ r. refl) refl

abbrev load_a : List Action
load_a = plain_action "Load" (some "a") (assign "q" "a" ∷ []) ∷ []

abbrev sentence_a : Sentence
sentence_a = record { written = "a"; tree = named "a"; is_text = a-IsText }

abbrev sentence_q : Sentence
sentence_q = record { written = "q"; tree = named "q"; is_text = q-IsText }

abbrev before : Env
before = ("a", num 5) ∷ ("q", num 2) ∷ []

loads : first_holding before ((sentence_a, sentence_a) ∷ []) sentence_q ≡ ok (num 5)
unfolding first_holding denote lookup get choose
loads = refl

eval-nested_if_example :
    eval before (nested_if (texts ((sentence_a, sentence_a) ∷ [])) "q")
    ≡ first_holding before ((sentence_a, sentence_a) ∷ []) sentence_q
eval-nested_if_example = eval-nested_if before ((sentence_a, sentence_a) ∷ []) sentence_q

one_clause : clauses_for "q" (per_action load_a) ≡ texts ((sentence_a, sentence_a) ∷ [])
unfolding clauses_for per_action get put update
one_clause = refl

holds_else : default_for "q" (per_action load_a) ≡ "q"
unfolding default_for per_action get put update
holds_else = refl

abbrev adder : Spec
adder = record {
  variables =
      record {
        name = "sum";
        type = "0..255";
        width = some 8;
        depth = 0;
        abstract = some false;
        reset_value = none;
        clocked = true;
        combinational = false;
      }
      ∷ [];
  actions =
      plain_action "Add" (some "en = 1") (assign "sum" "sum + data" ∷ [])
      ∷ plain_action "Load" none (
          assign "sum" "( data )"
          ∷ record { variable = "mem"; index = "addr"; expression = "sum" }
          ∷ [])
      ∷ plain_action "Reset" (some "rst = TRUE") (assign "sum" "0" ∷ [])
      ∷ [];
  init = "";
  invariants = [];
  abstraction_mapping = [];
  reset_action = some "Reset";
  properties = [];
}

adder_inputs : free_inputs adder ("sum" ∷ "mem" ∷ []) ≡ "addr" ∷ "data" ∷ "en" ∷ []
unfolding free_inputs contains
adder_inputs = refl

data_is_wide : free_input_width "data" adder [] ≡ 8
unfolding free_input_width get put update
data_is_wide = refl

Mentions-data : Mentions "data" adder.reset_action adder.actions
unfolding action_update_exprs contains scan_identifiers
Mentions-data = update_of "sum" "sum + data" (inl refl) (inl refl)

free_inputs-Mentions_example : (contains "data" (free_inputs adder ("sum" ∷ "mem" ∷ [])) ≡ true) ↔ (
    Mentions "data" (some "Reset") adder.actions
    × (contains "data" ("sum" ∷ "mem" ∷ []) ≡ false)
    × (contains "data" reserved_identifiers ≡ false))
free_inputs-Mentions_example = free_inputs-Mentions adder ("sum" ∷ "mem" ∷ []) "data"

adder_text :
    engine_spec_to_rtl_tla adder "Adder" (("en", 1) ∷ []) "rst" true
    ≡ "-------------------- MODULE Adder --------------------" ∷ "EXTENDS Integers" ∷ ""
      ∷ "VARIABLES" ∷ "    sum,  \\* width: 8" ∷ "    clk,  \\* width: 1" ∷ "    rst,  \\* width: 1"
      ∷ "    addr,  \\* width: 1" ∷ "    data,  \\* width: 8" ∷ "    en,  \\* width: 1"
      ∷ "    mem  \\* width: 1" ∷ "" ∷ "Init ==" ∷ "    /\\ " ∷ "" ∷ "CombinationalLogic =="
      ∷ "    /\\ sum' = sum + data" ∷ "    /\\ sum' = ( data )" ∷ "    /\\ mem[addr]' = sum" ∷ ""
      ∷ "UpdatePipeline ==" ∷ "    /\\ clk' = 1 - clk" ∷ "    /\\ IF rst = 0 THEN"
      ∷ "          /\\ sum' = 0" ∷ "       ELSE" ∷ ""
      ∷ "======================================================" ∷ []
unfolding engine_spec_to_rtl_tla contains get put update compose_clocked_actions free_inputs
    free_input_width decimal
adder_text = refl

contains-sized_vars_example :
    (contains "data" (sized_names (sized_vars "rst" [] adder))
      || contains "data" reserved_identifiers)
    ≡ true
contains-sized_vars_example = contains-sized_vars adder "rst" [] "data" Mentions-data

adder_module :
    engine_spec_to_abstract_tla (record adder { actions = load_a; invariants = "sum < 9" ∷ [] }) "M"
    ≡ ok (
      "-------------------- MODULE M --------------------" ∷ "EXTENDS Integers" ∷ "" ∷ "VARIABLES"
          ∷ "    sum" ∷ "" ∷ "Init ==" ∷ "    /\\ " ∷ "" ∷ "Load ==" ∷ "    /\\ a"
          ∷ "    /\\ q' = a" ∷ "    /\\ UNCHANGED <<sum>>" ∷ "" ∷ "Next ==" ∷ "    \\/ Load" ∷ ""
          ∷ "Inv0 ==" ∷ "    sum < 9" ∷ "" ∷ "=================================================="
          ∷ [],
      "INIT Init" ∷ "NEXT Next" ∷ "INVARIANT Inv0" ∷ [],
    )
unfolding engine_spec_to_abstract_tla contains decimal
adder_module = refl

element_text : tla_primed_update ("mem [ i ]", "d") ≡ "mem' = [mem EXCEPT ![i] = d]"
unfolding tla_primed_update
element_text = refl

-- ===== src/Examples/Engine.antt =====
-- A pass over numbers: a step that is rolled back after three failures of the picker, and two that
-- reach the end behind the step of an earlier pass.
use agentic_rtl_engine.Prelude.{
  ℕ, ◌+◌, ◌*◌, ◌<◌, ◌≡◌, refl, subst, arith, true, leb, ltb, ◌==◌, none, some, Option, List, [],
  ◌∷◌, map, if◌then◌else◌,
}
use agentic_rtl_engine.Prelude.Result.{Result, ok, raises, ok_inj}
use agentic_rtl_engine.Prelude.Dict.{contains}
use agentic_rtl_engine.Engine.{
  Rule, Choice, choice, Setting, Step, Run, find_rule, apply_choice, replay_chain, run_from, start,
  run,
}
use agentic_rtl_engine.Engine.Replay.{AllRecorded, run-replay_chain, run-AllRecorded}
use agentic_rtl_engine.Engine.Refused.{begin, no_op, Refuses, Avoids, run_from-Avoids}
use agentic_rtl_engine.Engine.Invariants.{run-Preserves}
use agentic_rtl_engine.Prelude.Decimal.{decimal}

abbrev rules : List (Rule ℕ ℕ)
rules =
    record { name = "Add"; is_applicable = λ s. ltb s 5; apply = λ s p. ok (s + p) }
    ∷ record { name = "Double"; is_applicable = λ s. true; apply = λ s p. ok (s * 2) }
    ∷ []

abbrev answer : ℕ → Option (Choice ℕ)
answer n =
    if n == 0 then some (choice "Add" 2) else if ltb n 4 then none else some (choice "Double" 0)

abbrev setting : Setting ℕ ℕ
setting = record {
  registry = rules;
  formal_spec = 1;
  termination_check = leb 4;
  allowed_rule_names = none;
  pick_rule = λ n names s. answer n;
  tlc_check = none;
  max_steps = 6;
  params_json = decimal;
  params_texts = λ p. [];
  spec_hash = decimal;
}

abbrev earlier_pass : List (Step ℕ)
earlier_pass =
    record { step = 0; rule_name = "Add"; params = 1; pre_hash = "0"; post_hash = "1" } ∷ []

abbrev returned : Result (Run ℕ ℕ) → Run ℕ ℕ
returned (ok r) = r
returned (raises e) = start setting []

abbrev final : Run ℕ ℕ
final = returned (run setting earlier_pass)

finishes : run setting earlier_pass ≡ ok final
unfolding run decimal contains
finishes = refl

keeps_two_steps : map (λ s. s.rule_name) final.saved ≡ "Double" ∷ "Double" ∷ "Add" ∷ []
unfolding run decimal contains
keeps_two_steps = refl

passed : replay_chain rules 0 earlier_pass ≡ ok 1
unfolding replay_chain
passed = refl

run-replay_chain_example :
    (leb 4 final.spec ≡ true) × (replay_chain rules 0 final.saved ≡ ok final.spec)
run-replay_chain_example = run-replay_chain setting 0 earlier_pass passed final finishes

run-AllRecorded_example : AllRecorded setting final.chain
run-AllRecorded_example = run-AllRecorded setting 0 earlier_pass passed final finishes

-- The first choice changes nothing; what is tried behind it is not that choice.
abbrev hesitant : Setting ℕ ℕ
hesitant = record setting {
  pick_rule = λ n names s. if n == 0 then some (choice "Add" 0) else some (choice "Double" 0);
}

abbrev struck : Run ℕ ℕ
struck = returned (apply_choice hesitant [] 0 "Add" 0 (start hesitant []))

abbrev doubled : Run ℕ ℕ
doubled = returned (run_from hesitant [] 5 1 struck)

adder : Rule ℕ ℕ
adder = record { name = "Add"; is_applicable = λ s. ltb s 5; apply = λ s p. ok (s + p) }

Refuses-zero : Refuses hesitant [] 0 (start hesitant []) adder 0
unfolding adder decimal
Refuses-zero = no_op 1 refl refl

adds : find_rule "Add" rules ≡ some adder
unfolding find_rule adder
adds = refl

strikes : apply_choice hesitant [] 0 "Add" 0 (start hesitant []) ≡ ok struck
unfolding apply_choice decimal
strikes = refl

doubles : run_from hesitant [] 5 1 struck ≡ ok doubled
unfolding run_from apply_choice decimal contains
doubles = refl

run_from-Avoids_example : Avoids hesitant [] 0 "Add" "0" doubled.chain
unfolding decimal
run_from-Avoids_example =
    run_from-Avoids hesitant [] 0 1 5 (start hesitant []) struck doubled adder "Add" 0 begin adds
      Refuses-zero strikes doubles

abbrev IsPositive : ℕ → Type 0
IsPositive s = 0 < s

run-Preserves_example : IsPositive final.spec × (leb 4 final.spec ≡ true)
run-Preserves_example =
    run-Preserves IsPositive setting
      (
        (λ s p s' i h. subst IsPositive (ok_inj h) (omega arith)),
        ((λ s p s' i h. subst IsPositive (ok_inj h) (omega arith)), tt),
      )
      (omega arith) earlier_pass final finishes

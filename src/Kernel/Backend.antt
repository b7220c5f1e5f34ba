-- ===== src/Kernel/Backend.antt =====
-- pipeline/refinement/obligations.py: `_resolve_backend` and the choice of a backend in
-- `discharge_loop_obligations`. The compiled kernel is an argument, `none` where it is not built,
-- as is the OBLIGATIONS_BACKEND variable of the environment.
use native.Mathlib.Nat.{mod-lt}
use agentic_rtl_engine.Prelude.{
  ℕ, ◌%◌, ◌^◌, ◌≡◌, ap, ◌∙◌, sym, String, true, Option, none, some, List, [], ◌∷◌, map,
  if◌then◌else◌, str_eq,
}
use agentic_rtl_engine.Prelude.Result.{Result, ok, raises, runtime_error, value_error, ◌>>=◌}
use agentic_rtl_engine.Prelude.Dict.{get}
use agentic_rtl_engine.Kernel.{Derivation}
use agentic_rtl_engine.Kernel.Domain.{exhaustive_proof, sorted_names, valuation, width_of}
use agentic_rtl_engine.Kernel.Domain.Covers.{InRange}
use agentic_rtl_engine.Kernel.Domain.Range.{pow_pos}
use agentic_rtl_engine.Kernel.Check.{ObligationResult, discharge}
use agentic_rtl_engine.Kernel.Loop.{IsCorrectOn}
use agentic_rtl_engine.Kernel.Verdict.{discharge-IsCorrectOn}

abbrev pub Kernel : Type 0
Kernel = Derivation → Result ObligationResult

-- `os.environ.get("OBLIGATIONS_BACKEND", "auto")`, which is asked when the argument is "auto".
unfoldable pub chosen : String → Option String → String
chosen backend variable =
    if str_eq backend "auto" then elim variable [ none ↦ "auto" | some v ↦ v ] else backend

unfoldable pub built : Option Kernel → Result (Option Kernel)
built none = raises runtime_error
built (some native) = ok (some native)

unfoldable pub resolve_backend : String → Option String → Option Kernel → Result (Option Kernel)
unfolding chosen built
resolve_backend backend variable native =
    let b = chosen backend variable in
    if str_eq b "python"
    then ok none
    else if str_eq b "cpp"
    then built native
    else if str_eq b "auto"
    then ok native
    else raises value_error

unfoldable pub discharge_loop_obligations : String → Option String → Option Kernel → Kernel
unfolding resolve_backend
discharge_loop_obligations backend variable native d =
    resolve_backend backend variable native >>= λ k. elim k [
      | none ↦ discharge d
      | some compiled ↦ compiled d
    ]

-- Where the Python kernel is what runs, the entry point is it.
pub discharge_loop_obligations-python :
    (backend : String) (variable : Option String) (native : Option Kernel) (d : Derivation)
    → resolve_backend backend variable native ≡ ok none
    → discharge_loop_obligations backend variable native d ≡ discharge d
unfolding discharge_loop_obligations
discharge_loop_obligations-python backend variable native d h =
    ap (λ m. m >>= λ k. elim k [ none ↦ discharge d | some compiled ↦ compiled d ]) h

-- Any numbers, cut to the declared widths.
abbrev pub cut_to_widths : Derivation → (String → ℕ) → String → ℕ
cut_to_widths d v n = v n % 2 ^ width_of (get n d.input_widths)

-- A loop that is right for every input of the declared widths.
abbrev pub IsCorrect : Derivation → Type 0
IsCorrect d =
    (v : String → ℕ)
    → (let names = sorted_names d.input_widths in
        IsCorrectOn d (valuation names (map (cut_to_widths d v) names)))

cut_to_widths-InRange :
    (d : Derivation) (v : String → ℕ) (names : List String)
    → InRange d.input_widths (cut_to_widths d v) names
cut_to_widths-InRange d v [] = tt
cut_to_widths-InRange d v (n ∷ names) =
    (mod-lt (v n) (pow_pos (width_of (get n d.input_widths))), cut_to_widths-InRange d v names)

-- Where the Python kernel runs, a derivation that it accepts in the mode of an exhaustive proof is
-- right for every assignment of numbers of the declared widths.
pub discharge_loop_obligations-IsCorrect :
    (backend : String) (variable : Option String) (native : Option Kernel) (d : Derivation)
    (r : ObligationResult)
    → resolve_backend backend variable native ≡ ok none
    → discharge_loop_obligations backend variable native d ≡ ok r
    → r.ok ≡ true
    → r.mode ≡ exhaustive_proof
    → IsCorrect d
discharge_loop_obligations-IsCorrect backend variable native d r python h accepted exhaustive v =
    discharge-IsCorrectOn d r (cut_to_widths d v)
      (sym (discharge_loop_obligations-python backend variable native d python) ∙ h) accepted
      exhaustive (cut_to_widths-InRange d v (sorted_names d.input_widths))

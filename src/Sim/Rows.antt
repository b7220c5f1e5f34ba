-- ===== src/Sim/Rows.antt =====
-- The rows that a run reports.
use agentic_rtl_engine.Prelude.{
  ◌≡◌, String, false, Option, none, some, List, [], ◌∷◌, map, Bool, ◌&&◌, ◌||◌, not, if◌then◌else◌,
  str_eq,
}
use agentic_rtl_engine.Prelude.Dict.{Dict, get, contains}
use agentic_rtl_engine.Expr.Value.{Value, x, num, arr}
use agentic_rtl_engine.Expr.Interp.{Env, lookup}
use agentic_rtl_engine.Sim.{Design, is_reset_asserted}
use agentic_rtl_engine.Sim.Edge.{IsEdge}

-- The expected value of a port: nothing where it is X.
abbrev pub known : Value → Option Value
known x = none
known (num n) = some (num n)
known (arr l) = some (arr l)

-- A row has the outputs of a state: every port that is not X, and no other name.
abbrev pub Asserts : List String → Env → Dict Value → Type 0
Asserts ports st row =
    (port : String) → get port row ≡ (if contains port ports then known (lookup st port) else none)

-- One row for each vector, taken after that vector's edge.
abbrev pub Reports : Design → List String → Env → List (Dict Value) → List (Dict Value) → Type 0
Reports g ports st [] rows = rows ≡ []
Reports g ports st (inputs ∷ stimulus) [] = ⊥
Reports g ports st (inputs ∷ stimulus) (row ∷ rows) =
    (st' : Env) × IsEdge g inputs (is_reset_asserted g inputs) st st'
    × Asserts ports st' row
    × Reports g ports st' stimulus rows

-- The zero vector: every name that some vector drives, but for the clock and the reset, is 0, and no
-- other name is in it.
abbrev pub is_driven : String → List (Dict Value) → Bool
is_driven k [] = false
is_driven k (inputs ∷ stimulus) = contains k (map (λ i. i.0) inputs) || is_driven k stimulus

abbrev pub AreZeros : Design → List (Dict Value) → Dict Value → Type 0
AreZeros g stimulus zeros =
    (k : String)
    → get k zeros ≡ (
        if not (str_eq k "clk" || str_eq k g.reset_port) && is_driven k stimulus
        then some (num 0)
        else none)

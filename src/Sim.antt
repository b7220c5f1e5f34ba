-- ===== src/Sim.antt =====
-- pipeline/cocotb/spec_sim.py, `SpecSimulator`: the cycle-accurate simulator. The updates are the
-- composed ones that `__init__` keeps, with a left side already split into its name and index;
-- an input is what `_coerce_input` makes of it, an unsigned number or X.
pub mod Settle
pub mod Commit
pub mod Edge
pub mod Rows
pub mod Build
pub mod Composed
use agentic_rtl_engine.Prelude.{
  ℕ, zero, suc, ◌+◌, ◌%◌, ◌^◌, String, Bool, true, false, not, ◌&&◌, ◌||◌, Option, none, some, List,
  [], ◌∷◌, length, get_elem?, set, ltb, ◌==◌, if◌then◌else◌, str_eq,
}
use agentic_rtl_engine.Prelude.Result.{Result, ok, raises, type_error, ◌>>=◌}
use agentic_rtl_engine.Prelude.Dict.{Dict, get, put, update, contains}
use agentic_rtl_engine.Expr.Value.{Value, x, num, arr, is_nonzero}
use agentic_rtl_engine.Expr.Interp.{Env, lookup}
use agentic_rtl_engine.Expr.Lexer.{eval}

-- An update of a register, or of the element of a memory.
pub data Update : Type 0 where
  scalar : String → String → Update
  element : String → String → String → Update

-- The fields of the simulator that a run does not change.
pub record Design : Type 0 where
  pub reset_port : String
  pub reset_active_low : Bool
  pub widths : Dict ℕ
  pub reg_vars : List String
  pub clocked_updates : List Update
  pub comb_updates : Dict String
  pub reset_updates : Dict String

-- `_mask`: a width that is missing or 0 leaves the value alone.
unfoldable pub mask : Value → Option ℕ → Result Value
mask x w = ok x
mask v none = ok v
mask v (some zero) = ok v
mask (num n) (some w) = ok (num (n % 2 ^ w))
mask (arr l) (some w) = raises type_error

-- `==` of two values.
unfoldable pub same_cells : List (Option ℕ) → List (Option ℕ) → Bool
same_cells [] [] = true
same_cells (none ∷ l) (none ∷ m) = same_cells l m
same_cells (some a ∷ l) (some b ∷ m) = a == b && same_cells l m
same_cells _ _ = false

unfoldable pub same_value : Value → Value → Bool
unfolding same_cells
same_value x x = true
same_value (num a) (num b) = a == b
same_value (arr l) (arr m) = same_cells l m
same_value _ _ = false

-- The value that a definition of `var` gives in a state.
unfoldable pub evaluate : Design → Env → String → String → Result Value
evaluate g st var expr = eval st expr >>= λ v. mask v (get var g.widths)

-- One round over the combinational definitions, and whether it changed anything.
unfoldable pub comb_round : Design → Dict String → Env → Bool → Result (Env × Bool)
comb_round g [] st changed = ok (st, changed)
comb_round g ((var, expr) ∷ updates) st changed = evaluate g st var expr >>= λ new.
    if same_value new (lookup st var)
    then comb_round g updates st changed
    else comb_round g updates (put var new st) true

-- The loop of `_recompute_comb`, with the rounds that are left.
unfoldable pub settle : Design → ℕ → Env → Result Env
settle g zero st = ok st
settle g (suc rounds) st = comb_round g g.comb_updates st false >>= λ (st', changed).
    let again = settle g rounds st' in if changed then again else ok st'

unfoldable pub recompute_comb : Design → Env → Result Env
unfolding settle comb_round evaluate
recompute_comb g st = settle g (length g.comb_updates + 1) st

unfoldable pub is_control : Design → String → Bool
is_control g k = str_eq k "clk" || str_eq k g.reset_port

-- `_set_inputs`: the clock and the reset are no state.
unfoldable pub set_inputs : Design → Dict Value → Env → Env
unfolding is_control
set_inputs g [] st = st
set_inputs g ((k, v) ∷ inputs) st = set_inputs g inputs (if is_control g k then st else put k v st)

-- The reset branch: the targets that are registers, evaluated in the old state.
unfoldable pub reset_values : Design → Env → Dict String → Dict Value → Result (Dict Value)
reset_values g st [] new_scalars = ok new_scalars
reset_values g st ((base, expr) ∷ updates) new_scalars =
    let rest = reset_values g st updates new_scalars in
    let taken =
      evaluate g st base expr >>= λ v. reset_values g st updates (put base v new_scalars) in
    if contains base g.reg_vars then taken else rest

pub record MemWrite : Type 0 where
  pub base : String
  pub index : Value
  pub value : Value

-- The normal branch: every next state is evaluated in the old state, and kept for the commit.
unfoldable pub next_values :
    Design → Env → List Update → Dict Value → List MemWrite → Result (Dict Value × List MemWrite)
next_values g st [] new_scalars writes = ok (new_scalars, writes)
next_values g st (scalar lhs expr ∷ updates) new_scalars writes =
    evaluate g st lhs expr >>= λ v. next_values g st updates (put lhs v new_scalars) writes
next_values g st (element base index expr ∷ updates) new_scalars writes = eval st index >>= λ i.
    evaluate g st base expr >>= λ v. next_values g st updates new_scalars (elim i [
      | x ↦ writes
      | num n ↦ record { base = base; index = num n; value = v } ∷ writes
      | arr l ↦ record { base = base; index = arr l; value = v } ∷ writes
    ])

-- A cell of a memory holds an int or X.
unfoldable pub to_cell : Value → Result (Option ℕ)
to_cell x = ok none
to_cell (num n) = ok (some n)
to_cell (arr l) = raises type_error

unfoldable pub write_cell : Value → Value → Value → Result Value
unfolding to_cell
write_cell x i v = ok x
write_cell (arr l) (num i) v =
    let stored = to_cell v >>= λ c. ok (arr (set l i c)) in
    if ltb i (length l) then stored else ok (arr l)
write_cell _ _ _ = raises type_error

-- The writes to the memories, in the order of the updates; out of range nothing is written.
unfoldable pub write_all : List MemWrite → Env → Result Env
unfolding write_cell
write_all [] st = ok st
write_all (w ∷ writes) st = write_all writes st >>= λ st'.
    write_cell (lookup st' w.base) w.index w.value >>= λ v. elim v [
      | x ↦ ok st'
      | num n ↦ ok st'
      | arr l ↦ ok (put w.base (arr l) st')
    ]

unfoldable pub commit : Design → Env → Bool → Result Env
unfolding reset_values next_values write_all
commit g st is_reset =
    let on_reset = reset_values g st g.reset_updates [] >>= λ new. ok (update st new) in
    let on_edge = next_values g st g.clocked_updates [] [] >>= λ (new, writes).
    write_all writes (update st new) in
    if is_reset then on_reset else on_edge

-- `_edge`
unfoldable pub edge : Design → Dict Value → Bool → Env → Result Env
unfolding recompute_comb set_inputs commit
edge g inputs is_reset st = recompute_comb g (set_inputs g inputs st) >>= λ st₁.
    commit g st₁ is_reset >>= λ st₂. recompute_comb g st₂

-- `_is_reset_asserted`: a reset that is X or missing is not asserted.
unfoldable pub is_reset_asserted : Design → Dict Value → Bool
is_reset_asserted g inputs = elim (lookup inputs g.reset_port) [
  | x ↦ false
  | num n ↦ (if g.reset_active_low then n == 0 else not (n == 0))
  | arr l ↦ false
]

-- The names that the stimulus drives, each at 0.
unfoldable pub zero_vector : Design → Dict Value → Dict Value → Dict Value
unfolding is_control
zero_vector g [] zeros = zeros
zero_vector g ((k, v) ∷ inputs) zeros =
    zero_vector g inputs (if is_control g k then zeros else put k (num 0) zeros)

unfoldable pub zero_inputs : Design → List (Dict Value) → Dict Value → Dict Value
unfolding zero_vector
zero_inputs g [] zeros = zeros
zero_inputs g (vector ∷ stimulus) zeros = zero_inputs g stimulus (zero_vector g vector zeros)

-- The outputs that are asserted: an X is left out.
unfoldable pub row_of : List String → Env → Dict Value → Dict Value
row_of [] st row = row
row_of (port ∷ ports) st row = row_of ports st (elim (lookup st port) [
  | x ↦ row
  | num n ↦ put port (num n) row
  | arr l ↦ put port (arr l) row
])

unfoldable pub run_vectors :
    Design → List String → List (Dict Value) → Env → Result (List (Dict Value))
run_vectors g ports [] st = ok []
run_vectors g ports (inputs ∷ stimulus) st =
    edge g inputs (is_reset_asserted g inputs) st >>= λ st'.
    run_vectors g ports stimulus st' >>= λ rows. ok (row_of ports st' [] ∷ rows)

-- `run`: the reset pulse with every input at 0, then one edge for each vector.
unfoldable pub run : Design → Env → List (Dict Value) → List String → Result (List (Dict Value))
unfolding edge is_reset_asserted zero_inputs row_of run_vectors
run g st stimulus ports =
    let zeros = zero_inputs g stimulus [] in
    edge g zeros true st >>= λ st₁.
    edge g zeros false st₁ >>= λ st₂. run_vectors g ports stimulus st₂

-- ===== src/Compiler2/Ports.antt =====
-- The drivers of a name of the emitted module, by where the module declares it:
-- pipeline/compilers/compiler2.py, `compile`.
use agentic_rtl_engine.Prelude.{
  ◌≡◌, refl, sym, subst, ◌∙◌, String, Bool, true, false, ◌&&◌, ◌||◌, List, [], ◌∷◌, ◌++◌, map,
  arith, str_eq, eq_iff, ◌⊎◌, inl, inr, Bool-cases,
}
use agentic_rtl_engine.Prelude.Dict.{contains, contains-append}
use agentic_rtl_engine.Prelude.Result.{raises, ok, value_error}
use agentic_rtl_engine.Compiler2.{
  CompilerState, Class, fixed_input, input, output_wire, output_reg, is_fixed_input, is_verify,
  base_name, classify,
}
use agentic_rtl_engine.Compiler2.Parse.{bases}
use agentic_rtl_engine.Bridge.Declared.{contains-sort_names}
use agentic_rtl_engine.Compiler2.Declared.{contains-of_class}
use agentic_rtl_engine.Compiler2.Emit.{
  Blocks, reserved_verilog_identifiers, read_blocks, module_lines, compile, of_class, is_input,
  is_output_wire, is_output_reg, input_ports, output_wires, output_regs, add_undeclared,
  undeclared_inputs, referenced,
}
use agentic_rtl_engine.Compiler2.Text.{join_lines}
use agentic_rtl_engine.Compiler2.Drivers.{IsDriven, any_shared-cases, classify-IsDriven}

-- A name of a list of ports or registers has the class of that list.
of_class-test :
    (test : Class → Bool) (g : CompilerState) (k : String) (variables : List String)
    → contains k (of_class test g variables) ≡ true
    → test (classify g k) ≡ true
of_class-test test g k variables h =
    right (contains k variables) (test (classify g k))
      (sym (contains-of_class k test g variables) ∙ h)
  where
    right : (a b : Bool) → (a && b) ≡ true → b ≡ true
    right true b h = h
    right false b h = absurd (ground (arith, h))

by_input :
    (c : Class) (comb seq : Bool)
    → is_input c ≡ true
    → IsDriven c comb seq
    → (comb ≡ false) × (seq ≡ false)
unfolding is_input
by_input input comb seq h d = d
by_input c comb seq h d = cc

by_wire :
    (c : Class) (comb seq : Bool)
    → is_output_wire c ≡ true
    → IsDriven c comb seq
    → (comb ≡ true) × (seq ≡ false)
unfolding is_output_wire
by_wire output_wire comb seq h d = d
by_wire c comb seq h d = cc

by_register :
    (c : Class) (comb seq : Bool)
    → is_output_reg c ≡ true
    → IsDriven c comb seq
    → (comb ≡ false) × (seq ≡ true)
unfolding is_output_reg
by_register output_reg comb seq h d = d
by_register c comb seq h d = cc

-- A name that is declared is not among the undeclared ones.
add_undeclared-declared :
    (k : String) (declared names found : List String)
    → contains k declared ≡ true
    → contains k (add_undeclared declared names found) ≡ contains k found
unfolding add_undeclared contains
add_undeclared-declared k declared [] found h = refl
add_undeclared-declared k declared (n ∷ names) found h =
    elim (Bool-cases (
      contains n declared
      || (contains n reserved_verilog_identifiers || (is_verify n || contains n found)))) [
        | inl e ↦ rw e (add_undeclared-declared k declared names found h)
        | inr e ↦ rw e (
            add_undeclared-declared k declared names (n ∷ found) h
            ∙ rw (other (Bool-cases (str_eq n k)) e) refl)
      ]
  where
    false-ne : ¬ (◌≡◌ {A = Bool} false true)
    false-ne p = cc

    other :
        (str_eq n k ≡ true) ⊎ (str_eq n k ≡ false)
        → (contains n declared
            || (contains n reserved_verilog_identifiers || (is_verify n || contains n found)))
          ≡ false
        → str_eq n k ≡ false
    other (inr s) e = s
    other (inl s) e =
        let p : (contains n declared ≡ true) =
          subst (λ j. contains j declared ≡ true) (sym ((eq_iff n k).0 s)) h in
        absurd (false-ne (sym (rw p at e)))

-- The targets of the emitted `assign` lines, and of the clocked block.
abbrev pub assigned : Blocks → List String
assigned b = map (λ a. base_name a.0) b.comb

abbrev pub clocked : Blocks → List String
clocked b = map (λ a. base_name a.0) (b.reset ++ b.normal)

-- What drives a name of the emitted module, by where the module declares it.
pub record HasDrivers (b : Blocks) (k : String) : Type 0 where
  pub clock :
      (str_eq k "clk" || str_eq k b.signals.reset_port) ≡ true
      → (contains k (assigned b) ≡ false) × (contains k (clocked b) ≡ false)
  pub input_port :
      contains k b.signals.variables ≡ true
      → contains k (input_ports b) ≡ true
      → (contains k (assigned b) ≡ false) × (contains k (clocked b) ≡ false)
  pub wire :
      contains k (output_wires b) ≡ true
      → (contains k (assigned b) ≡ true) × (contains k (clocked b) ≡ false)
  pub register :
      contains k (output_regs b) ≡ true
      → (contains k (assigned b) ≡ false) × (contains k (clocked b) ≡ true)
  pub once : (contains k (assigned b) && contains k (clocked b)) ≡ false

-- The names of the drivers, as the classes read them.
module _ (reset_port tla k : String) where
  abbrev blocks : Blocks
  blocks = read_blocks reset_port tla

  IsDriven-blocks :
      (contains k blocks.signals.comb_vars && contains k blocks.signals.seq_vars) ≡ false
      → IsDriven
          (classify blocks.signals k)
          (contains k (assigned blocks))
          (contains k (clocked blocks))
  unfolding read_blocks bases
  IsDriven-blocks n = classify-IsDriven reset_port tla k n

  by_clock :
      (comb seq : Bool)
      → (str_eq k "clk" || str_eq k blocks.signals.reset_port) ≡ true
      → IsDriven (classify blocks.signals k) comb seq
      → (comb ≡ false) × (seq ≡ false)
  unfolding classify is_fixed_input
  by_clock comb seq h d =
      let e : (classify blocks.signals k ≡ fixed_input) = rw h refl in
      subst (λ c. IsDriven c comb seq) e d

  declared_input :
      contains k blocks.signals.variables ≡ true
      → contains k (input_ports blocks) ≡ true
      → is_input (classify blocks.signals k) ≡ true
  unfolding input_ports undeclared_inputs
  declared_input v h =
      let names = "clk" ∷ blocks.signals.reset_port ∷ blocks.signals.variables in
      let absent =
        contains-sort_names k (add_undeclared names (referenced blocks) [])
        ∙ add_undeclared-declared k names (referenced blocks) [] (later v) in
      of_class-test is_input blocks.signals k blocks.signals.variables (
        left _ _
          (sym (contains-append k (of_class is_input blocks.signals blocks.signals.variables) _)
            ∙ h)
          (absent ∙ nothing))
    where
      later :
          contains k blocks.signals.variables ≡ true
          → contains k ("clk" ∷ blocks.signals.reset_port ∷ blocks.signals.variables) ≡ true
      later v = unfold contains in ground (arith, v)

      nothing : contains k [] ≡ false
      nothing = unfold contains in refl

      left : (a b : Bool) → (a || b) ≡ true → b ≡ false → a ≡ true
      left a b p q = ground (arith, p, q)

  blocks-HasDrivers :
      (contains k blocks.signals.comb_vars && contains k blocks.signals.seq_vars) ≡ false
      → HasDrivers blocks k
  unfolding output_wires output_regs
  blocks-HasDrivers n =
      let d = IsDriven-blocks n in
      record {
        clock = λ h. by_clock _ _ h d;
        input_port = λ v h. by_input _ _ _ (declared_input v h) d;
        wire = λ h.
            by_wire _ _ _ (of_class-test is_output_wire blocks.signals k blocks.signals.variables h)
              d;
        register = λ h.
            by_register _ _ _
              (of_class-test is_output_reg blocks.signals k blocks.signals.variables h) d;
        once = shared n;
      }
    where
      shared :
          (contains k blocks.signals.comb_vars && contains k blocks.signals.seq_vars) ≡ false
          → (contains k (assigned blocks) && contains k (clocked blocks)) ≡ false
      shared n = unfold read_blocks bases in n

-- The compiler raises its exception where some name is a target of both blocks. Else it returns the
-- lines of the module, and for each name: the clock and the reset are no target of an `assign` line
-- or of the clocked block, nor is an input port that VARIABLES declares; an output wire is a target
-- of an `assign` line and not of the clocked block; an output register is one of the clocked block
-- and not of an `assign` line; and no name is a target of both.
pub compile-HasDrivers :
    (tla module_name reset_port : String) (low : Bool)
    → ((k : String) × ((contains k (assigned (read_blocks reset_port tla))
            && contains k (clocked (read_blocks reset_port tla)))
          ≡ true)
        × (compile tla module_name reset_port low ≡ raises value_error))
      ⊎ ((compile tla module_name reset_port low
            ≡ ok (join_lines (module_lines module_name low (read_blocks reset_port tla))))
          × ((k : String) → HasDrivers (read_blocks reset_port tla) k))
unfolding compile
compile-HasDrivers tla module_name reset_port low =
    let b = read_blocks reset_port tla in
    elim (any_shared-cases b.signals.comb_vars b.signals.seq_vars) [
      | inl (k, h, e) ↦ inl (k, unfold read_blocks bases in h, rw e refl)
      | inr (h, e) ↦ inr (rw e refl, λ k. blocks-HasDrivers reset_port tla k (h k))
    ]

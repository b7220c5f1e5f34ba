-- ===== src/Compiler2/Declared.antt =====
-- The names that the emitted module declares, pipeline/compilers/compiler2.py.
use agentic_rtl_engine.Prelude.{
  ◌≡◌, refl, ap, sym, ◌∙◌, subst, String, Bool, true, false, ◌&&◌, ◌||◌, List, [], ◌∷◌, map, All,
  Option, none, some, arith, if◌then◌else◌, str_eq, eq_iff, inl, inr, Bool-cases,
}
use mathlib.Core.List.{◌++◌ as append, append_assoc}
use agentic_rtl_engine.Prelude.Dict.{contains, contains-append}
use agentic_rtl_engine.Bridge.Declared.{contains-sort_names}
use agentic_rtl_engine.Compiler2.{
  CompilerState, Class, fixed_input, input, output_wire, output_reg, internal_reg, dropped,
  is_fixed_input, is_verify, is_memory, is_internal_reg, classify,
}
use agentic_rtl_engine.Compiler2.Emit.{
  Blocks, reserved_verilog_identifiers, scan_verilog_identifiers, referenced_in_assigns,
  referenced_in_lines, assign_line, add_undeclared, referenced, undeclared_inputs, is_input,
  is_output_wire, is_output_reg, is_internal, of_class, input_ports, output_wires, output_regs,
  internal_regs,
}
use agentic_rtl_engine.Compiler2.Text.{drop_spaces}
use agentic_rtl_engine.Compiler2.Variables.{is_name}
use agentic_rtl_engine.Compiler2.Translate.{translate_expr}
use agentic_rtl_engine.Compiler2.RightSide.{
  assigned_rhs-assign_line, scan_verilog_identifiers-drop_spaces,
}

-- The names that the module declares: its ports and its internal registers.
abbrev pub module_names : Blocks → List String
module_names b =
    "clk"
    ∷ b.signals.reset_port
    ∷ append (input_ports b) (append (output_wires b) (append (output_regs b) (internal_regs b)))

-- A name that needs no declaration.
abbrev pub is_exempt : String → Bool
is_exempt k = contains k reserved_verilog_identifiers || is_verify k

-- Two steps below, as Booleans.
not_found :
    (added declared reserved verify found later : Bool)
    → (later || found) ≡ false
    → (declared || (reserved || (verify || found))) ≡ true
    → (added || (declared || (reserved || verify))) ≡ true
not_found added declared reserved verify found later q e = ground (arith, q, e)

asked :
    (same later found : Bool)
    → (later || found) ≡ false
    → ((same || later) || found) ≡ true
    → same ≡ true
asked same later found q h = ground (arith, q, h)

-- The names that are found are declared, exempt, or added.
contains-add_undeclared :
    (k : String) (declared names found : List String)
    → (contains k names || contains k found) ≡ true
    → (contains k (add_undeclared declared names found) || (contains k declared || is_exempt k))
      ≡ true
unfolding add_undeclared contains
contains-add_undeclared k declared [] found h = ground (arith, h)
contains-add_undeclared k declared (n ∷ names) found h =
    elim (Bool-cases (
      contains n declared
      || (contains n reserved_verilog_identifiers || (is_verify n || contains n found)))) [
        | inl e ↦ elim (Bool-cases (contains k names || contains k found)) [
          | inl q ↦ rw e (contains-add_undeclared k declared names found q)
          | inr q ↦ rw e (
              not_found _ (contains k declared) (contains k reserved_verilog_identifiers)
                (is_verify k) (contains k found) (contains k names) q
                (same e ((eq_iff n k).0 (asked (str_eq n k) _ _ q h))))
        ]
        | inr e ↦ rw e (contains-add_undeclared k declared names (n ∷ found) (ground (arith, h)))
      ]
  where
    same :
        (contains n declared
            || (contains n reserved_verilog_identifiers || (is_verify n || contains n found)))
          ≡ true
        → n ≡ k
        → (contains k declared
            || (contains k reserved_verilog_identifiers || (is_verify k || contains k found)))
          ≡ true
    same e p =
        subst
          (λ x.
            (contains x declared
              || (contains x reserved_verilog_identifiers || (is_verify x || contains x found)))
            ≡ true)
          p e

pub contains-of_class :
    (k : String) (test : Class → Bool) (g : CompilerState) (variables : List String)
    → contains k (of_class test g variables) ≡ (contains k variables && test (classify g k))
unfolding contains of_class
contains-of_class k test g [] = refl
contains-of_class k test g (v ∷ variables) = elim (Bool-cases (str_eq v k)) [
  | inl e ↦
      subst
        (λ n.
          contains k (
            if test (classify g n)
            then v ∷ of_class test g variables
            else of_class test g variables)
          ≡ ((str_eq v k || contains k variables) && test (classify g k)))
        (sym ((eq_iff v k).0 e))
        (named (test (classify g k)) e (contains-of_class k test g variables))
  | inr e ↦ other (test (classify g v)) e (contains-of_class k test g variables)
]
  where
    named :
        (b : Bool)
        → str_eq v k ≡ true
        → contains k (of_class test g variables) ≡ (contains k variables && b)
        → contains k (if b then v ∷ of_class test g variables else of_class test g variables)
          ≡ ((str_eq v k || contains k variables) && b)
    named true e h = rw e refl
    named false e h = rw (e, h) (ground arith)

    other :
        (b : Bool)
        → str_eq v k ≡ false
        → contains k (of_class test g variables) ≡ (contains k variables && test (classify g k))
        → contains k (if b then v ∷ of_class test g variables else of_class test g variables)
          ≡ ((str_eq v k || contains k variables) && test (classify g k))
    other true e h = rw e h
    other false e h = rw e h

place_of_class :
    (fixed verify memory register seq comb : Bool)
    → (let c : Class =
          if fixed
          then fixed_input
          else if verify
          then dropped
          else if memory
          then internal_reg
          else if register
          then internal_reg
          else if seq
          then output_reg
          else if comb
          then output_wire
          else input in
        (is_input c
          || (is_output_wire c || (is_output_reg c || (is_internal c || (fixed || verify)))))
        ≡ true)
unfolding is_input is_output_wire is_output_reg is_internal
place_of_class true verify memory register seq comb = refl
place_of_class false true memory register seq comb = refl
place_of_class false false true register seq comb = refl
place_of_class false false false true seq comb = refl
place_of_class false false false false true comb = refl
place_of_class false false false false false true = refl
place_of_class false false false false false false = refl

-- Every variable is fixed, of the verification, or of one class of names that are declared.
classify-cases :
    (g : CompilerState) (k : String)
    → (is_input (classify g k)
        || (is_output_wire (classify g k)
            || (is_output_reg (classify g k)
                || (is_internal (classify g k) || (is_fixed_input g.reset_port k || is_verify k)))))
      ≡ true
unfolding classify
classify-cases g k =
    place_of_class (is_fixed_input g.reset_port k) (is_verify k) (is_memory g.depths k)
      (is_internal_reg k) (contains k g.seq_vars) (contains k g.comb_vars)

abbrev pub rhs_identifiers : List (String × String) → List String
rhs_identifiers [] = []
rhs_identifiers ((var, rhs) ∷ assigns) =
    append (scan_verilog_identifiers rhs) (rhs_identifiers assigns)

-- The assignments of the emitted module: those of the combinational block, and the clocked ones.
abbrev pub emitted : Blocks → List (String × String)
emitted b = append b.comb (map (λ a. (a.0, translate_expr a.1)) (append b.reset b.normal))

rhs_identifiers-map :
    (assigns : List (String × String))
    → rhs_identifiers (map (λ a. (a.0, translate_expr a.1)) assigns) ≡ referenced_in_assigns assigns
unfolding referenced_in_assigns
rhs_identifiers-map [] = refl
rhs_identifiers-map ((var, expr) ∷ assigns) =
    ap (append (scan_verilog_identifiers (translate_expr expr))) (rhs_identifiers-map assigns)

-- The names of the module, by their classes.
contains-ports :
    (b : Blocks) (k : String)
    → contains k (
        append (input_ports b) (append (output_wires b) (append (output_regs b) (internal_regs b))))
      ≡ (let here = contains k b.signals.variables in
          let c = classify b.signals k in
          ((here && is_input c) || contains k (undeclared_inputs b))
          || ((here && is_output_wire c) || ((here && is_output_reg c) || (here && is_internal c))))
unfolding input_ports output_wires output_regs internal_regs
contains-ports b k =
    let g = b.signals in
    let vs = b.signals.variables in
    contains-append k (input_ports b)
      (append (output_wires b) (append (output_regs b) (internal_regs b)))
    ∙ ap2_or
        (contains-append k (of_class is_input g vs) (undeclared_inputs b)
          ∙ ap (λ x. x || contains k (undeclared_inputs b)) (contains-of_class k is_input g vs))
        (contains-append k (output_wires b) (append (output_regs b) (internal_regs b))
          ∙ ap2_or (contains-of_class k is_output_wire g vs) (
              contains-append k (output_regs b) (internal_regs b)
              ∙ ap2_or (contains-of_class k is_output_reg g vs)
                  (contains-of_class k is_internal g vs)))
  where
    ap2_or : {p q r s : Bool} → p ≡ q → r ≡ s → (p || r) ≡ (q || s)
    ap2_or {p} {q} {r} {s} e f = ap (λ x. x || r) e ∙ ap (λ x. q || x) f

-- What is declared by the code's own list is declared by the module, or exempt.
declared_or_exempt :
    (clk reset here undeclared reserved verify supplied wire reg internal : Bool)
    → (supplied || (wire || (reg || (internal || ((clk || reset) || verify))))) ≡ true
    → (undeclared || ((clk || (reset || here)) || (reserved || verify))) ≡ true
    → ((clk
          || (reset
              || (((here && supplied) || undeclared)
                  || ((here && wire) || ((here && reg) || (here && internal))))))
        || (reserved || verify))
      ≡ true
declared_or_exempt true reset here undeclared reserved verify supplied wire reg internal c h = refl
declared_or_exempt false true here undeclared reserved verify supplied wire reg internal c h = refl
declared_or_exempt false false true undeclared reserved verify supplied wire reg internal c h =
    ground (arith, c)
declared_or_exempt false false false undeclared reserved verify supplied wire reg internal c h =
    ground (arith, h)

swap : (j k : String) → str_eq j k ≡ str_eq k j
swap j k = elim (Bool-cases (str_eq j k)) [
  | inl e ↦ e ∙ sym ((eq_iff k j).1 (sym ((eq_iff j k).0 e)))
  | inr e ↦ elim (Bool-cases (str_eq k j)) [
    | inl d ↦ (eq_iff j k).1 (sym ((eq_iff k j).0 d)) ∙ sym d
    | inr d ↦ e ∙ sym d
  ]
]

contains-module_names :
    (b : Blocks) (k : String)
    → (contains k (undeclared_inputs b)
        || (contains k ("clk" ∷ b.signals.reset_port ∷ b.signals.variables) || is_exempt k))
      ≡ true
    → (contains k (module_names b) || is_exempt k) ≡ true
unfolding contains is_fixed_input
contains-module_names b k h =
    let c = classify b.signals k in
    ap (λ x. (str_eq "clk" k || (str_eq b.signals.reset_port k || x)) || is_exempt k)
      (contains-ports b k)
    ∙ declared_or_exempt (str_eq "clk" k) (str_eq b.signals.reset_port k)
        (contains k b.signals.variables) (contains k (undeclared_inputs b))
        (contains k reserved_verilog_identifiers) (is_verify k) (is_input c) (is_output_wire c)
        (is_output_reg c) (is_internal c)
        (ap2 (swap "clk" k) (swap b.signals.reset_port k) ∙ classify-cases b.signals k) h
  where
    ap2 :
        {p q r s : Bool}
        → p ≡ q
        → r ≡ s
        → (let c = classify b.signals k in
            (is_input c
              || (is_output_wire c
                  || (is_output_reg c || (is_internal c || ((p || r) || is_verify k)))))
            ≡ (is_input c
                || (is_output_wire c
                    || (is_output_reg c || (is_internal c || ((q || s) || is_verify k))))))
    ap2 e f = rw (e, f) refl

contains-undeclared_inputs :
    (b : Blocks) (k : String)
    → contains k (referenced b) ≡ true
    → (contains k (module_names b) || is_exempt k) ≡ true
unfolding undeclared_inputs
contains-undeclared_inputs b k h = contains-module_names b k (
    ap (λ x. x || (contains k ("clk" ∷ b.signals.reset_port ∷ b.signals.variables) || is_exempt k))
      (contains-sort_names k
        (add_undeclared ("clk" ∷ b.signals.reset_port ∷ b.signals.variables) (referenced b) []))
    ∙ contains-add_undeclared k ("clk" ∷ b.signals.reset_port ∷ b.signals.variables) (referenced b)
        [] (ground (arith, h)))

contains-referenced_in_lines :
    (k : String) (comb : List (String × String))
    → All (λ a. is_name a.0 ≡ true) comb
    → contains k (referenced_in_lines (map assign_line comb)) ≡ contains k (rhs_identifiers comb)
unfolding referenced_in_lines
contains-referenced_in_lines k [] named = refl
contains-referenced_in_lines k ((var, rhs) ∷ comb) named =
    let lines = map assign_line comb in
    ap
      (λ (o : Option String). contains k (elim o [
        | none ↦ referenced_in_lines lines
        | some text ↦ append (scan_verilog_identifiers text) (referenced_in_lines lines)
      ]))
      (assigned_rhs-assign_line var rhs named.0)
    ∙ contains-append k (scan_verilog_identifiers (drop_spaces rhs)) (referenced_in_lines lines)
    ∙ ap (λ l. contains k l || contains k (referenced_in_lines lines))
        (scan_verilog_identifiers-drop_spaces rhs)
    ∙ ap (λ x. contains k (scan_verilog_identifiers rhs) || x)
        (contains-referenced_in_lines k comb named.1)
    ∙ sym (contains-append k (scan_verilog_identifiers rhs) (rhs_identifiers comb))

rhs_identifiers-append :
    (assigns more : List (String × String))
    → rhs_identifiers (append assigns more)
      ≡ append (rhs_identifiers assigns) (rhs_identifiers more)
rhs_identifiers-append [] more = refl
rhs_identifiers-append ((var, rhs) ∷ assigns) more =
    ap (append (scan_verilog_identifiers rhs)) (rhs_identifiers-append assigns more)
    ∙ sym (
        append_assoc (scan_verilog_identifiers rhs) (rhs_identifiers assigns)
          (rhs_identifiers more))

-- Each identifier of a right side of the emitted module is declared by it, a port or an internal
-- register, or is a reserved word or a name of the verification, where no target of an `assign` has
-- an index.
pub contains-emitted :
    (b : Blocks) (k : String)
    → All (λ a. is_name a.0 ≡ true) b.comb
    → contains k (rhs_identifiers (emitted b)) ≡ true
    → (contains k (module_names b) || is_exempt k) ≡ true
unfolding referenced
contains-emitted b k named h = contains-undeclared_inputs b k (
    contains-append k (referenced_in_lines (map assign_line b.comb))
      (referenced_in_assigns (append b.reset b.normal))
    ∙ ap (λ x. x || contains k (referenced_in_assigns (append b.reset b.normal)))
        (contains-referenced_in_lines k b.comb named)
    ∙ ap (λ l. contains k (rhs_identifiers b.comb) || contains k l)
        (sym (rhs_identifiers-map (append b.reset b.normal)))
    ∙ sym (
        contains-append k (rhs_identifiers b.comb)
          (rhs_identifiers (map (λ a. (a.0, translate_expr a.1)) (append b.reset b.normal))))
    ∙ ap (contains k) (
        sym (
          rhs_identifiers-append b.comb
            (map (λ a. (a.0, translate_expr a.1)) (append b.reset b.normal))))
    ∙ h)

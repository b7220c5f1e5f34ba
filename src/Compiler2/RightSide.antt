-- ===== src/Compiler2/RightSide.antt =====
-- What `_undeclared_inputs` reads of the lines that `parse_combinational` writes,
-- pipeline/compilers/compiler2.py.
use Prim.Native.Char.{Char, code}
use Prim.Native.String.{◌++◌}
use text.Mathlib.TextLemmas.{cons-ne-nil}
use agentic_rtl_engine.Prelude.{
  ℕ, ◌≡◌, refl, ap, sym, ◌∙◌, String, true, false, Option, none, some, arith, ◌==◌, str_eq, eq_iff,
  inl, inr, Bool-cases,
}
use agentic_rtl_engine.Expr.Lexer.{is_word, is_letter, span, char_count}
use agentic_rtl_engine.Expr.Lexer.Unlex.{prepend}
use agentic_rtl_engine.Bridge.{is_space, starts_with}
use agentic_rtl_engine.Bridge.Inputs.{scan_from, scan_identifiers}
use agentic_rtl_engine.Bridge.Text.{append-prepend}
use agentic_rtl_engine.Compiler2.Text.{
  behind, drop_spaces, begins_space, block_at, replace_blocks, replace_blocks_from,
}
use agentic_rtl_engine.Compiler2.Variables.{is_name}
use agentic_rtl_engine.Compiler2.Banlist.{newlines, drop_line_comments, strip_comments}
use agentic_rtl_engine.Compiler2.Emit.{
  assign_line, before_last_semicolon, behind_target, assigned_rhs, scan_verilog_identifiers,
}

before_last_semicolon-prepend : (s : String) → before_last_semicolon (prepend s ";") ≡ some s
unfolding before_last_semicolon prepend
before_last_semicolon-prepend String.[] = refl
before_last_semicolon-prepend (String.◌∷◌ c s) = rw (before_last_semicolon-prepend s) refl

drop_spaces-prepend : (s : String) → drop_spaces (prepend s ";") ≡ prepend (drop_spaces s) ";"
unfolding drop_spaces prepend
drop_spaces-prepend String.[] = refl
drop_spaces-prepend (String.◌∷◌ c s) = elim (Bool-cases (is_space (code c))) [
  | inl e ↦ rw e (drop_spaces-prepend s)
  | inr e ↦ rw e refl
]

-- A run of letters and digits in front of a space.
span-prepend :
    (s r : String)
    → (span is_word s).1 ≡ ""
    → span is_word (prepend s (String.◌∷◌ " " r)) ≡ (s, String.◌∷◌ " " r)
unfolding span prepend
span-prepend String.[] r h = refl
span-prepend (String.◌∷◌ c s) r h = elim (Bool-cases (is_word (code c))) [
  | inl e ↦ rw (e, span-prepend s r (rw e at h)) refl
  | inr e ↦ absurd (cons-ne-nil c s (rw e at h))
]

word_no_space : (c : ℕ) → is_word c ≡ true → is_space c ≡ false
word_no_space c h = ground arith

drop_spaces-name :
    (s r : String)
    → (span is_word s).1 ≡ ""
    → str_eq s "" ≡ false
    → drop_spaces (prepend s r) ≡ prepend s r
unfolding span prepend drop_spaces
drop_spaces-name String.[] r h n = absurd (ground (arith, n))
drop_spaces-name (String.◌∷◌ c s) r h n = elim (Bool-cases (is_word (code c))) [
  | inl e ↦ rw (word_no_space (code c) e) refl
  | inr e ↦ absurd (cons-ne-nil c s (rw e at h))
]

behind_target-prepend :
    (var rhs : String)
    → (span is_word var).1 ≡ ""
    → str_eq var "" ≡ false
    → behind_target (prepend var (prepend " = " (prepend rhs ";"))) ≡ some (drop_spaces rhs)
unfolding behind_target prepend drop_spaces behind
behind_target-prepend var rhs h n =
    rw (span-prepend var (prepend "= " (prepend rhs ";")) h, n)
      (ap before_last_semicolon (drop_spaces-prepend rhs)
        ∙ before_last_semicolon-prepend (drop_spaces rhs))

assign_line-prepend :
    (var rhs : String)
    → assign_line (var, rhs) ≡ prepend "    assign " (prepend var (prepend " = " (prepend rhs ";")))
unfolding assign_line
assign_line-prepend var rhs =
    append-prepend "    assign " _
    ∙ ap (prepend "    assign ") (
        append-prepend var _
        ∙ ap (prepend var) (append-prepend " = " _ ∙ ap (prepend " = ") (append-prepend rhs ";")))

-- The right side of a line whose target is a name is read back, but for spaces in front.
pub assigned_rhs-assign_line :
    (var rhs : String)
    → is_name var ≡ true
    → assigned_rhs (assign_line (var, rhs)) ≡ some (drop_spaces rhs)
unfolding assigned_rhs is_name prepend behind begins_space drop_spaces
assigned_rhs-assign_line var rhs h =
    let rest = (eq_iff (span is_word var).1 "").0 (ground (arith, h)) in
    let named : (str_eq var "" ≡ false) = ground (arith, h) in
    ap assigned_rhs (assign_line-prepend var rhs)
    ∙ ap behind_target (drop_spaces-name var _ rest named)
    ∙ behind_target-prepend var rhs rest named

space_no_slash : (c : ℕ) → is_space c ≡ true → (47 == c) ≡ false
space_no_slash c h = ground arith

space_no_letter : (c : ℕ) → is_space c ≡ true → is_letter c ≡ false
space_no_letter c h = ground arith

block_at-space :
    (c : Char) (s : String) → is_space (code c) ≡ true → block_at "/*" "*/" (String.◌∷◌ c s) ≡ none
unfolding block_at behind
block_at-space c s e = rw (block_at, space_no_slash (code c) e) refl

replace_blocks-space :
    (c : Char) (s : String)
    → is_space (code c) ≡ true
    → replace_blocks "/*" "*/" newlines (String.◌∷◌ c s)
      ≡ String.◌∷◌ c (replace_blocks "/*" "*/" newlines s)
unfolding replace_blocks replace_blocks_from char_count
replace_blocks-space c s e =
    ap
      (λ (o : Option (String × String)). elim o [
        | none ↦ String.◌∷◌ c (replace_blocks "/*" "*/" newlines s)
        | some (inner, rest) ↦
            newlines inner ++ replace_blocks_from "/*" "*/" newlines (char_count s) rest
      ])
      (block_at-space c s e)

drop_line_comments-space :
    (c : Char) (s : String)
    → is_space (code c) ≡ true
    → drop_line_comments false (String.◌∷◌ c s) ≡ String.◌∷◌ c (drop_line_comments false s)
unfolding drop_line_comments starts_with
drop_line_comments-space c s e = rw (space_no_slash (code c) e) refl

scan_identifiers-space :
    (c : Char) (s : String)
    → is_space (code c) ≡ true
    → scan_identifiers (String.◌∷◌ c s) ≡ scan_identifiers s
unfolding scan_identifiers scan_from char_count
scan_identifiers-space c s e = rw (space_no_letter (code c) e) refl

scan_verilog_identifiers-space :
    (c : Char) (s : String)
    → is_space (code c) ≡ true
    → scan_verilog_identifiers (String.◌∷◌ c s) ≡ scan_verilog_identifiers s
unfolding scan_verilog_identifiers strip_comments
scan_verilog_identifiers-space c s e =
    ap (λ t. scan_identifiers (drop_line_comments false t)) (replace_blocks-space c s e)
    ∙ ap scan_identifiers (drop_line_comments-space c (replace_blocks "/*" "*/" newlines s) e)
    ∙ scan_identifiers-space c (strip_comments s) e

-- Spaces in front of a text hide no identifier.
pub scan_verilog_identifiers-drop_spaces :
    (s : String) → scan_verilog_identifiers (drop_spaces s) ≡ scan_verilog_identifiers s
unfolding drop_spaces
scan_verilog_identifiers-drop_spaces String.[] = refl
scan_verilog_identifiers-drop_spaces (String.◌∷◌ c s) = elim (Bool-cases (is_space (code c))) [
  | inl e ↦
      rw e (scan_verilog_identifiers-drop_spaces s ∙ sym (scan_verilog_identifiers-space c s e))
  | inr e ↦ rw e refl
]

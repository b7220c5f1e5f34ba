-- ===== src/Expr/Token.antt =====
-- pipeline/cocotb/spec_sim.py, `_tokenize`: the tokens of an expression. A token of the source is
-- a string; here a constructor stands for each fixed spelling, and `text` gives the string back.
use agentic_rtl_engine.Prelude.{String, Option, none, some, Bool, true, false, ℕ}
use agentic_rtl_engine.Prelude.{if◌then◌else◌, str_eq}
use agentic_rtl_engine.Expr.Value.{
  AddOp, plus, minus, MulOp, times, over, modulo, CmpOp, eq, ne, le, ge, lt, gt,
}

pub data Token : Type 0 where
  disj conj tilde bang : Token
  cmp : CmpOp → Token
  add : AddOp → Token
  mul : MulOp → Token
  lbracket rbracket lparen rparen : Token
  word_if word_then word_else word_and word_or word_not word_mod word_true word_false : Token
  -- A run of digits, with the number that `int` reads from it.
  number : String → ℕ → Token
  name : String → Token

unfoldable pub text : Token → String
text disj = "\\/"
text conj = "/\\"
text tilde = "~"
text bang = "!"
text (cmp eq) = "="
text (cmp ne) = "/="
text (cmp le) = "<="
text (cmp ge) = ">="
text (cmp lt) = "<"
text (cmp gt) = ">"
text (add plus) = "+"
text (add minus) = "-"
text (mul times) = "*"
text (mul over) = "/"
text (mul modulo) = "%"
text lbracket = "["
text rbracket = "]"
text lparen = "("
text rparen = ")"
text word_if = "IF"
text word_then = "THEN"
text word_else = "ELSE"
text word_and = "AND"
text word_or = "OR"
text word_not = "NOT"
text word_mod = "mod"
text word_true = "TRUE"
text word_false = "FALSE"
text (number s n) = s
text (name s) = s

-- The spelling of an identifier decides whether the parser sees a word of the grammar.
unfoldable pub word : String → Token
word s =
    if str_eq s "IF"
    then word_if
    else if str_eq s "THEN"
    then word_then
    else if str_eq s "ELSE"
    then word_else
    else if str_eq s "AND"
    then word_and
    else if str_eq s "OR"
    then word_or
    else if str_eq s "NOT"
    then word_not
    else if str_eq s "mod"
    then word_mod
    else if str_eq s "TRUE"
    then word_true
    else if str_eq s "FALSE"
    then word_false
    else name s

-- The tests `self._peek() in (…)` of the parser's levels.
unfoldable pub or_op : Token → Option (Unit {0})
or_op disj = some tt
or_op word_or = some tt
or_op _ = none

unfoldable pub and_op : Token → Option (Unit {0})
and_op conj = some tt
and_op word_and = some tt
and_op _ = none

unfoldable pub cmp_op : Token → Option CmpOp
cmp_op (cmp o) = some o
cmp_op _ = none

unfoldable pub add_op : Token → Option AddOp
add_op (add o) = some o
add_op _ = none

unfoldable pub mul_op : Token → Option MulOp
mul_op (mul o) = some o
mul_op word_mod = some modulo
mul_op _ = none

-- `true` for the logical negation, `false` for the minus sign.
unfoldable pub unary_op : Token → Option Bool
unary_op tilde = some true
unary_op bang = some true
unary_op word_not = some true
unary_op (add minus) = some false
unary_op _ = none

unfoldable pub is_if : Token → Option (Unit {0})
is_if word_if = some tt
is_if _ = none

unfoldable pub is_then : Token → Option (Unit {0})
is_then word_then = some tt
is_then _ = none

unfoldable pub is_else : Token → Option (Unit {0})
is_else word_else = some tt
is_else _ = none

unfoldable pub is_rparen : Token → Option (Unit {0})
is_rparen rparen = some tt
is_rparen _ = none

unfoldable pub is_rbracket : Token → Option (Unit {0})
is_rbracket rbracket = some tt
is_rbracket _ = none

unfoldable pub is_lbracket : Token → Option (Unit {0})
is_lbracket lbracket = some tt
is_lbracket _ = none

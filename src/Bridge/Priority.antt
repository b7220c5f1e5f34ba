-- ===== src/Bridge/Priority.antt =====
-- What a composed conditional of pipeline/refinement/bridge.py means to the evaluator of
-- pipeline/cocotb/spec_sim.py.
use Prim.Native.Char.{Char}
use Prim.Native.String.{◌++◌}
use text.Mathlib.TextLemmas.{append_assoc}
use agentic_rtl_engine.Prelude.{
  ◌≡◌, refl, ap, ◌∙◌, String, Bool, true, false, List, [], ◌∷◌, map, some, Bool-cases, inl, inr,
}
use agentic_rtl_engine.Prelude.Result.{Result, ok, ◌>>=◌}
use agentic_rtl_engine.Expr.Value.{Value, choose}
use agentic_rtl_engine.Expr.Token.{Token, word_if, word_then, word_else, lparen, rparen, word}
use agentic_rtl_engine.Expr.Interp.{Env, eval_tokens}
use agentic_rtl_engine.Expr.Grammar.{
  Ex, ite, plain, or_one, and_one, cmp_one, add_one, mul_one, atom, paren, print, denote,
}
use agentic_rtl_engine.Expr.Grammar.Parse.{eval_tokens-print}
use agentic_rtl_engine.Expr.Lexer.{span, symbol_at, token_at, tokenize, eval}
use agentic_rtl_engine.Bridge.{strip, starts_with, then_value, nested_if}
use agentic_rtl_engine.Bridge.Text.{tokenize_match, tokenize_skip, append-prepend}
use agentic_rtl_engine.Expr.Lexer.Unlex.{prepend}

-- The text of a sentence: on its own, and with a space or a parenthesis behind it.
pub record IsText (s : String) (e : Ex) : Type 0 where
  pub alone : tokenize s ≡ print e []
  pub spaced : (r : String) → tokenize (s ++ (" " ++ r)) ≡ print e (tokenize r)
  pub closed : (r : String) → tokenize (s ++ (")" ++ r)) ≡ print e (rparen ∷ tokenize r)

pub record Sentence : Type 0 where
  pub written : String
  pub tree : Ex
  pub is_text : IsText written tree

skip_space : (r : String) → tokenize (" " ++ r) ≡ tokenize r
unfolding prepend token_at symbol_at
skip_space r = ap tokenize (append-prepend " " r) ∙ tokenize_skip " " r refl

-- A keyword with a space behind it.
read_keyword :
    (c : Char) (s r : String) (t : Token)
    → token_at c (prepend s r) ≡ some (t, String.◌∷◌ " " r)
    → tokenize ((String.◌∷◌ c s) ++ r) ≡ t ∷ tokenize r
unfolding prepend token_at symbol_at
read_keyword c s r t e =
    ap tokenize (append-prepend (String.◌∷◌ c s) r)
    ∙ tokenize_match c (prepend s r) t (String.◌∷◌ " " r) e
    ∙ ap (λ ts. t ∷ ts) (tokenize_skip " " r refl)

read_if : (r : String) → tokenize ("IF " ++ r) ≡ word_if ∷ tokenize r
unfolding prepend token_at span word
read_if r = read_keyword "I" "F " r word_if refl

read_then : (r : String) → tokenize ("THEN " ++ r) ≡ word_then ∷ tokenize r
unfolding prepend token_at span word
read_then r = read_keyword "T" "HEN " r word_then refl

read_else : (r : String) → tokenize ("ELSE " ++ r) ≡ word_else ∷ tokenize r
unfolding prepend token_at span word
read_else r = read_keyword "E" "LSE " r word_else refl

read_open : (r : String) → tokenize ("(" ++ r) ≡ lparen ∷ tokenize r
unfolding prepend token_at symbol_at
read_open r = ap tokenize (append-prepend "(" r) ∙ tokenize_match "(" r lparen r refl

read_close : (r : String) → tokenize (")" ++ r) ≡ rparen ∷ tokenize r
unfolding prepend token_at symbol_at
read_close r = ap tokenize (append-prepend ")" r) ∙ tokenize_match ")" r rparen r refl

-- A value that is a conditional itself stands in parentheses.
unfoldable bracketed : Bool → Ex → Ex
bracketed true e = plain (or_one (and_one (cmp_one (add_one (mul_one (atom (paren e)))))))
bracketed false e = e

then_value_spaced :
    (v : Sentence) (r : String)
    → tokenize (then_value v.written ++ (" " ++ r))
      ≡ print (bracketed (starts_with "IF " (strip v.written)) v.tree) (tokenize r)
unfolding then_value bracketed print
then_value_spaced v r = elim (Bool-cases (starts_with "IF " (strip v.written))) [
  | inl e ↦ rw e (
      ap tokenize (
        append_assoc "(" (v.written ++ ")") (" " ++ r)
        ∙ ap (λ k. "(" ++ k) (append_assoc v.written ")" (" " ++ r)))
      ∙ read_open _
      ∙ ap (λ ts. lparen ∷ ts)
          (v.is_text.closed (" " ++ r) ∙ ap (λ ts. print v.tree (rparen ∷ ts)) (skip_space r)))
  | inr e ↦ rw e (v.is_text.spaced r)
]

-- One clause, in front of the rest.
read_clause :
    (g v : Sentence) (rest : String)
    → tokenize ("IF " ++ (g.written ++ (" THEN " ++ (then_value v.written ++ (" ELSE " ++ rest)))))
      ≡ word_if
        ∷ print g.tree (
            word_then
            ∷ print
                (bracketed (starts_with "IF " (strip v.written)) v.tree)
                (word_else ∷ tokenize rest))
read_clause g v rest =
    let tail = then_value v.written ++ (" ELSE " ++ rest) in
    let behind_value =
      ap (λ k. tokenize (then_value v.written ++ k)) (append_assoc " " "ELSE " rest)
      ∙ then_value_spaced v ("ELSE " ++ rest)
      ∙ ap (print (bracketed (starts_with "IF " (strip v.written)) v.tree)) (read_else rest) in
    let behind_guard =
      ap (λ k. tokenize (g.written ++ k)) (append_assoc " " "THEN " tail)
      ∙ g.is_text.spaced ("THEN " ++ tail)
      ∙ ap (print g.tree) (read_then tail) in
    read_if _
    ∙ ap (λ ts. word_if ∷ ts) (behind_guard ∙ ap (λ ts. print g.tree (word_then ∷ ts)) behind_value)

abbrev pub texts : List (Sentence × Sentence) → List (String × String)
texts clauses = map (λ c. (c.0.written, c.1.written)) clauses

-- The tree of a composed conditional.
unfoldable priority_tree : List (Sentence × Sentence) → Sentence → Ex
priority_tree [] default = default.tree
priority_tree ((g, v) ∷ clauses) default =
    ite g.tree (bracketed (starts_with "IF " (strip v.written)) v.tree)
      (priority_tree clauses default)

nested_if-append :
    (g v : String) (clauses : List (String × String)) (default r : String)
    → nested_if ((g, v) ∷ clauses) default ++ r
      ≡ "IF "
        ++ (g ++ (" THEN " ++ (then_value v ++ (" ELSE " ++ (nested_if clauses default ++ r)))))
unfolding nested_if
nested_if-append g v clauses default r =
    rw (append_assoc, append_assoc, append_assoc, append_assoc, append_assoc) refl

-- A composed conditional is the text of its tree.
nested_if-IsText :
    (clauses : List (Sentence × Sentence)) (default : Sentence)
    → IsText (nested_if (texts clauses) default.written) (priority_tree clauses default)
unfolding nested_if priority_tree print
nested_if-IsText [] default = default.is_text
nested_if-IsText ((g, v) ∷ clauses) default =
    let rest = nested_if-IsText clauses default in
    let shape = λ (ts : List Token).
      word_if
      ∷ print g.tree (
          word_then
          ∷ print (bracketed (starts_with "IF " (strip v.written)) v.tree) (word_else ∷ ts)) in
    record {
      alone = read_clause g v _ ∙ ap shape rest.alone;
      spaced = λ r.
          ap tokenize
            (nested_if-append g.written v.written (texts clauses) default.written (" " ++ r))
          ∙ read_clause g v _
          ∙ ap shape (rest.spaced r);
      closed = λ r.
          ap tokenize
            (nested_if-append g.written v.written (texts clauses) default.written (")" ++ r))
          ∙ read_clause g v _
          ∙ ap shape (rest.closed r);
    }

-- The value of the first clause whose guard holds, else the default: X where a guard before it is X,
-- and the exception of whichever text raises one, since every text is evaluated.
unfoldable pub first_holding : Env → List (Sentence × Sentence) → Sentence → Result Value
first_holding st [] default = denote default.tree st
first_holding st ((g, v) ∷ clauses) default = denote g.tree st >>= λ c.
    denote v.tree st >>= λ w. first_holding st clauses default >>= λ z. ok (choose c w z)

denote-bracketed : (b : Bool) (e : Ex) (st : Env) → denote (bracketed b e) st ≡ denote e st
unfolding bracketed denote
denote-bracketed true e st = refl
denote-bracketed false e st = refl

denote-priority_tree :
    (st : Env) (clauses : List (Sentence × Sentence)) (default : Sentence)
    → denote (priority_tree clauses default) st ≡ first_holding st clauses default
unfolding priority_tree denote first_holding
denote-priority_tree st [] default = refl
denote-priority_tree st ((g, v) ∷ clauses) default =
    let b = starts_with "IF " (strip v.written) in
    ap
      (λ m. denote g.tree st >>= λ c.
        m >>= λ w. denote (priority_tree clauses default) st >>= λ z. ok (choose c w z))
      (denote-bracketed b v.tree st)
    ∙ ap (λ m. denote g.tree st >>= λ c. denote v.tree st >>= λ w. m >>= λ z. ok (choose c w z))
        (denote-priority_tree st clauses default)

-- A conditional that is composed of texts of sentences is evaluated by priority: the first clause
-- whose guard holds decides, else the default, where no guard before it is X and none raises.
pub eval-nested_if :
    (st : Env) (clauses : List (Sentence × Sentence)) (default : Sentence)
    → eval st (nested_if (texts clauses) default.written) ≡ first_holding st clauses default
unfolding eval
eval-nested_if st clauses default =
    ap (eval_tokens st) (nested_if-IsText clauses default).alone
    ∙ eval_tokens-print (priority_tree clauses default) st
    ∙ denote-priority_tree st clauses default

-- ===== src/Sim/Commit.antt =====
-- The commit of a clock edge: what an edge leaves in a register.
use agentic_rtl_engine.Prelude.{
  ◌≡◌, refl, ap, subst, ◌∙◌, sym, String, false, Option, none, some, List, [], ◌∷◌, arith,
  Bool-cases, if◌then◌else◌, str_eq, eq_iff, inl, inr,
}
use agentic_rtl_engine.Prelude.Result.{ok, >>=-eq-ok}
use agentic_rtl_engine.Prelude.Dict.{
  Dict, get, put, update, get-put, Unique, put-Unique, or_else, get-update,
}
use agentic_rtl_engine.Expr.Value.{Value, x, num, arr}
use agentic_rtl_engine.Expr.Interp.{Env, lookup}
use agentic_rtl_engine.Expr.Lexer.{eval}
use agentic_rtl_engine.Sim.{
  Update, scalar, element, Design, evaluate, next_values, MemWrite, write_cell, write_all, commit,
}

-- The expression that drives a register: its last update.
abbrev pub driver : String → List Update → Option String → Option String
driver k [] last = last
driver k (scalar lhs expr ∷ updates) last =
    driver k updates (if str_eq lhs k then some expr else last)
driver k (element base index expr ∷ updates) last = driver k updates last

-- No update writes an element of `k`.
abbrev pub IsScalar : String → List Update → Type 0
IsScalar k [] = Unit
IsScalar k (scalar lhs expr ∷ updates) = IsScalar k updates
IsScalar k (element base index expr ∷ updates) = (str_eq base k ≡ false) × IsScalar k updates

-- What a register holds after the edge, by the expression that drives it.
abbrev pub Clocked : Design → Env → Env → String → Option String → Type 0
Clocked g st st' k none = lookup st' k ≡ lookup st k
Clocked g st st' k (some expr) = evaluate g st k expr ≡ ok (lookup st' k)

-- What the collected next values say of `k`.
abbrev Drives : Design → Env → String → Option String → Option Value → Type 0
Drives g st k none v = v ≡ none
Drives g st k (some expr) none = ⊥
Drives g st k (some expr) (some v) = evaluate g st k expr ≡ ok v

abbrev Avoids : String → List MemWrite → Type 0
Avoids k [] = Unit
Avoids k (w ∷ writes) = (str_eq w.base k ≡ false) × Avoids k writes

Drives-put :
    (g : Design) (st : Env) (k lhs expr : String) (last : Option String) (v : Value)
    (new : Dict Value)
    → evaluate g st lhs expr ≡ ok v
    → Drives g st k last (get k new)
    → Drives g st k (if str_eq lhs k then some expr else last) (get k (put lhs v new))
Drives-put g st k lhs expr last v new p d = elim (Bool-cases (str_eq lhs k)) [
  | inl e ↦
      let same : (lhs ≡ k) = (eq_iff lhs k).0 e in
      rw (get-put lhs k v new, e) (subst (λ j. evaluate g st j expr ≡ ok v) same p)
  | inr e ↦ rw (get-put lhs k v new, e) d
]

next_values-Drives :
    (g : Design) (st : Env) (k : String) (updates : List Update) (last : Option String)
    (new : Dict Value) (writes : List MemWrite) (new' : Dict Value) (writes' : List MemWrite)
    → IsScalar k updates
    → Drives g st k last (get k new)
    → Unique new
    → Avoids k writes
    → next_values g st updates new writes ≡ ok (new', writes')
    → Drives g st k (driver k updates last) (get k new') × Unique new' × Avoids k writes'
unfolding next_values
next_values-Drives g st k [] last new writes new' writes' s d u a h =
    let p : (new ≡ new') = ground arith in
    let q : (writes ≡ writes') = ground arith in
    (subst (λ n. Drives g st k last (get k n)) p d, subst Unique p u, subst (Avoids k) q a)
next_values-Drives g st k (scalar lhs expr ∷ updates) last new writes new' writes' s d u a h =
    let (v, p, q) = >>=-eq-ok (evaluate g st lhs expr) _ h in
    next_values-Drives g st k updates _ (put lhs v new) writes new' writes' s
      (Drives-put g st k lhs expr last v new p d) (put-Unique lhs v new u) a q
next_values-Drives g st k (element base index expr ∷ updates) last new writes new' writes' s d u a
      h =
    let (i, p, q) = >>=-eq-ok (eval st index) _ h in
    let (v, p', q') = >>=-eq-ok (evaluate g st base expr) _ q in
    next_values-Drives g st k updates last new _ new' writes' s.1 d u (avoids i v) q'
  where
    avoids :
        (i v : Value)
        → Avoids k (elim i [
          | x ↦ writes
          | num n ↦ record { base = base; index = num n; value = v } ∷ writes
          | arr l ↦ record { base = base; index = arr l; value = v } ∷ writes
        ])
    avoids x v = a
    avoids (num n) v = (s.0, a)
    avoids (arr l) v = (s.0, a)

write_all-get :
    (k : String) (writes : List MemWrite) (st st' : Env)
    → Avoids k writes
    → write_all writes st ≡ ok st'
    → get k st' ≡ get k st
unfolding write_all
write_all-get k [] st st' a h = ground arith
write_all-get k (w ∷ writes) st st' a h =
    let (mid, p, q) = >>=-eq-ok (write_all writes st) _ h in
    let (v, p', q') = >>=-eq-ok (write_cell (lookup mid w.base) w.index w.value) _ q in
    stored v mid q' ∙ write_all-get k writes st mid a.1 p
  where
    stored :
        (v : Value) (mid : Env)
        → (elim v [ x ↦ ok mid | num n ↦ ok mid | arr l ↦ ok (put w.base (arr l) mid) ]) ≡ ok st'
        → get k st' ≡ get k mid
    stored x mid h = ground arith
    stored (num n) mid h = ground arith
    stored (arr l) mid h =
        let p : (put w.base (arr l) mid ≡ st') = ground arith in
        rw (sym p, get-put w.base k (arr l) mid, a.0) refl

Clocked-Drives :
    (g : Design) (st st' : Env) (k : String) (last : Option String) (v : Option Value)
    → Drives g st k last v
    → get k st' ≡ or_else v (get k st)
    → Clocked g st st' k last
unfolding lookup get
Clocked-Drives g st st' k none none d h = ap (λ o. elim o [ none ↦ x | some v ↦ v ]) h
Clocked-Drives g st st' k none (some v) d h = cc
Clocked-Drives g st st' k (some expr) none d h = elim d [ ]
Clocked-Drives g st st' k (some expr) (some v) d h =
    d ∙ ap (λ o. ok (elim o [ none ↦ x | some v ↦ v ])) (sym h)

-- The commit of an edge without a reset: a register that updates drive holds the value, masked to
-- its width, that its last update has in the state that is committed, and a name that none drives
-- keeps its value. The name is not a memory that an update writes.
pub commit-Clocked :
    (g : Design) (st st' : Env) (k : String)
    → IsScalar k g.clocked_updates
    → commit g st false ≡ ok st'
    → Clocked g st st' k (driver k g.clocked_updates none)
unfolding commit get
commit-Clocked g st st' k s h =
    let ((new, writes), p, q) = >>=-eq-ok (next_values g st g.clocked_updates [] []) _ h in
    let (d, u, a) =
      next_values-Drives g st k g.clocked_updates none [] [] new writes s refl tt tt p in
    Clocked-Drives g st st' k (driver k g.clocked_updates none) (get k new) d
      (write_all-get k writes (update st new) st' a q ∙ get-update k st new u)

-- ===== src/Rules/Inversion.antt =====
-- What a refinement rule that returned has done: nothing, or its change of the spec.
use agentic_rtl_engine.Prelude.{
  ◌≡◌, ◌⊎◌, refl, sym, String, true, false, ◌||◌, Option, none, some, List, if◌then◌else◌,
  Bool-cases, inl, inr,
}
use agentic_rtl_engine.Prelude.Result.{ok, >>=-eq-ok, ok_inj}
use agentic_rtl_engine.Kernel.{Derivation}
use agentic_rtl_engine.Kernel.Check.{ObligationResult}
use agentic_rtl_engine.Kernel.Backend.{Kernel}
use agentic_rtl_engine.Spec.{LoopMarker, Action, Spec}
use agentic_rtl_engine.Rules.{FreshVariable, Params, required, get_or, find_action}
use agentic_rtl_engine.Rules.Iteration
use agentic_rtl_engine.Rules.LoopIntroduction
use agentic_rtl_engine.Rules.ScheduleHandshakeFsm
use agentic_rtl_engine.Rules.ScheduleHandshakeFsm.{Signals}

-- Iteration has clocked an action that was neither clocked nor combinational.
pub record Clocked (s : Spec) (p : Params) (s' : Spec) : Type 0 where
  pub name : String
  pub action : Action
  pub named : p.action_name ≡ some name
  pub found : find_action name s.actions ≡ some action
  pub eligible : (action.combinational || action.clocked) ≡ false
  pub changed : s' ≡ Iteration.clock_spec name s

required-eq-ok : {A : Type 0} (o : Option A) (a : A) → required o ≡ ok a → o ≡ some a
required-eq-ok none a h = cc
required-eq-ok (some b) a h = cc

pub Iteration-cases :
    (s : Spec) (p : Params) (s' : Spec) → Iteration.apply s p ≡ ok s' → (s' ≡ s) ⊎ Clocked s p s'
unfolding Iteration.apply
Iteration-cases s p s' h =
    let (name, e, q) = >>=-eq-ok (required p.action_name) _ h in
    by_action name (required-eq-ok p.action_name name e) (find_action name s.actions) refl q
  where
    by_action :
        (name : String)
        → p.action_name ≡ some name
        → (o : Option Action) → find_action name s.actions ≡ o
        → (elim o [
          | none ↦ ok s
          | some a ↦ if a.combinational || a.clocked then ok s else ok (Iteration.clock_spec name s)
        ])
          ≡ ok s'
        → (s' ≡ s) ⊎ Clocked s p s'
    by_action name n none f q = inl (sym (ok_inj q))
    by_action name n (some a) f q = elim (Bool-cases (a.combinational || a.clocked)) [
      | inl e ↦ inl (sym (ok_inj (rw e at q)))
      | inr e ↦ inr (record {
        name = name;
        action = a;
        named = n;
        found = f;
        eligible = e;
        changed = sym (ok_inj (rw e at q));
      })
    ]

-- LoopIntroduction has installed a loop whose obligations the kernel has discharged.
pub record Installed (kernel : Kernel) (s : Spec) (p : Params) (s' : Spec) : Type 0 where
  pub name : String
  pub derivation : Derivation
  pub fresh : List FreshVariable
  pub result : ObligationResult
  pub action : Action
  pub read : LoopIntroduction.derivation_of p ≡ ok (name, derivation, fresh)
  pub checked : kernel derivation ≡ ok result
  pub discharged : result.ok ≡ true
  pub found : find_action name s.actions ≡ some action
  pub changed : s' ≡ LoopIntroduction.install name derivation fresh result s

pub LoopIntroduction-cases :
    (kernel : Kernel) (s : Spec) (p : Params) (s' : Spec)
    → LoopIntroduction.apply kernel s p ≡ ok s'
    → (s' ≡ s) ⊎ Installed kernel s p s'
unfolding LoopIntroduction.apply LoopIntroduction.introduce
LoopIntroduction-cases kernel s p s' h =
    let ((name, d, fresh), e, q) = >>=-eq-ok (LoopIntroduction.derivation_of p) _ h in
    let (r, k, q') = >>=-eq-ok (kernel d) _ q in
    elim (Bool-cases r.ok) [
      | inr e' ↦ inl (sym (ok_inj (rw e' at q')))
      | inl t ↦ by_action name d fresh r e k t (find_action name s.actions) refl (rw t at q')
    ]
  where
    by_action :
        (name : String) (d : Derivation) (fresh : List FreshVariable) (r : ObligationResult)
        → LoopIntroduction.derivation_of p ≡ ok (name, d, fresh)
        → kernel d ≡ ok r
        → r.ok ≡ true
        → (o : Option Action) → find_action name s.actions ≡ o
        → (elim o [ none ↦ ok s | some a ↦ ok (LoopIntroduction.install name d fresh r s) ]) ≡ ok s'
        → (s' ≡ s) ⊎ Installed kernel s p s'
    by_action name d fresh r e k t none f q = inl (sym (ok_inj q))
    by_action name d fresh r e k t (some a) f q = inr (record {
      name = name;
      derivation = d;
      fresh = fresh;
      result = r;
      action = a;
      read = e;
      checked = k;
      discharged = t;
      found = f;
      changed = sym (ok_inj q);
    })

-- ScheduleHandshakeFSM has scheduled a loop that was recorded.
pub record Scheduled (s : Spec) (s' : Spec) : Type 0 where
  pub signals : Signals
  pub name : String
  pub action : Action
  pub loop : LoopMarker
  pub new : Action
  pub found : find_action name s.actions ≡ some action
  pub recorded : action.loop ≡ some loop
  pub made : ScheduleHandshakeFsm.scheduled signals loop action ≡ ok new
  pub changed : s' ≡ ScheduleHandshakeFsm.schedule signals name new s

pub ScheduleHandshakeFsm-cases :
    (s : Spec) (p : Params) (s' : Spec)
    → ScheduleHandshakeFsm.apply s p ≡ ok s'
    → (s' ≡ s) ⊎ Scheduled s s'
unfolding ScheduleHandshakeFsm.apply ScheduleHandshakeFsm.schedule_loop
ScheduleHandshakeFsm-cases s p s' h =
    let (name, e, q) = >>=-eq-ok (ScheduleHandshakeFsm.named p.action_name) _ h in
    let (state_var, e₁, q₁) =
      >>=-eq-ok (ScheduleHandshakeFsm.non_empty (get_or "state" p.state_var)) _ q in
    let (done_var, e₂, q₂) =
      >>=-eq-ok (ScheduleHandshakeFsm.non_empty (get_or "done" p.done_var)) _ q₁ in
    let (start, e₃, q₃) =
      >>=-eq-ok (ScheduleHandshakeFsm.non_empty (get_or "start" p.start)) _ q₂ in
    by_action (record { state_var = state_var; done_var = done_var; start = start }) name
      (find_action name s.actions) refl q₃
  where
    by_loop :
        (g : Signals) (name : String) (a : Action) (l : Option LoopMarker)
        → find_action name s.actions ≡ some a
        → a.loop ≡ l
        → ScheduleHandshakeFsm.schedule_loop g name s l a ≡ ok s'
        → (s' ≡ s) ⊎ Scheduled s s'
    by_loop g name a none f e q = inl (sym (ok_inj q))
    by_loop g name a (some loop) f e q =
        let (a', m, q') = >>=-eq-ok (ScheduleHandshakeFsm.scheduled g loop a) _ q in
        inr (record {
          signals = g;
          name = name;
          action = a;
          loop = loop;
          new = a';
          found = f;
          recorded = e;
          made = m;
          changed = sym (ok_inj q');
        })

    by_action :
        (g : Signals) (name : String) (o : Option Action)
        → find_action name s.actions ≡ o
        → (elim o [ none ↦ ok s | some a ↦ ScheduleHandshakeFsm.schedule_loop g name s a.loop a ])
          ≡ ok s'
        → (s' ≡ s) ⊎ Scheduled s s'
    by_action g name none f q = inl (sym (ok_inj q))
    by_action g name (some a) f q = by_loop g name a a.loop f refl q

-- ===== src/Sequencer/Action/Completed.antt =====
-- A sequence that runs undisturbed.
use eeros_framework.Base.{
  ℕ, suc, ◌≡◌, refl, sym, ◌∙◌, true, List, Store, ap, subst, update_self, ◌==◌, ==_iff, Bool-cases,
  inl, inr, All, ok, ℤ, negsuc,
}
use eeros_framework.Sequencer.Monitors.{
  Monitor, SequenceState, idle, starting, running, terminated, BaseSequence, clear_active_monitor,
}
use eeros_framework.Sequencer.Monitors.Quiet.{AreQuiet, check_monitors-quiet}
use eeros_framework.Sequencer.Action.{
  Custom, set_state, turn, turn_idle, turn_starting, turn_running, loop, action,
}
use eeros_framework.Sequencer.Action.Aborted.{at_check, loop-step, loop-terminated, set_state_self}

-- No monitor on the caller stack of a sequence fires.
abbrev pub IsUndisturbed : {W : Type 0} → Custom W → ℕ → Store BaseSequence → Type 0
IsUndisturbed c self h = All (λ s. AreQuiet c.validate (h s).monitors) (h self).caller_stack

-- What a sequence of the application does that lets the sequences be and is allowed to start and to
-- leave at once.
pub record IsPlain {W : Type 0} (c : Custom W) : Type 0 where
  pub pre_true : (x : Store BaseSequence × W) → (c.pre x).0 ≡ true
  pub pre_keeps : (x : Store BaseSequence × W) → (c.pre x).1.0 ≡ x.0
  pub exit_true : (x : Store BaseSequence × W) → (c.exit x).0 ≡ true
  pub action_keeps : (x : Store BaseSequence × W) → (c.action x).1.0 ≡ x.0

set_state-monitors :
    (p q : ℕ) (s : SequenceState) (h : Store BaseSequence)
    → (set_state p s h q).monitors ≡ (h q).monitors
unfolding set_state
set_state-monitors p q s h = elim (Bool-cases (p == q)) [
  | inl e ↦ rw e (ap (λ r. (h r).monitors) ((==_iff p q).0 e))
  | inr n ↦ rw n refl
]

set_state-caller_stack :
    (p q : ℕ) (s : SequenceState) (h : Store BaseSequence)
    → (set_state p s h q).caller_stack ≡ (h q).caller_stack
unfolding set_state
set_state-caller_stack p q s h = elim (Bool-cases (p == q)) [
  | inl e ↦ rw e (ap (λ r. (h r).caller_stack) ((==_iff p q).0 e))
  | inr n ↦ rw n refl
]

IsUndisturbed-set_state :
    {W : Type 0} (c : Custom W) (self p : ℕ) (s : SequenceState) (h : Store BaseSequence)
    → IsUndisturbed c self h
    → IsUndisturbed c self (set_state p s h)
IsUndisturbed-set_state c self p s h =
    subst (λ (x : List ℕ × (ℕ → List Monitor)). All (λ q. AreQuiet c.validate (x.1 q)) x.0)
      (λ i. (sym (set_state-caller_stack p self s h) i, λ q. sym (set_state-monitors p q s h) i))

at_check_self : (self : ℕ) (h : Store BaseSequence) → (at_check self h self).state ≡ idle
unfolding clear_active_monitor
at_check_self self h =
    ap (λ (x : BaseSequence). x.state) (update_self (set_state self idle h) self _)
    ∙ set_state_self self idle h

module _ {W : Type 0} (c : Custom W) where
  first_pass :
      (n self : ℕ) (ret : ℤ) (h : Store BaseSequence) (w : W)
      → IsUndisturbed c self (at_check self h)
      → (v : W) × (loop c (suc n) self ret (set_state self idle h, w)
          ≡ loop c n self ret (set_state self starting (at_check self h), v))
  unfolding turn turn_idle
  first_pass n self ret h w quiet =
      let (w1, e1) = check_monitors-quiet c.validate c.start self (at_check self h) w quiet in
      (
        w1,
        loop-step c n self ret (set_state self idle h) w idle (set_state_self self idle h)
            ∙ rw (e1, at_check_self self h) refl,
      )

  second_pass :
      (n self : ℕ) (ret : ℤ) (h : Store BaseSequence) (w : W)
      → IsPlain c
      → (h self).state ≡ starting
      → (v v' : W) × (loop c (suc n) self ret (h, w)
          ≡ loop c n self (c.action (set_state self running h, v)).0 (set_state self running h, v'))
  unfolding turn turn_starting
  second_pass n self ret h w plain e =
      let v = (c.pre (h, w)).1.1 in
      let r = c.action (set_state self running h, v) in
      let start : c.pre (h, w) ≡ (true, (h, v)) =
        λ i. (plain.pre_true (h, w) i, (plain.pre_keeps (h, w) i, v)) in
      let done : r ≡ (r.0, (set_state self running h, r.1.1)) =
        λ i. (r.0, (plain.action_keeps (set_state self running h, v) i, r.1.1)) in
      (
        v,
        r.1.1,
        loop-step c n self ret h w starting e
            ∙ rw start (ap (λ (a : ℤ × (Store BaseSequence × W)). loop c n self a.0 a.1) done),
      )

  third_pass :
      (n self : ℕ) (ret : ℤ) (h : Store BaseSequence) (w : W)
      → IsPlain c
      → IsUndisturbed c self h
      → (h self).state ≡ running
      → (x : Store BaseSequence × W) × (loop c (suc n) self ret (h, w) ≡ ok (ret, x))
        × ((x.0 self).state ≡ terminated)
  unfolding turn turn_running
  third_pass n self ret h w plain quiet e =
      let (v, e1) = check_monitors-quiet c.validate c.start self h w quiet in
      let y = (c.exit (h, v)).1 in
      let ends = set_state_self self terminated y.0 in
      (
        (set_state self terminated y.0, y.1),
        loop-step c n self ret h w running e
            ∙ rw (e1, e, plain.exit_true (h, v))
                (loop-terminated c n self ret (set_state self terminated y.0) y.1 ends),
        ends,
      )

  -- When no monitor on the caller stack of a sequence fires, it may start and leave at once, and
  -- its `action` leaves the sequences as they are, it is terminated after three passes of its loop,
  -- and its result is that of its `action`, called in state running.
  pub action-completed :
      (n self : ℕ) (h : Store BaseSequence) (w : W)
      → IsPlain c
      → IsUndisturbed c self (at_check self h)
      → (x : Store BaseSequence × W) × (v : W) × (action c (suc (suc (suc n))) self (h, w)
          ≡ ok (
            (c.action (set_state self running (set_state self starting (at_check self h)), v)).0,
            x,
          ))
        × ((x.0 self).state ≡ terminated)
  unfolding action
  action-completed n self h w plain quiet =
      let h1 = set_state self starting (at_check self h) in
      let h2 = set_state self running h1 in
      let (w1, e1) = first_pass (suc (suc n)) self (negsuc 0) h w quiet in
      let (v, w2, e2) =
        second_pass (suc n) self (negsuc 0) h1 w1 plain (set_state_self self starting _) in
      let still =
        IsUndisturbed-set_state c self self running h1
          (IsUndisturbed-set_state c self self starting (at_check self h) quiet) in
      let (x, e3, t) =
        third_pass n self (c.action (h2, v)).0 h2 w2 plain still (set_state_self self running h1) in
      (x, v, e1 ∙ e2 ∙ e3, t)

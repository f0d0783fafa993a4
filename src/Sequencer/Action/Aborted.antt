-- ===== src/Sequencer/Action/Aborted.antt =====
-- A sequence that is aborted before it runs.
use eeros_framework.Base.{
  ℕ, zero, suc, ◌≡◌, refl, ap, Store, update_self, if◌then◌else◌, ok, ◌>>=◌, ℤ,
}
use eeros_framework.Sequencer.Monitors.{
  SequenceState, idle, terminated, BaseSequence, clear_active_monitor,
}
use eeros_framework.Sequencer.Action.{Custom, set_state, is_terminated, turn, loop}

-- The store at the check of a sequence that is about to start.
abbrev pub at_check : ℕ → Store BaseSequence → Store BaseSequence
at_check self h = clear_active_monitor self (set_state self idle h)

pub set_state_self :
    (self : ℕ) (s : SequenceState) (h : Store BaseSequence) → (set_state self s h self).state ≡ s
unfolding set_state
set_state_self self s h =
    ap (λ (x : BaseSequence). x.state) (update_self h self (record (h self) { state = s }))

module _ {W : Type 0} (c : Custom W) where
  pub loop-step :
      (n self : ℕ) (ret : ℤ) (h : Store BaseSequence) (w : W) (s : SequenceState)
      → (h self).state ≡ s
      → loop c (suc n) self ret (h, w) ≡ (
          if is_terminated s
          then ok (ret, (h, w))
          else (turn c s self ret (h, w) >>= (λ (r, x). loop c n self r x)))
  unfolding loop
  loop-step n self ret h w s e =
      ap
        (λ s.
          if is_terminated s
          then ok (ret, (h, w))
          else (turn c s self ret (h, w) >>= (λ (r, x). loop c n self r x)))
        e

  -- A sequence that has terminated stays as it is.
  pub loop-terminated :
      (n self : ℕ) (ret : ℤ) (h : Store BaseSequence) (w : W)
      → (h self).state ≡ terminated
      → loop c n self ret (h, w) ≡ ok (ret, (h, w))
  unfolding loop
  loop-terminated zero self ret h w e = refl
  loop-terminated (suc n) self ret h w e = loop-step n self ret h w terminated e

-- ===== src/Sequencer/Action.antt =====
-- The state machine of a sequence: `BaseSequence::action` of src/sequencer/BaseSequence.cpp. What a
-- sequence of the application defines is a parameter: `pre` and `exit` are `checkPreCondition` and
-- `checkExitCondition`, `custom` is its `action`, `reset_timeout` restarts the clock of the
-- condition with a number of the sequence. The wait for a step command is left out.
pub mod Aborted
pub mod Completed
use eeros_framework.Base.{
  ℕ, zero, suc, ◌≡◌, refl, Bool, true, false, Option, none, some, List, [], ◌∷◌, Store, update,
  if◌then◌else◌, Result, ok, throw, ◌>>=◌, ℤ, pos, negsuc,
}
use eeros_framework.Sequencer.Monitors.{
  SequenceState, idle, starting, running, paused, aborting, terminated, restarting, BaseSequence,
  clear_active_monitor, check_monitors,
}

-- `state = ...` in the sequence at an address.
unfoldable pub set_state : ℕ → SequenceState → Store BaseSequence → Store BaseSequence
set_state self state h = update h self (record (h self) { state = state })

-- After the check of an idle sequence, and after that of a running one.
abbrev pub from_idle : SequenceState → SequenceState
from_idle aborting = aborting
from_idle restarting = restarting
from_idle s = starting

abbrev pub is_terminated : SequenceState → Bool
is_terminated terminated = true
is_terminated s = false

abbrev is_restarting : SequenceState → Bool
is_restarting restarting = true
is_restarting s = false

-- What the application gives a sequence.
pub record Custom (W : Type 0) : Type 0 where
  pub validate : ℕ → W → Bool × W
  pub start : ℕ → Store BaseSequence × W → Store BaseSequence × W
  pub pre : Store BaseSequence × W → Bool × (Store BaseSequence × W)
  pub exit : Store BaseSequence × W → Bool × (Store BaseSequence × W)
  pub action : Store BaseSequence × W → ℤ × (Store BaseSequence × W)
  pub reset_timeout : ℕ → W → W

module _ {W : Type 0} (c : Custom W) where
  turn_idle : ℕ → ℤ → Store BaseSequence × W → Result (ℤ × (Store BaseSequence × W))
  turn_idle self ret (h, w) = do
    (h', w') ← check_monitors c.validate c.start self (clear_active_monitor self h, w)
    ok (ret, (set_state self (from_idle (h' self).state) h', w'))

  turn_starting : ℕ → ℤ → Store BaseSequence × W → Result (ℤ × (Store BaseSequence × W))
  turn_starting self ret x =
      let (allowed, (h', w')) = c.pre x in
      if allowed
      then ok (c.action (set_state self running h', w'))
      else ok (ret, (set_state self terminated h', w'))

  turn_running : ℕ → ℤ → Store BaseSequence × W → Result (ℤ × (Store BaseSequence × W))
  turn_running self ret x = do
    (h', w') ← check_monitors c.validate c.start self x
    let (leaves, (h2, w2)) = c.exit (h', w')
    if is_restarting (h' self).state
        then ok (ret, (h', w'))
        else ok (ret, (if leaves then (set_state self terminated h2, w2) else (h2, w2)))

  -- One pass through the loop of `action`.
  pub turn : SequenceState → ℕ → ℤ → Store BaseSequence × W → Result (ℤ × (Store BaseSequence × W))
  unfolding turn_idle turn_starting turn_running
  turn idle self ret x = turn_idle self ret x
  turn starting self ret x = turn_starting self ret x
  turn running self ret x = turn_running self ret x
  turn paused self ret x = ok (ret, x)
  turn aborting self ret (h, w) = ok (ret, (set_state self terminated h, w))
  turn terminated self ret x = ok (ret, x)
  turn restarting self ret (h, w) =
      ok (ret, (clear_active_monitor self (set_state self starting h), c.reset_timeout self w))

  -- The loop, for at most `n` passes.
  pub loop : ℕ → ℕ → ℤ → Store BaseSequence × W → Result (ℤ × (Store BaseSequence × W))
  unfolding turn
  loop zero self ret x = ok (ret, x)
  loop (suc n) self ret (h, w) =
      if is_terminated (h self).state
      then ok (ret, (h, w))
      else (do (ret', x') ← turn (h self).state self ret (h, w); loop n self ret' x')

  -- `action`, for at most `n` passes.
  pub action : ℕ → ℕ → Store BaseSequence × W → Result (ℤ × (Store BaseSequence × W))
  action n self (h, w) = loop n self (negsuc 0) (set_state self idle h, w)

-- ===== src/Sequencer/Examples.antt =====
-- Runs of two sequences, the main sequence at 0 and one at 1 that it called, and of a timeout.
use eeros_framework.Base.{
  ℕ, zero, suc, ◌+◌, ◌≡◌, refl, true, false, none, some, [], ◌∷◌, ◌==◌, Store, ok, pos,
}
use eeros_framework.Sequencer.Monitors.{
  starting, running, terminated, abort, Monitor, BaseSequence, clear_active_monitor,
}
use eeros_framework.Sequencer.Action.{Custom, set_state, action}
use eeros_framework.Sequencer.Action.Aborted.{at_check}
use eeros_framework.Sequencer.Action.Completed.{IsPlain, IsUndisturbed, action-completed}

-- The condition 0 holds. The world counts the calls of `action`.
abbrev plain : Custom ℕ
plain = record {
  validate = λ k w. (k == 0, w);
  start = λ e x. x;
  pre = λ x. (true, x);
  exit = λ x. (true, x);
  action = λ (h, w). (pos 9, (h, w + 1));
  reset_timeout = λ k w. w;
}

abbrev watch : ℕ → Monitor
watch k = record { owner = 0; exception_sequence = some 7; condition = k; behavior = abort }

abbrev main : ℕ → BaseSequence
main k = record {
  state = running;
  in_exc_processing = false;
  monitors = watch k ∷ [];
  monitor_fired = false;
  caller_stack = 0 ∷ [];
  active_monitor = none;
}

abbrev called : BaseSequence
called = record {
  state = running;
  in_exc_processing = false;
  monitors = [];
  monitor_fired = false;
  caller_stack = 1 ∷ 0 ∷ [];
  active_monitor = none;
}

-- The monitor of the main sequence watches condition `k`.
abbrev sequences : ℕ → Store BaseSequence
sequences k zero = main k
sequences k (suc p) = called

plain-IsPlain : IsPlain plain
plain-IsPlain = record {
  pre_true = λ x. refl;
  pre_keeps = λ x. refl;
  exit_true = λ x. refl;
  action_keeps = λ x. refl;
}

quiet-IsUndisturbed : IsUndisturbed plain 1 (at_check 1 (sequences 3))
unfolding clear_active_monitor set_state
quiet-IsUndisturbed = (tt, ((λ w. refl, tt), tt))

action-completed_example :
    (x : Store BaseSequence × ℕ) × (v : ℕ) × (action plain 3 1 (sequences 3, 5)
      ≡ ok (
        (plain.action (set_state 1 running (set_state 1 starting (at_check 1 (sequences 3))), v)).0,
        x,
      ))
    × ((x.0 1).state ≡ terminated)
action-completed_example =
    action-completed plain 0 1 (sequences 3) 5 plain-IsPlain quiet-IsUndisturbed

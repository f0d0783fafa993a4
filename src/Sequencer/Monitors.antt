-- ===== src/Sequencer/Monitors.antt =====
-- Sequences and their monitors: `checkMonitors` and `checkMonitor` of
-- src/sequencer/BaseSequence.cpp. Sequences stand in a store. `W` is the rest of the world:
-- `validate` evaluates the condition with a number and `start` starts the sequence at an address,
-- both code of the application.
pub mod Fired
pub mod Quiet
pub mod Check
use eeros_framework.Base.{
  ℕ, ◌≡◌, Bool, true, false, Option, none, some, List, [], ◌∷◌, Store, update, if◌then◌else◌,
  Result, ok, throw, undefined,
}

pub data SequenceState : Type 0 where
  idle starting running paused aborting terminated restarting : SequenceState

pub data SequenceProp : Type 0 where
  resume abort restart : SequenceProp

-- `owner` is the address of the sequence that the monitor belongs to.
pub record Monitor : Type 0 where
  pub owner : ℕ
  pub exception_sequence : Option ℕ
  pub condition : ℕ
  pub behavior : SequenceProp

pub record BaseSequence : Type 0 where
  pub state : SequenceState
  pub in_exc_processing : Bool
  pub monitors : List Monitor
  pub monitor_fired : Bool
  pub caller_stack : List ℕ
  pub active_monitor : Option Monitor

-- The switch over the behavior of a monitor that fired.
abbrev pub apply_behavior : SequenceProp → BaseSequence → BaseSequence
apply_behavior resume s = record s { state = running; monitor_fired = false }
apply_behavior abort s = record s { state = aborting }
apply_behavior restart s = record s { state = restarting }

-- `prop == SequenceProp::abort || prop == SequenceProp::restart`
abbrev pub stops : SequenceProp → Bool
stops resume = false
stops abort = true
stops restart = true

unfoldable pub clear_active_monitor : ℕ → Store BaseSequence → Store BaseSequence
clear_active_monitor self h =
    update h self (record (h self) { monitor_fired = false; active_monitor = none })

-- The second loop of `checkMonitors`, for an active monitor with behavior `prop`.
pub handle_callers : SequenceProp → List ℕ → Store BaseSequence → Store BaseSequence
handle_callers prop [] h = h
handle_callers prop (s ∷ ss) h =
    let h' = if stops prop then update h s (record (h s) { state = aborting }) else h in
    let rest = handle_callers prop ss h' in if (h s).monitor_fired then h else rest

module _ {W : Type 0} (validate : ℕ → W → Bool × W)
    (start : ℕ → Store BaseSequence × W → Store BaseSequence × W) where
  start_exception : Option ℕ → Store BaseSequence × W → Store BaseSequence × W
  start_exception none x = x
  start_exception (some e) x = start e x

  -- What a monitor does that fires while its owner has not fired.
  fire : Monitor → Store BaseSequence × W → Store BaseSequence × W
  unfolding start_exception
  fire m (h, w) =
      let s = record (h m.owner) {
        monitor_fired = true;
        active_monitor = some m;
        in_exc_processing = true;
      } in
      let (h2, w2) = start_exception m.exception_sequence (update h m.owner s, w) in
      let h3 = update h2 m.owner (record (h2 m.owner) { in_exc_processing = false }) in
      (update h3 m.owner (apply_behavior m.behavior (h3 m.owner)), w2)

  -- The owner, if the monitor fired, else nothing.
  pub check_monitor : Monitor → Store BaseSequence × W → Option ℕ × (Store BaseSequence × W)
  unfolding fire
  check_monitor m (h, w) =
      let (fires, w') = validate m.condition w in
      if fires
      then (some m.owner, (if (h m.owner).monitor_fired then (h, w') else fire m (h, w')))
      else (none, (h, w'))

  -- The loops of `checkMonitors` over the monitors and over the caller stack; `active` is
  -- `activeSeq`.
  pub check_all :
      List Monitor → Option ℕ → Store BaseSequence × W → Option ℕ × (Store BaseSequence × W)
  unfolding check_monitor
  check_all [] active x = (active, x)
  check_all (m ∷ ms) active x =
      let (val, x') = check_monitor m x in
      check_all ms (elim val [ none ↦ active | some s ↦ some s ]) x'

  pub check_stack : List ℕ → Option ℕ → Store BaseSequence × W → Option ℕ × (Store BaseSequence × W)
  unfolding check_all
  check_stack [] active x = (active, x)
  check_stack (s ∷ ss) active (h, w) =
      let (active', x') =
        if (h s).in_exc_processing
        then (active, (h, w))
        else check_all (h s).monitors active (h, w) in
      check_stack ss active' x'

  -- `checkMonitors` after its first loop; a null pointer `activeMonitor` is undefined behavior.
  handle_monitor : ℕ → Option Monitor → Store BaseSequence × W → Result (Store BaseSequence × W)
  handle_monitor self none x = throw undefined
  handle_monitor self (some m) (h, w) = ok (handle_callers m.behavior (h self).caller_stack h, w)

  handle_active : ℕ → Option ℕ × (Store BaseSequence × W) → Result (Store BaseSequence × W)
  unfolding handle_monitor
  handle_active self (none, x) = ok x
  handle_active self (some s, (h, w)) = handle_monitor self (h s).active_monitor (h, w)

  pub check_monitors : ℕ → Store BaseSequence × W → Result (Store BaseSequence × W)
  unfolding check_stack handle_active handle_monitor
  check_monitors self (h, w) = handle_active self (check_stack (h self).caller_stack none (h, w))

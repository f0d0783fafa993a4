-- ===== src/Control/Step.antt =====
-- The block that puts out a step: includes/eeros/control/Step.hpp. The clock of the system is read
-- by the caller, twice in a run.
pub mod Delayed
use eeros_framework.Base.{ℕ, ◌+◌, Bool, true, false, not, ◌&&◌, leb, if◌then◌else◌}
use eeros_framework.Control.Signals.{Signal}

-- Times are numbers of one unit.
pub record Step (T : Type 0) : Type 0 where
  pub init_value : T
  pub step_height : T
  pub delay_time : ℕ
  pub time : ℕ
  pub step_done : Bool
  pub first : Bool
  pub out : Signal T

module _ {T : Type 0} (plus : T → T → T) where
  pub reset : Step T → Step T
  reset s = record s { step_done = false; first = true }

  -- What is not initialised is `junk`.
  pub create : T → T → ℕ → ℕ → Signal T → Step T
  unfolding reset
  create init_value step_height delay_time junk out = reset (record {
    init_value = init_value;
    step_height = step_height;
    delay_time = delay_time;
    time = junk;
    step_done = false;
    first = true;
    out = out;
  })

  pub set_init_value : T → Step T → Step T
  set_init_value v s = record s { init_value = v }

  pub set_step_height : T → Step T → Step T
  set_step_height v s = record s { step_height = v }

  pub set_delay_time : ℕ → Step T → Step T
  set_delay_time v s = record s { delay_time = v }

  -- The first part of `run`.
  pub begin : ℕ → Step T → Step T
  begin now s =
      if s.first
      then record s {
        time = s.delay_time + now;
        out = record s.out { value = s.init_value };
        first = false;
      }
      else s

  -- The second part of `run`.
  pub rise : ℕ → Step T → Step T
  rise now s =
      if not s.step_done && leb s.time now
      then record s {
        out = record s.out { value = plus s.init_value s.step_height };
        step_done = true;
      }
      else s

  -- A run with the times that the clock gives in it; `stamp` is the timestamp.
  pub run : ℕ → ℕ → ℕ → Step T → Step T
  unfolding begin rise
  run now later stamp s =
      let r = rise later (begin now s) in record r { out = record r.out { timestamp = stamp } }

-- ===== src/Control/Transition.antt =====
-- The block that carries a signal from one time domain to another:
-- includes/eeros/control/Transition.hpp. The mutex makes each run of one of the two blocks exclusive.
-- `Step` is the type of the differences of timestamps that are interpolated, a double.
pub mod Picked
mod Examples
use eeros_framework.Base.{
  ℕ, zero, suc, ◌+◌, ◌-◌, ◌%◌, ◌^◌, Bool, true, false, Option, none, some, List, [], ◌∷◌, ◌++◌, ltb,
  ◌==◌, if◌then◌else◌, get_elem?, Result, ok, throw, ◌>>=◌, undefined,
}
use eeros_framework.Control.Signals.{Signal}

-- The arithmetic with the ratio: the step of the values and of the timestamps from one signal to
-- another, and a value and a timestamp that is `count` steps behind.
pub record Interpolation (T Step : Type 0) : Type 0 where
  pub value_step : T → T → T
  pub time_step : ℕ → ℕ → Step
  pub value_at : T → T → ℕ → T
  pub time_at : ℕ → Step → ℕ → ℕ

-- `up` stands in both blocks, from a slow to a fast time domain.
pub record Transition (T Step : Type 0) : Type 0 where
  pub steady : Bool
  pub up : Bool
  pub refresh : Bool
  pub buf : List (Signal T)
  pub in_signal : Signal T
  pub prev_in : Signal T
  pub out_in : Signal T
  pub out_prev_in : Signal T
  pub d_val : T
  pub d_time : Step
  pub count : ℕ
  pub out : Signal T

module _ {T : Type 0} where
  -- Where the loop over the buffer stops.
  pub older : ℕ → List (Signal T) → ℕ
  older time [] = 0
  older time (s ∷ ss) = let rest = older time ss in if ltb s.timestamp time then suc rest else 0

  -- `if (i > 0) i--; Signal<T> sig = buf[i];`, which may lie outside of the buffer.
  pub signal_before : ℕ → List (Signal T) → Result (Signal T)
  signal_before i buf = elim (get_elem? buf (if i == 0 then i else i - 1)) [
    | none ↦ throw undefined
    | some s ↦ ok s
  ]

  -- The signal that is taken from the buffer at a time.
  pub pick : ℕ → List (Signal T) → Result (Signal T)
  pick time buf = signal_before (older time buf) buf

module _ {T Step : Type 0} where
  -- `ratio_up` says that the ratio is at least 1. What is not initialised is `junk`, a signal after
  -- `clear()` is `cleared`.
  pub create : Bool → Bool → Signal T → Signal T → Step → Bool → Transition T Step
  create ratio_up steady cleared junk junk_step junk_refresh = record {
    steady = steady;
    up = ratio_up;
    refresh = if ratio_up then false else junk_refresh;
    buf = [];
    in_signal = if ratio_up then cleared else junk;
    prev_in = if ratio_up then cleared else junk;
    out_in = cleared;
    out_prev_in = cleared;
    d_val = junk.value;
    d_time = junk_step;
    count = 0;
    out = cleared;
  }

  -- `TransitionInBlock::run` with a signal at the input.
  pub run_in : Signal T → Transition T Step → Transition T Step
  run_in s c =
      if c.steady
      then record c { in_signal = s }
      else (if c.up
          then record c { prev_in = c.in_signal; in_signal = s; refresh = true }
          else record c { buf = c.buf ++ (s ∷ []) })

  -- The run of the out block in the way up, with its two parts.
  pub run_refresh : Interpolation T Step → Transition T Step → Transition T Step
  run_refresh a c =
      if c.refresh
      then record c {
        out_prev_in = c.prev_in;
        out_in = c.in_signal;
        refresh = false;
        count = 0;
        d_val = a.value_step c.prev_in.value c.in_signal.value;
        d_time = a.time_step c.prev_in.timestamp c.in_signal.timestamp;
      }
      else c

  pub run_up : Interpolation T Step → Transition T Step → Transition T Step
  unfolding run_refresh
  run_up a c =
      let d = run_refresh a c in
      record d {
        out = record {
          value = a.value_at d.out_prev_in.value d.d_val d.count;
          timestamp = a.time_at d.out_prev_in.timestamp d.d_time d.count;
        };
        count = (d.count + 1) % 2 ^ 32;
      }

  pub run_down : ℕ → Transition T Step → Result (Transition T Step)
  run_down time c = do s ← pick time c.buf; ok (record c { buf = []; out = s })

  -- `TransitionOutBlock::run`, with the timestamp of the signal at its input.
  pub run_out : Interpolation T Step → ℕ → Transition T Step → Result (Transition T Step)
  unfolding run_up run_down
  run_out a time c =
      if c.steady
      then ok (record c { out = c.in_signal })
      else (if c.up then ok (run_up a c) else run_down time c)

-- ===== src/Control/Trace.antt =====
-- The block that records a signal: includes/eeros/control/Trace.hpp.
pub mod Recorded
pub mod Latest
mod Examples
use eeros_framework.Base.{
  ℕ, ◌+◌, ◌%◌, Bool, true, false, ◌==◌, if◌then◌else◌, List, [], ◌∷◌, Store, update,
}
use eeros_framework.Control.Signals.{Signal}

-- `buf` stands for the arrays `buf` and `timeBuf`.
pub record Trace (T : Type 0) : Type 0 where
  pub max_buf_len : ℕ
  pub size : ℕ
  pub index : ℕ
  pub cycle : Bool
  pub running : Bool
  pub buf : Store (Signal T)

module _ {T : Type 0} where
  -- The arrays hold `junk` at first.
  pub create : Signal T → ℕ → Trace T
  create junk buf_len = record {
    max_buf_len = buf_len;
    size = 0;
    index = 0;
    cycle = false;
    running = false;
    buf = λ i. junk;
  }

  pub run : Signal T → Trace T → Trace T
  run s t =
      if t.running
      then (let wraps = (t.index + 1) == t.max_buf_len in
          record t {
            index = if wraps then 0 else t.index + 1;
            cycle = if wraps then true else t.cycle;
            buf = update t.buf t.index s;
          })
      else t

  -- `getTrace` and `getTimestampTrace`: a new array, whose length is written to `size`. What the
  -- array is read for beyond that length does not matter.
  pub get_trace : Trace T → Trace T × Store (Signal T)
  get_trace t =
      if t.cycle
      then (record t { size = t.max_buf_len }, λ i. t.buf ((i + t.index) % t.max_buf_len))
      else (record t { size = t.index }, t.buf)

  pub get_size : Trace T → ℕ
  get_size t = t.size

  pub enable : Trace T → Trace T
  enable t = record t { running = true }

  pub disable : Trace T → Trace T
  disable t = record t { running = false }

pub data Call (T : Type 0) : Type 0 where
  call_run : Signal T → Call T
  call_enable : Call T
  call_disable : Call T
  call_get_trace : Call T

module _ {T : Type 0} where
  pub call : Call T → Trace T → Trace T
  unfolding run enable disable get_trace
  call (call_run s) t = run s t
  call call_enable t = enable t
  call call_disable t = disable t
  call call_get_trace t = (get_trace t).0

  pub calls : List (Call T) → Trace T → Trace T
  unfolding call
  calls [] t = t
  calls (c ∷ cs) t = calls cs (call c t)

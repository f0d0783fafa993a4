-- ===== src/Control/Delay.antt =====
-- The block that delays a signal: includes/eeros/control/Delay.hpp.
pub mod Behind
use eeros_framework.Base.{
  ℕ, zero, suc, ◌+◌, ◌-◌, ◌≤◌, ◌<◌, ◌≡◌, ◌≢◌, refl, sym, ap, ◌∙◌, Bool, true, false, arith, ltb,
  leb, ◌⊎◌, le→leb, subst, ◌==◌, ==_iff, if◌then◌else◌, Store, update, update_self, update_ne,
  Bool-cases, inl, inr, Result, ok, throw, bad_delay,
}
use eeros_framework.Control.Signals.{Signal}

-- `buf` stands for the arrays `buf` and `timeBuf`, and `out` for the signal of the output.
pub record Delay (T : Type 0) : Type 0 where
  pub buf_len : ℕ
  pub index : ℕ
  pub cycle : Bool
  pub buf : Store (Signal T)
  pub out : Signal T

module _ {T : Type 0} where
  -- The arrays and the output hold `junk` at first; `buf_len` is what `delay / ts` is truncated to.
  pub create : Signal T → ℕ → Result (Delay T)
  create junk buf_len =
      if ltb buf_len 1
      then throw bad_delay
      else ok (record { buf_len = buf_len; index = 0; cycle = false; buf = λ i. junk; out = junk })

  -- `run` with a signal at the input.
  pub run : Signal T → Delay T → Delay T
  run s d =
      let buf = update d.buf d.index s in
      let wraps = (d.index + 1) == d.buf_len in
      let index = if wraps then 0 else d.index + 1 in
      let cycle = if wraps then true else d.cycle in
      record d { index = index; cycle = cycle; buf = buf; out = if cycle then buf index else d.out }

  -- `m` runs, run `i` with the signal `x i`.
  pub run_times : (ℕ → Signal T) → ℕ → Delay T → Delay T
  unfolding run
  run_times x zero d = d
  run_times x (suc m) d = run (x m) (run_times x m d)

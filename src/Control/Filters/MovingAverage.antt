-- ===== src/Control/Filters/MovingAverage.antt =====
-- The weighted sum of the latest inputs: includes/eeros/control/filter/MovingAverageFilter.hpp.
pub mod Sums
use eeros_framework.Base.{
  ℕ, zero, suc, ◌+◌, ◌-◌, ◌<◌, ◌≤◌, ◌≡◌, refl, ◌∙◌, ap, ap₂, sym, subst, ltb, if◌then◌else◌, arith,
  Bool, true, false, Store, update, for_below,
}
use eeros_framework.Math.Ring.{Ring, sum, sum_congr}
use eeros_framework.Control.Signals.{Signal}
use eeros_framework.Control.Filters.Window.{padded, shift, shift_loop, HasLatest, shift-HasLatest}

pub record MovingAverageFilter (T : Type 0) : Type 0 where
  pub coefficients : ℕ → T
  pub previous_values : Store T
  pub enabled : Bool

module _ {T : Type 0} (r : Ring T) (n : ℕ) where
  pub create : (ℕ → T) → MovingAverageFilter T
  create coeff = record { coefficients = coeff; previous_values = λ i. r.zero; enabled = true }

  pub enable : MovingAverageFilter T → MovingAverageFilter T
  enable f = record f { enabled = true }

  pub disable : MovingAverageFilter T → MovingAverageFilter T
  disable f = record f { enabled = false }

  -- The loop of `run`, with the array and the result.
  accumulate : (ℕ → T) → ℕ → Store T × T → Store T × T
  accumulate coeff k st =
      for_below k
        (λ i (st : Store T × T).
          let values = update st.0 i (st.0 (i + 1)) in
          (values, r.add st.1 (r.mul (coeff i) (values i))))
        st

  -- `run` with a signal at the input, and the signal at the output.
  pub run : Signal T → MovingAverageFilter T → MovingAverageFilter T × Signal T
  unfolding accumulate
  run s f =
      let val = s.value in
      let (values, result) =
        accumulate f.coefficients (n - 1) (f.previous_values, r.mul (f.coefficients (n - 1)) val) in
      (
        record f { previous_values = update values (n - 1) val },
        record { value = if f.enabled then result else s.value; timestamp = s.timestamp },
      )

  -- `m` runs, run `i` with the signal `x i`, enabled or disabled before by `on i`.
  pub run_times : (ℕ → Signal T) → (ℕ → Bool) → ℕ → MovingAverageFilter T → MovingAverageFilter T
  unfolding run enable disable
  run_times x on zero f = f
  run_times x on (suc m) f =
      let f = run_times x on m f in (run (x m) (if on m then enable f else disable f)).0

-- ===== src/Control/Filters/Median.antt =====
-- The median of the latest inputs: includes/eeros/control/filter/MedianFilter.hpp, for arithmetic
-- types. `sort` is `std::sort` on the copy of the array.
pub mod Middle
use eeros_framework.Base.{
  ℕ, zero, suc, ◌-◌, ◌/◌, if◌then◌else◌, Bool, true, false, List, Store, update, first, get_or,
}
use eeros_framework.Control.Signals.{Signal}
use eeros_framework.Control.Filters.Window.{shift}

pub record MedianFilter (T : Type 0) : Type 0 where
  pub current_values : Store T
  pub current_median_value : T
  pub enabled : Bool

module _ {T : Type 0} (sort : List T → List T) (n : ℕ) where
  -- The array holds zeros at first, and the value is not initialised.
  pub create : T → T → MedianFilter T
  create z junk = record { current_values = λ i. z; current_median_value = junk; enabled = true }

  pub enable : MedianFilter T → MedianFilter T
  enable f = record f { enabled = true }

  pub disable : MedianFilter T → MedianFilter T
  disable f = record f { enabled = false }

  -- `run` with a signal at the input, and the signal at the output.
  pub run : Signal T → MedianFilter T → MedianFilter T × Signal T
  run s f =
      let values = update (shift n f.current_values) (n - 1) s.value in
      let temp = sort (first n values) in
      let median = get_or temp (n / 2) f.current_median_value in
      if f.enabled
      then (
        record f { current_values = values; current_median_value = median },
        record { value = median; timestamp = s.timestamp },
      )
      else (record f { current_values = values }, s)

  -- `m` runs, run `i` with the signal `x i`, enabled or disabled before by `on i`.
  pub run_times : (ℕ → Signal T) → (ℕ → Bool) → ℕ → MedianFilter T → MedianFilter T
  unfolding run enable disable
  run_times x on zero f = f
  run_times x on (suc m) f =
      let f = run_times x on m f in (run (x m) (if on m then enable f else disable f)).0

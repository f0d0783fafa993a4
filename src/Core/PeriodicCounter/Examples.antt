-- ===== src/Core/PeriodicCounter/Examples.antt =====
-- Three cycles, with times that are only told apart as long (true) or short (false).
use eeros_framework.Base.{ℕ, ◌-◌, ◌≡◌, refl, Bool, true, false, List, [], ◌∷◌, map, pos, ltb}
use eeros_framework.Math.Ring.{sub}
use eeros_framework.Core.Statistics
use eeros_framework.Core.Statistics.{adds}
use eeros_framework.Core.Statistics.Examples.{numbers}
use eeros_framework.Core.PeriodicCounter.{
  Surroundings, create, add_default_monitor, cycles, outside,
}
use eeros_framework.Core.PeriodicCounter.Measured.{run_times, periods, warned, cycles-measured}

abbrev clock : Surroundings Bool Unit
clock = record {
  numbers = numbers;
  seconds = λ a b. ltb 10 (b - a);
  quotient = λ a b. pos 0;
  twenty = true;
  call = λ f c. c;
}

abbrev later : List (ℕ × ℕ)
later = (10, 12) ∷ (30, 45) ∷ []

-- Of the two periods the second one is too long.
one_warning : warned clock false false (periods clock 0 later) ≡ true ∷ []
unfolding outside
one_warning = refl

cycles-measured_example :
    let r = numbers.ring in
    let d =
      cycles clock ((0, 5) ∷ later) (add_default_monitor clock false (create clock false 0)) in
    let empty = Statistics.reset numbers in
    (d.run ≡ adds numbers (run_times clock ((0, 5) ∷ later)) empty)
    × (d.period ≡ adds numbers (periods clock 0 later) empty)
    × (d.jitter ≡ adds numbers (map (λ p. sub r p false) (periods clock 0 later)) empty)
    × (d.log
        ≡ warned clock
            (r.mul false (sub r r.one false))
            (r.mul false (r.add r.one false))
            (periods clock 0 later))
cycles-measured_example = cycles-measured clock false false 0 0 5 later

-- ===== src/Control/Transition/Examples.antt =====
-- Three signals of a fast time domain and a run of the slow one.
use eeros_framework.Base.{
  ℕ, ◌+◌, ◌-◌, ◌*◌, ◌≡◌, refl, ◌⊎◌, false, List, [], ◌∷◌, ok, throw, undefined,
}
use eeros_framework.Control.Signals.{Signal}
use eeros_framework.Control.Transition.{
  Interpolation, Transition, create, older, pick, run_out, signal_before,
}
use eeros_framework.Control.Transition.Picked.{run_ins, run_out-down, IsPicked}

-- Whole numbers in place of the doubles; nothing is interpolated here.
abbrev numbers : Interpolation ℕ ℕ
numbers = record {
  value_step = λ a b. b - a;
  time_step = λ a b. b - a;
  value_at = λ v d n. v + n * d;
  time_at = λ t d n. t + n * d;
}

abbrev sample : ℕ → ℕ → Signal ℕ
sample v t = record { value = v; timestamp = t }

abbrev fast_to_slow : Transition ℕ ℕ
unfolding create
fast_to_slow = create false false (sample 0 0) (sample 0 0) 0 false

abbrev signals : List (Signal ℕ)
signals = sample 7 10 ∷ sample 8 20 ∷ sample 9 30 ∷ []

picks_the_second : pick 25 signals ≡ ok (sample 8 20)
unfolding pick signal_before older
picks_the_second = refl

run_out-down_example :
    ((signals ≡ []) × (run_out numbers 25 (run_ins signals fast_to_slow) ≡ throw undefined))
    ⊎ ((d : Transition ℕ ℕ) × (run_out numbers 25 (run_ins signals fast_to_slow) ≡ ok d)
        × IsPicked 25 signals d.out
        × (d.buf ≡ []))
unfolding create
run_out-down_example = run_out-down numbers 25 signals fast_to_slow refl refl refl

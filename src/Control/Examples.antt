-- ===== src/Control/Examples.antt =====
-- Runs of the blocks.
use eeros_framework.Base.{
  refl, nat_order, List, [], ◌∷◌, ◌+◌, ◌==◌, ◌≢◌, true, false, Option, some, none, Fault,
  not_connected, arith, ℕ, ◌*◌, ◌-◌, ◌≡◌, ◌⊎◌, ok, throw, bad_delay, leb, if◌then◌else◌,
}
use eeros_framework.Control.Saturation
use eeros_framework.Control.Saturation.{calculate_result, run-limits, calculate_result_mono}
use eeros_framework.Control.Integrator
use eeros_framework.Control.Integrator.{Integrator, Call, call_run, call_enable, call_disable}
use eeros_framework.Control.TimeDomain.{TimeDomain}
use eeros_framework.Control.Signals.{Signal}
use eeros_framework.Control.Delay.{Delay, create, run_times}
use eeros_framework.Control.Delay.Behind.{out-run_times}

abbrev input : ℕ → Signal ℕ
input i = record { value = 10 * i; timestamp = i }

abbrev junk : Signal ℕ
junk = record { value = 77; timestamp = 0 }

-- A delay of three periods, after eight runs.
out-run_times_example :
    ((◌≡◌ {A = ℕ} 3 0) × (create junk 3 ≡ throw bad_delay))
    ⊎ ((d : Delay ℕ) × (create junk 3 ≡ ok d)
        × ((run_times input 8 d).out ≡ (if leb 3 8 then input (8 - 3) else junk)))
out-run_times_example = out-run_times input 3 junk 7

abbrev limits : Saturation.Saturation ℕ
limits = record { lower_limit = 10; upper_limit = 20; enabled = true }

-- The world is the list of the blocks that ran; block 4 has an unconnected input.
exec : ℕ → List ℕ → List ℕ × Option Fault
exec b w = (b ∷ w, if b == 4 then some not_connected else none)

trigger : ℕ → List ℕ → List ℕ
trigger e w = (100 + e) ∷ w

abbrev domain : TimeDomain
domain = record { running = true; blocks = 2 ∷ 4 ∷ 6 ∷ []; event = some 1 }

-- Without block 4.
quiet : ℕ → List ℕ → List ℕ × Option Fault
quiet b w = (b ∷ w, none)

same_others : (c : ℕ) (v : List ℕ) → 4 ≢ c → exec c v ≡ quiet c v
unfolding exec quiet
same_others c v h = let n : (c == 4) ≡ false = ground arith in rw n refl

-- An integrator whose value is above its limits when they are set.
abbrev far_off : Integrator.Integrator ℕ
far_off =
    Integrator.set_init_condition 0 ◌+◌ ◌-◌ ◌*◌ nat_order (λ t. t) 900
      (Integrator.create 0 ◌+◌ ◌-◌ ◌*◌ nat_order (λ t. t) 0 1000 junk)

abbrev three_runs : List (Call 0 ◌+◌ ◌-◌ ◌*◌ nat_order (λ t. t))
three_runs =
    call_enable
    ∷ call_run 0 (input 1)
    ∷ call_disable
    ∷ call_run 2 (input 2)
    ∷ call_run 2 (input 3)
    ∷ []

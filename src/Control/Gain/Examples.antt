-- ===== src/Control/Gain/Examples.antt =====
-- A gain that rises to its target in two runs.
use eeros_framework.Base.{ℕ, ◌+◌, ◌-◌, ◌*◌, ◌≡◌, refl, true, false, [], ◌∷◌, nat_order, arith, ltb}
use eeros_framework.Control.Signals.{Signal}
use eeros_framework.Control.Gain.{Arithmetic, Gain}
use eeros_framework.Control.Gain.Smooth.{runs, runs-reach}

-- Numbers in place of the type; the root is not used here.
abbrev numbers : Arithmetic ℕ
numbers = record {
  zero = 0;
  two = 2;
  add = ◌+◌;
  sub = ◌-◌;
  mul = ◌*◌;
  neg = λ n. 0 - n;
  abs = λ n. n;
  sqrt = λ n. n;
}

abbrev rising : Gain ℕ
rising = record {
  gain = 2;
  max_gain = 10;
  min_gain = 1;
  target_gain = 7;
  gain_diff = 3;
  enabled = true;
  smooth_change = true;
  parabolic = false;
  parabolic_switch_point = 0;
}

abbrev signal : Signal ℕ
signal = record { value = 5; timestamp = 0 }

grows : (v : ℕ) → ltb (v + 3) v ≡ false
grows v = ground arith

falls : (v : ℕ) → ltb v (v - 3) ≡ false
falls v = ground arith

runs-reach_example : (runs nat_order numbers (signal ∷ signal ∷ []) rising).gain ≡ 7
runs-reach_example =
    runs-reach nat_order numbers 3 grows falls (signal ∷ signal ∷ []) rising refl refl refl refl
      refl refl refl refl

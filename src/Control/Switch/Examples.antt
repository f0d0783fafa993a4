-- ===== src/Control/Switch/Examples.antt =====
-- A run of the switch.
use eeros_framework.Base.{
  ℕ, ◌+◌, ◌-◌, ◌*◌, ◌≡◌, refl, arith, true, false, ◌==◌, if◌then◌else◌, none, some, [], ◌∷◌,
  nat_order, Store,
}
use eeros_framework.Control.Signals.{Signal}
use eeros_framework.Control.Switch.{Switch, due, run, triggered}
use eeros_framework.Control.Switch.Calls.{IsRanked}
use eeros_framework.Control.Switch.Once.{run-once}

-- Switch 0 is armed and combined with switch 1.
abbrev switches : Store (Switch ℕ)
switches a = record {
  current_input = 0;
  next_input = 1;
  switch_level = 50;
  delta = 5;
  armed = a == 0;
  switched = false;
  safety_event = some 9;
  active_level = some 2;
  combined = if a == 0 then 1 ∷ [] else [];
}

abbrev input : ℕ → Signal ℕ
input i = record { value = 48 + 10 * i; timestamp = i }

abbrev depth : ℕ → ℕ
depth a = if a == 0 then 1 else 0

ranked : IsRanked depth switches
ranked x b m = ground (arith, m)

run-once_example :
    (h' : Store (Switch ℕ)) × (run 2 ◌+◌ ◌-◌ nat_order 2 3 0 input switches
      ≡ some (h', input 1, some 9))
    × (triggered 2 (h' 0) ≡ true)
    × ((fuel level : ℕ) (inputs : ℕ → Signal ℕ)
        → run 2 ◌+◌ ◌-◌ nat_order fuel level 0 inputs h' ≡ some (h', inputs 1, none))
unfolding due
run-once_example =
    run-once 2 ◌+◌ ◌-◌ nat_order depth 2 3 0 input switches ranked (omega arith) (omega arith) refl

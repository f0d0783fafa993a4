-- ===== src/Control/SignalChecker/Examples.antt =====
-- A run of the signal checker with a safety system of one level that knows its event.
use eeros_framework.Base.{ℕ, ◌≡◌, refl, true, false, none, some, [], ◌∷◌, nat_order, ok}
use eeros_framework.Safety.Level.{SafetyEvent, public_event, Level, set}
use eeros_framework.Safety.Properties.{empty_properties}
use eeros_framework.Safety.System.{System}
use eeros_framework.Control.SignalChecker.{SignalChecker, is_active, violates, within_limits}

abbrev halt : SafetyEvent
halt = record { description = "halt"; id = 3 }

abbrev moving : Level ℕ ℕ
moving = record {
  description = "moving";
  id = 2;
  nof_activations = 1;
  transitions = (3, (1, public_event)) ∷ [];
  input_action = [];
  output_action = [];
  action = none;
  on_entry = none;
  on_exit = none;
}

abbrev system : System ℕ ℕ
system = record {
  properties = empty_properties;
  levels = λ l. moving;
  output_actions = λ o. set 0 0;
  current_level = some 0;
  next_level = none;
  entry_level = some 0;
  world = 0;
}

abbrev checker : SignalChecker ℕ
checker = record {
  lower_limit = 10;
  upper_limit = 20;
  fired = false;
  event = some halt;
  active_level = none;
  off_range = false;
}

active : is_active checker system ≡ ok true
unfolding is_active
active = refl

quiet_before : violates nat_order checker 12 ≡ false
unfolding violates within_limits
quiet_before = refl

violated : violates nat_order checker 25 ≡ true
unfolding violates within_limits
violated = refl

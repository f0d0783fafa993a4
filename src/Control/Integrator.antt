-- ===== src/Control/Integrator.antt =====
-- The integrator: includes/eeros/control/I.hpp, for arithmetic types.
-- `zero`, `add`, `sub` and `mul` are the arithmetic of the
-- values, `seconds` is the conversion of a timestamp, and a level is its number.
use eeros_framework.Base.{
  ℕ, ◌≡◌, Bool, true, false, ◌&&◌, leb, if◌then◌else◌, Option, none, some, List, [], ◌∷◌, Order,
}
use eeros_framework.Control.Signals.{Signal}

-- `prev` is the signal at the output too after a run.
pub record Integrator (T : Type 0) : Type 0 where
  pub first : Bool
  pub enabled : Bool
  pub prev : Signal T
  pub upper_limit : T
  pub lower_limit : T
  pub active_level : Option ℕ

module _ {T : Type 0} (zero : T) (add sub mul : T → T → T) (o : Order T) (seconds : ℕ → T) where
  -- `lowest` and `largest` are the limits of the numeric type, `cleared` the signal after
  -- `clear()`.
  pub create : T → T → Signal T → Integrator T
  create lowest largest cleared = record {
    first = true;
    enabled = false;
    prev = cleared;
    upper_limit = largest;
    lower_limit = lowest;
    active_level = none;
  }

  pub enable : Integrator T → Integrator T
  enable i = record i { enabled = true }

  pub disable : Integrator T → Integrator T
  disable i = record i { enabled = false }

  pub set_init_condition : T → Integrator T → Integrator T
  set_init_condition val i = record i { prev = record i.prev { value = val } }

  -- The two assignments to `prev` compare with the value from before both.
  pub set_limit : T → T → Integrator T → Integrator T
  set_limit upper lower i =
      let val = i.prev.value in
      let clamped = if o.lt upper val then upper else val in
      record i {
        upper_limit = upper;
        lower_limit = lower;
        prev = record i.prev { value = if o.lt val lower then lower else clamped };
      }

  pub set_active_level : ℕ → Integrator T → Integrator T
  set_active_level level i = record i { active_level = some level }

  -- The value of the output, `on` says whether it is enabled.
  pub integrate : Bool → Signal T → Integrator T → T
  integrate on s i =
      let dt = if i.first then zero else sub (seconds s.timestamp) (seconds i.prev.timestamp) in
      let val = add i.prev.value (mul s.value dt) in
      if on && (o.lt val i.upper_limit && o.lt i.lower_limit val) then val else i.prev.value

  -- `run` at a safety level with a signal at the input; the output is `prev`.
  pub run : ℕ → Signal T → Integrator T → Integrator T
  unfolding integrate
  run level s i =
      let on : Bool = elim i.active_level [ none ↦ i.enabled | some l ↦ leb l level ] in
      record i {
        first = false;
        enabled = on;
        prev = record { value = integrate on s i; timestamp = s.timestamp };
      }

  pub data Call : Type 0 where
    call_run : ℕ → Signal T → Call
    call_enable call_disable : Call
    call_active_level : ℕ → Call

  pub call : Call → Integrator T → Integrator T
  unfolding run enable disable set_active_level
  call (call_run level s) i = run level s i
  call call_enable i = enable i
  call call_disable i = disable i
  call (call_active_level level) i = set_active_level level i

  pub calls : List Call → Integrator T → Integrator T
  unfolding call
  calls [] i = i
  calls (c ∷ cs) i = calls cs (call c i)

  record IsWithin (lower upper : T) (i : Integrator T) : Type 0 where
    low : i.lower_limit ≡ lower
    high : i.upper_limit ≡ upper
    above : o.lt i.prev.value lower ≡ false
    below : o.lt upper i.prev.value ≡ false

-- ===== src/Core/PeriodicCounter.antt =====
-- The measurement of a periodic task: src/core/PeriodicCounter.cpp. The clock is read by the
-- caller of the operations. `log` holds the periods that were warned of.
pub mod Measured
mod Examples
use eeros_framework.Base.{ℕ, Bool, true, false, ◌||◌, List, [], ◌∷◌, ◌++◌, ℤ, if◌then◌else◌}
use eeros_framework.Math.Ring.{sub}
use eeros_framework.Core.Statistics
use eeros_framework.Core.Statistics.{Numbers, Statistics, add}

-- The monitor that `addDefaultMonitor` makes, with its limits, or one of the application.
pub data Monitor (T F : Type 0) : Type 0 where
  default : T → T → Monitor T F
  other : F → Monitor T F

pub record PeriodicCounter (T F : Type 0) : Type 0 where
  pub period : Statistics T
  pub jitter : Statistics T
  pub run : Statistics T
  pub monitors : List (Monitor T F)
  pub counter_period : T
  pub reset_after : T
  pub first : Bool
  pub reset_counter : ℤ
  pub start : ℕ
  pub last : ℕ
  pub log : List T

-- The time from one reading of the clock to another, the integer part of a quotient, the initial
-- time until a reset, and the call of a monitor of the application.
pub record Surroundings (T F : Type 0) : Type 0 where
  pub numbers : Numbers T
  pub seconds : ℕ → ℕ → T
  pub quotient : T → T → ℤ
  pub twenty : T
  pub call : F → PeriodicCounter T F → PeriodicCounter T F

module _ {T F : Type 0} (u : Surroundings T F) where
  pub reset : PeriodicCounter T F → PeriodicCounter T F
  reset c = record c {
    period = Statistics.reset u.numbers;
    jitter = Statistics.reset u.numbers;
    run = Statistics.reset u.numbers;
    reset_counter = u.quotient c.reset_after c.counter_period;
  }

  pub set_period : T → PeriodicCounter T F → PeriodicCounter T F
  unfolding reset
  set_period period c = reset (record c { counter_period = period })

  pub set_reset_time : T → PeriodicCounter T F → PeriodicCounter T F
  set_reset_time sec c = record c { reset_after = sec }

  -- The constructor at a time of the clock. `last` holds the start of the clock, and no other
  -- member is read before it is set.
  pub create : T → ℕ → PeriodicCounter T F
  unfolding set_period
  create period now =
      let empty = Statistics.reset u.numbers in
      let c = set_period period (record {
        period = empty;
        jitter = empty;
        run = empty;
        monitors = [];
        counter_period = u.numbers.ring.zero;
        reset_after = u.twenty;
        first = true;
        reset_counter = u.quotient u.twenty period;
        start = 0;
        last = 0;
        log = [];
      }) in
      record c { start = now; first = true }

  pub add_default_monitor : T → PeriodicCounter T F → PeriodicCounter T F
  add_default_monitor tolerance c =
      let r = u.numbers.ring in
      let tmin = r.mul c.counter_period (sub r r.one tolerance) in
      let tmax = r.mul c.counter_period (r.add r.one tolerance) in
      record c { monitors = c.monitors ++ (default tmin tmax ∷ []) }

  pub add_monitor : F → PeriodicCounter T F → PeriodicCounter T F
  add_monitor f c = record c { monitors = c.monitors ++ (other f ∷ []) }

  -- `T < Tmin || T > Tmax`
  pub outside : T → T → T → Bool
  outside tmin tmax p = u.numbers.order.lt p tmin || u.numbers.order.lt tmax p

  pub call_monitor : Monitor T F → PeriodicCounter T F → PeriodicCounter T F
  unfolding outside
  call_monitor (default tmin tmax) c =
      if outside tmin tmax c.period.last
      then record c { log = c.log ++ (c.period.last ∷ []) }
      else c
  call_monitor (other f) c = u.call f c

  pub call_monitors : List (Monitor T F) → PeriodicCounter T F → PeriodicCounter T F
  call_monitors [] c = c
  call_monitors (m ∷ ms) c = call_monitors ms (call_monitor m c)

  pub tick : ℕ → PeriodicCounter T F → PeriodicCounter T F
  tick now c = record c { last = c.start; start = now }

  pub tock : ℕ → PeriodicCounter T F → PeriodicCounter T F
  unfolding call_monitors
  tock now c =
      let d = record c { run = add u.numbers (u.seconds c.start now) c.run } in
      if d.first
      then record d { first = false }
      else (let new_period = u.seconds d.last d.start in
          let new_jitter = sub u.numbers.ring new_period d.counter_period in
          call_monitors d.monitors (record d {
            period = add u.numbers new_period d.period;
            jitter = add u.numbers new_jitter d.jitter;
          }))

  -- The calls of `tick` and `tock` at pairs of times.
  pub cycles : List (ℕ × ℕ) → PeriodicCounter T F → PeriodicCounter T F
  cycles [] c = c
  cycles ((a, b) ∷ cs) c = cycles cs (tock b (tick a c))

-- ===== src/Control/RateLimiter.antt =====
-- The block that limits the slope of a signal: includes/eeros/control/RateLimiter.hpp, for one
-- arithmetic type. The mutex makes each run one step.
use eeros_framework.Base.{ℕ, ◌≡◌, Bool, true, false, Order, if◌then◌else◌, Bool-cases, inl, inr}
use eeros_framework.Control.Signals.{Signal}

-- `seconds` is a timestamp divided by 10 ^ 9.
pub record Arithmetic (T : Type 0) : Type 0 where
  pub zero : T
  pub add : T → T → T
  pub sub : T → T → T
  pub mul : T → T → T
  pub div : T → T → T
  pub neg : T → T
  pub seconds : ℕ → T

pub record RateLimiter (T : Type 0) : Type 0 where
  pub out_prev : Signal T
  pub falling_rate : T
  pub rising_rate : T
  pub enabled : Bool

module _ {T : Type 0} (o : Order T) (a : Arithmetic T) where
  -- The constructor with two rates; a signal after `clear()` is `cleared`.
  pub create : Signal T → T → T → RateLimiter T
  create cleared falling rising = record {
    out_prev = cleared;
    falling_rate = falling;
    rising_rate = rising;
    enabled = false;
  }

  -- The constructor with one rate.
  pub create_symmetric : Signal T → T → RateLimiter T
  unfolding create
  create_symmetric cleared rate = create cleared (a.neg rate) rate

  pub enable : RateLimiter T → RateLimiter T
  enable l = record l { enabled = true }

  pub disable : RateLimiter T → RateLimiter T
  disable l = record l { enabled = false }

  pub set_rate : T → T → RateLimiter T → RateLimiter T
  set_rate falling rising l = record l { falling_rate = falling; rising_rate = rising }

  pub calculate_result : RateLimiter T → T → T → T
  calculate_result l in_value dt =
      let prev = l.out_prev.value in
      let rate = a.div (a.sub in_value prev) dt in
      if o.lt l.rising_rate rate
      then a.add (a.mul dt l.rising_rate) prev
      else (if o.lt rate l.falling_rate then a.add (a.mul dt l.falling_rate) prev else in_value)

  -- The time since the last run.
  abbrev elapsed : RateLimiter T → Signal T → T
  elapsed l s = a.sub (a.seconds s.timestamp) (a.seconds l.out_prev.timestamp)

  -- A run with the signal at its input, and the signal at its output.
  pub run : Signal T → RateLimiter T → RateLimiter T × Signal T
  unfolding calculate_result
  run s l =
      let value = if l.enabled then calculate_result l s.value (elapsed l s) else s.value in
      let out : Signal T = record { value = value; timestamp = s.timestamp } in
      (record l { out_prev = out }, out)

  calculate_result-rate :
      (l : RateLimiter T) (v dt : T)
      → o.lt l.rising_rate l.falling_rate ≡ false
      → ((r p : T) → a.div (a.sub (a.add (a.mul dt r) p) p) dt ≡ r)
      → let rate = a.div (a.sub (calculate_result l v dt) l.out_prev.value) dt in
        (o.lt l.rising_rate rate ≡ false) × (o.lt rate l.falling_rate ≡ false)
  unfolding calculate_result
  calculate_result-rate l v dt h law =
      let rate = a.div (a.sub v l.out_prev.value) dt in
      elim (Bool-cases (o.lt l.rising_rate rate)) [
        | inl e ↦ rw (e, law l.rising_rate l.out_prev.value) (o.lt_irrefl l.rising_rate, h)
        | inr e ↦ elim (Bool-cases (o.lt rate l.falling_rate)) [
          | inl f ↦ rw (e, f, law l.falling_rate l.out_prev.value) (h, o.lt_irrefl l.falling_rate)
          | inr f ↦ rw (e, f) (e, f)
        ]
      ]

  -- The rate at which the output of an enabled limiter changes is between its two rates, if the
  -- division by the elapsed time undoes the multiplication with it.
  run-rate :
      (l : RateLimiter T) (s : Signal T)
      → l.enabled ≡ true
      → o.lt l.rising_rate l.falling_rate ≡ false
      → ((r p : T) → a.div (a.sub (a.add (a.mul (elapsed l s) r) p) p) (elapsed l s) ≡ r)
      → let rate = a.div (a.sub (run s l).1.value l.out_prev.value) (elapsed l s) in
        (o.lt l.rising_rate rate ≡ false) × (o.lt rate l.falling_rate ≡ false)
  unfolding run
  run-rate l s e h law = rw e (calculate_result-rate l s.value (elapsed l s) h law)

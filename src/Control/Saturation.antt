-- ===== src/Control/Saturation.antt =====
-- The block that limits a signal: includes/eeros/control/Saturation.hpp, for arithmetic types.
use eeros_framework.Base.{
  ◌≡◌, refl, Bool, true, false, arith, Order, lt_asymm, not_lt_trans, if◌then◌else◌, Bool-cases,
  inl, inr,
}
use eeros_framework.Control.Signals.{Signal}

pub record Saturation (T : Type 0) : Type 0 where
  pub lower_limit : T
  pub upper_limit : T
  pub enabled : Bool

module _ {T : Type 0} where
  pub create : T → T → Saturation T
  create lower upper = record { lower_limit = lower; upper_limit = upper; enabled = true }

  pub enable : Saturation T → Saturation T
  enable s = record s { enabled = true }

  pub disable : Saturation T → Saturation T
  disable s = record s { enabled = false }

  pub set_limit : T → T → Saturation T → Saturation T
  set_limit lower upper s = record s { lower_limit = lower; upper_limit = upper }

module _ {T : Type 0} (o : Order T) where
  pub calculate_result : Saturation T → T → T
  calculate_result s v =
      if o.lt v s.lower_limit
      then s.lower_limit
      else (if o.lt s.upper_limit v then s.upper_limit else v)

  -- `run` with a signal at the input: the signal at the output.
  pub run : Saturation T → Signal T → Signal T
  unfolding calculate_result
  run s x = record {
    value = if s.enabled then calculate_result s x.value else x.value;
    timestamp = x.timestamp;
  }

  -- A saturation whose upper limit is not below the lower one puts out a value that is neither
  -- below the lower nor above the upper limit, also after it was disabled and enabled again, and a
  -- second saturation with the same limits changes nothing any more.
  pub run-limits :
      (lower upper : T) (x : Signal T)
      → o.lt upper lower ≡ false
      → let s = enable (disable (create lower upper)) in
        (o.lt (run s x).value lower ≡ false)
        × (o.lt upper (run s x).value ≡ false)
        × (run s (run s x) ≡ run s x)
  unfolding run calculate_result enable disable create
  run-limits lower upper x h = elim (Bool-cases (o.lt x.value lower)) [
    | inl below ↦ rw (below, o.lt_irrefl lower, h) (refl, refl, refl)
    | inr in_lower ↦ elim (Bool-cases (o.lt upper x.value)) [
      | inl above ↦ rw (in_lower, above, h, o.lt_irrefl upper) (refl, refl, refl)
      | inr in_upper ↦ rw (in_lower, in_upper) (in_lower, in_upper, rw (in_lower, in_upper) refl)
    ]
  ]

  -- A larger input never gives a smaller output, if the upper limit is not below the lower one.
  pub calculate_result_mono :
      (s : Saturation T) (v w : T)
      → o.lt s.upper_limit s.lower_limit ≡ false
      → o.lt w v ≡ false
      → o.lt (calculate_result s w) (calculate_result s v) ≡ false
  unfolding calculate_result
  calculate_result_mono s v w h k =
      let lower = s.lower_limit in
      let upper = s.upper_limit in
      ground (
        arith,
        h,
        k,
        o.lt_irrefl lower,
        o.lt_irrefl upper,
        lt_asymm o upper v,
        not_lt_trans o upper v w,
        not_lt_trans o lower v w,
        not_lt_trans o lower upper v,
      )

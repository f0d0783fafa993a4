-- ===== src/Control/WrapAround/Range.antt =====
-- The values that the block puts out: includes/eeros/control/WrapAround.hpp.
use native.Mathlib.Nat.{div-add-mod'}
use eeros_framework.Base.{
  ℕ, suc, ◌+◌, ◌-◌, ◌%◌, ◌<◌, ◌≡◌, refl, sym, ap, ◌∙◌, ◌⊎◌, inl, inr, true, arith, if◌then◌else◌,
  ltb, Bool-cases, ℤ, pos, negsuc, pos_part, neg_part, ◌+ℤ◌, ◌-ℤ◌, ◌*ℤ◌, ltb_ℤ, +ℤ_parts, -ℤ_parts,
  eq_of_parts,
}
use eeros_framework.Control.Signals.{Signal}
use eeros_framework.Control.WrapAround.{
  WrapAround, abs, floor_div, calculate_result, run, set_min_max, enable, disable, create,
}

-- What is left of a number after the whole multiples of `d`.
remainder : ℤ → ℕ → ℕ
remainder (pos n) d = n % d
remainder (negsuc n) d = d - suc (n % d)

remainder-lt : (num : ℤ) (d : ℕ) → 0 < d → remainder num d < d
unfolding remainder
remainder-lt (pos n) d h = omega arith
remainder-lt (negsuc n) d h = omega arith

sub-floor_div :
    (num : ℤ) (d : ℕ) → 0 < d → num -ℤ floor_div num (pos d) *ℤ pos d ≡ pos (remainder num d)
unfolding remainder floor_div ◌-ℤ◌ ◌*ℤ◌
sub-floor_div (pos n) d h = ground (arith, div-add-mod' n d)
sub-floor_div (negsuc n) d h = ground (arith, div-add-mod' n d)

-- One part of an integer is zero.
parts_apart : (a : ℤ) → (pos_part a ≡ 0) ⊎ (neg_part a ≡ 0)
parts_apart (pos n) = inr refl
parts_apart (negsuc n) = inl refl

abs_pos : (n : ℕ) → abs (pos n) ≡ pos n
unfolding abs
abs_pos n = ground arith

module _ (w : WrapAround) (v : ℤ) (ordered : ltb_ℤ w.min_val w.max_val ≡ true) where
  range : ℕ
  range = pos_part (w.max_val -ℤ w.min_val)

  delta-range : w.max_val -ℤ w.min_val ≡ pos range
  unfolding range
  delta-range =
      eq_of_parts (w.max_val -ℤ w.min_val) (pos (pos_part (w.max_val -ℤ w.min_val))) (
        ground (arith, ordered, -ℤ_parts w.max_val w.min_val, parts_apart (w.max_val -ℤ w.min_val)))

  range-pos : 0 < range
  unfolding range
  range-pos = ground (arith, ordered, -ℤ_parts w.max_val w.min_val)

  rest : ℕ
  rest = remainder (v -ℤ w.min_val) range

  times : ℤ
  times = floor_div (v -ℤ w.min_val) (pos range) *ℤ pos range

  rest_is : (v -ℤ w.min_val) -ℤ times ≡ pos rest
  unfolding times rest
  rest_is = sub-floor_div (v -ℤ w.min_val) range range-pos

  calculate_result_lem : calculate_result w v ≡ (if ltb 0 rest then pos rest +ℤ w.min_val else v)
  unfolding calculate_result times
  calculate_result_lem = rw (delta-range, abs_pos range, rest_is) (ground arith)

  below_max :
      pos_part (pos rest +ℤ w.min_val) + neg_part w.max_val
      < pos_part w.max_val + neg_part (pos rest +ℤ w.min_val)
  unfolding rest
  below_max = omega (
    arith,
    remainder-lt (v -ℤ w.min_val) range range-pos,
    +ℤ_parts (pos rest) w.min_val,
    -ℤ_parts w.max_val w.min_val,
    ap pos_part delta-range,
    ap neg_part delta-range,
  )

  wrapped_lem : (pos rest +ℤ w.min_val) +ℤ times ≡ v
  wrapped_lem = eq_of_parts _ v (
      omega (
        arith,
        +ℤ_parts (pos rest) w.min_val,
        +ℤ_parts (pos rest +ℤ w.min_val) times,
        -ℤ_parts (v -ℤ w.min_val) times,
        -ℤ_parts v w.min_val,
        ap pos_part rest_is,
        ap neg_part rest_is,
      ))

  multiple_lem : rest ≡ 0 → v ≡ w.min_val +ℤ times
  multiple_lem h = eq_of_parts v _ (
      omega (
        arith,
        h,
        +ℤ_parts w.min_val times,
        -ℤ_parts (v -ℤ w.min_val) times,
        -ℤ_parts v w.min_val,
        ap pos_part rest_is,
        ap neg_part rest_is,
      ))

  -- The difference of the limits, times a number.
  turns : (k : ℤ) → k *ℤ pos range ≡ k *ℤ (w.max_val -ℤ w.min_val)
  turns k = ap (λ d. k *ℤ d) (sym delta-range)

  no_turn : v +ℤ pos 0 *ℤ (w.max_val -ℤ w.min_val) ≡ v
  unfolding ◌+ℤ◌ ◌*ℤ◌
  no_turn = ground arith

  calculate_result-wraps :
      let y = calculate_result w v in
      let delta = w.max_val -ℤ w.min_val in
      ((k : ℤ) × (y +ℤ k *ℤ delta ≡ v))
      × (((ltb_ℤ w.min_val y ≡ true) × (ltb_ℤ y w.max_val ≡ true))
          ⊎ ((y ≡ v) × ((k : ℤ) × (v ≡ w.min_val +ℤ k *ℤ delta))))
  unfolding times
  calculate_result-wraps = elim (Bool-cases (ltb 0 rest)) [
    | inl inside ↦
        let k = floor_div (v -ℤ w.min_val) (pos range) in
        rw (calculate_result_lem, inside)
          (
            (k, ap (λ t. (pos rest +ℤ w.min_val) +ℤ t) (sym (turns k)) ∙ wrapped_lem),
            inl (ground (arith, inside, +ℤ_parts (pos rest) w.min_val), ground (arith, below_max)),
          )
    | inr at_limit ↦
        let k = floor_div (v -ℤ w.min_val) (pos range) in
        rw (calculate_result_lem, at_limit)
          (
            (pos 0, no_turn),
            inr (
              refl,
              (k, multiple_lem (ground (arith, at_limit)) ∙ ap (λ t. w.min_val +ℤ t) (turns k)),
            ),
          )
  ]

-- An enabled block whose lower limit is below the upper one puts out the input less a whole number
-- of turns, of the length of the range, and strictly between the limits. An input that is whole
-- turns away from the lower limit comes out as it is, also outside the limits. The limits are those
-- of the construction: a call of `set_min_max` does not change them.
pub run-wraps :
    (min max min' max' : ℤ) (s : Signal ℤ)
    → ltb_ℤ min max ≡ true
    → let y = (run (set_min_max min' max' (enable (disable (create min max)))) s).value in
      let delta = max -ℤ min in
      ((k : ℤ) × (y +ℤ k *ℤ delta ≡ s.value))
      × (((ltb_ℤ min y ≡ true) × (ltb_ℤ y max ≡ true))
          ⊎ ((y ≡ s.value) × ((k : ℤ) × (s.value ≡ min +ℤ k *ℤ delta))))
unfolding run set_min_max enable disable create
run-wraps min max min' max' s h = calculate_result-wraps (create min max) s.value h

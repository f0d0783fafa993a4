-- ===== src/Control/WrapAround.antt =====
-- The block that wraps a signal around: includes/eeros/control/WrapAround.hpp, for integers, whose
-- quotients the doubles of the calculation hold exactly as long as they are small.
pub mod Range
mod Examples
use eeros_framework.Base.{
  ℕ, zero, suc, ◌+◌, ◌-◌, ◌*◌, ◌/◌, ◌%◌, ◌≤◌, ◌<◌, ◌≡◌, ◌≢◌, refl, sym, ap, ◌∙◌, ◌⊎◌, inl, inr,
  Bool, true, false, arith, if◌then◌else◌, ltb, leb, Bool-cases, ℤ, pos, negsuc, pos_part, neg_part,
  sub_ℕ, ◌+ℤ◌, ◌-ℤ◌, ◌*ℤ◌, ltb_ℤ, +ℤ_parts, -ℤ_parts, eq_of_parts,
}
use eeros_framework.Control.Signals.{Signal}

pub record WrapAround : Type 0 where
  pub enabled : Bool
  pub min_val : ℤ
  pub max_val : ℤ

pub create : ℤ → ℤ → WrapAround
create min max = record { enabled = true; min_val = min; max_val = max }

pub enable : WrapAround → WrapAround
enable w = record w { enabled = true }

pub disable : WrapAround → WrapAround
disable w = record w { enabled = false }

-- `setMinMax` assigns the fields to themselves.
pub set_min_max : ℤ → ℤ → WrapAround → WrapAround
set_min_max min max w = record w { min_val = w.min_val; max_val = w.max_val }

-- `fabs`
pub abs : ℤ → ℤ
abs a = if ltb_ℤ a (pos 0) then pos 0 -ℤ a else a

-- `floor(num / den)` for a `den` that is not negative.
pub floor_div : ℤ → ℤ → ℤ
floor_div (pos n) den = pos (n / pos_part den)
floor_div (negsuc n) den = negsuc (n / pos_part den)

pub calculate_result : WrapAround → ℤ → ℤ
calculate_result w v =
    let delta = abs (w.max_val -ℤ w.min_val) in
    let num = v -ℤ w.min_val in
    let out = num -ℤ floor_div num delta *ℤ delta in
    if ltb_ℤ out (pos 0) then out +ℤ delta else (if ltb_ℤ (pos 0) out then out +ℤ w.min_val else v)

-- `run` with a signal at the input: the signal at the output.
pub run : WrapAround → Signal ℤ → Signal ℤ
unfolding calculate_result
run w s = record {
  value = if w.enabled then calculate_result w s.value else s.value;
  timestamp = s.timestamp;
}

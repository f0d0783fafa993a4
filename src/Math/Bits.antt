-- ===== src/Math/Bits.antt =====
-- The field of two elements as an instance of `Ring`.
use eeros_framework.Base.{◌≡◌, refl, Bool, true, false, not, ◌&&◌, ◌↔◌, if◌then◌else◌, arith}
use eeros_framework.Math.Ring.{Ring}

abbrev pub xor : Bool → Bool → Bool
xor a b = if a then not b else b

abbrev pub same : Bool → Bool → Bool
same a b = if a then b else not b

pub same_iff : (a b : Bool) → (same a b ≡ true) ↔ (a ≡ b)
same_iff true b = (λ h. ground arith, λ h. ground arith)
same_iff false b = (λ h. ground arith, λ h. ground arith)

-- The field of two elements.
abbrev pub bits : Ring Bool
bits = record {
  zero = false;
  one = true;
  add = xor;
  mul = λ a b. a && b;
  neg = λ a. a;
  equals = same;
  equals_iff = same_iff;
  add_comm = λ a b. ground arith;
  add_assoc = λ a b c. ground arith;
  zero-add = λ a. refl;
  neg-add = λ a. ground arith;
  mul_comm = λ a b. ground arith;
  mul_assoc = λ a b c. ground arith;
  one-mul = λ a. refl;
  zero-mul = λ a. refl;
  mul-add = λ a b c. ground arith;
}

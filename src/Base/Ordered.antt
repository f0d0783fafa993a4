-- ===== src/Base/Ordered.antt =====
-- The template parameter `T` of the framework's classes: its `<`, as an interface.
use Prim.Native.Nat.{ℕ}
use mathlib.Core.Path.{◌≡◌}
use mathlib.Core.Bool.{Bool, true, false}
use native.Mathlib.Omega.{arith}
use eeros_framework.Base.Tests.{ltb}

-- A type with a strict linear order, as the arithmetic types are apart from NaN. `a > b` of the
-- source is `lt b a`.
pub record Order (T : Type 0) : Type 0 where
  pub lt : T → T → Bool
  pub lt_irrefl : (a : T) → lt a a ≡ false
  pub lt_trans : (a b c : T) → lt a b ≡ true → lt b c ≡ true → lt a c ≡ true
  pub lt_connex : (a b : T) → lt a b ≡ false → lt b a ≡ false → a ≡ b

pub ltb_irrefl : (a : ℕ) → ltb a a ≡ false
ltb_irrefl a = ground arith

pub ltb_trans : (a b c : ℕ) → ltb a b ≡ true → ltb b c ≡ true → ltb a c ≡ true
ltb_trans a b c p q = ground arith

pub ltb_connex : (a b : ℕ) → ltb a b ≡ false → ltb b a ≡ false → a ≡ b
ltb_connex a b p q = ground arith

abbrev pub nat_order : Order ℕ
nat_order = record {
  lt = ltb;
  lt_irrefl = ltb_irrefl;
  lt_trans = ltb_trans;
  lt_connex = ltb_connex;
}

module _ {T : Type 0} (o : Order T) where
  pub lt_asymm : (a b : T) → o.lt a b ≡ true → o.lt b a ≡ false
  lt_asymm a b h = ground (arith, o.lt_irrefl a, o.lt_trans a b a)

  -- What is not below `b` and has `a` below it has `b` not above.
  pub not_lt_trans : (a b c : T) → o.lt b a ≡ false → o.lt c b ≡ false → o.lt c a ≡ false
  not_lt_trans a b c p q =
      ground (arith, o.lt_trans c a b, o.lt_connex a b, o.lt_connex b c, o.lt_trans b c a)

-- ===== src/Math/Matrix/Algebra.antt =====
-- The arithmetic operators of includes/eeros/math/Matrix.hpp. `left` names the operators whose
-- first operand is a number.
pub mod Product
use eeros_framework.Base.{ℕ, zero, suc, ◌+◌, ◌*◌, ◌-◌, if◌then◌else◌, ltb, Store, update, for_below}
use eeros_framework.Math.Ring.{Ring, sub}
use eeros_framework.Math.Matrix.{place, cell, tabulate, fill}

-- `(M < N) ? M : N`
abbrev pub min : ℕ → ℕ → ℕ
min m n = if ltb m n then m else n

module _ {T : Type 0} (r : Ring T) where
  -- `zero()`, a loop over the places.
  pub zero_all : ℕ → ℕ → Store T → Store T
  zero_all m n s = for_below (m * n) (λ i s. update s i r.zero) s

  pub eye : ℕ → ℕ → Store T → Store T
  unfolding zero_all
  eye m n s = for_below (min m n) (λ i s. update s (place m i i) r.one) (zero_all m n s)

  -- `operator*(Matrix<N, K, T>)`: every entry is set to 0 and then accumulated in place.
  pub multiply : ℕ → ℕ → ℕ → Store T → Store T → Store T → Store T
  multiply m n k a b junk =
      for_below m
        (λ i s.
          for_below k
            (λ j s.
              for_below n
                (λ l s.
                  update s (place m i j)
                    (r.add (s (place m i j)) (r.mul (cell m a i l) (cell n b l j))))
                (update s (place m i j) r.zero))
            s)
        junk

  pub scale : ℕ → ℕ → Store T → T → Store T → Store T
  scale m n a x = tabulate m n (λ i j. r.mul (cell m a i j) x)

  pub multiply_element_wise : ℕ → ℕ → Store T → Store T → Store T → Store T
  multiply_element_wise m n a b = tabulate m n (λ i j. r.mul (cell m a i j) (cell m b i j))

  pub plus : ℕ → ℕ → Store T → Store T → Store T → Store T
  plus m n a b = tabulate m n (λ i j. r.add (cell m a i j) (cell m b i j))

  pub plus_scalar : ℕ → ℕ → Store T → T → Store T → Store T
  plus_scalar m n a x = tabulate m n (λ i j. r.add (cell m a i j) x)

  pub minus : ℕ → ℕ → Store T → Store T → Store T → Store T
  minus m n a b = tabulate m n (λ i j. sub r (cell m a i j) (cell m b i j))

  pub minus_scalar : ℕ → ℕ → Store T → T → Store T → Store T
  minus_scalar m n a x = tabulate m n (λ i j. sub r (cell m a i j) x)

  pub negate : ℕ → ℕ → Store T → Store T → Store T
  negate m n a = tabulate m n (λ i j. r.neg (cell m a i j))

  pub plus_left : ℕ → ℕ → T → Store T → Store T → Store T
  plus_left m n x a = tabulate m n (λ i j. r.add x (cell m a i j))

  pub minus_left : ℕ → ℕ → T → Store T → Store T → Store T
  minus_left m n x a = tabulate m n (λ i j. sub r x (cell m a i j))

  pub scale_left : ℕ → ℕ → T → Store T → Store T → Store T
  scale_left m n x a = tabulate m n (λ i j. r.mul x (cell m a i j))

  pub divide_scalar : (T → T → T) → ℕ → ℕ → Store T → T → Store T → Store T
  divide_scalar div m n a x = tabulate m n (λ i j. div (cell m a i j) x)

  pub divide_left : (T → T → T) → ℕ → ℕ → T → Store T → Store T → Store T
  divide_left div m n x a = tabulate m n (λ i j. div x (cell m a i j))

  pub create_diag : ℕ → ℕ → T → Store T → Store T → Store T
  unfolding eye scale
  create_diag m n v junk = scale m n (eye m n junk) v

  pub trace : ℕ → ℕ → Store T → T
  trace m n a = for_below (min m n) (λ i t. r.add t (cell m a i i)) r.zero

  -- The sum under the square root of `norm()`.
  pub norm_square : ℕ → ℕ → Store T → T
  norm_square m n a =
      for_below m (λ i t. for_below n (λ j t. r.add t (r.mul (cell m a i j) (cell m a i j))) t)
        r.zero

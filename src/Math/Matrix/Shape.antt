-- ===== src/Math/Matrix/Shape.antt =====
-- The tests of a matrix' shape and the comparisons of includes/eeros/math/Matrix.hpp. The loops
-- that return at the first failing entry are `all_below`.
pub mod Laws
use eeros_framework.Base.{
  ℕ, Bool, true, false, not, ◌&&◌, ◌||◌, ltb, ◌==◌, if◌then◌else◌, Store, all_below,
}
use eeros_framework.Math.Ring.{Ring, is_zero}
use eeros_framework.Math.Matrix.{cell, transpose}
use eeros_framework.Math.Matrix.Algebra.{eye, multiply}

-- The two nested loops.
abbrev pub all_cells : ℕ → ℕ → (ℕ → ℕ → Bool) → Bool
all_cells m n test = all_below m (λ i. all_below n (λ j. test i j))

abbrev pub is_square : ℕ → ℕ → Bool
is_square m n = m == n

module _ {T : Type 0} (r : Ring T) where
  pub equal : ℕ → ℕ → Store T → Store T → Bool
  equal m n a b = all_cells m n (λ i j. r.equals (cell m a i j) (cell m b i j))

  pub is_diagonal : ℕ → ℕ → Store T → Bool
  is_diagonal m n a = all_cells m n (λ i j. if not (i == j) then is_zero r (cell m a i j) else true)

  pub is_lower_triangular : ℕ → ℕ → Store T → Bool
  is_lower_triangular m n a =
      all_cells m n (λ i j. if ltb i j then is_zero r (cell m a i j) else true)

  pub is_upper_triangular : ℕ → ℕ → Store T → Bool
  is_upper_triangular m n a =
      all_cells m n (λ i j. if ltb j i then is_zero r (cell m a i j) else true)

  -- These compile for square matrices only, `n` is the number of rows and columns.
  pub is_symmetric : ℕ → Store T → Store T → Bool
  unfolding equal
  is_symmetric n a junk = equal n n a (transpose n n a junk)

  pub is_orthogonal : ℕ → Store T → Store T → Bool
  unfolding equal
  is_orthogonal n a junk =
      let transposed = transpose n n a junk in
      let result = multiply r n n n a transposed junk in equal n n result (eye r n n junk)

-- `operator<`, `<=`, `>` and `>=`, with the entries' `<` as `less`.
module _ {T : Type 0} (less : T → T → Bool) (equals : T → T → Bool) where
  pub less_all : ℕ → ℕ → Store T → Store T → Bool
  less_all m n a b =
      all_cells m n
        (λ i j. let x = cell m a i j in let y = cell m b i j in not (less y x || equals x y))

  pub less_equal_all : ℕ → ℕ → Store T → Store T → Bool
  less_equal_all m n a b = all_cells m n (λ i j. not (less (cell m b i j) (cell m a i j)))

  pub greater_all : ℕ → ℕ → Store T → Store T → Bool
  greater_all m n a b =
      all_cells m n
        (λ i j. let x = cell m a i j in let y = cell m b i j in not (less x y || equals x y))

  pub greater_equal_all : ℕ → ℕ → Store T → Store T → Bool
  greater_equal_all m n a b = all_cells m n (λ i j. not (less (cell m a i j) (cell m b i j)))

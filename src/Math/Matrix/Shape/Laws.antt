-- ===== src/Math/Matrix/Shape/Laws.antt =====
-- The tests of a matrix' shape against what the entries are.
use eeros_framework.Base.{
  ℕ, zero, suc, ◌<◌, ◌≡◌, refl, sym, ap, ap₂, ◌∙◌, Bool, true, ◌&&◌, ltb, if◌then◌else◌, arith,
  Store, all_below, all_below_congr, all_below_complete,
}
use eeros_framework.Math.Ring.{Ring, is_zero, sum_congr}
use eeros_framework.Math.Matrix.{cell, transpose}
use eeros_framework.Math.Matrix.Cells.{cell-transpose}
use eeros_framework.Math.Matrix.Algebra.{multiply}
use eeros_framework.Math.Matrix.Algebra.Product.{cell-multiply}
use eeros_framework.Math.Matrix.Shape.{
  all_cells, is_diagonal, is_lower_triangular, is_upper_triangular, is_symmetric, equal,
}

all_below-and :
    (n : ℕ) (p q : ℕ → Bool) → all_below n (λ i. p i && q i) ≡ (all_below n p && all_below n q)
all_below-and zero p q = refl
all_below-and (suc n) p q = ground (arith, all_below-and n p q)

all_below-true : (n : ℕ) → all_below n (λ i. true) ≡ true
all_below-true n = all_below_complete n (λ i. true) (λ i h. refl)

-- The order of the two loops does not matter.
all_cells-swap : (m n : ℕ) (p : ℕ → ℕ → Bool) → all_cells m n p ≡ all_cells n m (λ j i. p i j)
all_cells-swap zero n p = sym (all_below-true n)
all_cells-swap (suc m) n p =
    ap (λ b. b && all_below n (p m)) (all_cells-swap m n p)
    ∙ sym (all_below-and n (λ j. all_below m (λ i. p i j)) (p m))

all_cells_congr :
    (m n : ℕ) (p q : ℕ → ℕ → Bool)
    → ((i j : ℕ) → i < m → j < n → p i j ≡ q i j)
    → all_cells m n p ≡ all_cells m n q
all_cells_congr m n p q h =
    all_below_congr m (λ i. all_below n (p i)) (λ i. all_below n (q i))
      (λ i k. all_below_congr n (p i) (q i) (λ j l. h i j k l))

all_cells-and :
    (m n : ℕ) (p q : ℕ → ℕ → Bool)
    → all_cells m n (λ i j. p i j && q i j) ≡ (all_cells m n p && all_cells m n q)
all_cells-and m n p q =
    all_below_congr m (λ i. all_below n (λ j. p i j && q i j))
      (λ i. all_below n (p i) && all_below n (q i)) (λ i h. all_below-and n (p i) (q i))
    ∙ all_below-and m (λ i. all_below n (p i)) (λ i. all_below n (q i))

module _ {T : Type 0} (r : Ring T) where
  -- A matrix is diagonal exactly when it is both lower and upper triangular.
  pub is_diagonal_iff :
      (m n : ℕ) (a : Store T)
      → is_diagonal r m n a ≡ (is_lower_triangular r m n a && is_upper_triangular r m n a)
  unfolding is_diagonal is_lower_triangular is_upper_triangular
  is_diagonal_iff m n a =
      all_cells_congr m n _
        (λ i j.
          (if ltb i j then is_zero r (cell m a i j) else true)
          && (if ltb j i then is_zero r (cell m a i j) else true))
        (λ i j h k. ground arith)
      ∙ all_cells-and m n (λ i j. if ltb i j then is_zero r (cell m a i j) else true)
          (λ i j. if ltb j i then is_zero r (cell m a i j) else true)

  -- A matrix is lower triangular exactly when the transposed one is upper triangular.
  pub is_lower_triangular-transpose :
      (m n : ℕ) (a junk : Store T)
      → is_lower_triangular r m n a ≡ is_upper_triangular r n m (transpose m n a junk)
  unfolding is_lower_triangular is_upper_triangular
  is_lower_triangular-transpose m n a junk =
      all_cells-swap m n (λ i j. if ltb i j then is_zero r (cell m a i j) else true)
      ∙ all_cells_congr n m _ _ (λ j i k h.
        ap (λ x. if ltb i j then is_zero r x else true) (sym (cell-transpose m n a junk i j h k)))

  equal_complete :
      (m n : ℕ) (a b : Store T)
      → ((i j : ℕ) → i < m → j < n → cell m a i j ≡ cell m b i j)
      → equal r m n a b ≡ true
  unfolding equal
  equal_complete m n a b h = all_below_complete m _ (λ i k.
      all_below_complete n _ (λ j l. (r.equals_iff (cell m a i j) (cell m b i j)).1 (h i j k l)))

  square-symmetric :
      (m n : ℕ) (a junk : Store T) (i j : ℕ)
      → i < m
      → j < m
      → let p = multiply r m n m a (transpose m n a junk) junk in cell m p i j ≡ cell m p j i
  square-symmetric m n a junk i j h k =
      cell-multiply r m n m a (transpose m n a junk) junk i j h k
      ∙ sum_congr r n _ _ (λ x q.
        r.mul_comm (cell m a i x) (cell n (transpose m n a junk) x j)
        ∙ ap₂ r.mul (cell-transpose m n a junk j x k q) (sym (cell-transpose m n a junk i x h q)))
      ∙ sym (cell-multiply r m n m a (transpose m n a junk) junk j i k h)

  -- The product of a matrix with the transposed one is symmetric.
  pub is_symmetric-multiply :
      (m n : ℕ) (a junk : Store T)
      → is_symmetric r m (multiply r m n m a (transpose m n a junk) junk) junk ≡ true
  unfolding is_symmetric
  is_symmetric-multiply m n a junk =
      let p = multiply r m n m a (transpose m n a junk) junk in
      equal_complete m m p (transpose m m p junk)
        (λ i j h k. square-symmetric m n a junk i j h k ∙ sym (cell-transpose m m p junk j i k h))

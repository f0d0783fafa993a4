-- ===== src/Math/Matrix.antt =====
-- Matrices: includes/eeros/math/Matrix.hpp. The array `value` of `Matrix<M,N,T>` is a store, column
-- by column, with `m` and `n` the numbers of rows and columns. The checked accesses are `get`,
-- `set` and `at`; the loops of the source only make accesses that pass the check, so they are
-- written with `cell`. An array that is not initialised is the argument `junk`.
pub mod Cells
pub mod Algebra
pub mod Shape
pub mod Vectors
pub mod Gauss
pub mod Access
pub mod Determinant
pub mod Inverse
use eeros_framework.Base.{
  ℕ, ◌+◌, ◌*◌, ◌-◌, ◌≡◌, Bool, true, false, not, ◌&&◌, ltb, leb, ◌++◌, List, [], ◌∷◌, if◌then◌else◌,
  Store, update, for_below, all_below, Result, ok, throw, index_out_of_range,
}

-- The place of row `i` and column `j` in an array with `m` rows.
abbrev pub place : ℕ → ℕ → ℕ → ℕ
place m i j = m * j + i

module _ {T : Type 0} where
  abbrev pub cell : ℕ → Store T → ℕ → ℕ → T
  cell m a i j = a (place m i j)

  -- `operator()(m, n)`, as a value and as an assignment.
  pub get : ℕ → ℕ → Store T → ℕ → ℕ → Result T
  get m n a i j = if ltb i m && ltb j n then ok (cell m a i j) else throw index_out_of_range

  pub set : ℕ → ℕ → Store T → ℕ → ℕ → T → Result (Store T)
  set m n a i j v =
      if ltb i m && ltb j n then ok (update a (place m i j) v) else throw index_out_of_range

  -- `operator[](i)` and `operator()(i)`, as a value; `set_at` is the assignment.
  pub at : ℕ → ℕ → Store T → ℕ → Result T
  at m n a i = if ltb i (m * n) then ok (a i) else throw index_out_of_range

  -- The loops over rows and columns with an assignment, which `target` and `value` give.
  pub write_cells : ℕ → ℕ → (ℕ → ℕ → ℕ) → (ℕ → ℕ → T) → Store T → Store T
  write_cells m n target value s =
      for_below m (λ i s. for_below n (λ j s. update s (target i j) (value i j)) s) s

  -- `result(m, n) = value` in the loops.
  pub tabulate : ℕ → ℕ → (ℕ → ℕ → T) → Store T → Store T
  unfolding write_cells
  tabulate m n value junk = write_cells m n (place m) value junk

  pub fill : ℕ → ℕ → T → Store T → Store T
  unfolding tabulate
  fill m n v a = tabulate m n (λ i j. v) a

  pub transpose : ℕ → ℕ → Store T → Store T → Store T
  unfolding write_cells
  transpose m n a junk = write_cells m n (λ i j. place n j i) (cell m a) junk

  pub get_col : ℕ → Store T → ℕ → Store T → Store T
  get_col m a j junk = for_below m (λ i s. update s (place m i 0) (cell m a i j)) junk

  pub get_row : ℕ → ℕ → Store T → ℕ → Store T → Store T
  get_row m n a i junk = for_below n (λ j s. update s (place 1 0 j) (cell m a i j)) junk

  pub set_col : ℕ → ℕ → Store T → Store T → Store T
  set_col m j col a = for_below m (λ i s. update s (place m i j) (cell m col i 0)) a

  pub set_row : ℕ → ℕ → ℕ → Store T → Store T → Store T
  set_row m n i row a = for_below n (λ j s. update s (place m i j) (cell 1 row 0 j)) a

  -- The loop over the columns, with `t` for the first of the two entries.
  pub swap_rows : ℕ → ℕ → ℕ → ℕ → Store T → Store T
  swap_rows m n a b s =
      for_below n
        (λ j s.
          let t = cell m s a j in update (update s (place m a j) (cell m s b j)) (place m b j) t)
        s

  pub set_at : ℕ → ℕ → Store T → ℕ → T → Result (Store T)
  set_at m n a i v = if ltb i (m * n) then ok (update a i v) else throw index_out_of_range

  pub get_col_vector : ℕ → Store T → ℕ → List T
  get_col_vector m a j = for_below m (λ i v. v ++ (cell m a i j ∷ [])) []

  pub get_row_vector : ℕ → ℕ → Store T → ℕ → List T
  get_row_vector m n a i = for_below n (λ j v. v ++ (cell m a i j ∷ [])) []

  -- `getSubMatrix<U, V>(m, n)`: `u` and `v` are at most the dimensions, which a `static_assert`
  -- checks.
  pub get_sub_matrix : ℕ → ℕ → Store T → ℕ → ℕ → ℕ → ℕ → Store T → Result (Store T)
  unfolding write_cells
  get_sub_matrix m n a u v i j junk =
      if leb (i + u) m && leb (j + v) n
      then ok (write_cells u v (place u) (λ k l. cell m a (i + k) (j + l)) junk)
      else throw index_out_of_range

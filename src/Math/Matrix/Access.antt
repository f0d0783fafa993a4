-- ===== src/Math/Matrix/Access.antt =====
-- Accesses with and without their bounds, and the transposed matrix twice.
use eeros_framework.Base.{
  ℕ, ◌*◌, ◌<◌, ◌≡◌, arith, ◌&&◌, ltb, ◌==◌, if◌then◌else◌, Store, ok, throw, index_out_of_range,
  ◌>>=◌,
}
use eeros_framework.Math.Matrix.{place, get, set, at, transpose}
use eeros_framework.Math.Matrix.Cells.{cell-update, cell-transpose}

place-bound : (m n i j : ℕ) → i < m → j < n → place m i j < m * n
place-bound m n i j h k = grind arith

module _ {T : Type 0} where
  -- What an assignment to one entry leaves to read at any entry, with the indices checked by both:
  -- the fault for an index of either access that is out of range, the new value at the same entry,
  -- the old value elsewhere.
  pub get-set :
      (m n : ℕ) (a : Store T) (i j : ℕ) (v : T) (i' j' : ℕ)
      → (set m n a i j v >>= λ b. get m n b i' j') ≡ (
          if ltb i m && ltb j n
          then (if (i' == i) && (j' == j) then ok v else get m n a i' j')
          else throw index_out_of_range)
  unfolding get set
  get-set m n a i j v i' j' = ground (arith, cell-update m a i j v i' j')

  -- An entry that is in range can be read by its place too.
  pub at-place :
      (m n : ℕ) (a : Store T) (i j : ℕ) → i < m → j < n → at m n a (place m i j) ≡ get m n a i j
  unfolding at get
  at-place m n a i j h k = ground (arith, place-bound m n i j h k)

  -- The matrix that is transposed twice has the entries that it had.
  pub transpose-transpose :
      (m n : ℕ) (a junk : Store T) (i j : ℕ)
      → i < m
      → j < n
      → get m n (transpose n m (transpose m n a junk) junk) i j ≡ get m n a i j
  unfolding get
  transpose-transpose m n a junk i j h k = ground (
    arith,
    cell-transpose n m (transpose m n a junk) junk j i k h,
    cell-transpose m n a junk i j h k,
  )

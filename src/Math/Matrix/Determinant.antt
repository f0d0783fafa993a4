-- ===== src/Math/Matrix/Determinant.antt =====
-- `det` of includes/eeros/math/Matrix.hpp, with the class for 1x1 matrices, for square matrices:
-- for others it throws.
use eeros_framework.Base.{
  ℕ, zero, suc, ◌+◌, ◌-◌, ◌%◌, ◌≡◌, refl, ◌==◌, if◌then◌else◌, Store, update, for_below,
}
use eeros_framework.Math.Ring.{Ring, sub}
use eeros_framework.Math.Matrix.{place, cell}

module _ {T : Type 0} where
  -- The inner loop over the columns from 1 on, with `x` and the array.
  pub minor_row : ℕ → Store T → ℕ → ℕ → ℕ → ℕ × Store T → ℕ × Store T
  minor_row m s ignored a y st =
      for_below (m - 1)
        (λ b (st : ℕ × Store T).
          if a == ignored
          then st
          else (st.0 + 1, update st.1 (place (m - 1) y st.0) (cell m s a (b + 1))))
        st

  -- The loop over the rows, with `y` and the array.
  pub minor_rows : ℕ → Store T → ℕ → ℕ → Store T → ℕ × Store T
  unfolding minor_row
  minor_rows m s ignored k junk =
      for_below k
        (λ a (st : ℕ × Store T).
          let row = minor_row m s ignored a st.0 (0, st.1) in
          (if a == ignored then st.0 else st.0 + 1, row.1))
        (0, junk)

  pub minor : ℕ → Store T → ℕ → Store T → Store T
  unfolding minor_rows
  minor m s ignored junk = (minor_rows m s ignored m junk).1

  module _ (r : Ring T) where
    -- The matrix has `m` rows and columns, at least one. Each minor is a new array, whose entries
    -- before the loops are those of `junk`.
    pub det : ℕ → Store T → Store T → T
    unfolding minor
    det zero s junk = r.zero
    det (suc zero) s junk = s 0
    det (suc (suc zero)) s junk =
        sub r (r.mul (cell 2 s 0 0) (cell 2 s 1 1)) (r.mul (cell 2 s 0 1) (cell 2 s 1 0))
    det (suc (suc (suc zero))) s junk =
        let c = cell 3 s in
        sub r
          (sub r
            (sub r
              (r.add
                (r.add (r.mul (r.mul (c 0 0) (c 1 1)) (c 2 2))
                  (r.mul (r.mul (c 0 1) (c 1 2)) (c 2 0)))
                (r.mul (r.mul (c 0 2) (c 1 0)) (c 2 1)))
              (r.mul (r.mul (c 0 2) (c 1 1)) (c 2 0)))
            (r.mul (r.mul (c 0 0) (c 1 2)) (c 2 1)))
          (r.mul (r.mul (c 0 1) (c 1 0)) (c 2 2))
    det (suc (suc (suc (suc k)))) s junk =
        let m = k + 4 in
        for_below m
          (λ i d.
            let d_sub = det (suc (suc (suc k))) (minor m s i junk) junk in
            if i % 2 == 0
            then r.add d (r.mul (cell m s i 0) d_sub)
            else sub r d (r.mul (cell m s i 0) d_sub))
          r.zero

    pub det_two :
        (s junk : Store T)
        → det 2 s junk
          ≡ sub r (r.mul (cell 2 s 0 0) (cell 2 s 1 1)) (r.mul (cell 2 s 0 1) (cell 2 s 1 0))
    unfolding det
    det_two s junk = refl

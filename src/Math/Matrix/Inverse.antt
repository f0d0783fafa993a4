-- ===== src/Math/Matrix/Inverse.antt =====
-- `inverse` of includes/eeros/math/Matrix.hpp, for square matrices of more than one row. `div` is
-- the division of the entries, and `junk` the array that is not initialised.
pub mod Two
use eeros_framework.Base.{
  ℕ, zero, suc, ◌==◌, Bool, true, false, not, ◌&&◌, if◌then◌else◌, Store, update, Result, ok, throw,
  not_invertible, not_implemented,
}
use eeros_framework.Math.Ring.{Ring, sub, is_zero}
use eeros_framework.Math.Matrix.{transpose}
use eeros_framework.Math.Matrix.Algebra.{scale, divide_scalar}
use eeros_framework.Math.Matrix.Determinant.{det}

module _ {T : Type 0} (r : Ring T) where
  -- `isInvertible` of a matrix with `m` rows and `n` columns.
  pub is_invertible : ℕ → ℕ → Store T → Store T → Bool
  is_invertible m n a junk = m == n && not (is_zero r (det r m a junk))

  -- The arrays `subDetMat`, the ones of two and three rows before they are transposed.
  pub sub_det2 : Store T → Store T → Store T
  sub_det2 a junk =
      let s = update junk 0 (a 3) in
      let s = update s 1 (r.neg (a 2)) in let s = update s 2 (r.neg (a 1)) in update s 3 (a 0)

  pub sub_det3 : Store T → Store T → Store T
  sub_det3 a junk =
      let s = update junk 0 (sub r (r.mul (a 4) (a 8)) (r.mul (a 5) (a 7))) in
      let s = update s 1 (sub r (r.mul (a 5) (a 6)) (r.mul (a 3) (a 8))) in
      let s = update s 2 (sub r (r.mul (a 3) (a 7)) (r.mul (a 4) (a 6))) in
      let s = update s 3 (sub r (r.mul (a 7) (a 2)) (r.mul (a 8) (a 1))) in
      let s = update s 4 (sub r (r.mul (a 8) (a 0)) (r.mul (a 6) (a 2))) in
      let s = update s 5 (sub r (r.mul (a 6) (a 1)) (r.mul (a 7) (a 0))) in
      let s = update s 6 (sub r (r.mul (a 1) (a 5)) (r.mul (a 2) (a 4))) in
      let s = update s 7 (sub r (r.mul (a 2) (a 3)) (r.mul (a 0) (a 5))) in
      update s 8 (sub r (r.mul (a 0) (a 4)) (r.mul (a 1) (a 3)))

  pub sub_det4 : Store T → Store T → Store T
  sub_det4 a junk =
      let s = update junk 0 (
        sub r
          (r.add
            (r.add
              (sub r (sub r (r.mul (r.mul (a 5) (a 10)) (a 15)) (r.mul (r.mul (a 5) (a 11)) (a 14)))
                (r.mul (r.mul (a 9) (a 6)) (a 15)))
              (r.mul (r.mul (a 9) (a 7)) (a 14)))
            (r.mul (r.mul (a 13) (a 6)) (a 11)))
          (r.mul (r.mul (a 13) (a 7)) (a 10))) in
      let s = update s 4 (
        r.add
          (sub r
            (sub r
              (r.add
                (r.add (r.mul (r.mul (r.neg (a 4)) (a 10)) (a 15))
                  (r.mul (r.mul (a 4) (a 11)) (a 14)))
                (r.mul (r.mul (a 8) (a 6)) (a 15)))
              (r.mul (r.mul (a 8) (a 7)) (a 14)))
            (r.mul (r.mul (a 12) (a 6)) (a 11)))
          (r.mul (r.mul (a 12) (a 7)) (a 10))) in
      let s = update s 8 (
        sub r
          (r.add
            (r.add
              (sub r (sub r (r.mul (r.mul (a 4) (a 9)) (a 15)) (r.mul (r.mul (a 4) (a 11)) (a 13)))
                (r.mul (r.mul (a 8) (a 5)) (a 15)))
              (r.mul (r.mul (a 8) (a 7)) (a 13)))
            (r.mul (r.mul (a 12) (a 5)) (a 11)))
          (r.mul (r.mul (a 12) (a 7)) (a 9))) in
      let s = update s 12 (
        r.add
          (sub r
            (sub r
              (r.add
                (r.add (r.mul (r.mul (r.neg (a 4)) (a 9)) (a 14))
                  (r.mul (r.mul (a 4) (a 10)) (a 13)))
                (r.mul (r.mul (a 8) (a 5)) (a 14)))
              (r.mul (r.mul (a 8) (a 6)) (a 13)))
            (r.mul (r.mul (a 12) (a 5)) (a 10)))
          (r.mul (r.mul (a 12) (a 6)) (a 9))) in
      let s = update s 1 (
        r.add
          (sub r
            (sub r
              (r.add
                (r.add (r.mul (r.mul (r.neg (a 1)) (a 10)) (a 15))
                  (r.mul (r.mul (a 1) (a 11)) (a 14)))
                (r.mul (r.mul (a 9) (a 2)) (a 15)))
              (r.mul (r.mul (a 9) (a 3)) (a 14)))
            (r.mul (r.mul (a 13) (a 2)) (a 11)))
          (r.mul (r.mul (a 13) (a 3)) (a 10))) in
      let s = update s 5 (
        sub r
          (r.add
            (r.add
              (sub r (sub r (r.mul (r.mul (a 0) (a 10)) (a 15)) (r.mul (r.mul (a 0) (a 11)) (a 14)))
                (r.mul (r.mul (a 8) (a 2)) (a 15)))
              (r.mul (r.mul (a 8) (a 3)) (a 14)))
            (r.mul (r.mul (a 12) (a 2)) (a 11)))
          (r.mul (r.mul (a 12) (a 3)) (a 10))) in
      let s = update s 9 (
        r.add
          (sub r
            (sub r
              (r.add
                (r.add (r.mul (r.mul (r.neg (a 0)) (a 9)) (a 15))
                  (r.mul (r.mul (a 0) (a 11)) (a 13)))
                (r.mul (r.mul (a 8) (a 1)) (a 15)))
              (r.mul (r.mul (a 8) (a 3)) (a 13)))
            (r.mul (r.mul (a 12) (a 1)) (a 11)))
          (r.mul (r.mul (a 12) (a 3)) (a 9))) in
      let s = update s 13 (
        sub r
          (r.add
            (r.add
              (sub r (sub r (r.mul (r.mul (a 0) (a 9)) (a 14)) (r.mul (r.mul (a 0) (a 10)) (a 13)))
                (r.mul (r.mul (a 8) (a 1)) (a 14)))
              (r.mul (r.mul (a 8) (a 2)) (a 13)))
            (r.mul (r.mul (a 12) (a 1)) (a 10)))
          (r.mul (r.mul (a 12) (a 2)) (a 9))) in
      let s = update s 2 (
        sub r
          (r.add
            (r.add
              (sub r (sub r (r.mul (r.mul (a 1) (a 6)) (a 15)) (r.mul (r.mul (a 1) (a 7)) (a 14)))
                (r.mul (r.mul (a 5) (a 2)) (a 15)))
              (r.mul (r.mul (a 5) (a 3)) (a 14)))
            (r.mul (r.mul (a 13) (a 2)) (a 7)))
          (r.mul (r.mul (a 13) (a 3)) (a 6))) in
      let s = update s 6 (
        r.add
          (sub r
            (sub r
              (r.add
                (r.add (r.mul (r.mul (r.neg (a 0)) (a 6)) (a 15))
                  (r.mul (r.mul (a 0) (a 7)) (a 14)))
                (r.mul (r.mul (a 4) (a 2)) (a 15)))
              (r.mul (r.mul (a 4) (a 3)) (a 14)))
            (r.mul (r.mul (a 12) (a 2)) (a 7)))
          (r.mul (r.mul (a 12) (a 3)) (a 6))) in
      let s = update s 10 (
        sub r
          (r.add
            (r.add
              (sub r (sub r (r.mul (r.mul (a 0) (a 5)) (a 15)) (r.mul (r.mul (a 0) (a 7)) (a 13)))
                (r.mul (r.mul (a 4) (a 1)) (a 15)))
              (r.mul (r.mul (a 4) (a 3)) (a 13)))
            (r.mul (r.mul (a 12) (a 1)) (a 7)))
          (r.mul (r.mul (a 12) (a 3)) (a 5))) in
      let s = update s 14 (
        r.add
          (sub r
            (sub r
              (r.add
                (r.add (r.mul (r.mul (r.neg (a 0)) (a 5)) (a 14))
                  (r.mul (r.mul (a 0) (a 6)) (a 13)))
                (r.mul (r.mul (a 4) (a 1)) (a 14)))
              (r.mul (r.mul (a 4) (a 2)) (a 13)))
            (r.mul (r.mul (a 12) (a 1)) (a 6)))
          (r.mul (r.mul (a 12) (a 2)) (a 5))) in
      let s = update s 3 (
        r.add
          (sub r
            (sub r
              (r.add
                (r.add (r.mul (r.mul (r.neg (a 1)) (a 6)) (a 11))
                  (r.mul (r.mul (a 1) (a 7)) (a 10)))
                (r.mul (r.mul (a 5) (a 2)) (a 11)))
              (r.mul (r.mul (a 5) (a 3)) (a 10)))
            (r.mul (r.mul (a 9) (a 2)) (a 7)))
          (r.mul (r.mul (a 9) (a 3)) (a 6))) in
      let s = update s 7 (
        sub r
          (r.add
            (r.add
              (sub r (sub r (r.mul (r.mul (a 0) (a 6)) (a 11)) (r.mul (r.mul (a 0) (a 7)) (a 10)))
                (r.mul (r.mul (a 4) (a 2)) (a 11)))
              (r.mul (r.mul (a 4) (a 3)) (a 10)))
            (r.mul (r.mul (a 8) (a 2)) (a 7)))
          (r.mul (r.mul (a 8) (a 3)) (a 6))) in
      let s = update s 11 (
        r.add
          (sub r
            (sub r
              (r.add
                (r.add (r.mul (r.mul (r.neg (a 0)) (a 5)) (a 11)) (r.mul (r.mul (a 0) (a 7)) (a 9)))
                (r.mul (r.mul (a 4) (a 1)) (a 11)))
              (r.mul (r.mul (a 4) (a 3)) (a 9)))
            (r.mul (r.mul (a 8) (a 1)) (a 7)))
          (r.mul (r.mul (a 8) (a 3)) (a 5))) in
      update s 15 (
        sub r
          (r.add
            (r.add
              (sub r (sub r (r.mul (r.mul (a 0) (a 5)) (a 10)) (r.mul (r.mul (a 0) (a 6)) (a 9)))
                (r.mul (r.mul (a 4) (a 1)) (a 10)))
              (r.mul (r.mul (a 4) (a 2)) (a 9)))
            (r.mul (r.mul (a 8) (a 1)) (a 6)))
          (r.mul (r.mul (a 8) (a 2)) (a 5)))

  module _ (div : T → T → T) where
    -- `subDetMat * 1 / det`, if the determinant is not zero.
    pub divided : ℕ → Store T → T → Store T → Store T
    divided n sub_det d junk =
        if is_zero r d
        then junk
        else divide_scalar r div n n (scale r n n sub_det r.one junk) d junk

    pub inverse : ℕ → ℕ → Store T → Store T → Result (Store T)
    unfolding is_invertible sub_det2 sub_det3 sub_det4 divided
    inverse m n a junk =
        if is_invertible m n a junk
        then (let d = det r m a junk in
            if m == 2
            then ok (divided 2 (transpose 2 2 (sub_det2 a junk) junk) d junk)
            else (if m == 3
                then ok (divided 3 (transpose 3 3 (sub_det3 a junk) junk) d junk)
                else (if m == 4
                    then ok (divided 4 (sub_det4 a junk) d junk)
                    else throw not_implemented)))
        else throw not_invertible

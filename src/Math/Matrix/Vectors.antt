-- ===== src/Math/Matrix/Vectors.antt =====
-- Vectors of includes/eeros/math/Matrix.hpp, matrices of one column, and the skew-symmetric matrix.
pub mod Cross
use eeros_framework.Base.{ℕ, zero, suc, ◌+◌, ◌*◌, Store, update}
use eeros_framework.Math.Ring.{Ring, sub}
use eeros_framework.Math.Matrix.{place, cell}

module _ {T : Type 0} where
  pub create_vector2 : T → T → Store T → Store T
  create_vector2 x y junk = update (update junk 0 x) 1 y

  pub create_vector3 : T → T → T → Store T → Store T
  create_vector3 x y z junk = update (update (update junk 0 x) 1 y) 2 z

module _ {T : Type 0} (r : Ring T) where
  pub create_skew_symmetric : Store T → Store T → Store T
  create_skew_symmetric a junk =
      let s = update junk (place 3 0 0) r.zero in
      let s = update s (place 3 0 1) (r.neg (a 2)) in
      let s = update s (place 3 0 2) (a 1) in
      let s = update s (place 3 1 0) (a 2) in
      let s = update s (place 3 1 1) r.zero in
      let s = update s (place 3 1 2) (r.neg (a 0)) in
      let s = update s (place 3 2 0) (r.neg (a 1)) in
      let s = update s (place 3 2 1) (a 0) in update s (place 3 2 2) r.zero

  pub cross_product : Store T → Store T → Store T → Store T
  cross_product a b junk =
      let s =
        update junk (place 3 0 0)
          (sub r (r.mul (cell 3 a 1 0) (cell 3 b 2 0)) (r.mul (cell 3 a 2 0) (cell 3 b 1 0))) in
      let s =
        update s (place 3 1 0)
          (sub r (r.mul (cell 3 a 2 0) (cell 3 b 0 0)) (r.mul (cell 3 a 0 0) (cell 3 b 2 0))) in
      update s (place 3 2 0)
        (sub r (r.mul (cell 3 a 0 0) (cell 3 b 1 0)) (r.mul (cell 3 a 1 0) (cell 3 b 0 0)))

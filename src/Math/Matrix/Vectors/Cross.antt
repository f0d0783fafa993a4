-- ===== src/Math/Matrix/Vectors/Cross.antt =====
-- The cross product as a product with a skew-symmetric matrix.
use eeros_framework.Base.{◌≡◌, ap, ap₂, ◌∙◌, arith, Store}
use eeros_framework.Math.Ring.{Ring, neg-mul, add-zero}
use eeros_framework.Math.Matrix.{cell}
use eeros_framework.Math.Matrix.Algebra.{multiply}
use eeros_framework.Math.Matrix.Algebra.Product.{cell-multiply}
use eeros_framework.Math.Matrix.Vectors.{create_skew_symmetric, cross_product}

module _ {T : Type 0} (r : Ring T) where
  -- The three sums of three products in which one factor is zero.
  sum-first : (x y z : T) → r.add (r.add (r.add r.zero (r.mul r.zero x)) y) z ≡ r.add z y
  sum-first x y z =
      ap (λ t. r.add (r.add t y) z) (r.zero-add (r.mul r.zero x) ∙ r.zero-mul x)
      ∙ ap (λ t. r.add t z) (r.zero-add y)
      ∙ r.add_comm y z

  sum-second : (x y z : T) → r.add (r.add (r.add r.zero y) (r.mul r.zero x)) z ≡ r.add y z
  sum-second x y z = ap (λ t. r.add t z) (ap₂ r.add (r.zero-add y) (r.zero-mul x) ∙ add-zero r y)

  sum-third : (x y z : T) → r.add (r.add (r.add r.zero y) z) (r.mul r.zero x) ≡ r.add z y
  sum-third x y z =
      ap₂ r.add (ap (λ t. r.add t z) (r.zero-add y)) (r.zero-mul x)
      ∙ add-zero r (r.add y z)
      ∙ r.add_comm y z

  -- The product with the skew-symmetric matrix of a vector is the cross product with that vector.
  pub multiply-create_skew_symmetric :
      (a b junk : Store T)
      → let p = multiply r 3 3 1 (create_skew_symmetric r a junk) b junk in
        let c = cross_product r a b junk in
        (cell 3 p 0 0 ≡ cell 3 c 0 0)
        × ((cell 3 p 1 0 ≡ cell 3 c 1 0) × (cell 3 p 2 0 ≡ cell 3 c 2 0))
  unfolding create_skew_symmetric cross_product
  multiply-create_skew_symmetric a b junk =
      let k = create_skew_symmetric r a junk in
      (
        cell-multiply r 3 3 1 k b junk 0 0 (omega arith) (omega arith)
            ∙ sum-first (b 0) (r.mul (r.neg (a 2)) (b 1)) (r.mul (a 1) (b 2))
            ∙ ap (r.add (r.mul (a 1) (b 2))) (neg-mul r (a 2) (b 1)),
        (
          cell-multiply r 3 3 1 k b junk 1 0 (omega arith) (omega arith)
              ∙ sum-second (b 1) (r.mul (a 2) (b 0)) (r.mul (r.neg (a 0)) (b 2))
              ∙ ap (r.add (r.mul (a 2) (b 0))) (neg-mul r (a 0) (b 2)),
          cell-multiply r 3 3 1 k b junk 2 0 (omega arith) (omega arith)
              ∙ sum-third (b 2) (r.mul (r.neg (a 1)) (b 0)) (r.mul (a 0) (b 1))
              ∙ ap (r.add (r.mul (a 0) (b 1))) (neg-mul r (a 1) (b 0)),
        ),
      )

-- ===== src/Math/Matrix/Inverse/Two.antt =====
-- The inverse of a matrix with two rows.
use eeros_framework.Base.{
  ℕ, zero, suc, ◌<◌, ◌≡◌, ◌≢◌, refl, sym, ap, ap₂, ◌∙◌, arith, false, ◌==◌, if◌then◌else◌, Store,
  ok,
}
use eeros_framework.Math.Ring.{Ring, sub, is_zero, mul-neg}
use eeros_framework.Math.Matrix.{cell, transpose}
use eeros_framework.Math.Matrix.Cells.{cell-transpose}
use eeros_framework.Math.Matrix.Algebra.{multiply, scale, divide_scalar}
use eeros_framework.Math.Matrix.Algebra.Product.{cell-multiply, cell-divide_scalar}
use eeros_framework.Math.Matrix.Determinant.{det, det_two}
use eeros_framework.Math.Matrix.Inverse.{is_invertible, sub_det2, divided, inverse}

module _ {T : Type 0} (r : Ring T) (div : T → T → T)
    (div-mul : (x p : T) → p ≢ r.zero → r.mul (div x p) p ≡ x) where
  mul-add_right : (x y z : T) → r.mul (r.add x y) z ≡ r.add (r.mul x z) (r.mul y z)
  mul-add_right x y z =
      r.mul_comm (r.add x y) z ∙ r.mul-add z x y ∙ ap₂ r.add (r.mul_comm z x) (r.mul_comm z y)

  mul-one : (x : T) → r.mul x r.one ≡ x
  mul-one x = r.mul_comm x r.one ∙ r.one-mul x

  -- Equations may be divided.
  cancel : (d x y : T) → d ≢ r.zero → r.mul x d ≡ r.mul y d → x ≡ y
  cancel d x y h e = sym (undo x) ∙ ap (λ z. r.mul z (div r.one d)) e ∙ undo y
    where
      undo : (z : T) → r.mul (r.mul z d) (div r.one d) ≡ z
      undo z =
          r.mul_assoc z d (div r.one d)
          ∙ ap (r.mul z) (r.mul_comm d (div r.one d) ∙ div-mul r.one d h)
          ∙ mul-one z

  -- A sum of two products with quotients.
  quotients :
      (d x y z w v : T)
      → d ≢ r.zero
      → r.add (r.mul x y) (r.mul z w) ≡ r.mul v d
      → r.add (r.mul x (div (r.mul y r.one) d)) (r.mul z (div (r.mul w r.one) d)) ≡ v
  quotients d x y z w v h e = cancel d _ v h (
      mul-add_right (r.mul x (div (r.mul y r.one) d)) (r.mul z (div (r.mul w r.one) d)) d
      ∙ ap₂ r.add (times x y) (times z w)
      ∙ e)
    where
      times : (x y : T) → r.mul (r.mul x (div (r.mul y r.one) d)) d ≡ r.mul x y
      times x y =
          r.mul_assoc x (div (r.mul y r.one) d) d
          ∙ ap (r.mul x) (div-mul (r.mul y r.one) d h ∙ mul-one y)

  determinant : Store T → T
  determinant a = sub r (r.mul (a 0) (a 3)) (r.mul (a 2) (a 1))

  -- The four sums, `v` is the entry of the identity.
  numerator :
      (a : Store T)
      → (r.add (r.mul (a 0) (a 3)) (r.mul (a 2) (r.neg (a 1))) ≡ r.mul r.one (determinant a))
        × (r.add (r.mul (a 0) (r.neg (a 2))) (r.mul (a 2) (a 0)) ≡ r.mul r.zero (determinant a))
        × (r.add (r.mul (a 1) (a 3)) (r.mul (a 3) (r.neg (a 1))) ≡ r.mul r.zero (determinant a))
        × (r.add (r.mul (a 1) (r.neg (a 2))) (r.mul (a 3) (a 0)) ≡ r.mul r.one (determinant a))
  unfolding determinant
  numerator a = (
    ap (r.add (r.mul (a 0) (a 3))) (mul-neg r (a 2) (a 1)) ∙ sym (r.one-mul (determinant a)),
    ap₂ r.add (mul-neg r (a 0) (a 2)) (r.mul_comm (a 2) (a 0))
        ∙ r.neg-add (r.mul (a 0) (a 2))
        ∙ sym (r.zero-mul (determinant a)),
    ap₂ r.add (r.mul_comm (a 1) (a 3)) (mul-neg r (a 3) (a 1))
        ∙ r.add_comm (r.mul (a 3) (a 1)) (r.neg (r.mul (a 3) (a 1)))
        ∙ r.neg-add (r.mul (a 3) (a 1))
        ∙ sym (r.zero-mul (determinant a)),
    r.add_comm (r.mul (a 1) (r.neg (a 2))) (r.mul (a 3) (a 0))
        ∙ ap₂ r.add (r.mul_comm (a 3) (a 0))
            (mul-neg r (a 1) (a 2) ∙ ap r.neg (r.mul_comm (a 1) (a 2)))
        ∙ sym (r.one-mul (determinant a)),
  )

  det-determinant : (a junk : Store T) → det r 2 a junk ≡ determinant a
  unfolding determinant
  det-determinant a junk = det_two r a junk

  adjugate : Store T → Store T → Store T
  adjugate a junk = transpose 2 2 (sub_det2 r a junk) junk

  result : Store T → Store T → Store T
  result a junk =
      divide_scalar r div 2 2 (scale r 2 2 (adjugate a junk) r.one junk) (det r 2 a junk) junk

  cell-adjugate :
      (a junk : Store T) (i j : ℕ)
      → i < 2
      → j < 2
      → cell 2 (adjugate a junk) j i ≡ cell 2 (sub_det2 r a junk) i j
  unfolding adjugate
  cell-adjugate a junk i j h k = cell-transpose 2 2 (sub_det2 r a junk) junk i j h k

  cell-result :
      (a junk : Store T) (i j : ℕ)
      → i < 2
      → j < 2
      → cell 2 (result a junk) j i
        ≡ div (r.mul (cell 2 (sub_det2 r a junk) i j) r.one) (det r 2 a junk)
  unfolding result
  cell-result a junk i j h k =
      cell-divide_scalar r div 2 2 (adjugate a junk) r.one (det r 2 a junk) junk j i k h
      ∙ ap (λ x. div (r.mul x r.one) (det r 2 a junk)) (cell-adjugate a junk i j h k)

  -- An entry of the product.
  entry :
      (a junk : Store T) (i j : ℕ) (v : T)
      → i < 2
      → j < 2
      → det r 2 a junk ≢ r.zero
      → r.add
          (r.mul (cell 2 a i 0) (cell 2 (sub_det2 r a junk) j 0))
          (r.mul (cell 2 a i 1) (cell 2 (sub_det2 r a junk) j 1))
        ≡ r.mul v (determinant a)
      → cell 2 (multiply r 2 2 2 a (result a junk) junk) i j ≡ v
  entry a junk i j v h k n e =
      cell-multiply r 2 2 2 a (result a junk) junk i j h k
      ∙ ap (λ x. r.add x (r.mul (cell 2 a i 1) (cell 2 (result a junk) 1 j)))
          (r.zero-add (r.mul (cell 2 a i 0) (cell 2 (result a junk) 0 j)))
      ∙ ap₂ r.add (ap (r.mul (cell 2 a i 0)) (cell-result a junk j 0 k (omega arith)))
          (ap (r.mul (cell 2 a i 1)) (cell-result a junk j 1 k (omega arith)))
      ∙ quotients (det r 2 a junk) (cell 2 a i 0) (cell 2 (sub_det2 r a junk) j 0) (cell 2 a i 1)
          (cell 2 (sub_det2 r a junk) j 1) v n (e ∙ ap (r.mul v) (sym (det-determinant a junk)))

  multiply-result :
      (a junk : Store T) (i j : ℕ)
      → i < 2
      → j < 2
      → det r 2 a junk ≢ r.zero
      → cell 2 (multiply r 2 2 2 a (result a junk) junk) i j ≡ (if i == j then r.one else r.zero)
  unfolding sub_det2
  multiply-result a junk zero zero h k n = entry a junk 0 0 r.one h k n (numerator a).0
  multiply-result a junk zero (suc zero) h k n = entry a junk 0 1 r.zero h k n (numerator a).1
  multiply-result a junk (suc zero) zero h k n = entry a junk 1 0 r.zero h k n (numerator a).2
  multiply-result a junk (suc zero) (suc zero) h k n = entry a junk 1 1 r.one h k n (numerator a).3
  multiply-result a junk zero (suc (suc j)) h k n = absurd (omega arith)
  multiply-result a junk (suc zero) (suc (suc j)) h k n = absurd (omega arith)
  multiply-result a junk (suc (suc i)) j h k n = absurd (omega arith)

  inverse-result :
      (a junk : Store T) → det r 2 a junk ≢ r.zero → inverse r div 2 2 a junk ≡ ok (result a junk)
  unfolding inverse is_invertible divided result adjugate
  inverse-result a junk n =
      let nonzero : is_zero r (det r 2 a junk) ≡ false =
        ground (arith, (r.equals_iff (det r 2 a junk) r.zero).0) in
      rw nonzero refl

  -- The inverse of a matrix with two rows and columns, whose determinant is not zero, is made
  -- without a fault, and the product of the matrix with it has ones on the diagonal and zeros
  -- elsewhere.
  pub multiply-inverse :
      (a junk : Store T)
      → det r 2 a junk ≢ r.zero
      → (b : Store T) × (inverse r div 2 2 a junk ≡ ok b)
        × ((i j : ℕ)
            → i < 2
            → j < 2
            → cell 2 (multiply r 2 2 2 a b junk) i j ≡ (if i == j then r.one else r.zero))
  multiply-inverse a junk n =
      (result a junk, inverse-result a junk n, λ i j h k. multiply-result a junk i j h k n)

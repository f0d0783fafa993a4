-- ===== src/Math/Frame/Rigid.antt =====
-- Frames with a rotation and a translation.
use eeros_framework.Base.{
  ℕ, zero, suc, ◌<◌, ◌≡◌, refl, sym, ap, ap₂, ◌∙◌, ◌⊎◌, inl, inr, ltb, Bool-cases, arith, Store,
}
use eeros_framework.Math.Ring.{Ring, sum, sum_congr, sum_zero, add-zero, mul-zero}
use eeros_framework.Math.Matrix.{cell}
use eeros_framework.Math.Matrix.Algebra.{multiply, plus}
use eeros_framework.Math.Matrix.Algebra.Product.{cell-multiply, cell-plus}
use eeros_framework.Math.Frame.{rigid}

below_four : (i : ℕ) → i < 4 → i < 3 ⊎ i ≡ 3
below_four i h = elim (Bool-cases (ltb i 3)) [
  | inl e ↦ inl (ground arith)
  | inr e ↦ inr (ground arith)
]

module _ {T : Type 0} (r : Ring T) where
  -- The parts of a rigid frame: the rotation, the translation, and the last row.
  cell-rigid-rotation :
      (rot v junk : Store T) (i j : ℕ)
      → i < 3
      → j < 3
      → cell 4 (rigid r rot v junk) i j ≡ cell 3 rot i j
  unfolding rigid
  cell-rigid-rotation rot v junk zero zero l k = refl
  cell-rigid-rotation rot v junk zero (suc zero) l k = refl
  cell-rigid-rotation rot v junk zero (suc (suc zero)) l k = refl
  cell-rigid-rotation rot v junk (suc zero) zero l k = refl
  cell-rigid-rotation rot v junk (suc zero) (suc zero) l k = refl
  cell-rigid-rotation rot v junk (suc zero) (suc (suc zero)) l k = refl
  cell-rigid-rotation rot v junk (suc (suc zero)) zero l k = refl
  cell-rigid-rotation rot v junk (suc (suc zero)) (suc zero) l k = refl
  cell-rigid-rotation rot v junk (suc (suc zero)) (suc (suc zero)) l k = refl
  cell-rigid-rotation rot v junk zero (suc (suc (suc j))) l k = absurd (omega arith)
  cell-rigid-rotation rot v junk (suc zero) (suc (suc (suc j))) l k = absurd (omega arith)
  cell-rigid-rotation rot v junk (suc (suc zero)) (suc (suc (suc j))) l k = absurd (omega arith)
  cell-rigid-rotation rot v junk (suc (suc (suc i))) j l k = absurd (omega arith)

  cell-rigid-translation :
      (rot v junk : Store T) (i : ℕ) → i < 3 → cell 4 (rigid r rot v junk) i 3 ≡ v i
  unfolding rigid
  cell-rigid-translation rot v junk zero l = refl
  cell-rigid-translation rot v junk (suc zero) l = refl
  cell-rigid-translation rot v junk (suc (suc zero)) l = refl
  cell-rigid-translation rot v junk (suc (suc (suc i))) l = absurd (omega arith)

  cell-rigid-last :
      (rot v junk : Store T) (j : ℕ) → j < 3 → cell 4 (rigid r rot v junk) 3 j ≡ r.zero
  unfolding rigid
  cell-rigid-last rot v junk zero l = refl
  cell-rigid-last rot v junk (suc zero) l = refl
  cell-rigid-last rot v junk (suc (suc zero)) l = refl
  cell-rigid-last rot v junk (suc (suc (suc i))) l = absurd (omega arith)

  cell-rigid-corner : (rot v junk : Store T) → cell 4 (rigid r rot v junk) 3 3 ≡ r.one
  unfolding rigid
  cell-rigid-corner rot v junk = refl

  column : (s : Store T) (i : ℕ) → cell 3 s i 0 ≡ s i
  column s i = ap s (omega arith)

  mul-one : (a : T) → r.mul a r.one ≡ a
  mul-one a = r.mul_comm a r.one ∙ r.one-mul a

  module _ (rot v rot' v' junk : Store T) where
    abbrev left : Store T
    left = rigid r rot v junk

    abbrev right : Store T
    right = rigid r rot' v' junk

    abbrev product : Store T
    product = multiply r 4 4 4 left right junk

    abbrev combined : Store T
    combined =
        rigid r (multiply r 3 3 3 rot rot' junk) (plus r 3 1 (multiply r 3 3 1 rot v' junk) v junk)
          junk

    -- The last term of an entry of the product, and the others.
    split :
        (i j : ℕ) (x y : T)
        → i < 4
        → j < 4
        → sum r 3 (λ l. r.mul (cell 4 left i l) (cell 4 right l j)) ≡ x
        → r.mul (cell 4 left i 3) (cell 4 right 3 j) ≡ y
        → cell 4 product i j ≡ r.add x y
    split i j x y h k p q = cell-multiply r 4 4 4 left right junk i j h k ∙ ap₂ r.add p q

    rotation : (i j : ℕ) → i < 3 → j < 3 → cell 4 product i j ≡ cell 4 combined i j
    rotation i j h k =
        split i j (sum r 3 (λ l. r.mul (cell 3 rot i l) (cell 3 rot' l j))) r.zero (omega arith)
          (omega arith)
          (sum_congr r 3 _ _ (λ l p.
            ap₂ r.mul (cell-rigid-rotation rot v junk i l h p)
              (cell-rigid-rotation rot' v' junk l j p k)))
          (ap (r.mul (cell 4 left i 3)) (cell-rigid-last rot' v' junk j k)
            ∙ mul-zero r (cell 4 left i 3))
        ∙ add-zero r (sum r 3 (λ l. r.mul (cell 3 rot i l) (cell 3 rot' l j)))
        ∙ sym (cell-multiply r 3 3 3 rot rot' junk i j h k)
        ∙ sym (
            cell-rigid-rotation (multiply r 3 3 3 rot rot' junk)
              (plus r 3 1 (multiply r 3 3 1 rot v' junk) v junk) junk i j h k)

    translation : (i : ℕ) → i < 3 → cell 4 product i 3 ≡ cell 4 combined i 3
    translation i h =
        split i 3 (sum r 3 (λ l. r.mul (cell 3 rot i l) (v' l))) (v i) (omega arith) (omega arith)
          (sum_congr r 3 _ _ (λ l p.
            ap₂ r.mul (cell-rigid-rotation rot v junk i l h p)
              (cell-rigid-translation rot' v' junk l p)))
          (ap₂ r.mul (cell-rigid-translation rot v junk i h) (cell-rigid-corner rot' v' junk)
            ∙ mul-one (v i))
        ∙ sym (
            cell-rigid-translation (multiply r 3 3 3 rot rot' junk)
              (plus r 3 1 (multiply r 3 3 1 rot v' junk) v junk) junk i h
            ∙ sym (column (plus r 3 1 (multiply r 3 3 1 rot v' junk) v junk) i)
            ∙ cell-plus r 3 1 (multiply r 3 3 1 rot v' junk) v junk i 0 h (omega arith)
            ∙ ap₂ r.add
                (cell-multiply r 3 3 1 rot v' junk i 0 h (omega arith)
                  ∙ sum_congr r 3 _ _ (λ l p. ap (r.mul (cell 3 rot i l)) (column v' l)))
                (column v i))

    last_row : (j : ℕ) → j < 3 → cell 4 product 3 j ≡ cell 4 combined 3 j
    last_row j k =
        split 3 j r.zero r.zero (omega arith) (omega arith)
          (sum_zero r 3 _ (λ l p.
            ap (λ x. r.mul x (cell 4 right l j)) (cell-rigid-last rot v junk l p)
            ∙ r.zero-mul (cell 4 right l j)))
          (ap (r.mul (cell 4 left 3 3)) (cell-rigid-last rot' v' junk j k)
            ∙ mul-zero r (cell 4 left 3 3))
        ∙ r.zero-add r.zero
        ∙ sym (
            cell-rigid-last (multiply r 3 3 3 rot rot' junk)
              (plus r 3 1 (multiply r 3 3 1 rot v' junk) v junk) junk j k)

    corner : cell 4 product 3 3 ≡ cell 4 combined 3 3
    corner =
        split 3 3 r.zero r.one (omega arith) (omega arith)
          (sum_zero r 3 _ (λ l p.
            ap (λ x. r.mul x (cell 4 right l 3)) (cell-rigid-last rot v junk l p)
            ∙ r.zero-mul (cell 4 right l 3)))
          (ap₂ r.mul (cell-rigid-corner rot v junk) (cell-rigid-corner rot' v' junk)
            ∙ mul-one r.one)
        ∙ r.zero-add r.one
        ∙ sym (
            cell-rigid-corner (multiply r 3 3 3 rot rot' junk)
              (plus r 3 1 (multiply r 3 3 1 rot v' junk) v junk) junk)

  -- The product of the frames with rotations `rot` and `rot'` and translations `v` and `v'` is, in
  -- all its entries, the frame with the rotation `rot * rot'` and the translation `rot * v' + v`.
  pub multiply-rigid :
      (rot v rot' v' junk : Store T) (i j : ℕ)
      → i < 4
      → j < 4
      → cell 4 (multiply r 4 4 4 (rigid r rot v junk) (rigid r rot' v' junk) junk) i j
        ≡ cell 4
            (rigid r
              (multiply r 3 3 3 rot rot' junk)
              (plus r 3 1 (multiply r 3 3 1 rot v' junk) v junk)
              junk)
            i
            j
  multiply-rigid rot v rot' v' junk i j h k = elim (below_four i h) [
    | inl e ↦ elim (below_four j k) [
      | inl f ↦ rotation rot v rot' v' junk i j e f
      | inr f ↦ rw f (translation rot v rot' v' junk i e)
    ]
    | inr e ↦ elim (below_four j k) [
      | inl f ↦ rw e (last_row rot v rot' v' junk j f)
      | inr f ↦ rw (e, f) (corner rot v rot' v' junk)
    ]
  ]

-- ===== src/Math/Examples.antt =====
-- Runs of the matrices and of rigid frames.
use eeros_framework.Base.{
  ℕ, ◌<◌, ◌≡◌, ◌≢◌, refl, sym, ◌∙◌, arith, Bool, true, false, ◌&&◌, ◌||◌, ◌==◌, if◌then◌else◌, some,
  Store, ok,
}
use eeros_framework.Math.Bits.{bits}
use eeros_framework.Math.Matrix.{cell}
use eeros_framework.Math.Matrix.Algebra.{multiply, plus}
use eeros_framework.Math.Matrix.Determinant.{det, det_two}
use eeros_framework.Math.Matrix.Inverse.{inverse}
use eeros_framework.Math.Matrix.Inverse.Two.{multiply-inverse}
use eeros_framework.Math.Matrix.Gauss.{gauss_row_elimination}
use eeros_framework.Math.Matrix.Gauss.Elimination.{gauss_row_elimination_returns}
use eeros_framework.Math.Frame.{rigid}
use eeros_framework.Math.Frame.Rigid.{multiply-rigid}

-- A matrix with ones on and above the diagonal, one with ones below it, and one with all ones.
abbrev upper : Store Bool
upper p = p == 0 || p == 2 || p == 3

abbrev lower : Store Bool
lower p = p == 1

abbrev ones : Store Bool
ones p = true

-- The division of the field of two elements, by one.
abbrev quotient : Bool → Bool → Bool
quotient x p = x

quotient-mul : (x p : Bool) → p ≢ false → (quotient x p && p) ≡ x
quotient-mul x true h = ground arith
quotient-mul x false h = absurd (h refl)

gauss_row_elimination_returns_example :
    (t : Store Bool) × (gauss_row_elimination bits 2 2 quotient ones ≡ some t)
    × ((c i : ℕ) → c < 2 → c < i → i < 2 → cell 2 t c c ≢ false → cell 2 t i c ≡ false)
gauss_row_elimination_returns_example =
    gauss_row_elimination_returns bits 2 2 quotient quotient-mul ones

true_ne : ◌≢◌ {A = Bool} true false
true_ne e = cc

upper-det : det bits 2 upper ones ≢ false
upper-det e = absurd (true_ne (sym (det_two bits upper ones) ∙ e))

multiply-inverse_example :
    (b : Store Bool) × (inverse bits quotient 2 2 upper ones ≡ ok b)
    × ((i j : ℕ)
        → i < 2
        → j < 2
        → cell 2 (multiply bits 2 2 2 upper b ones) i j ≡ (if i == j then true else false))
multiply-inverse_example = multiply-inverse bits quotient quotient-mul upper ones upper-det

multiply-rigid_example :
    cell 4
      (multiply bits 4 4 4 (rigid bits upper lower ones) (rigid bits lower upper ones) ones)
      1
      3
    ≡ cell 4
        (rigid bits
          (multiply bits 3 3 3 upper lower ones)
          (plus bits 3 1 (multiply bits 3 3 1 upper upper ones) lower ones)
          ones)
        1
        3
multiply-rigid_example =
    multiply-rigid bits upper lower lower upper ones 1 3 (omega arith) (omega arith)

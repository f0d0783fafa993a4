-- ===== src/Math/Fraction.antt =====
-- Fractions of polynomials: the class `Fraction` of includes/eeros/math/Fraction.hpp. The order, a
-- template parameter, is an argument; `junk` is what the arrays of a new polynomial hold.
use eeros_framework.Base.{ℕ, ◌+◌, ◌≡◌, sym, ap, ap₂, ◌∙◌, List, arith, Store}
use eeros_framework.Math.Ring.{Ring}
use eeros_framework.Math.Polynome
use eeros_framework.Math.Polynome.{from_vector, max_order}
use eeros_framework.Math.Polynome.Eval.{eval, eval-multiply, eval-scale, eval-add}

pub record Fraction (T : Type 0) : Type 0 where
  pub numerator : Store T
  pub denominator : Store T

max_order_self : (n : ℕ) → max_order n n ≡ n
max_order_self n = ground arith

module _ {T : Type 0} (r : Ring T) (junk : Store T) where
  -- `Fraction(n, d)`
  unfoldable pub from_vectors : ℕ → List T → List T → Fraction T
  from_vectors order n d = record {
    numerator = from_vector r order n junk;
    denominator = from_vector r order d junk;
  }

  -- `*` of a fraction of order `m` with one of order `n`.
  pub multiply : ℕ → ℕ → Fraction T → Fraction T → Fraction T
  multiply m n f g = record {
    numerator = Polynome.multiply r m n f.numerator g.numerator junk;
    denominator = Polynome.multiply r m n f.denominator g.denominator junk;
  }

  -- `*` with a number.
  pub scale : ℕ → Fraction T → T → Fraction T
  scale m f k = record {
    numerator = Polynome.scale r m f.numerator k junk;
    denominator = f.denominator;
  }

  -- `+` of a fraction of order `m` with one of order `n`.
  pub add : ℕ → ℕ → Fraction T → Fraction T → Fraction T
  add m n f g = record {
    numerator =
        Polynome.add r (m + n) (m + n) (Polynome.multiply r m n f.numerator g.denominator junk)
          (Polynome.multiply r m n f.denominator g.numerator junk) junk;
    denominator = Polynome.multiply r m n f.denominator g.denominator junk;
  }

  -- `+` with a number.
  pub add_number : ℕ → Fraction T → T → Fraction T
  add_number m f k = record {
    numerator = Polynome.add r m m f.numerator (Polynome.scale r m f.denominator k junk) junk;
    denominator = f.denominator;
  }

  -- A fraction takes the value `n / d` at `x`.
  pub record Takes (order : ℕ) (f : Fraction T) (x n d : T) : Type 0 where
    pub above : eval r order f.numerator x ≡ n
    pub below : eval r order f.denominator x ≡ d

  module _ (x : T) where
    pub multiply-Takes :
        (m n : ℕ) (f g : Fraction T) {p q s t : T}
        → Takes m f x p q
        → Takes n g x s t
        → Takes (m + n) (multiply m n f g) x (r.mul p s) (r.mul q t)
    unfolding multiply
    multiply-Takes m n f g u v = record {
      above = eval-multiply r m n f.numerator g.numerator junk x ∙ ap₂ r.mul u.above v.above;
      below = eval-multiply r m n f.denominator g.denominator junk x ∙ ap₂ r.mul u.below v.below;
    }

    pub scale-Takes :
        (m : ℕ) (f : Fraction T) (k : T) {p q : T}
        → Takes m f x p q
        → Takes m (scale m f k) x (r.mul p k) q
    unfolding scale
    scale-Takes m f k u = record {
      above = eval-scale r m f.numerator junk k x ∙ ap (λ y. r.mul y k) u.above;
      below = u.below;
    }

    eval-add_self :
        (n : ℕ) (p q : Store T)
        → eval r n (Polynome.add r n n p q junk) x ≡ r.add (eval r n p x) (eval r n q x)
    eval-add_self n p q =
        ap (λ l. eval r l (Polynome.add r n n p q junk) x) (sym (max_order_self n))
        ∙ eval-add r n n p q junk x

    pub add-Takes :
        (m n : ℕ) (f g : Fraction T) {p q s t : T}
        → Takes m f x p q
        → Takes n g x s t
        → Takes (m + n) (add m n f g) x (r.add (r.mul p t) (r.mul q s)) (r.mul q t)
    unfolding add
    add-Takes m n f g u v = record {
      above =
          eval-add_self (m + n) _ _
          ∙ ap₂ r.add
              (eval-multiply r m n f.numerator g.denominator junk x ∙ ap₂ r.mul u.above v.below)
              (eval-multiply r m n f.denominator g.numerator junk x ∙ ap₂ r.mul u.below v.above);
      below = eval-multiply r m n f.denominator g.denominator junk x ∙ ap₂ r.mul u.below v.below;
    }

    pub add_number-Takes :
        (m : ℕ) (f : Fraction T) (k : T) {p q : T}
        → Takes m f x p q
        → Takes m (add_number m f k) x (r.add p (r.mul q k)) q
    unfolding add_number
    add_number-Takes m f k u = record {
      above =
          eval-add_self m _ _
          ∙ ap₂ r.add u.above (eval-scale r m f.denominator junk k x ∙ ap (λ y. r.mul y k) u.below);
      below = u.below;
    }

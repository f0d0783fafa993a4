-- ===== src/Math/Ring.antt =====
-- What the matrices ask of their entries: the template parameter `T` of
-- includes/eeros/math/Matrix.hpp as a commutative ring with the test `==`, as the integral types
-- are within their range. Rounding is not modelled.
use eeros_framework.Base.{ℕ, ◌≡◌, ◌↔◌, Bool, true, zero, suc, ◌<◌, arith, refl, sym, ap, ap₂, ◌∙◌}

pub record Ring (T : Type 0) : Type 0 where
  pub zero : T
  pub one : T
  pub add : T → T → T
  pub mul : T → T → T
  pub neg : T → T
  pub equals : T → T → Bool
  pub equals_iff : (a b : T) → (equals a b ≡ true) ↔ (a ≡ b)
  pub add_comm : (a b : T) → add a b ≡ add b a
  pub add_assoc : (a b c : T) → add (add a b) c ≡ add a (add b c)
  pub zero-add : (a : T) → add zero a ≡ a
  pub neg-add : (a : T) → add (neg a) a ≡ zero
  pub mul_comm : (a b : T) → mul a b ≡ mul b a
  pub mul_assoc : (a b c : T) → mul (mul a b) c ≡ mul a (mul b c)
  pub one-mul : (a : T) → mul one a ≡ a
  pub zero-mul : (a : T) → mul zero a ≡ zero
  pub mul-add : (a b c : T) → mul a (add b c) ≡ add (mul a b) (mul a c)

module _ {T : Type 0} (r : Ring T) where
  abbrev pub sub : T → T → T
  sub a b = r.add a (r.neg b)

  abbrev pub is_zero : T → Bool
  is_zero a = r.equals a r.zero

  -- The sum of `f 0` up to `f (n - 1)`, from the left.
  abbrev pub sum : ℕ → (ℕ → T) → T
  sum zero f = r.zero
  sum (suc n) f = r.add (sum n f) (f n)

  pub sum_congr : (n : ℕ) (f g : ℕ → T) → ((i : ℕ) → i < n → f i ≡ g i) → sum n f ≡ sum n g
  sum_congr zero f g h = refl
  sum_congr (suc n) f g h =
      ap₂ r.add (sum_congr n f g (λ i k. h i (omega arith))) (h n (omega arith))

  pub add-zero : (a : T) → r.add a r.zero ≡ a
  add-zero a = r.add_comm a r.zero ∙ r.zero-add a

  pub mul-zero : (a : T) → r.mul a r.zero ≡ r.zero
  mul-zero a = r.mul_comm a r.zero ∙ r.zero-mul a

  pub sum_zero : (n : ℕ) (f : ℕ → T) → ((i : ℕ) → i < n → f i ≡ r.zero) → sum n f ≡ r.zero
  sum_zero zero f h = refl
  sum_zero (suc n) f h =
      ap₂ r.add (sum_zero n f (λ i k. h i (omega arith))) (h n (omega arith)) ∙ r.zero-add r.zero

  -- `(a + b) + (c + d)` with the two middle terms exchanged.
  pub add_exchange : (a b c d : T) → r.add (r.add a b) (r.add c d) ≡ r.add (r.add a c) (r.add b d)
  add_exchange a b c d =
      r.add_assoc a b (r.add c d)
      ∙ ap (r.add a)
          (sym (r.add_assoc b c d) ∙ ap (λ x. r.add x d) (r.add_comm b c) ∙ r.add_assoc c b d)
      ∙ sym (r.add_assoc a c (r.add b d))

  pub sum-add : (n : ℕ) (f g : ℕ → T) → sum n (λ i. r.add (f i) (g i)) ≡ r.add (sum n f) (sum n g)
  sum-add zero f g = sym (r.zero-add r.zero)
  sum-add (suc n) f g =
      ap (λ x. r.add x (r.add (f n) (g n))) (sum-add n f g)
      ∙ add_exchange (sum n f) (sum n g) (f n) (g n)

  pub mul-sum : (n : ℕ) (x : T) (f : ℕ → T) → r.mul x (sum n f) ≡ sum n (λ i. r.mul x (f i))
  mul-sum zero x f = mul-zero x
  mul-sum (suc n) x f =
      r.mul-add x (sum n f) (f n) ∙ ap (λ y. r.add y (r.mul x (f n))) (mul-sum n x f)

  -- The order of two sums does not matter.
  pub sum-sum :
      (m n : ℕ) (f : ℕ → ℕ → T) → sum m (λ i. sum n (f i)) ≡ sum n (λ j. sum m (λ i. f i j))
  sum-sum zero n f = sym (sum_zero n (λ j. r.zero) (λ i h. refl))
  sum-sum (suc m) n f =
      ap (λ x. r.add x (sum n (f m))) (sum-sum m n f)
      ∙ sym (sum-add n (λ j. sum m (λ i. f i j)) (f m))

  -- A sum that is zero determines its left part.
  pub add_zero-neg : (a b : T) → r.add a b ≡ r.zero → a ≡ r.neg b
  add_zero-neg a b h =
      sym (add-zero a)
      ∙ ap (r.add a) (sym (r.add_comm b (r.neg b) ∙ r.neg-add b))
      ∙ sym (r.add_assoc a b (r.neg b))
      ∙ ap (λ x. r.add x (r.neg b)) h
      ∙ r.zero-add (r.neg b)

  pub mul-neg : (a b : T) → r.mul a (r.neg b) ≡ r.neg (r.mul a b)
  mul-neg a b =
      add_zero-neg (r.mul a (r.neg b)) (r.mul a b)
        (sym (r.mul-add a (r.neg b) b) ∙ ap (r.mul a) (r.neg-add b) ∙ mul-zero a)

  pub neg-mul : (a b : T) → r.mul (r.neg a) b ≡ r.neg (r.mul a b)
  neg-mul a b = r.mul_comm (r.neg a) b ∙ mul-neg b a ∙ ap r.neg (r.mul_comm b a)

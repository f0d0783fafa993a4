-- ===== src/Base/Counts.antt =====
-- How many elements of a list pass a test.
use Prim.Native.Nat.{ℕ, zero, suc, ◌+◌, ◌≤◌, ◌<◌}
use mathlib.Core.Path.{◌≡◌, refl, ap₂, ◌∙◌}
use mathlib.Core.Bool.{Bool, true, false}
use mathlib.Core.List.{List, [], ◌∷◌, ◌++◌}
use native.Mathlib.Omega.{arith}
use eeros_framework.Base.Tests.{if◌then◌else◌}
use eeros_framework.Base.Lists.{length, get_or, length-append}

abbrev pub count : {A : Type 0} → (A → Bool) → List A → ℕ
count p [] = 0
count p (x ∷ xs) = (if p x then 1 else 0) + count p xs

-- `f 0` up to `f (n - 1)`.
abbrev pub first : {A : Type 0} → ℕ → (ℕ → A) → List A
first zero f = []
first (suc n) f = first n f ++ (f n ∷ [])

module _ {A : Type 0} where
  pub length-first : (n : ℕ) (f : ℕ → A) → length (first n f) ≡ n
  length-first zero f = refl
  length-first (suc n) f = length-append (first n f) (f n ∷ []) ∙ omega (arith, length-first n f)

  pub first_congr : (n : ℕ) (f g : ℕ → A) → ((i : ℕ) → i < n → f i ≡ g i) → first n f ≡ first n g
  first_congr zero f g h = refl
  first_congr (suc n) f g h =
      ap₂ (λ xs x. xs ++ (x ∷ [])) (first_congr n f g (λ i k. h i (omega arith)))
        (h n (omega arith))

  pub count-lt-length : (p : A → Bool) (xs : List A) → count p xs ≤ length xs
  count-lt-length p [] = omega arith
  count-lt-length p (x ∷ xs) = ground (arith, count-lt-length p xs)

  -- If the test fails from place `k` on, at most `k` elements pass.
  pub count-before :
      (p : A → Bool) (d : A) (xs : List A) (k : ℕ)
      → ((j : ℕ) → k ≤ j → j < length xs → p (get_or xs j d) ≡ false)
      → count p xs ≤ k
  count-before p d [] k h = omega arith
  count-before p d (x ∷ xs) zero h = ground (
    arith,
    h 0 (omega arith) (omega arith),
    count-before p d xs 0 (λ j k l. h (suc j) (omega arith) (omega arith)),
  )
  count-before p d (x ∷ xs) (suc k) h =
      ground (arith, count-before p d xs k (λ j l l'. h (suc j) (omega arith) (omega arith)))

  -- If the test fails up to place `k`, the elements that pass are among the rest.
  pub count-after :
      (p : A → Bool) (d : A) (xs : List A) (k : ℕ)
      → ((j : ℕ) → j ≤ k → p (get_or xs j d) ≡ false)
      → k < length xs
      → count p xs + (k + 1) ≤ length xs
  count-after p d [] k h l = absurd (omega arith)
  count-after p d (x ∷ xs) zero h l = ground (arith, h 0 (omega arith), count-lt-length p xs)
  count-after p d (x ∷ xs) (suc k) h l = ground (
    arith,
    h 0 (omega arith),
    count-after p d xs k (λ j l. h (suc j) (omega arith)) (omega arith),
  )

  pub count-at :
      (p : A → Bool) (d : A) (xs : List A) (k : ℕ)
      → k < length xs
      → p (get_or xs k d) ≡ true
      → 0 < count p xs
  count-at p d [] k l h = absurd (omega arith)
  count-at p d (x ∷ xs) zero l h = ground (arith, h)
  count-at p d (x ∷ xs) (suc k) l h = ground (arith, count-at p d xs k (omega arith) h)

  pub count_all : (xs : List A) → count (λ x. true) xs ≡ length xs
  count_all [] = refl
  count_all (x ∷ xs) = omega (arith, count_all xs)

-- ===== src/Math/Polynome.antt =====
-- Polynomials: the class `Polynome` of includes/eeros/math/Fraction.hpp. The order, a template
-- parameter, is an argument; the array of the coefficients is a store, which holds `junk` before
-- the constructor fills it.
pub mod Eval
use eeros_framework.Base.{
  ℕ, zero, suc, ◌+◌, List, ltb, ◌&&◌, if◌then◌else◌, Store, update, length, get_or, for_below,
}
use eeros_framework.Math.Ring.{Ring}

-- `MAX`
abbrev pub max_order : ℕ → ℕ → ℕ
max_order m n = if ltb n m then m else n

module _ {T : Type 0} (r : Ring T) where
  -- `Polynome()`
  pub create : ℕ → Store T → Store T
  create order junk = for_below (suc order) (λ i c. update c i r.zero) junk

  -- `Polynome(const std::vector<double>&)`
  unfoldable pub from_vector : ℕ → List T → Store T → Store T
  from_vector order v junk =
      for_below (suc order)
        (λ i c. update c i (if ltb i (length v) then get_or v i r.zero else r.zero)) junk

  -- `*` with a polynomial of order `n`.
  pub multiply : ℕ → ℕ → Store T → Store T → Store T → Store T
  multiply m n p q junk =
      for_below (suc m)
        (λ i. for_below (suc n) (λ j c. update c (i + j) (r.add (c (i + j)) (r.mul (p i) (q j)))))
        (create (m + n) junk)

  -- `*` with a number.
  pub scale : ℕ → Store T → T → Store T → Store T
  scale m p k junk =
      for_below (suc m) (λ i c. update c i (r.add (c i) (r.mul (p i) k))) (create m junk)

  -- The coefficient that `+` writes at `i`, if any.
  abbrev pub added : ℕ → ℕ → Store T → Store T → ℕ → Store T → Store T
  added m n p q i c =
      if ltb i (suc n) && ltb i (suc m)
      then update c i (r.add (p i) (q i))
      else (if ltb i (suc m)
          then update c i (p i)
          else (if ltb i (suc n) then update c i (q i) else c))

  -- `+` with a polynomial of order `n`.
  pub add : ℕ → ℕ → Store T → Store T → Store T → Store T
  add m n p q junk = for_below (suc (max_order m n)) (added m n p q) (create (max_order m n) junk)

  -- `+` with a number.
  pub add_number : Store T → T → Store T
  add_number p k = update p 0 (r.add (p 0) k)

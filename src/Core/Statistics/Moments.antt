-- ===== src/Core/Statistics/Moments.antt =====
-- The mean and the variance that are kept: src/core/Statistics.cpp.
use eeros_framework.Base.{ℕ, zero, suc, ◌+◌, ◌≡◌, refl, sym, ap, ap₂, ◌∙◌, List, [], ◌∷◌, arith}
use eeros_framework.Math.Ring.{
  Ring, sub, add_zero-neg, add_exchange, add-zero, mul-zero, mul-neg, neg-mul,
}
use eeros_framework.Core.Statistics.{Numbers, Statistics, reset, variance_of, add, adds}

abbrev pub number_of : {T : Type 0} → List T → ℕ
number_of [] = 0
number_of (v ∷ vs) = suc (number_of vs)

module _ {T : Type 0} (r : Ring T) where
  -- The number `1 + ... + 1`, with `n` ones.
  abbrev pub numeral : ℕ → T
  numeral zero = r.zero
  numeral (suc n) = r.add r.one (numeral n)

  abbrev pub total : List T → T
  total [] = r.zero
  total (v ∷ vs) = r.add v (total vs)

  -- The sum of the squares of the distances to `m`.
  abbrev pub deviations : T → List T → T
  deviations m [] = r.zero
  deviations m (v ∷ vs) = r.add (r.mul (sub r v m) (sub r v m)) (deviations m vs)

  abbrev total_squares : List T → T
  total_squares [] = r.zero
  total_squares (v ∷ vs) = r.add (r.mul v v) (total_squares vs)

  -- `b - 2 m a + k m m`
  abbrev spread : T → T → T → T → T
  spread m a b k = r.add (sub r b (r.mul (r.mul (r.add r.one r.one) m) a)) (r.mul k (r.mul m m))

  neg_neg : (a : T) → r.neg (r.neg a) ≡ a
  neg_neg a = sym (add_zero-neg r a (r.neg a) (r.add_comm a (r.neg a) ∙ r.neg-add a))

  mul-add_right : (a b c : T) → r.mul (r.add a b) c ≡ r.add (r.mul a c) (r.mul b c)
  mul-add_right a b c =
      r.mul_comm (r.add a b) c ∙ r.mul-add c a b ∙ ap₂ r.add (r.mul_comm c a) (r.mul_comm c b)

  neg_mul-add :
      (x a b : T) → r.neg (r.mul x (r.add a b)) ≡ r.add (r.neg (r.mul x a)) (r.neg (r.mul x b))
  neg_mul-add x a b =
      sym (neg-mul r x (r.add a b))
      ∙ r.mul-add (r.neg x) a b
      ∙ ap₂ r.add (neg-mul r x a) (neg-mul r x b)

  spread_add :
      (m a b k a' b' k' : T)
      → spread m (r.add a a') (r.add b b') (r.add k k') ≡ r.add (spread m a b k) (spread m a' b' k')
  spread_add m a b k a' b' k' =
      let x = r.mul (r.add r.one r.one) m in
      ap₂ r.add
        (ap (r.add (r.add b b')) (neg_mul-add x a a')
          ∙ add_exchange r b b' (r.neg (r.mul x a)) (r.neg (r.mul x a')))
        (mul-add_right k k' (r.mul m m))
      ∙ add_exchange r (sub r b (r.mul x a)) (sub r b' (r.mul x a')) (r.mul k (r.mul m m))
          (r.mul k' (r.mul m m))

  -- `2 m v` is `m v + m v`.
  twice : (m v : T) → r.mul (r.mul (r.add r.one r.one) m) v ≡ r.mul m (r.add v v)
  twice m v =
      ap (λ x. r.mul x v) (mul-add_right r.one r.one m ∙ ap₂ r.add (r.one-mul m) (r.one-mul m))
      ∙ mul-add_right m m v
      ∙ sym (r.mul-add m v v)

  -- `(v - m) (v - m) = v v - 2 m v + m m`
  square : (m v : T) → r.mul (sub r v m) (sub r v m) ≡ spread m v (r.mul v v) r.one
  square m v =
      let n = r.neg m in
      let x = r.neg (r.mul m v) in
      r.mul-add (r.add v n) v n
      ∙ ap₂ r.add (mul-add_right v n v) (mul-add_right v n n)
      ∙ ap₂ r.add (ap (r.add (r.mul v v)) (neg-mul r m v)) (
          ap₂ r.add (mul-neg r v m ∙ ap r.neg (r.mul_comm v m))
            (mul-neg r n m ∙ ap r.neg (neg-mul r m m) ∙ neg_neg (r.mul m m)))
      ∙ sym (r.add_assoc (r.add (r.mul v v) x) x (r.mul m m))
      ∙ ap₂ r.add
          (r.add_assoc (r.mul v v) x x
            ∙ ap (r.add (r.mul v v)) (sym (ap r.neg (twice m v) ∙ neg_mul-add m v v)))
          (sym (r.one-mul (r.mul m m)))

  spread_zero : (m : T) → spread m r.zero r.zero r.zero ≡ r.zero
  spread_zero m =
      ap₂ r.add
        (r.zero-add (r.neg (r.mul (r.mul (r.add r.one r.one) m) r.zero))
          ∙ ap r.neg (mul-zero r (r.mul (r.add r.one r.one) m))
          ∙ sym (add-zero r (r.neg r.zero))
          ∙ r.neg-add r.zero)
        (r.zero-mul (r.mul m m))
      ∙ r.zero-add r.zero

  deviations-spread :
      (m : T) (vs : List T)
      → deviations m vs ≡ spread m (total vs) (total_squares vs) (numeral (number_of vs))
  deviations-spread m [] = sym (spread_zero m)
  deviations-spread m (v ∷ vs) =
      ap₂ r.add (square m v) (deviations-spread m vs)
      ∙ sym
          (spread_add m v (r.mul v v) r.one (total vs) (total_squares vs) (numeral (number_of vs)))

module _ {T : Type 0} (t : Numbers T) where
  adds-count : (vs : List T) (s : Statistics T) → (adds t vs s).count ≡ s.count + number_of vs
  unfolding adds add
  adds-count [] s = omega arith
  adds-count (v ∷ vs) s = adds-count vs (add t v s) ∙ omega arith

  adds-sum :
      (vs : List T) (s : Statistics T) → (adds t vs s).sum ≡ t.ring.add s.sum (total t.ring vs)
  unfolding adds add
  adds-sum [] s = sym (add-zero t.ring s.sum)
  adds-sum (v ∷ vs) s = adds-sum vs (add t v s) ∙ t.ring.add_assoc s.sum v (total t.ring vs)

  adds-squares :
      (vs : List T) (s : Statistics T)
      → (adds t vs s).squares ≡ t.ring.add s.squares (total_squares t.ring vs)
  unfolding adds add
  adds-squares [] s = sym (add-zero t.ring s.squares)
  adds-squares (v ∷ vs) s =
      adds-squares vs (add t v s)
      ∙ t.ring.add_assoc s.squares (t.ring.mul v v) (total_squares t.ring vs)

  -- The mean and the variance are those of the sums.
  abbrev IsDerived : Statistics T → Type 0
  IsDerived s =
      (s.mean ≡ t.divide s.sum s.count)
      × (s.variance ≡ variance_of t s.count s.sum s.squares s.mean)

  adds-IsDerived : (vs : List T) (s : Statistics T) → IsDerived s → IsDerived (adds t vs s)
  unfolding adds add
  adds-IsDerived [] s h = h
  adds-IsDerived (v ∷ vs) s h = adds-IsDerived vs (add t v s) (refl, refl)

  -- The number `n`, as a divisor, undoes the division by the count `n`.
  abbrev pub Divides : ℕ → Type 0
  Divides n = (x : T) → t.ring.mul (numeral t.ring n) (t.divide x n) ≡ x

  variance_of-deviations :
      (vs : List T) (n : ℕ) (a b m : T)
      → Divides (number_of vs)
      → n ≡ number_of vs
      → a ≡ total t.ring vs
      → b ≡ total_squares t.ring vs
      → t.ring.mul (numeral t.ring n) (variance_of t n a b m) ≡ deviations t.ring m vs
  unfolding variance_of
  variance_of-deviations vs n a b m law p q u = rw p (
      t.ring.mul-add (numeral t.ring (number_of vs)) _ (t.ring.mul m m)
      ∙ ap (λ x. t.ring.add x (t.ring.mul (numeral t.ring (number_of vs)) (t.ring.mul m m))) (law _)
      ∙ rw (q, u) (sym (deviations-spread t.ring m vs)))

  mean_of-total :
      (vs : List T) (n : ℕ) (a : T)
      → Divides (number_of vs)
      → n ≡ number_of vs
      → a ≡ total t.ring vs
      → t.ring.mul (numeral t.ring n) (t.divide a n) ≡ total t.ring vs
  mean_of-total vs n a law p q = rw p (law a ∙ q)

  -- The measurements `v` and `vs` after a reset: their number, the mean as their sum divided by it,
  -- and the variance as the sum of the squares of the distances to the mean divided by it, where
  -- the division by this number is exact.
  pub adds-moments :
      (v : T) (vs : List T)
      → Divides (number_of (v ∷ vs))
      → let s = adds t (v ∷ vs) (reset t) in
        (s.count ≡ number_of (v ∷ vs))
        × (t.ring.mul (numeral t.ring s.count) s.mean ≡ total t.ring (v ∷ vs))
        × (t.ring.mul (numeral t.ring s.count) s.variance ≡ deviations t.ring s.mean (v ∷ vs))
  unfolding reset adds add
  adds-moments v vs law =
      let s = adds t (v ∷ vs) (reset t) in
      let k : s.count ≡ number_of (v ∷ vs) = adds-count (v ∷ vs) (reset t) ∙ omega arith in
      let a = adds-sum (v ∷ vs) (reset t) ∙ t.ring.zero-add (total t.ring (v ∷ vs)) in
      let b = adds-squares (v ∷ vs) (reset t) ∙ t.ring.zero-add (total_squares t.ring (v ∷ vs)) in
      let (p, q) = adds-IsDerived vs (add t v (reset t)) (refl, refl) in
      (
        k,
        ap (t.ring.mul (numeral t.ring s.count)) p ∙ mean_of-total (v ∷ vs) s.count s.sum law k a,
        ap (t.ring.mul (numeral t.ring s.count)) q
            ∙ variance_of-deviations (v ∷ vs) s.count s.sum s.squares s.mean law k a b,
      )

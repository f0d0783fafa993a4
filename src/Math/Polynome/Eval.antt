-- ===== src/Math/Polynome/Eval.antt =====
-- The operations of polynomials by their values: includes/eeros/math/Fraction.hpp.
use eeros_framework.Base.{
  ℕ, zero, suc, ◌+◌, ◌≤◌, ◌<◌, ◌≡◌, sym, ap, ap₂, ◌∙◌, ltb, arith, if◌then◌else◌, Store, update,
  update_self, update_ne, for_below, Bool-cases, inl, inr,
}
use eeros_framework.Math.Ring.{Ring, sum, sum_congr, sum_zero, sum-add, mul-sum, add-zero}
use eeros_framework.Math.Polynome.{create, multiply, scale, add, add_number, added, max_order}

module _ {T : Type 0} (r : Ring T) where
  -- `x ^ n`
  abbrev pub power : T → ℕ → T
  power x zero = r.one
  power x (suc n) = r.mul (power x n) x

  -- The value at `x` of the polynomial with the first `n` coefficients.
  abbrev terms : ℕ → Store T → T → T
  terms n c x = sum r n (λ i. r.mul (c i) (power x i))

  -- The value of a polynomial of the given order.
  unfoldable pub eval : ℕ → Store T → T → T
  eval order c x = terms (suc order) c x

  add-mul : (a b c : T) → r.mul (r.add a b) c ≡ r.add (r.mul a c) (r.mul b c)
  add-mul a b c =
      r.mul_comm (r.add a b) c ∙ r.mul-add c a b ∙ ap₂ r.add (r.mul_comm c a) (r.mul_comm c b)

  add_swap : (a b c : T) → r.add (r.add a b) c ≡ r.add (r.add a c) b
  add_swap a b c = r.add_assoc a b c ∙ ap (r.add a) (r.add_comm b c) ∙ sym (r.add_assoc a c b)

  mul_exchange : (a b c d : T) → r.mul (r.mul a b) (r.mul c d) ≡ r.mul (r.mul a c) (r.mul b d)
  mul_exchange a b c d =
      r.mul_assoc a b (r.mul c d)
      ∙ ap (r.mul a)
          (sym (r.mul_assoc b c d) ∙ ap (λ y. r.mul y d) (r.mul_comm b c) ∙ r.mul_assoc c b d)
      ∙ sym (r.mul_assoc a c (r.mul b d))

  power_add : (x : T) (m n : ℕ) → power x (m + n) ≡ r.mul (power x m) (power x n)
  power_add x m zero =
      ap (power x) (omega arith) ∙ sym (r.mul_comm (power x m) r.one ∙ r.one-mul (power x m))
  power_add x m (suc n) =
      ap (power x) {y = suc (m + n)} (omega arith)
      ∙ ap (λ y. r.mul y x) (power_add x m n)
      ∙ r.mul_assoc (power x m) (power x n) x

  terms-update_out :
      (n k : ℕ) (c : Store T) (v x : T) → n ≤ k → terms n (update c k v) x ≡ terms n c x
  terms-update_out n k c v x h =
      sum_congr r n _ _
        (λ i l. ap (λ y. r.mul y (power x i)) (update_ne c k i v (λ e. omega arith)))

  -- What is added to a coefficient is added to the value.
  terms-update :
      (n k : ℕ) (c : Store T) (v x : T)
      → k < n
      → terms n (update c k (r.add (c k) v)) x ≡ r.add (terms n c x) (r.mul v (power x k))
  terms-update zero k c v x h = absurd (omega arith)
  terms-update (suc n) k c v x h = elim (Bool-cases (ltb k n)) [
    | inl before ↦
        let below : k < n = ground arith in
        ap₂ r.add (terms-update n k c v x below)
          (ap (λ y. r.mul y (power x n)) (update_ne c k n _ (λ e. omega arith)))
        ∙ add_swap (terms n c x) (r.mul v (power x k)) (r.mul (c n) (power x n))
    | inr last ↦
        let same : k ≡ n = ground arith in
        rw same (
          ap₂ r.add (terms-update_out n n c _ x (omega arith))
            (ap (λ y. r.mul y (power x n)) (update_self c n _) ∙ add-mul (c n) v (power x n))
          ∙ sym (r.add_assoc (terms n c x) (r.mul (c n) (power x n)) (r.mul v (power x n))))
  ]

  cleared :
      (n i : ℕ) (junk : Store T) → i < n → for_below n (λ i c. update c i r.zero) junk i ≡ r.zero
  cleared zero i junk h = absurd (omega arith)
  cleared (suc n) i junk h = ground (arith, cleared n i junk)

  eval-create : (n : ℕ) (junk : Store T) (x : T) → eval n (create r n junk) x ≡ r.zero
  unfolding eval create
  eval-create n junk x =
      sum_zero r (suc n) _
        (λ i h. ap (λ y. r.mul y (power x i)) (cleared (suc n) i junk h) ∙ r.zero-mul (power x i))

  -- A loop that adds `v j` to coefficient `g j`.
  terms-loop :
      (l n : ℕ) (g : ℕ → ℕ) (v : ℕ → T) (c : Store T) (x : T)
      → ((j : ℕ) → j < n → g j < l)
      → terms l (for_below n (λ j c. update c (g j) (r.add (c (g j)) (v j))) c) x
        ≡ r.add (terms l c x) (sum r n (λ j. r.mul (v j) (power x (g j))))
  terms-loop l zero g v c x h = sym (add-zero r (terms l c x))
  terms-loop l (suc n) g v c x h =
      terms-update l (g n) _ (v n) x (h n (omega arith))
      ∙ ap (λ y. r.add y (r.mul (v n) (power x (g n))))
          (terms-loop l n g v c x (λ j k. h j (omega arith)))
      ∙ r.add_assoc (terms l c x) (sum r n (λ j. r.mul (v j) (power x (g j))))
          (r.mul (v n) (power x (g n)))

  product_row :
      (n i : ℕ) (p q : Store T) (x : T)
      → sum r n (λ j. r.mul (r.mul (p i) (q j)) (power x (i + j)))
        ≡ r.mul (r.mul (p i) (power x i)) (terms n q x)
  product_row n i p q x =
      sum_congr r n _ _ (λ j h.
        ap (r.mul (r.mul (p i) (q j))) (power_add x i j)
        ∙ mul_exchange (p i) (q j) (power x i) (power x j))
      ∙ sym (mul-sum r n (r.mul (p i) (power x i)) (λ j. r.mul (q j) (power x j)))

  terms-rows :
      (l m n : ℕ) (p q c : Store T) (x : T)
      → m + n ≤ suc l
      → terms l
          (for_below m
            (λ i. for_below n (λ j c. update c (i + j) (r.add (c (i + j)) (r.mul (p i) (q j)))))
            c)
          x
        ≡ r.add (terms l c x) (r.mul (terms m p x) (terms n q x))
  terms-rows l zero n p q c x h =
      sym (ap (r.add (terms l c x)) (r.zero-mul (terms n q x)) ∙ add-zero r (terms l c x))
  terms-rows l (suc m) n p q c x h =
      terms-loop l n (λ j. m + j) (λ j. r.mul (p m) (q j)) _ x (λ j k. omega arith)
      ∙ ap₂ r.add (terms-rows l m n p q c x (omega arith)) (product_row n m p q x)
      ∙ r.add_assoc (terms l c x) (r.mul (terms m p x) (terms n q x))
          (r.mul (r.mul (p m) (power x m)) (terms n q x))
      ∙ ap (r.add (terms l c x))
          (sym (add-mul (terms m p x) (r.mul (p m) (power x m)) (terms n q x)))

  from_zero : (n : ℕ) (junk : Store T) (x y : T) → r.add (terms (suc n) (create r n junk) x) y ≡ y
  unfolding eval
  from_zero n junk x y = ap (λ z. r.add z y) (eval-create n junk x) ∙ r.zero-add y

  product_last : (a k y : T) → r.mul (r.mul a k) y ≡ r.mul k (r.mul a y)
  product_last a k y = ap (λ z. r.mul z y) (r.mul_comm a k) ∙ r.mul_assoc k a y

  pub eval-multiply :
      (m n : ℕ) (p q junk : Store T) (x : T)
      → eval (m + n) (multiply r m n p q junk) x ≡ r.mul (eval m p x) (eval n q x)
  unfolding multiply eval
  eval-multiply m n p q junk x =
      terms-rows (suc (m + n)) (suc m) (suc n) p q (create r (m + n) junk) x (omega arith)
      ∙ from_zero (m + n) junk x (r.mul (eval m p x) (eval n q x))

  pub eval-scale :
      (m : ℕ) (p junk : Store T) (k x : T) → eval m (scale r m p k junk) x ≡ r.mul (eval m p x) k
  unfolding scale eval
  eval-scale m p junk k x =
      terms-loop (suc m) (suc m) (λ j. j) (λ j. r.mul (p j) k) (create r m junk) x (λ j h. h)
      ∙ from_zero m junk x (sum r (suc m) (λ j. r.mul (r.mul (p j) k) (power x j)))
      ∙ sum_congr r (suc m) _ _ (λ j h. product_last (p j) k (power x j))
      ∙ sym (mul-sum r (suc m) k (λ j. r.mul (p j) (power x j)))
      ∙ r.mul_comm k (eval m p x)

  pub eval-add_number :
      (m : ℕ) (p : Store T) (k x : T) → eval m (add_number r p k) x ≡ r.add (eval m p x) k
  unfolding add_number eval
  eval-add_number m p k x =
      terms-update (suc m) 0 p k x (omega arith)
      ∙ ap (r.add (terms (suc m) p x)) (r.mul_comm k r.one ∙ r.one-mul k)

  -- A coefficient, or zero beyond the order.
  abbrev padded : ℕ → Store T → ℕ → T
  padded m p i = if ltb i (suc m) then p i else r.zero

  terms-padded : (m n : ℕ) (p : Store T) (x : T) → suc m ≤ n → terms n (padded m p) x ≡ eval m p x
  unfolding eval
  terms-padded m zero p x h = absurd (omega arith)
  terms-padded m (suc n) p x h = elim (Bool-cases (ltb m n)) [
    | inl behind ↦
        ap₂ r.add (terms-padded m n p x (ground arith))
          (ap (λ y. r.mul y (power x n)) (ground arith) ∙ r.zero-mul (power x n))
        ∙ add-zero r (eval m p x)
    | inr last ↦
        let same : n ≡ m = ground arith in
        rw same (sum_congr r (suc m) _ _ (λ i k. ap (λ y. r.mul y (power x i)) (ground arith)))
  ]

  added-eq-update :
      (m n i : ℕ) (p q c : Store T)
      → i < suc (max_order m n)
      → added r m n p q i c ≡ update c i (r.add (padded m p i) (padded n q i))
  added-eq-update m n i p q c h = ground (arith, add-zero r (p i), r.zero-add (q i))

  added-loop :
      (m n k i : ℕ) (p q c : Store T)
      → k ≤ suc (max_order m n)
      → i < k
      → for_below k (added r m n p q) c i ≡ r.add (padded m p i) (padded n q i)
  added-loop m n zero i p q c h l = absurd (omega arith)
  added-loop m n (suc k) i p q c h l =
      ap (λ d. d i) (added-eq-update m n k p q (for_below k (added r m n p q) c) (omega arith))
      ∙ ground (arith, added-loop m n k i p q c)

  pub eval-add :
      (m n : ℕ) (p q junk : Store T) (x : T)
      → eval (max_order m n) (add r m n p q junk) x ≡ r.add (eval m p x) (eval n q x)
  unfolding add eval
  eval-add m n p q junk x =
      let top = max_order m n in
      sum_congr r (suc top) _ _ (λ i h.
        ap (λ y. r.mul y (power x i))
          (added-loop m n (suc top) i p q (create r top junk) (omega arith) h)
        ∙ add-mul (padded m p i) (padded n q i) (power x i))
      ∙ sum-add r (suc top) (λ i. r.mul (padded m p i) (power x i))
          (λ i. r.mul (padded n q i) (power x i))
      ∙ ap₂ r.add (terms-padded m (suc top) p x (ground arith))
          (terms-padded n (suc top) q x (ground arith))

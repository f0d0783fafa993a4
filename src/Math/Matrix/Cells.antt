-- ===== src/Math/Matrix/Cells.antt =====
-- What the loops over the cells of a matrix leave in its array.
use eeros_framework.Base.{
  ℕ, zero, suc, ◌*◌, ◌<◌, ◌≡◌, ◌≢◌, refl, ap, ◌∙◌, ◌⊎◌, inl, inr, ◌&&◌, ◌==◌, ltb, ==_iff, arith,
  Store, update, update_self, update_ne, for_below, Bool-cases, if◌then◌else◌,
}
use eeros_framework.Math.Matrix.{place, cell, write_cells, tabulate, transpose}

place-lt : (m i j i' j' : ℕ) → i < m → j < j' → place m i j < place m i' j'
place-lt m i j i' j' h k = grind arith

Nat-cases : (a b : ℕ) → a < b ⊎ (a ≡ b ⊎ b < a)
Nat-cases a b = elim (Bool-cases (ltb a b)) [
  | inl e ↦ inl (ground (arith))
  | inr e ↦ elim (Bool-cases (ltb b a)) [
    | inl f ↦ inr (inr (ground (arith)))
    | inr f ↦ inr (inl (ground (arith)))
  ]
]

-- Cells of different rows or columns stand at different places.
pub place_inj :
    (m i j i' j' : ℕ) → i < m → i' < m → place m i j ≡ place m i' j' → (i ≡ i') × (j ≡ j')
place_inj m i j i' j' h k e = elim (Nat-cases j j') [
  | inl l ↦ absurd (ground (arith, place-lt m i j i' j' h l))
  | inr (inl l) ↦ ground (arith, ap (λ x. m * x) l)
  | inr (inr l) ↦ absurd (ground (arith, place-lt m i' j' i j k l))
]

module _ {T : Type 0} where
  write_row-miss :
      (n : ℕ) (t : ℕ → ℕ) (v : ℕ → T) (s : Store T) (p : ℕ)
      → ((j : ℕ) → j < n → t j ≢ p)
      → for_below n (λ j s. update s (t j) (v j)) s p ≡ s p
  write_row-miss zero t v s p h = refl
  write_row-miss (suc n) t v s p h =
      update_ne (for_below n (λ j s. update s (t j) (v j)) s) (t n) p (v n) (h n (omega arith))
      ∙ write_row-miss n t v s p (λ j k. h j (omega arith))

  write_row-hit :
      (n : ℕ) (t : ℕ → ℕ) (v : ℕ → T) (s : Store T) (j : ℕ)
      → ((i : ℕ) → i < n → t i ≡ t j → i ≡ j)
      → j < n
      → for_below n (λ j s. update s (t j) (v j)) s (t j) ≡ v j
  write_row-hit zero t v s j inj h = absurd (omega arith)
  write_row-hit (suc n) t v s j inj h = elim (Bool-cases (n == j)) [
    | inl e ↦
        let same : n ≡ j = (==_iff n j).0 e in
        rw same (update_self (for_below j (λ j s. update s (t j) (v j)) s) (t j) (v j))
    | inr e ↦
        update_ne (for_below n (λ j s. update s (t j) (v j)) s) (t n) (t j) (v n)
          (λ eq. ground (arith, inj n (omega arith) eq))
        ∙ write_row-hit n t v s j (λ i k. inj i (omega arith)) (ground arith)
  ]

  -- The loops put `v i j` at the target of cell `i j`, if no other cell has that target.
  pub write_cells-hit :
      (m n : ℕ) (t : ℕ → ℕ → ℕ) (v : ℕ → ℕ → T) (s : Store T) (i j : ℕ)
      → ((i' j' : ℕ) → i' < m → j' < n → t i' j' ≡ t i j → (i' ≡ i) × (j' ≡ j))
      → i < m
      → j < n
      → write_cells m n t v s (t i j) ≡ v i j
  unfolding write_cells
  write_cells-hit zero n t v s i j inj h k = absurd (omega arith)
  write_cells-hit (suc m) n t v s i j inj h k = elim (Bool-cases (m == i)) [
    | inl e ↦
        let same : m ≡ i = (==_iff m i).0 e in
        rw same
          (write_row-hit n (t i) (v i) (write_cells i n t v s) j (λ j' l eq. (inj i j' h l eq).1) k)
    | inr e ↦
        write_row-miss n (t m) (v m) (write_cells m n t v s) (t i j)
          (λ j' l eq. ground (arith, (inj m j' (omega arith) l eq).0))
        ∙ write_cells-hit m n t v s i j (λ i' j' l. inj i' j' (omega arith)) (ground arith) k
  ]

  pub cell-tabulate :
      (m n : ℕ) (v : ℕ → ℕ → T) (junk : Store T) (i j : ℕ)
      → i < m
      → j < n
      → cell m (tabulate m n v junk) i j ≡ v i j
  unfolding tabulate
  cell-tabulate m n v junk i j h k =
      write_cells-hit m n (place m) v junk i j (λ i' j' l l'. place_inj m i' j' i j l h) h k

  pub cell-transpose :
      (m n : ℕ) (a junk : Store T) (i j : ℕ)
      → i < m
      → j < n
      → cell n (transpose m n a junk) j i ≡ cell m a i j
  unfolding transpose
  cell-transpose m n a junk i j h k =
      write_cells-hit m n (λ i j. place n j i) (cell m a) junk i j
        (λ i' j' l l' eq. let (e, f) = place_inj n j' i' j i l' k eq in (f, e)) h k

  -- A cell after the assignment of one.
  pub cell-update :
      (m : ℕ) (s : Store T) (a b : ℕ) (v : T) (i j : ℕ)
      → i < m
      → a < m
      → cell m (update s (place m a b) v) i j ≡ (if (i == a) && (j == b) then v else cell m s i j)
  cell-update m s a b v i j h k = ground (arith, place_inj m a b i j k h, place_inj m i j a b h k)

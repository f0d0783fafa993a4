-- ===== src/Math/Matrix/Gauss/Elimination.antt =====
-- The elimination below the diagonal.
use eeros_framework.Base.{
  ℕ, zero, suc, ◌+◌, ◌-◌, ◌≤◌, ◌<◌, ◌≡◌, ◌≢◌, refl, sym, ap, ◌∙◌, inl, inr, true, false, ◌&&◌, ltb,
  leb, ◌==◌, ==_iff, if◌then◌else◌, arith, Bool-cases, some, Store,
}
use eeros_framework.Math.Ring.{Ring, sub, is_zero}
use eeros_framework.Math.Matrix.{cell}
use eeros_framework.Math.Matrix.Cells.{cell-update}
use eeros_framework.Math.Matrix.Gauss.{
  subtract_row, check_row, clear_column, clear_columns, gauss_row_elimination,
}
use eeros_framework.Math.Matrix.Gauss.Sorted.{sort_for_gauss_algorithm_returns}

module _ {T : Type 0} (r : Ring T) (m n : ℕ) (div : T → T → T) where
  cell-subtract_row :
      (c root row : ℕ) (f : T) (k : ℕ) (s : Store T) (i j : ℕ)
      → root < m
      → row < m
      → root ≢ row
      → i < m
      → cell m (subtract_row r m n div c root row f k s) i j ≡ (
          if (i == row) && (leb c j && ltb j (c + k))
          then sub r (cell m s i j) (r.mul f (cell m s root j))
          else cell m s i j)
  cell-subtract_row c root row f zero s i j a b d e = ground arith
  cell-subtract_row c root row f (suc k) s i j a b d e =
      let t = subtract_row r m n div c root row f k s in
      let v = sub r (cell m t row (c + k)) (r.mul f (cell m t root (c + k))) in
      ground (
        arith,
        cell-update m t row (c + k) v i j e b,
        cell-subtract_row c root row f k s i j a b d e,
        cell-subtract_row c root row f k s row (c + k) a b d b,
        cell-subtract_row c root row f k s root (c + k) a b d a,
      )

  check_row-frame :
      (c root row : ℕ) (s : Store T) (i j : ℕ)
      → root < m
      → row < m
      → root ≢ row
      → i < m
      → ((i == row) && leb c j) ≡ false
      → cell m (check_row r m n div c root row s) i j ≡ cell m s i j
  unfolding check_row
  check_row-frame c root row s i j a b d e h =
      let f = div (cell m s row c) (cell m s root c) in
      ground (arith, cell-subtract_row c root row f (n - c) s i j a b d e)

  clear_column-frame :
      (left c root row : ℕ) (s : Store T) (i j : ℕ)
      → root < row
      → left ≤ m - row
      → i < m
      → (leb row i && leb c j) ≡ false
      → cell m (clear_column r m n div left c root row s) i j ≡ cell m s i j
  unfolding clear_column
  clear_column-frame zero c root row s i j a b e h = refl
  clear_column-frame (suc left) c root row s i j a b e h =
      let t = check_row r m n div c root row s in
      ground (
        arith,
        check_row-frame c root row s i j (omega arith) (omega arith) (ground arith) e,
        clear_column-frame left c root (suc row) t i j (omega arith) (omega arith) e,
      )

  module _ (div-mul : (x p : T) → p ≢ r.zero → r.mul (div x p) p ≡ x) where
    sub-div : (x p : T) → p ≢ r.zero → sub r x (r.mul (div x p) p) ≡ r.zero
    sub-div x p h = ap (sub r x) (div-mul x p h) ∙ r.add_comm x (r.neg x) ∙ r.neg-add x

    is_zero_sound : (x : T) → is_zero r x ≡ true → x ≡ r.zero
    is_zero_sound x = (r.equals_iff x r.zero).0

    is_zero_complete : (x : T) → is_zero r x ≡ false → x ≢ r.zero
    is_zero_complete x h e = ground (arith, (r.equals_iff x r.zero).1 e)

    check_row-zero :
        (c root row : ℕ) (s : Store T)
        → root < m
        → row < m
        → root ≢ row
        → c < n
        → cell m s root c ≢ r.zero
        → cell m (check_row r m n div c root row s) row c ≡ r.zero
    unfolding check_row
    check_row-zero c root row s a b d k h =
        let f = div (cell m s row c) (cell m s root c) in
        ground (
          arith,
          is_zero_sound (cell m s row c),
          cell-subtract_row c root row f (n - c) s row c a b d b,
          sub-div (cell m s row c) (cell m s root c) h,
        )

    clear_column-zero :
        (left c root row : ℕ) (s : Store T) (i : ℕ)
        → root < row
        → left ≤ m - row
        → c < n
        → cell m s root c ≢ r.zero
        → row ≤ i
        → i < row + left
        → cell m (clear_column r m n div left c root row s) i c ≡ r.zero
    unfolding clear_column
    clear_column-zero zero c root row s i a b k h l l' = absurd (omega arith)
    clear_column-zero (suc left) c root row s i a b k h l l' =
        let t = check_row r m n div c root row s in
        let same : cell m t root c ≡ cell m s root c =
          check_row-frame c root row s root c (omega arith) (omega arith) (ground arith)
            (omega arith) (ground arith) in
        elim (Bool-cases (is_zero r (cell m s root c))) [
          | inl e ↦ absurd (h (is_zero_sound (cell m s root c) e))
          | inr e ↦ elim (Bool-cases (i == row)) [
            | inl f ↦ ground (
              arith,
              clear_column-frame left c root (suc row) t i c (omega arith) (omega arith)
                  (omega arith) (ground arith),
              check_row-zero c root row s (omega arith) (omega arith) (ground arith) k h,
            )
            | inr f ↦ ground (
              arith,
              clear_column-zero left c root (suc row) t i (omega arith) (omega arith) k
                  (λ eq. h (sym same ∙ eq)) (ground arith) (omega arith),
            )
          ]
        ]

    -- The columns up to `k` are cleared below each entry of the diagonal that is not zero.
    clear_columns-zero :
        (k : ℕ) (s : Store T) (c i : ℕ)
        → k ≤ n
        → c < k
        → c < i
        → i < m
        → cell m (clear_columns r m n div k s) c c ≢ r.zero
        → cell m (clear_columns r m n div k s) i c ≡ r.zero
    unfolding clear_columns
    clear_columns-zero zero s c i a b d e h = absurd (omega arith)
    clear_columns-zero (suc k) s c i a b d e h =
        let t = clear_columns r m n div k s in
        let pivot : cell m (clear_columns r m n div (suc k) s) c c ≡ cell m t c c =
          clear_column-frame (m - (k + 1)) k k (k + 1) t c c (omega arith) (omega arith)
            (omega arith) (ground arith) in
        elim (Bool-cases (c == k)) [
          | inl f ↦
              let same : c ≡ k = (==_iff c k).0 f in
              ap (λ x. cell m (clear_columns r m n div (suc k) s) i x) same
              ∙ clear_column-zero (m - (k + 1)) k k (k + 1) t i (omega arith) (omega arith)
                  (omega arith) (λ eq. h (pivot ∙ ap (λ x. cell m t x x) same ∙ eq)) (omega arith)
                  (omega arith)
          | inr f ↦
              clear_column-frame (m - (k + 1)) k k (k + 1) t i c (omega arith) (omega arith) e
                (ground arith)
              ∙ clear_columns-zero k s c i (omega arith) (ground arith) d e (λ eq. h (pivot ∙ eq))
        ]

    -- The elimination returns for every matrix, and in its result the entries below each entry of
    -- the diagonal are zero, if that entry is not zero.
    pub gauss_row_elimination_returns :
        (s : Store T)
        → (t : Store T) × (gauss_row_elimination r m n div s ≡ some t)
          × ((c i : ℕ) → c < n → c < i → i < m → cell m t c c ≢ r.zero → cell m t i c ≡ r.zero)
    unfolding gauss_row_elimination
    gauss_row_elimination_returns s =
        let (t, e, p) = sort_for_gauss_algorithm_returns r m n s in
        (
          clear_columns r m n div n t,
          ground (arith, e),
          λ c i a b d. clear_columns-zero n t c i (omega arith) a b d,
        )

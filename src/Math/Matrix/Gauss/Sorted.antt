-- ===== src/Math/Matrix/Gauss/Sorted.antt =====
-- The sort returns, and it only exchanges rows.
use eeros_framework.Base.{
  ℕ, zero, suc, ◌+◌, ◌-◌, ◌≤◌, ◌<◌, ◌≡◌, refl, ap, ◌∙◌, inl, inr, Bool, true, false, ◌&&◌, ltb,
  ◌==◌, ==_iff, if◌then◌else◌, arith, Bool-cases, some, Store, update, for_below,
}
use eeros_framework.Math.Ring.{Ring, is_zero}
use eeros_framework.Math.Matrix.{place, cell, swap_rows}
use eeros_framework.Math.Matrix.Cells.{cell-update}
use eeros_framework.Math.Matrix.Gauss.{sort_column, sort_columns, sort_for_gauss_algorithm}

-- The row that comes to row `i` when `a` and `b` are exchanged.
abbrev pub exchanged : ℕ → ℕ → ℕ → ℕ
exchanged a b i = if i == a then b else if i == b then a else i

exchanged-lt : (m a b i : ℕ) → a < m → b < m → i < m → exchanged a b i < m
exchanged-lt m a b i h h' l = ground arith

exchanged-exchanged : (a b i : ℕ) → exchanged a b (exchanged a b i) ≡ i
exchanged-exchanged a b i = ground arith

module _ {T : Type 0} where
  swap_columns : ℕ → ℕ → ℕ → ℕ → Store T → Store T
  swap_columns m k a b s =
      for_below k
        (λ j s.
          let t = cell m s a j in update (update s (place m a j) (cell m s b j)) (place m b j) t)
        s

  exchanged-same :
      (m a b k : ℕ) (t : Store T) (i : ℕ)
      → (if (i == b) && (k == k)
          then cell m t a k
          else if (i == a) && (k == k)
          then cell m t b k
          else cell m t i k)
        ≡ (if k == k then cell m t (exchanged a b i) k else cell m t i k)
  exchanged-same m a b k t i = ground arith

  cell-swap_step :
      (m a b k : ℕ) (t : Store T) (i j : ℕ)
      → a < m
      → b < m
      → i < m
      → cell m (update (update t (place m a k) (cell m t b k)) (place m b k) (cell m t a k)) i j
        ≡ (if j == k then cell m t (exchanged a b i) j else cell m t i j)
  cell-swap_step m a b k t i j h h' l =
      cell-update m (update t (place m a k) (cell m t b k)) b k (cell m t a k) i j l h'
      ∙ ap (λ x. if (i == b) && (j == k) then cell m t a k else x)
          (cell-update m t a k (cell m t b k) i j l h)
      ∙ elim (Bool-cases (j == k)) [
        | inl e ↦ let same : j ≡ k = (==_iff j k).0 e in rw same (exchanged-same m a b k t i)
        | inr e ↦ ground arith
      ]

  swap_columns_zero : (m a b : ℕ) (s : Store T) → swap_columns m zero a b s ≡ s
  unfolding swap_columns
  swap_columns_zero m a b s = refl

  swap_columns-suc :
      (m k a b : ℕ) (s : Store T)
      → let t = swap_columns m k a b s in
        swap_columns m (suc k) a b s
        ≡ update (update t (place m a k) (cell m t b k)) (place m b k) (cell m t a k)
  unfolding swap_columns
  swap_columns-suc m k a b s = refl

  cell-swap_columns :
      (m k a b : ℕ) (s : Store T) (i j : ℕ)
      → a < m
      → b < m
      → i < m
      → cell m (swap_columns m k a b s) i j
        ≡ (if ltb j k then cell m s (exchanged a b i) j else cell m s i j)
  cell-swap_columns m zero a b s i j h h' l =
      ap (λ t. cell m t i j) (swap_columns_zero m a b s) ∙ ground arith
  cell-swap_columns m (suc k) a b s i j h h' l =
      let t = swap_columns m k a b s in
      ap (λ t. cell m t i j) (swap_columns-suc m k a b s)
      ∙ cell-swap_step m a b k t i j h h' l
      ∙ ground (
        arith,
        cell-swap_columns m k a b s i j h h' l,
        cell-swap_columns m k a b s (exchanged a b i) j h h' (ground arith),
      )

  -- `s` has the rows of `a` in another order.
  pub record IsReordered (m n : ℕ) (a s : Store T) : Type 0 where
    pub from : ℕ → ℕ
    pub to : ℕ → ℕ
    pub from-lt : (i : ℕ) → i < m → from i < m
    pub to-lt : (i : ℕ) → i < m → to i < m
    pub to-from : (i : ℕ) → i < m → to (from i) ≡ i
    pub from-to : (i : ℕ) → i < m → from (to i) ≡ i
    pub cell-from : (i j : ℕ) → i < m → j < n → cell m s i j ≡ cell m a (from i) j

  cell-swap_rows :
      (m n a b : ℕ) (s : Store T) (i j : ℕ)
      → a < m
      → b < m
      → i < m
      → j < n
      → cell m (swap_rows m n a b s) i j ≡ cell m s (exchanged a b i) j
  unfolding swap_rows swap_columns
  cell-swap_rows m n a b s i j h h' l k = cell-swap_columns m n a b s i j h h' l ∙ ground arith

  swap_rows-IsReordered :
      (m n a b : ℕ) (s o : Store T)
      → a < m
      → b < m
      → IsReordered m n o s
      → IsReordered m n o (swap_rows m n a b s)
  swap_rows-IsReordered m n a b s o h h' p = record {
    from = λ i. p.from (exchanged a b i);
    to = λ i. exchanged a b (p.to i);
    from-lt = λ i l. p.from-lt (exchanged a b i) (exchanged-lt m a b i h h' l);
    to-lt = λ i l. exchanged-lt m a b (p.to i) h h' (p.to-lt i l);
    to-from = λ i l.
        ap (exchanged a b) (p.to-from (exchanged a b i) (exchanged-lt m a b i h h' l))
        ∙ exchanged-exchanged a b i;
    from-to = λ i l. ap p.from (exchanged-exchanged a b (p.to i)) ∙ p.from-to i l;
    cell-from = λ i j l l'.
        cell-swap_rows m n a b s i j h h' l l'
        ∙ p.cell-from (exchanged a b i) j (exchanged-lt m a b i h h' l) l';
  }

module _ {T : Type 0} (r : Ring T) (m n : ℕ) where
  -- The loop over the rows of one column returns, with rows exchanged only.
  abbrev Returns : ℕ → ℕ → ℕ → ℕ → Store T → Store T → Type 0
  Returns fuel c row swap o s =
      (t : Store T) × (sort_column r m n fuel c row swap s ≡ some (m, t)) × IsReordered m n o t

  pass-Returns :
      (fuel c row swap : ℕ) (o s : Store T) (found : Bool)
      → ((row swap : ℕ) (s : Store T)
          → row ≤ m
          → (m - row) + (m - swap) ≤ fuel
          → IsReordered m n o s
          → Returns fuel c row swap o s)
      → row < m
      → (found ≡ true → swap < m)
      → (m - row) + (m - swap) ≤ suc fuel
      → IsReordered m n o s
      → Returns fuel c
          (if found then row else suc row)
          (if found then suc swap else swap)
          o
          (if found then swap_rows m n row swap s else s)
  pass-Returns fuel c row swap o s true ih a b d p =
      let l = b refl in
      ih row (suc swap) (swap_rows m n row swap s) (omega arith) (omega arith)
        (swap_rows-IsReordered m n row swap s o a l p)
  pass-Returns fuel c row swap o s false ih a b d p =
      ih (suc row) swap s (omega arith) (omega arith) p

  sort_column-Returns :
      (fuel c row swap : ℕ) (o s : Store T)
      → row ≤ m
      → (m - row) + (m - swap) ≤ fuel
      → IsReordered m n o s
      → Returns fuel c row swap o s
  unfolding sort_column
  sort_column-Returns zero c row swap o s a d p = (s, ground arith, p)
  sort_column-Returns (suc fuel) c row swap o s a d p = elim (Bool-cases (ltb row m)) [
    | inl e ↦
        let found = is_zero r (cell m s row c) && ltb swap m && ltb row (m - 1) in
        let (t, h, q) =
          pass-Returns fuel c row swap o s found
            (λ row swap s. sort_column-Returns fuel c row swap o s) (ground arith)
            (λ f. ground arith) d p in
        (t, ground (arith, h), q)
    | inr e ↦ (s, ground arith, p)
  ]

  sort_columns-Returns :
      (k : ℕ) (s : Store T)
      → (row : ℕ) × (t : Store T) × (sort_columns r m n (m + m) k s ≡ some (row, t))
        × (row ≤ m)
        × IsReordered m n s t
  unfolding sort_columns
  sort_columns-Returns zero s = (
    zero,
    s,
    refl,
    omega arith,
    record {
      from = λ i. i;
      to = λ i. i;
      from-lt = λ i l. l;
      to-lt = λ i l. l;
      to-from = λ i l. refl;
      from-to = λ i l. refl;
      cell-from = λ i j l l'. refl;
    },
  )
  sort_columns-Returns (suc k) s =
      let (row, t, e, l, p) = sort_columns-Returns k s in
      let (t', e', q) = sort_column-Returns (m + m) k row (row + 1) s t l (omega arith) p in
      (m, t', ground (arith, e, e'), omega arith, q)

  -- The sort returns for every matrix, and the rows of its result are those of the matrix in
  -- another order: each of them once.
  pub sort_for_gauss_algorithm_returns :
      (s : Store T)
      → (t : Store T) × (sort_for_gauss_algorithm r m n s ≡ some t) × IsReordered m n s t
  unfolding sort_for_gauss_algorithm
  sort_for_gauss_algorithm_returns s =
      let (row, t, e, l, p) = sort_columns-Returns n s in (t, ground (arith, e), p)

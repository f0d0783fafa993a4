-- ===== src/Math/Matrix/Gauss.antt =====
-- `sortForGaussAlgorithm`, `gaussRowElimination` and `rank` of includes/eeros/math/Matrix.hpp. The
-- inner loop of the sort runs on fuel, `none` when that is used up; each pass raises the completed
-- row or the row to swap with, so twice the number of rows is enough. `div` is the division of the
-- entries.
pub mod Elimination
pub mod Sorted
use eeros_framework.Base.{
  ℕ, zero, suc, ◌+◌, ◌-◌, Bool, ◌&&◌, ltb, if◌then◌else◌, Option, none, some, Store, update,
  for_below, all_below,
}
use eeros_framework.Math.Ring.{Ring, sub, is_zero}
use eeros_framework.Math.Matrix.{place, cell, swap_rows}

infixl 5 ◌>>=◌
abbrev ◌>>=◌ : {A B : Type 0} → Option A → (A → Option B) → Option B
none >>= next = none
some a >>= next = next a

module _ {T : Type 0} (r : Ring T) (m n : ℕ) where
  -- `while (completedRow < M)`, with the row and the array at its end.
  pub sort_column : ℕ → ℕ → ℕ → ℕ → Store T → Option (ℕ × Store T)
  sort_column zero c row swap s = if ltb row m then none else some (row, s)
  sort_column (suc fuel) c row swap s =
      let found = is_zero r (cell m s row c) && ltb swap m && ltb row (m - 1) in
      let rest =
        sort_column fuel c (if found then row else suc row) (if found then suc swap else swap)
          (if found then swap_rows m n row swap s else s) in
      if ltb row m then rest else some (row, s)

  -- The loop over the columns: the completed row is not reset.
  pub sort_columns : ℕ → ℕ → Store T → Option (ℕ × Store T)
  unfolding sort_column
  sort_columns fuel zero s = some (0, s)
  sort_columns fuel (suc k) s = do
    (row, t) ← sort_columns fuel k s
    sort_column fuel k row (row + 1) t

  pub sort_for_gauss_algorithm : Store T → Option (Store T)
  unfolding sort_columns
  sort_for_gauss_algorithm s = do (row, t) ← sort_columns (m + m) n s; some t

  module _ (div : T → T → T) where
    -- `for (n = completedColumn; n < N; n++)`
    abbrev pub subtract_row : ℕ → ℕ → ℕ → T → ℕ → Store T → Store T
    subtract_row c root row factor k s =
        for_below k
          (λ l s.
            update s (place m row (c + l))
              (sub r (cell m s row (c + l)) (r.mul factor (cell m s root (c + l)))))
          s

    pub check_row : ℕ → ℕ → ℕ → Store T → Store T
    check_row c root row s =
        if is_zero r (cell m s row c)
        then s
        else subtract_row c root row (div (cell m s row c) (cell m s root c)) (n - c) s

    -- `while (checkingRow < M && ...)`, with the number of rows that are left.
    pub clear_column : ℕ → ℕ → ℕ → ℕ → Store T → Store T
    unfolding check_row
    clear_column zero c root row s = s
    clear_column (suc left) c root row s =
        let rest = clear_column left c root (suc row) (check_row c root row s) in
        if is_zero r (cell m s root c) then s else rest

    -- The completed row and the completed column are the same number.
    pub clear_columns : ℕ → Store T → Store T
    unfolding clear_column
    clear_columns k s = for_below k (λ c s. clear_column (m - (c + 1)) c c (c + 1) s) s

    pub gauss_row_elimination : Store T → Option (Store T)
    unfolding sort_for_gauss_algorithm clear_columns
    gauss_row_elimination s = do t ← sort_for_gauss_algorithm s; some (clear_columns n t)

    pub rank : Store T → Option ℕ
    unfolding gauss_row_elimination
    rank s = do
      t ← gauss_row_elimination s
      some (for_below m (λ i k. if all_below n (λ j. is_zero r (cell m t i j)) then k else suc k) 0)

-- ===== src/Control/Filters/Window.antt =====
-- The array with the latest inputs that both filters keep, the oldest first.
use eeros_framework.Base.{
  ℕ, zero, suc, ◌+◌, ◌-◌, ◌<◌, ◌≡◌, ◌∙◌, ap, sym, ltb, ◌==◌, ==_iff, if◌then◌else◌, arith,
  Bool-cases, inl, inr, true, Store, update, for_below,
}

-- The inputs `x` after `n` zeros: place `i` of the array after run `m` has `padded n z x (m + i)`.
abbrev pub padded : {T : Type 0} → ℕ → T → (ℕ → T) → ℕ → T
padded n z x k = if ltb k n then z else x (k - n)

eq_sub : (m k n : ℕ) → k ≡ m + n → k - n ≡ m
eq_sub m k n e = omega arith

module _ {T : Type 0} where
  -- `for (i = 0; i < N - 1; i++) values[i] = values[i+1];`
  abbrev pub shift : ℕ → Store T → Store T
  shift n s = for_below (n - 1) (λ i s. update s i (s (i + 1))) s

  pub shift_loop :
      (k : ℕ) (s : Store T) (j : ℕ)
      → for_below k (λ i s. update s i (s (i + 1))) s j ≡ (if ltb j k then s (j + 1) else s j)
  shift_loop zero s j = ground arith
  shift_loop (suc k) s j = ground (arith, shift_loop k s j, shift_loop k s (k + 1))

  pub shift_lem :
      (n : ℕ) (s : Store T) (j : ℕ) → shift n s j ≡ (if ltb j (n - 1) then s (j + 1) else s j)
  shift_lem n s j = shift_loop (n - 1) s j

  -- The array has the inputs before run `m`.
  abbrev pub HasLatest : ℕ → T → (ℕ → T) → ℕ → Store T → Type 0
  HasLatest n z x m s = (i : ℕ) → i < n → s i ≡ padded n z x (m + i)

  pub padded_late : (n : ℕ) (z : T) (x : ℕ → T) (m k : ℕ) → k ≡ m + n → padded n z x k ≡ x m
  padded_late n z x m k e = ground (arith, ap x (eq_sub m k n e))

  pub shift-HasLatest :
      (n : ℕ) (z : T) (x : ℕ → T) (m : ℕ) (s : Store T)
      → HasLatest n z x m s
      → HasLatest n z x (suc m) (update (shift n s) (n - 1) (x m))
  shift-HasLatest n z x m s h i l = elim (Bool-cases ((n - 1) == i)) [
    | inl e ↦
        let same : n - 1 ≡ i = (==_iff (n - 1) i).0 e in
        rw e (sym (padded_late n z x m (suc m + i) (omega arith)))
    | inr e ↦
        let below : ltb i (n - 1) ≡ true = ground arith in
        rw e
          (shift_lem n s i ∙ rw below (h (i + 1) (ground arith) ∙ ap (padded n z x) (omega arith)))
  ]

-- ===== src/Control/Filters/Median/Middle.antt =====
-- The output of a median filter is in the middle of the latest inputs.
use eeros_framework.Base.{
  ℕ, zero, suc, ◌+◌, ◌-◌, ◌/◌, ◌<◌, ◌≤◌, ◌≡◌, refl, sym, ap, ◌∙◌, subst, not, ◌&&◌, if◌then◌else◌,
  arith, Bool, true, false, List, length, get_or, update, Order, count, count_all, count-before,
  count-after, count-at, first, first_congr, length-first,
}
use eeros_framework.Control.Signals.{Signal}
use eeros_framework.Control.Filters.Window.{padded, shift, HasLatest, shift-HasLatest}
use eeros_framework.Control.Filters.Median.{MedianFilter, create, enable, disable, run, run_times}

module _ {T : Type 0} (sort : List T → List T) (n : ℕ) where
  -- The latest `n` inputs up to run `m`, with zeros for those before the first.
  abbrev pub latest : T → (ℕ → Signal T) → ℕ → List T
  latest z x m = first n (λ i. padded n z (λ k. (x k).value) (suc m + i))

  run-HasLatest :
      (z : T) (x : ℕ → Signal T) (m : ℕ) (f : MedianFilter T)
      → HasLatest n z (λ k. (x k).value) m f.current_values
      → HasLatest n z (λ k. (x k).value) (suc m) (run sort n (x m) f).0.current_values
  unfolding run
  run-HasLatest z x m f h =
      let moved = shift-HasLatest n z (λ k. (x k).value) m f.current_values h in
      λ i l. ground (arith, moved i l)

  run_times-HasLatest :
      (z junk : T) (x : ℕ → Signal T) (on : ℕ → Bool) (m : ℕ)
      → HasLatest n z
          (λ k. (x k).value)
          m
          (run_times sort n x on m (create sort n z junk)).current_values
  unfolding run_times create enable disable
  run_times-HasLatest z junk x on zero = λ i l. ground arith
  run_times-HasLatest z junk x on (suc m) =
      let f = run_times sort n x on m (create sort n z junk) in
      run-HasLatest z x m (if on m then enable sort n f else disable sort n f)
        (kept (on m) f (run_times-HasLatest z junk x on m))
    where
      kept :
          (b : Bool) (f : MedianFilter T)
          → HasLatest n z (λ k. (x k).value) m f.current_values
          → HasLatest n z
              (λ k. (x k).value)
              m
              (if b then enable sort n f else disable sort n f).current_values
      kept true f h = h
      kept false f h = h

  -- The element in the middle of the sorted inputs.
  run-latest :
      (z : T) (x : ℕ → Signal T) (m : ℕ) (f : MedianFilter T)
      → HasLatest n z (λ k. (x k).value) m f.current_values
      → (run sort n (x m) (enable sort n f)).1.value
        ≡ get_or (sort (latest z x m)) (n / 2) f.current_median_value
  unfolding run enable
  run-latest z x m f h =
      ap (λ xs. get_or (sort xs) (n / 2) f.current_median_value)
        (first_congr n (update (shift n f.current_values) (n - 1) (x m).value)
          (λ i. padded n z (λ k. (x k).value) (suc m + i))
          (shift-HasLatest n z (λ k. (x k).value) m f.current_values h))

  run-disable : (s : Signal T) (f : MedianFilter T) → (run sort n s (disable sort n f)).1 ≡ s
  unfolding run disable
  run-disable s f = refl

  module _ (o : Order T)
      (sort_count : (p : T → Bool) (xs : List T) → count p (sort xs) ≡ count p xs)
      (sort_sorted : (xs : List T) (d : T) (i j : ℕ)
        → i ≤ j
        → j < length (sort xs)
        → o.lt (get_or (sort xs) j d) (get_or (sort xs) i d) ≡ false) where
    -- `v` is one of the elements, at most `k` are less and at most `length xs - 1 - k` are greater.
    abbrev pub IsMiddle : ℕ → List T → T → Type 0
    IsMiddle k xs v =
        (0 < count (λ y. not (o.lt y v) && not (o.lt v y)) xs)
        × (count (λ y. o.lt y v) xs ≤ k)
        × (count (λ y. o.lt v y) xs + (k + 1) ≤ length xs)

    sort-IsMiddle :
        (xs : List T) (d : T) (k : ℕ) → k < length xs → IsMiddle k xs (get_or (sort xs) k d)
    sort-IsMiddle xs d k l =
        let v = get_or (sort xs) k d in
        let same : length (sort xs) ≡ length xs =
          sym (count_all (sort xs)) ∙ sort_count (λ y. true) xs ∙ count_all xs in
        (
          subst (λ c. 0 < c) (sort_count (λ y. not (o.lt y v) && not (o.lt v y)) xs)
              (count-at (λ y. not (o.lt y v) && not (o.lt v y)) d (sort xs) k (omega arith)
                (ground (arith, o.lt_irrefl v))),
          subst (λ c. c ≤ k) (sort_count (λ y. o.lt y v) xs)
              (count-before (λ y. o.lt y v) d (sort xs) k (λ j a b. sort_sorted xs d k j a b)),
          omega (
            arith,
            same,
            sort_count (λ y. o.lt v y) xs,
            count-after (λ y. o.lt v y) d (sort xs) k (λ j a. sort_sorted xs d j k a (omega arith))
                (omega arith),
          ),
        )

    -- A filter of `n` places, `n` not 0, that is enabled puts out one of the latest `n` inputs,
    -- with zeros for those before the first, such that at most `n / 2` of them are less and at most
    -- `n - 1 - n / 2` are greater. One that is disabled puts out its input. Which of the runs
    -- before found it enabled does not matter.
    pub run-IsMiddle :
        (z junk : T) (x : ℕ → Signal T) (on : ℕ → Bool) (m : ℕ)
        → 0 < n
        → let f = run_times sort n x on m (create sort n z junk) in
          IsMiddle (n / 2) (latest z x m) (run sort n (x m) (enable sort n f)).1.value
          × ((run sort n (x m) (disable sort n f)).1 ≡ x m)
    run-IsMiddle z junk x on m l =
        let f = run_times sort n x on m (create sort n z junk) in
        (
          subst (IsMiddle (n / 2) (latest z x m))
              (sym (run-latest z x m f (run_times-HasLatest z junk x on m)))
              (sort-IsMiddle (latest z x m) f.current_median_value (n / 2)
                (omega (arith, length-first n (λ i. padded n z (λ k. (x k).value) (suc m + i))))),
          run-disable (x m) f,
        )

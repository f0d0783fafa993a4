-- ===== src/Control/Filters/MovingAverage/Sums.antt =====
-- The output of a moving average as a sum over the latest inputs.
use eeros_framework.Base.{
  ℕ, zero, suc, ◌+◌, ◌-◌, ◌<◌, ◌≡◌, refl, ◌∙◌, ap, ap₂, sym, subst, if◌then◌else◌, arith, Bool,
  true, false, Store, update, update_self, for_below,
}
use eeros_framework.Math.Ring.{Ring, sum, sum_congr, add-zero}
use eeros_framework.Control.Signals.{Signal}
use eeros_framework.Control.Filters.Window.{
  padded, shift, shift_loop, HasLatest, shift-HasLatest, padded_late,
}
use eeros_framework.Control.Filters.MovingAverage.{
  MovingAverageFilter, create, enable, disable, accumulate, run, run_times,
}

shifted_next :
    {T : Type 0} (k : ℕ) (s : Store T)
    → let t = for_below k (λ i s. update s i (s (i + 1))) s in update t k (t (k + 1)) k ≡ s (k + 1)
shifted_next k s =
    let t = for_below k (λ i s. update s i (s (i + 1))) s in
    update_self t k (t (k + 1)) ∙ shift_loop k s (k + 1) ∙ ground arith

sum_last :
    {T : Type 0} (r : Ring T) (n : ℕ) (f : ℕ → T)
    → 0 < n
    → sum r n f ≡ r.add (sum r (n - 1) f) (f (n - 1))
sum_last r zero f l = absurd (omega arith)
sum_last r (suc n) f l = ap (λ k. r.add (sum r k f) (f k)) (omega arith)

module _ {T : Type 0} (r : Ring T) (n : ℕ) where
  accumulate_lem :
      (coeff : ℕ → T) (k : ℕ) (s : Store T) (a : T)
      → accumulate r n coeff k (s, a) ≡ (
        for_below k (λ i s. update s i (s (i + 1))) s,
        r.add a (sum r k (λ i. r.mul (coeff i) (s (i + 1)))),
      )
  unfolding accumulate
  accumulate_lem coeff zero s a = ap (λ b. (s, b)) (sym (add-zero r a))
  accumulate_lem coeff (suc k) s a =
      ap
        (λ (st : Store T × T).
          let values = update st.0 k (st.0 (k + 1)) in
          (values, r.add st.1 (r.mul (coeff k) (values k))))
        (accumulate_lem coeff k s a)
      ∙ ap (λ b. (for_below (suc k) (λ i s. update s i (s (i + 1))) s, b))
          (ap
              (λ y.
                r.add (r.add a (sum r k (λ i. r.mul (coeff i) (s (i + 1))))) (r.mul (coeff k) y))
              (shifted_next k s)
            ∙ r.add_assoc a (sum r k (λ i. r.mul (coeff i) (s (i + 1))))
                (r.mul (coeff k) (s (k + 1))))

  -- The weighted sum of the latest inputs, the newest with the last coefficient.
  abbrev pub weighted : (ℕ → T) → (ℕ → Signal T) → ℕ → T
  weighted coeff x m =
      sum r n (λ i. r.mul (coeff i) (padded n r.zero (λ k. (x k).value) (suc m + i)))

  Holds : (ℕ → T) → (ℕ → Signal T) → ℕ → MovingAverageFilter T → Type 0
  Holds coeff x m f =
      (f.coefficients ≡ coeff) × HasLatest n r.zero (λ k. (x k).value) m f.previous_values

  result : (ℕ → T) → Store T → T → T
  result coeff s val =
      r.add (r.mul (coeff (n - 1)) val) (sum r (n - 1) (λ i. r.mul (coeff i) (s (i + 1))))

  run_lem :
      (s : Signal T) (f : MovingAverageFilter T)
      → run r n s f ≡ (
        record f { previous_values = update (shift n f.previous_values) (n - 1) s.value },
        record {
          value = if f.enabled then result f.coefficients f.previous_values s.value else s.value;
          timestamp = s.timestamp;
        },
      )
  unfolding run result
  run_lem s f =
      ap
        (λ (st : Store T × T). (
          record f { previous_values = update st.0 (n - 1) s.value },
          record { value = if f.enabled then st.1 else s.value; timestamp = s.timestamp },
        ))
        (accumulate_lem f.coefficients (n - 1) f.previous_values
          (r.mul (f.coefficients (n - 1)) s.value))

  result-weighted :
      (coeff : ℕ → T) (x : ℕ → Signal T) (m : ℕ) (s : Store T)
      → 0 < n
      → HasLatest n r.zero (λ k. (x k).value) m s
      → result coeff s (x m).value ≡ weighted coeff x m
  unfolding result
  result-weighted coeff x m s l h =
      r.add_comm (r.mul (coeff (n - 1)) (x m).value)
        (sum r (n - 1) (λ i. r.mul (coeff i) (s (i + 1))))
      ∙ ap₂ r.add
          (sum_congr r (n - 1) (λ i. r.mul (coeff i) (s (i + 1))) _
            (λ i k.
              ap (r.mul (coeff i))
                (h (i + 1) (omega arith) ∙ ap (padded n r.zero (λ k. (x k).value)) (omega arith))))
          (ap (r.mul (coeff (n - 1)))
            (sym (padded_late n r.zero (λ k. (x k).value) m (suc m + (n - 1)) (omega arith))))
      ∙ sym (sum_last r n (λ i. r.mul (coeff i) (padded n r.zero (λ k. (x k).value) (suc m + i))) l)

  Holds-run :
      (coeff : ℕ → T) (x : ℕ → Signal T) (m : ℕ) (f : MovingAverageFilter T)
      → Holds coeff x m f
      → Holds coeff x (suc m) (run r n (x m) f).0
  unfolding Holds
  Holds-run coeff x m f (p, h) =
      subst (λ (g : MovingAverageFilter T × Signal T). Holds coeff x (suc m) g.0)
        (sym (run_lem (x m) f))
        (p, shift-HasLatest n r.zero (λ k. (x k).value) m f.previous_values h)

  switched : Bool → MovingAverageFilter T → MovingAverageFilter T
  unfolding enable disable
  switched on f = if on then enable r n f else disable r n f

  Holds-switched :
      (coeff : ℕ → T) (x : ℕ → Signal T) (m : ℕ) (on : Bool) (f : MovingAverageFilter T)
      → Holds coeff x m f
      → Holds coeff x m (switched on f)
  unfolding switched enable disable Holds
  Holds-switched coeff x m true f h = h
  Holds-switched coeff x m false f h = h

  enabled-switched : (on : Bool) (f : MovingAverageFilter T) → (switched on f).enabled ≡ on
  unfolding switched enable disable
  enabled-switched true f = refl
  enabled-switched false f = refl

  Holds-run_times :
      (coeff : ℕ → T) (x : ℕ → Signal T) (on : ℕ → Bool) (m : ℕ)
      → Holds coeff x m (run_times r n x on m (create r n coeff))
  unfolding run_times create Holds switched
  Holds-run_times coeff x on zero = (refl, λ i l. ground arith)
  Holds-run_times coeff x on (suc m) =
      let f = run_times r n x on m (create r n coeff) in
      Holds-run coeff x m (switched (on m) f)
        (Holds-switched coeff x m (on m) f (Holds-run_times coeff x on m))

  -- A filter of `n` coefficients, `n` not 0, that is enabled puts out the weighted sum of the
  -- latest `n` inputs, with zeros for those before the first; one that is disabled puts out its
  -- input. Which of the runs before found it enabled does not matter.
  pub run-weighted :
      (coeff : ℕ → T) (x : ℕ → Signal T) (on : ℕ → Bool) (m : ℕ)
      → 0 < n
      → let f = run_times r n x on m (create r n coeff) in
        ((run r n (x m) (enable r n f)).1
          ≡ record { value = weighted coeff x m; timestamp = (x m).timestamp })
        × ((run r n (x m) (disable r n f)).1 ≡ x m)
  unfolding Holds enable disable
  run-weighted coeff x on m l =
      let f = run_times r n x on m (create r n coeff) in
      let (p, h) = Holds-run_times coeff x on m in
      (
        ap (λ (g : MovingAverageFilter T × Signal T). g.1) (run_lem (x m) (enable r n f))
            ∙ ap (λ (v : T). record { value = v; timestamp = (x m).timestamp })
                (ap (λ c. result c f.previous_values (x m).value) p
                  ∙ result-weighted coeff x m f.previous_values l h),
        ap (λ (g : MovingAverageFilter T × Signal T). g.1) (run_lem (x m) (disable r n f)),
      )

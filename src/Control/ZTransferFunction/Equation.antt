-- ===== src/Control/ZTransferFunction/Equation.antt =====
-- The runs of a transfer function satisfy its difference equation:
-- includes/eeros/control/ZTransferFunction.hpp.
use eeros_framework.Base.{
  ℕ, zero, suc, ◌+◌, ◌-◌, ◌≤◌, ◌<◌, ◌≡◌, ◌≢◌, refl, sym, ap, ap₂, subst, ◌∙◌, arith, ltb, Store,
  update_ne, for_below, Bool-cases, inl, inr,
}
use eeros_framework.Math.Ring.{Ring, sub, sum, sum_congr, add_exchange, add-zero}
use eeros_framework.Math.Fraction.{Fraction}
use eeros_framework.Control.ZTransferFunction.{
  ZTransferFunction, shift, output, run, run_times, out_at,
}

module _ {T : Type 0} where
  shift_behind : (k i : ℕ) (stray : T) (a : Store T) → k ≤ i → shift k stray a i ≡ a i
  unfolding shift
  shift_behind zero i stray a h = refl
  shift_behind (suc k) i stray a h =
      shift_behind k i stray _ (omega arith) ∙ update_ne a k i _ (λ e. omega arith)

  shift_lem : (k i : ℕ) (stray : T) (a : Store T) → suc i < k → shift k stray a (suc i) ≡ a i
  unfolding shift
  shift_lem zero i stray a h = absurd (omega arith)
  shift_lem (suc k) i stray a h = elim (Bool-cases (ltb (suc i) k)) [
    | inl before ↦
        shift_lem k i stray _ (ground arith) ∙ update_ne a k i _ (λ e. ground (arith, e, before))
    | inr last ↦ shift_behind k (suc i) stray _ (ground arith) ∙ ground (arith, last)
  ]

module _ {T : Type 0} (r : Ring T) (div : T → T → T)
    (div-mul : (x p : T) → p ≢ r.zero → r.mul (div x p) p ≡ x) where
  sum_front : (n : ℕ) (f : ℕ → T) → sum r (suc n) f ≡ r.add (f 0) (sum r n (λ i. f (suc i)))
  sum_front zero f = r.zero-add (f 0) ∙ sym (add-zero r (f 0))
  sum_front (suc n) f =
      ap (λ y. r.add y (f (suc n))) (sum_front n f)
      ∙ r.add_assoc (f 0) (sum r n (λ i. f (suc i))) (f (suc n))

  sub-add : (a b : T) → r.add (sub r a b) b ≡ a
  sub-add a b = r.add_assoc a (r.neg b) b ∙ ap (r.add a) (r.neg-add b) ∙ add-zero r a

  -- What the loop subtracts and what it adds.
  loop_sums :
      (n : ℕ) (a b : ℕ → T) (s : T)
      → r.add (for_below n (λ k y. r.add y (sub r (a k) (b k))) s) (sum r n b) ≡ r.add s (sum r n a)
  loop_sums zero a b s = refl
  loop_sums (suc n) a b s =
      add_exchange r (for_below n (λ k y. r.add y (sub r (a k) (b k))) s) (sub r (a n) (b n))
        (sum r n b) (b n)
      ∙ ap₂ r.add (loop_sums n a b s) (sub-add (a n) (b n))
      ∙ r.add_assoc s (sum r n a) (a n)

  -- What a run puts out, times the first coefficient.
  output_lem :
      (order : ℕ) (x : T) (z : ZTransferFunction T)
      → z.fraction.denominator 0 ≢ r.zero
      → r.add
          (r.mul (output r div order x z) (z.fraction.denominator 0))
          (sum r order (λ k. r.mul (z.last_out (k + 1)) (z.fraction.denominator (k + 1))))
        ≡ r.add
            (r.mul x (z.fraction.numerator 0))
            (sum r order (λ k. r.mul (z.last_in (k + 1)) (z.fraction.numerator (k + 1))))
  unfolding output
  output_lem order x z h =
      ap
        (λ y.
          r.add y (sum r order (λ k. r.mul (z.last_out (k + 1)) (z.fraction.denominator (k + 1)))))
        (div-mul _ _ h)
      ∙ loop_sums order _ _ _
      ∙ ap (r.add (r.mul x (z.fraction.numerator 0))) (
          sum_congr r order _ _ (λ k l.
            ap (λ y. r.mul y (z.fraction.numerator (k + 1)))
              (update_ne z.last_in 0 (k + 1) x (λ e. omega arith))))

  module _ (order : ℕ) (stray : ℕ → T × T) (x : ℕ → T) (z : ZTransferFunction T) where
    at_run : ℕ → ZTransferFunction T
    at_run m = run_times r div order stray x m z

    abbrev outs : ℕ → T
    outs m = out_at r div order stray x z m

    -- The arrays hold what came and what went, as far back as the runs go.
    history :
        (m i : ℕ)
        → 0 < i
        → i ≤ order
        → i ≤ m
        → ((at_run m).last_in i ≡ x (m - i)) × ((at_run m).last_out i ≡ outs (m - i))
    unfolding at_run run_times run out_at
    history zero i p h l = absurd (omega arith)
    history (suc m) zero p h l = absurd (omega arith)
    history (suc m) (suc zero) p h l =
        let now : m ≡ suc m - 1 = omega arith in
        (
          shift_lem (suc order) 0 (stray m).0 _ (omega arith) ∙ ap x now,
          shift_lem (suc order) 0 (stray m).1 _ (omega arith) ∙ ap outs now,
        )
    history (suc m) (suc (suc i)) p h l =
        let before : m - suc i ≡ suc m - suc (suc i) = omega arith in
        let (came, went) = history m (suc i) (omega arith) (omega arith) (omega arith) in
        (
          shift_lem (suc order) (suc i) (stray m).0 _ (omega arith)
              ∙ update_ne (at_run m).last_in 0 (suc i) _ (λ e. omega arith)
              ∙ came
              ∙ ap x before,
          shift_lem (suc order) (suc i) (stray m).1 _ (omega arith)
              ∙ update_ne (at_run m).last_out 0 (suc i) _ (λ e. omega arith)
              ∙ went
              ∙ ap outs before,
        )

    fraction_same : (m : ℕ) → (at_run m).fraction ≡ z.fraction
    unfolding at_run run_times run
    fraction_same zero = refl
    fraction_same (suc m) = fraction_same m

    run_lem :
        (m : ℕ)
        → z.fraction.denominator 0 ≢ r.zero
        → r.add (r.mul (outs m) (z.fraction.denominator 0)) (
            sum r order (λ k. r.mul ((at_run m).last_out (k + 1)) (z.fraction.denominator (k + 1))))
          ≡ r.add
              (r.mul (x m) (z.fraction.numerator 0))
              (sum r order (λ k. r.mul ((at_run m).last_in (k + 1)) (z.fraction.numerator (k + 1))))
    unfolding at_run out_at
    run_lem m h =
        subst
          (λ (f : Fraction T).
            f.denominator 0 ≢ r.zero
            → r.add (r.mul (outs m) (f.denominator 0))
                (sum r order (λ k. r.mul ((at_run m).last_out (k + 1)) (f.denominator (k + 1))))
              ≡ r.add (r.mul (x m) (f.numerator 0))
                  (sum r order (λ k. r.mul ((at_run m).last_in (k + 1)) (f.numerator (k + 1)))))
          (fraction_same m) (output_lem order (x m) (at_run m)) h

    -- An entry of the history in a sum.
    in_sum :
        (k : ℕ) (c : Store T) (a y : ℕ → T) (m : ℕ)
        → a (k + 1) ≡ y (m - (k + 1))
        → r.mul (a (k + 1)) (c (k + 1)) ≡ r.mul (c (suc k)) (y (m - suc k))
    in_sum k c a y m h =
        let same : k + 1 ≡ suc k = omega arith in
        ap (λ v. r.mul v (c (k + 1))) h
        ∙ ap (λ i. r.mul (y (m - i)) (c i)) same
        ∙ r.mul_comm (y (m - suc k)) (c (suc k))

    -- From run `order` on, whatever the arrays hold at first and whatever is read before them, the
    -- last outputs weighted by the denominator add up to the last inputs weighted by the numerator:
    -- `d0 y(m) + d1 y(m - 1) + ... = n0 x(m) + n1 x(m - 1) + ...`. The first coefficient of the
    -- denominator is not zero.
    pub difference_equation :
        (m : ℕ)
        → z.fraction.denominator 0 ≢ r.zero
        → order ≤ m
        → sum r (suc order) (λ i. r.mul (z.fraction.denominator i) (outs (m - i)))
          ≡ sum r (suc order) (λ i. r.mul (z.fraction.numerator i) (x (m - i)))
    difference_equation m h l =
        let d = z.fraction.denominator in
        let n = z.fraction.numerator in
        sum_front order (λ i. r.mul (d i) (outs (m - i)))
        ∙ ap₂ r.add (r.mul_comm (d 0) (outs (m - 0)) ∙ ap (λ k. r.mul (outs k) (d 0)) (omega arith))
            (sum_congr r order _ _ (λ k u. sym (
              in_sum k d (at_run m).last_out outs m
                (history m (k + 1) (omega arith) (omega arith) (omega arith)).1)))
        ∙ run_lem m h
        ∙ ap₂ r.add (r.mul_comm (x m) (n 0) ∙ ap (λ k. r.mul (n 0) (x k)) (omega arith)) (
            sum_congr r order _ _ (λ k u.
              in_sum k n (at_run m).last_in x m
                (history m (k + 1) (omega arith) (omega arith) (omega arith)).0))
        ∙ sym (sum_front order (λ i. r.mul (n i) (x (m - i))))

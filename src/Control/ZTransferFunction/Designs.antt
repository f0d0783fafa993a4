-- ===== src/Control/ZTransferFunction/Designs.antt =====
-- The transfer functions of the usual controllers: includes/eeros/control/ZTransferFunction.hpp.
-- They are given by their fractions; a value `x` stands for the delay by one sample, `z ^ -1`.
use eeros_framework.Base.{◌≡◌, ap, ap₂, ◌∙◌, List, [], ◌∷◌, Store}
use eeros_framework.Math.Ring.{Ring, add-zero}
use eeros_framework.Math.Polynome.{from_vector}
use eeros_framework.Math.Polynome.Eval.{eval}
use eeros_framework.Math.Fraction
use eeros_framework.Math.Fraction.{
  Fraction, from_vectors, Takes, multiply-Takes, scale-Takes, add-Takes, add_number-Takes,
}

-- `a + b x`
abbrev pub linear : {T : Type 0} → Ring T → T → T → T → T
linear r x a b = r.add a (r.mul b x)

module _ {T : Type 0} (r : Ring T) (junk : Store T) where
  -- The constructor with the coefficients of the denominator before those of the numerator.
  abbrev from_coefficients : List T → List T → Fraction T
  from_coefficients a b = from_vectors r junk 1 b a

  pub pt1 : T → T → T → Fraction T
  pt1 ts k t1 = from_coefficients (r.add ts t1 ∷ r.neg t1 ∷ []) (r.mul k ts ∷ [])

  pub d : T → T → Fraction T
  d ts tv = from_coefficients (ts ∷ []) (tv ∷ r.neg tv ∷ [])

  pub i : T → T → Fraction T
  i ts tn = from_coefficients (tn ∷ r.neg tn ∷ []) (ts ∷ [])

  pub dt1 : T → T → T → Fraction T
  dt1 ts tv t1 = from_coefficients (r.add ts t1 ∷ r.neg t1 ∷ []) (tv ∷ r.neg tv ∷ [])

  pub pid : T → T → T → T → T → Fraction T
  unfolding i dt1
  pid ts kp tn tv tv1 =
      Fraction.scale r junk 2
        (Fraction.add_number r junk 2 (Fraction.add r junk 1 1 (i ts tn) (dt1 ts tv tv1)) r.one) kp

  eval_one : (a x : T) → eval r 1 (from_vector r 1 (a ∷ []) junk) x ≡ a
  unfolding eval from_vector
  eval_one a x =
      ap₂ r.add (r.zero-add (r.mul a r.one)) (r.zero-mul (r.mul r.one x))
      ∙ add-zero r (r.mul a r.one)
      ∙ r.mul_comm a r.one
      ∙ r.one-mul a

  eval_two : (a b x : T) → eval r 1 (from_vector r 1 (a ∷ b ∷ []) junk) x ≡ r.add a (r.mul b x)
  unfolding eval from_vector
  eval_two a b x =
      ap₂ r.add (r.zero-add (r.mul a r.one) ∙ r.mul_comm a r.one ∙ r.one-mul a)
        (ap (r.mul b) (r.one-mul x))

  module _ (x : T) where
    i-Takes : (ts tn : T) → Takes r junk 1 (i ts tn) x ts (linear r x tn (r.neg tn))
    unfolding i from_vectors
    i-Takes ts tn = record { above = eval_one ts x; below = eval_two tn (r.neg tn) x }

    dt1-Takes :
        (ts tv t1 : T)
        → Takes r junk 1
            (dt1 ts tv t1)
            x
            (linear r x tv (r.neg tv))
            (linear r x (r.add ts t1) (r.neg t1))
    unfolding dt1 from_vectors
    dt1-Takes ts tv t1 = record {
      above = eval_two tv (r.neg tv) x;
      below = eval_two (r.add ts t1) (r.neg t1) x;
    }

    -- The controller is `kp (n_i / d_i + n_d / d_d + 1)` of the integral part
    -- `n_i / d_i = ts / (tn (1 - x))` and the filtered derivative part
    -- `n_d / d_d = tv (1 - x) / (ts + tv1 - tv1 x)`, at every `x`.
    pub pid-Takes :
        (ts kp tn tv tv1 : T)
        → let d_i = linear r x tn (r.neg tn) in
          let d_d = linear r x (r.add ts tv1) (r.neg tv1) in
          Takes r junk 2
            (pid ts kp tn tv tv1)
            x
            (r.mul
              (r.add
                (r.add (r.mul ts d_d) (r.mul d_i (linear r x tv (r.neg tv))))
                (r.mul (r.mul d_i d_d) r.one))
              kp)
            (r.mul d_i d_d)
    unfolding pid
    pid-Takes ts kp tn tv tv1 = scale-Takes r junk x 2 _ kp (
        add_number-Takes r junk x 2 _ r.one
          (add-Takes r junk x 1 1 (i ts tn) (dt1 ts tv tv1) (i-Takes ts tn) (dt1-Takes ts tv tv1)))

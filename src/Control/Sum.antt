-- ===== src/Control/Sum.antt =====
-- The block that adds its inputs: includes/eeros/control/Sum.hpp. `n` is the number of the inputs.
use eeros_framework.Base.{
  ℕ, zero, suc, ◌≡◌, refl, ap, arith, Bool, true, false, leb, if◌then◌else◌, Store, update,
  for_below, Result, ok, throw, index_out_of_range,
}
use eeros_framework.Math.Ring.{Ring, sub, sum}
use eeros_framework.Control.Signals.{Signal}

pub record Sum (T : Type 0) : Type 0 where
  pub negated : Store Bool
  pub first : Bool
  pub init : Store Bool
  pub init_val : Store T

module _ {T : Type 0} (r : Ring T) (n : ℕ) where
  -- The initial values hold `junk` at first.
  pub create : Store T → Sum T
  create junk = record { negated = λ i. false; first = true; init = λ i. false; init_val = junk }

  pub negate_input : ℕ → Sum T → Result (Sum T)
  negate_input index s =
      if leb n index
      then throw index_out_of_range
      else ok (record s { negated = update s.negated index true })

  pub set_init_condition : ℕ → T → Sum T → Result (Sum T)
  set_init_condition index val s =
      if leb n index
      then throw index_out_of_range
      else ok (record s { init = update s.init index true; init_val = update s.init_val index val })

  -- `sum -= val` for an input that is negated, `sum += val` else.
  abbrev pub add_to : Bool → T → T → T
  add_to negated total val = if negated then sub r total val else r.add total val

  -- `run` with the signals at the inputs, and the signal at the output.
  pub run : (ℕ → Signal T) → Sum T → Sum T × Signal T
  run inputs s =
      let first =
        for_below n
          (λ i total.
            add_to (s.negated i) total (if s.init i then s.init_val i else (inputs i).value))
          r.zero in
      let later = for_below n (λ i total. add_to (s.negated i) total (inputs i).value) r.zero in
      (
        (if s.first then record s { first = false } else s),
        record { value = if s.first then first else later; timestamp = (inputs 0).timestamp },
      )

  -- What an input contributes: the initial value stands for it in the first run, if one was set.
  abbrev pub term : Sum T → (ℕ → Signal T) → ℕ → T
  term s inputs i =
      let val =
        if s.first
        then (if s.init i then s.init_val i else (inputs i).value)
        else (inputs i).value in
      if s.negated i then r.neg val else val

  total-sum :
      (k : ℕ) (negated : ℕ → Bool) (val : ℕ → T)
      → for_below k (λ i total. add_to (negated i) total (val i)) r.zero
        ≡ sum r k (λ i. if negated i then r.neg (val i) else val i)
  total-sum zero negated val = refl
  total-sum (suc k) negated val = ground (arith, total-sum k negated val)

  total-term :
      (b : Bool) (s : Sum T) (inputs : ℕ → Signal T)
      → (if b
          then for_below n
              (λ i total.
                add_to (s.negated i) total (if s.init i then s.init_val i else (inputs i).value))
              r.zero
          else for_below n (λ i total. add_to (s.negated i) total (inputs i).value) r.zero)
        ≡ sum r n (λ i.
          let val =
            if b then (if s.init i then s.init_val i else (inputs i).value) else (inputs i).value in
          if s.negated i then r.neg val else val)
  total-term true s inputs =
      total-sum n s.negated (λ i. if s.init i then s.init_val i else (inputs i).value)
  total-term false s inputs = total-sum n s.negated (λ i. (inputs i).value)

  -- The output is the sum of what the inputs contribute, each with its sign, in both kinds of run,
  -- with the timestamp of the first input; and no run after the first uses the initial values.
  pub run-sum :
      (inputs : ℕ → Signal T) (s : Sum T)
      → ((run inputs s).1
          ≡ record { value = sum r n (term s inputs); timestamp = (inputs 0).timestamp })
        × ((run inputs s).0.first ≡ false)
  unfolding run
  run-sum inputs s = (
    ap (λ v. record { value = v; timestamp = (inputs 0).timestamp }) (total-term s.first s inputs),
    ground arith,
  )

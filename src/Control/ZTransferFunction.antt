-- ===== src/Control/ZTransferFunction.antt =====
-- The block of a transfer function: includes/eeros/control/ZTransferFunction.hpp, over a commutative
-- ring with a division, so without rounding. The order, a template parameter, is an argument.
pub mod Equation
pub mod Designs
mod Examples
use eeros_framework.Base.{
  ℕ, zero, suc, ◌+◌, ◌-◌, List, [], ◌∷◌, ◌==◌, if◌then◌else◌, Store, update, for_below,
}
use eeros_framework.Math.Ring.{Ring, sub}
use eeros_framework.Math.Fraction
use eeros_framework.Math.Fraction.{Fraction, from_vectors}

pub record ZTransferFunction (T : Type 0) : Type 0 where
  pub fraction : Fraction T
  pub last_in : Store T
  pub last_out : Store T

module _ {T : Type 0} where
  -- The loop `for (i = k - 1; i >= 0; i--) a[i] = a[i - 1];` where `stray` is what is read at -1.
  pub shift : ℕ → T → Store T → Store T
  shift zero stray a = a
  shift (suc k) stray a = shift k stray (update a k (if k == 0 then stray else a (k - 1)))

  -- The constructor leaves the two arrays as they are in memory.
  pub create : Fraction T → Store T → Store T → ZTransferFunction T
  create f junk_in junk_out = record { fraction = f; last_in = junk_in; last_out = junk_out }

module _ {T : Type 0} (r : Ring T) (div : T → T → T) (order : ℕ) where
  -- The value of the output in a run.
  pub output : T → ZTransferFunction T → T
  output x z =
      let ins = update z.last_in 0 x in
      let f = z.fraction in
      div
        (for_below order
          (λ k y.
            let i = k + 1 in
            r.add y
              (sub r (r.mul (ins i) (f.numerator i)) (r.mul (z.last_out i) (f.denominator i))))
          (r.mul (ins 0) (f.numerator 0)))
        (f.denominator 0)

  -- `run` with the value `x` at the input; `stray` are the values read before the arrays.
  pub run : T × T → T → ZTransferFunction T → ZTransferFunction T
  run stray x z = record z {
    last_in = shift (suc order) stray.0 (update z.last_in 0 x);
    last_out = shift (suc order) stray.1 (update z.last_out 0 (output x z));
  }

  -- The state after `m` runs, run `i` with the value `x i`, and the value that run `m` puts out.
  pub run_times : (ℕ → T × T) → (ℕ → T) → ℕ → ZTransferFunction T → ZTransferFunction T
  unfolding run
  run_times stray x zero z = z
  run_times stray x (suc m) z = run (stray m) (x m) (run_times stray x m z)

  pub out_at : (ℕ → T × T) → (ℕ → T) → ZTransferFunction T → ℕ → T
  out_at stray x z m = output (x m) (run_times stray x m z)

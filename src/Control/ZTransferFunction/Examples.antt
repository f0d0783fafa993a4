-- ===== src/Control/ZTransferFunction/Examples.antt =====
-- A transfer function of order 1 over the bits.
use eeros_framework.Base.{ℕ, ◌-◌, ◌≡◌, ◌≢◌, Bool, true, false, arith, ◌==◌}
use eeros_framework.Math.Ring.{sum}
use eeros_framework.Math.Bits.{bits}
use eeros_framework.Math.Fraction.{Takes}
use eeros_framework.Control.ZTransferFunction.{ZTransferFunction, out_at}
use eeros_framework.Control.ZTransferFunction.Equation.{difference_equation}
use eeros_framework.Control.ZTransferFunction.Designs.{pid, linear, pid-Takes}

abbrev divide : Bool → Bool → Bool
divide x p = x

divide-mul : (x p : Bool) → p ≢ false → bits.mul (divide x p) p ≡ x
divide-mul x p h = ground (arith, h)

-- `y(m) + y(m - 1) = x(m)`, with arrays full of ones at first.
abbrev adder : ZTransferFunction Bool
adder = record {
  fraction = record { numerator = λ i. i == 0; denominator = λ i. true };
  last_in = λ i. true;
  last_out = λ i. true;
}

abbrev stray : ℕ → Bool × Bool
stray m = (true, true)

abbrev input : ℕ → Bool
input m = m == 2

difference_equation_example :
    sum bits 2 (λ i. bits.mul true (out_at bits divide 1 stray input adder (2 - i)))
    ≡ sum bits 2 (λ i. bits.mul (i == 0) (input (2 - i)))
difference_equation_example =
    difference_equation bits divide divide-mul 1 stray input adder 2 (λ e. cc) (omega arith)

-- The integral and the derivative part of a controller, at `x = 1`.
abbrev d_i : Bool
d_i = linear bits true true true

abbrev d_d : Bool
d_d = linear bits true (bits.add true true) true

pid-Takes_example :
    Takes bits
      (λ _. true)
      2
      (pid bits (λ _. true) true true true false true)
      true
      (bits.mul
        (bits.add
          (bits.add (bits.mul true d_d) (bits.mul d_i (linear bits true false false)))
          (bits.mul (bits.mul d_i d_d) true))
        true)
      (bits.mul d_i d_d)
pid-Takes_example = pid-Takes bits (λ _. true) true true true true false true

-- ===== src/Core/Statistics/Examples.antt =====
-- Three measurements in the field of two elements, where a third of a number is the number itself.
use eeros_framework.Base.{◌≡◌, refl, Bool, true, false, not, ◌&&◌, List, [], ◌∷◌, Order, arith}
use eeros_framework.Math.Bits.{bits}
use eeros_framework.Core.Statistics.{Numbers, reset, adds}
use eeros_framework.Core.Statistics.Moments.{
  Divides, adds-moments, numeral, number_of, total, deviations,
}

abbrev pub bool_order : Order Bool
bool_order = record {
  lt = λ a b. not a && b;
  lt_irrefl = λ a. ground arith;
  lt_trans = λ a b c p q. ground arith;
  lt_connex = λ a b p q. ground arith;
}

abbrev pub numbers : Numbers Bool
numbers = record {
  ring = bits;
  order = bool_order;
  divide = λ x n. x;
  biggest = true;
  lowest = false;
}

abbrev others : List Bool
others = false ∷ false ∷ []

three-Divides : Divides numbers (number_of (true ∷ others))
three-Divides x = refl

adds-moments_example :
    let s = adds numbers (true ∷ others) (reset numbers) in
    (s.count ≡ number_of (true ∷ others))
    × (bits.mul (numeral bits s.count) s.mean ≡ total bits (true ∷ others))
    × (bits.mul (numeral bits s.count) s.variance ≡ deviations bits s.mean (true ∷ others))
adds-moments_example = adds-moments numbers true others three-Divides

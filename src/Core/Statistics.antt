-- ===== src/Core/Statistics.antt =====
-- The statistics of a sequence of measurements: src/core/Statistics.cpp. The numbers are those of a
-- commutative ring with an order, so without rounding.
pub mod Moments
pub mod Extremes
pub mod Examples
use eeros_framework.Base.{ℕ, ◌+◌, ◌≡◌, refl, List, [], ◌∷◌, Order, if◌then◌else◌}
use eeros_framework.Math.Ring.{Ring, sub}

-- The division by a count, and the limits of the type of the numbers.
pub record Numbers (T : Type 0) : Type 0 where
  pub ring : Ring T
  pub order : Order T
  pub divide : T → ℕ → T
  pub biggest : T
  pub lowest : T

-- `sum` and `squares` are the members A and B.
pub record Statistics (T : Type 0) : Type 0 where
  pub count : ℕ
  pub last : T
  pub min : T
  pub max : T
  pub mean : T
  pub variance : T
  pub sum : T
  pub squares : T

module _ {T : Type 0} (t : Numbers T) where
  pub reset : Statistics T
  reset = record {
    count = 0;
    last = t.ring.zero;
    min = t.biggest;
    max = t.lowest;
    mean = t.ring.zero;
    variance = t.ring.zero;
    sum = t.ring.zero;
    squares = t.ring.zero;
  }

  -- `(B - 2*mean*A) / count + mean*mean`
  pub variance_of : ℕ → T → T → T → T
  variance_of count sum squares mean =
      let r = t.ring in
      r.add (t.divide (sub r squares (r.mul (r.mul (r.add r.one r.one) mean) sum)) count)
        (r.mul mean mean)

  pub add : T → Statistics T → Statistics T
  unfolding variance_of
  add v s =
      let count = s.count + 1 in
      let sum = t.ring.add s.sum v in
      let squares = t.ring.add s.squares (t.ring.mul v v) in
      let mean = t.divide sum count in
      record {
        count = count;
        last = v;
        min = if t.order.lt v s.min then v else s.min;
        max = if t.order.lt s.max v then v else s.max;
        mean = mean;
        variance = variance_of count sum squares mean;
        sum = sum;
        squares = squares;
      }

  pub last-add : (v : T) (s : Statistics T) → (add v s).last ≡ v
  unfolding add
  last-add v s = refl

  -- The measurements that are added one after the other.
  unfoldable pub adds : List T → Statistics T → Statistics T
  adds [] s = s
  adds (v ∷ vs) s = adds vs (add v s)

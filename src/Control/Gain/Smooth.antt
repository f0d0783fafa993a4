-- ===== src/Control/Gain/Smooth.antt =====
-- The smooth change of the gain: includes/eeros/control/Gain.hpp.
use eeros_framework.Base.{
  ℕ, zero, suc, ◌≡◌, true, false, List, [], ◌∷◌, if◌then◌else◌, Order, not_lt_trans, lt_asymm,
  length, arith, Bool-cases, inl, inr,
}
use eeros_framework.Control.Signals.{Signal}
use eeros_framework.Control.Gain.{Gain, Arithmetic, next_gain, run}

module _ {T : Type 0} (o : Order T) (a : Arithmetic T) where
  -- `v` after `n` steps of the size `d`, upwards and downwards.
  abbrev pub up : ℕ → T → T → T
  up zero d v = v
  up (suc n) d v = up n d (a.add v d)

  abbrev pub down : ℕ → T → T → T
  down zero d v = v
  down (suc n) d v = down n d (a.sub v d)

  -- The runs with the signals at the input.
  pub runs : List (Signal T) → Gain T → Gain T
  runs [] g = g
  runs (s ∷ ss) g = runs ss (run o a s g).0

  module _ (d : T) (grows : (v : T) → o.lt (a.add v d) v ≡ false)
      (falls : (v : T) → o.lt v (a.sub v d) ≡ false) where
    up-ge : (n : ℕ) (v : T) → o.lt (up n d v) v ≡ false
    up-ge zero v = o.lt_irrefl v
    up-ge (suc n) v =
        not_lt_trans o v (a.add v d) (up n d (a.add v d)) (grows v) (up-ge n (a.add v d))

    down-le : (n : ℕ) (v : T) → o.lt v (down n d v) ≡ false
    down-le zero v = o.lt_irrefl v
    down-le (suc n) v =
        not_lt_trans o (down n d (a.sub v d)) (a.sub v d) v (down-le n (a.sub v d)) (falls v)

    -- The new gain: the target, or one step nearer to it.
    next_gain-below :
        (g : Gain T)
        → o.lt g.gain g.target_gain ≡ true
        → g.gain_diff ≡ d
        → g.smooth_change ≡ true
        → o.lt g.gain g.min_gain ≡ false
        → o.lt g.target_gain g.min_gain ≡ false
        → o.lt g.max_gain g.target_gain ≡ false
        → next_gain o a g
          ≡ (if o.lt g.target_gain (a.add g.gain d) then g.target_gain else a.add g.gain d)
    unfolding next_gain
    next_gain-below g h e s gl tl th =
        let w = a.add g.gain d in
        ground (
          arith,
          e,
          s,
          o.lt_irrefl g.target_gain,
          lt_asymm o g.gain g.target_gain,
          not_lt_trans o g.min_gain g.gain w,
          grows g.gain,
          not_lt_trans o w g.target_gain g.max_gain,
        )

    next_gain-at :
        (g : Gain T)
        → g.gain ≡ g.target_gain
        → g.smooth_change ≡ true
        → o.lt g.target_gain g.min_gain ≡ false
        → o.lt g.max_gain g.target_gain ≡ false
        → next_gain o a g ≡ g.target_gain
    unfolding next_gain
    next_gain-at g h s tl th = ground (arith, o.lt_irrefl g.target_gain)

    next_gain-above :
        (g : Gain T)
        → o.lt g.target_gain g.gain ≡ true
        → g.gain_diff ≡ d
        → g.smooth_change ≡ true
        → o.lt g.max_gain g.gain ≡ false
        → o.lt g.target_gain g.min_gain ≡ false
        → o.lt g.max_gain g.target_gain ≡ false
        → next_gain o a g
          ≡ (if o.lt (a.sub g.gain d) g.target_gain then g.target_gain else a.sub g.gain d)
    unfolding next_gain
    next_gain-above g h e s gh tl th =
        let w = a.sub g.gain d in
        ground (
          arith,
          e,
          s,
          o.lt_irrefl g.target_gain,
          lt_asymm o g.target_gain g.gain,
          not_lt_trans o w g.gain g.max_gain,
          falls g.gain,
          not_lt_trans o g.min_gain g.target_gain w,
        )

    -- `v` is within the limits and within `n` steps of `t`.
    abbrev Near : ℕ → T → T → T → T → Type 0
    Near n t min max v =
        (o.lt (up n d v) t ≡ false)
        × (o.lt t (down n d v) ≡ false)
        × (o.lt v min ≡ false)
        × (o.lt max v ≡ false)

    Near-target :
        (n : ℕ) (t min max : T) → o.lt t min ≡ false → o.lt max t ≡ false → Near n t min max t
    Near-target n t min max l h = (up-ge n t, down-le n t, l, h)

    Near-up :
        (n : ℕ) (t min max v : T)
        → Near (suc n) t min max v
        → o.lt v t ≡ true
        → o.lt t min ≡ false
        → o.lt max t ≡ false
        → Near n t min max (if o.lt t (a.add v d) then t else a.add v d)
    Near-up n t min max v p b l h = elim (Bool-cases (o.lt t (a.add v d))) [
      | inl past ↦ rw past (Near-target n t min max l h)
      | inr short ↦ rw short (
        p.0,
        not_lt_trans o (down n d (a.add v d)) (a.add v d) t (down-le n (a.add v d)) short,
        not_lt_trans o min v (a.add v d) p.2 (grows v),
        not_lt_trans o (a.add v d) t max short h,
      )
    ]

    Near-down :
        (n : ℕ) (t min max v : T)
        → Near (suc n) t min max v
        → o.lt t v ≡ true
        → o.lt t min ≡ false
        → o.lt max t ≡ false
        → Near n t min max (if o.lt (a.sub v d) t then t else a.sub v d)
    Near-down n t min max v p b l h = elim (Bool-cases (o.lt (a.sub v d) t)) [
      | inl past ↦ rw past (Near-target n t min max l h)
      | inr short ↦ rw short (
        not_lt_trans o t (a.sub v d) (up n d (a.sub v d)) short (up-ge n (a.sub v d)),
        p.1,
        not_lt_trans o min t (a.sub v d) l short,
        not_lt_trans o (a.sub v d) v max (falls v) p.3,
      )
    ]

    Near-next_gain :
        (n : ℕ) (g : Gain T)
        → Near (suc n) g.target_gain g.min_gain g.max_gain g.gain
        → g.gain_diff ≡ d
        → g.smooth_change ≡ true
        → o.lt g.target_gain g.min_gain ≡ false
        → o.lt g.max_gain g.target_gain ≡ false
        → Near n g.target_gain g.min_gain g.max_gain (next_gain o a g)
    Near-next_gain n g p e s l h = elim (Bool-cases (o.lt g.gain g.target_gain)) [
      | inl below ↦
          rw (next_gain-below g below e s p.2 l h)
            (Near-up n g.target_gain g.min_gain g.max_gain g.gain p below l h)
      | inr not_below ↦ elim (Bool-cases (o.lt g.target_gain g.gain)) [
        | inl above ↦
            rw (next_gain-above g above e s p.3 l h)
              (Near-down n g.target_gain g.min_gain g.max_gain g.gain p above l h)
        | inr not_above ↦
            rw (next_gain-at g (o.lt_connex g.gain g.target_gain not_below not_above) s l h)
              (Near-target n g.target_gain g.min_gain g.max_gain l h)
      ]
    ]

    -- With a smooth change, after runs with any signals the gain is the target, if as many steps of
    -- the size `gain_diff` upwards do not end below the target nor as many downwards above it. The
    -- gain and its target are within the limits, and a step up gives nothing smaller, a step down
    -- nothing greater, as for a size that is not negative.
    pub runs-reach :
        (ss : List (Signal T)) (g : Gain T)
        → g.gain_diff ≡ d
        → g.smooth_change ≡ true
        → o.lt g.target_gain g.min_gain ≡ false
        → o.lt g.max_gain g.target_gain ≡ false
        → o.lt g.gain g.min_gain ≡ false
        → o.lt g.max_gain g.gain ≡ false
        → o.lt (up (length ss) d g.gain) g.target_gain ≡ false
        → o.lt g.target_gain (down (length ss) d g.gain) ≡ false
        → (runs ss g).gain ≡ g.target_gain
    unfolding runs run
    runs-reach [] g e s l h gl gh b c = o.lt_connex g.gain g.target_gain b c
    runs-reach (x ∷ ss) g e s l h gl gh b c =
        let near = Near-next_gain (length ss) g (b, c, gl, gh) e s l h in
        runs-reach ss (record g { gain = next_gain o a g }) e s l h near.2 near.3 near.0 near.1

-- ===== src/Control/PathPlannerCubic/Examples.antt =====
-- A trajectory of three pieces, in whole numbers with a sampling time of 2.
use eeros_framework.Base.{
  ℕ, zero, suc, ◌+◌, ◌*◌, ◌/◌, ◌≡◌, refl, sym, ap, ap₂, ◌∙◌, true, false, not, List, [], ◌∷◌, map,
  arith, leb, ◌==◌, length, ℤ, pos, negsuc, ◌+ℤ◌, ◌-ℤ◌, ◌*ℤ◌, ltb_ℤ, ok, ◌>>=◌,
}
use eeros_framework.Control.PathPlannerCubic.{
  Arithmetic, Coefficients, PathPlannerCubic, create, run, move_raw,
}
use eeros_framework.Control.PathPlannerCubic.Pieces.{CountsTicks, HasPieces, tick, sum}
use eeros_framework.Control.PathPlannerCubic.Finishes.{runs, move_raw-finishes}

abbrev half : ℤ → ℤ
half (pos n) = pos (n / 2)
half (negsuc n) = negsuc (n / 2)

-- The divisions by 6 and of two numbers are not used here.
abbrev integers : Arithmetic ℤ
integers = record {
  zero = pos 0;
  add = ◌+ℤ◌;
  mul = ◌*ℤ◌;
  neg = λ x. pos 0 -ℤ x;
  div = λ x y. x;
  half = half;
  sixth = λ x. x;
  round_to = λ x y. x;
  le = λ x y. not (ltb_ℤ y x);
  atof = λ s. pos 0;
}

pos_add : (m n : ℕ) → pos m +ℤ pos n ≡ pos (m + n)
unfolding ◌+ℤ◌
pos_add m n = ground arith

tick_pos : (m : ℕ) → tick integers (pos 2) m ≡ pos (2 * m)
tick_pos zero = ap pos (omega arith)
tick_pos (suc m) = ap (λ x. x +ℤ pos 2) (tick_pos m) ∙ pos_add (2 * m) 2 ∙ ap pos (omega arith)

le_pos : (m n : ℕ) → not (ltb_ℤ (pos (2 * n + 1)) (pos (2 * m))) ≡ leb m n
le_pos m n = ground arith

late : (m : ℕ) → not (ltb_ℤ (negsuc 0) (pos (2 * m))) ≡ false
late m = ground arith

integers-CountsTicks : CountsTicks integers (pos 2)
unfolding ◌-ℤ◌ ◌+ℤ◌
integers-CountsTicks = record {
  le_tick = λ m n.
      ap₂ (λ x y. integers.le x (y +ℤ pos 1)) (tick_pos m) (tick_pos n)
      ∙ ap (λ y. integers.le (pos (2 * m)) y) (pos_add (2 * n) 1)
      ∙ le_pos m n;
  le_neg = λ n. ap (λ x. integers.le x (negsuc 0)) (tick_pos n) ∙ late n;
  add_tick = λ m n.
      ap₂ (λ x y. x +ℤ y) (tick_pos m) (tick_pos n)
      ∙ pos_add (2 * m) (2 * n)
      ∙ ap pos (omega arith)
      ∙ sym (tick_pos (m + n));
}

abbrev path : Coefficients ℤ
path = record {
  time = map (tick integers (pos 2)) (2 ∷ 1 ∷ 3 ∷ []);
  jerk = pos 6 ∷ pos 0 ∷ pos 12 ∷ [];
  acc = pos 0 ∷ pos 24 ∷ pos 24 ∷ [];
  vel = pos 0 ∷ pos 48 ∷ pos 96 ∷ [];
  pos = pos 0 ∷ pos 64 ∷ pos 208 ∷ [];
}

abbrev planner : PathPlannerCubic ℤ
unfolding create
planner = record (create integers (pos 2) (pos 9) 0) { raw = path }

path-HasPieces : HasPieces integers (pos 2) path 2 (1 ∷ 3 ∷ [])
path-HasPieces = record {
  piece_times = refl;
  same_length = record {
    time_length = refl;
    jerk_length = refl;
    acc_length = refl;
    vel_length = refl;
    pos_length = refl;
  };
  not_empty = (omega arith, (omega arith, (omega arith, tt)));
}

abbrev clock : List ℕ
clock = 1 ∷ 2 ∷ 3 ∷ 4 ∷ 5 ∷ 6 ∷ 7 ∷ []

move_raw-finishes_example :
    (m : PathPlannerCubic ℤ) × ((run integers 0 planner >>= move_raw integers (pos 5))
      ≡ ok (m, true))
    × (q : PathPlannerCubic ℤ) × (runs integers clock m ≡ ok q)
    × (q.finished ≡ (length clock == 2 + sum (1 ∷ 3 ∷ []) + 1))
unfolding create
move_raw-finishes_example =
    move_raw-finishes integers 0 (pos 5) planner 2 (1 ∷ 3 ∷ []) clock integers-CountsTicks refl
      path-HasPieces (omega arith)

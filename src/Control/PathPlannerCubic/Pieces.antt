-- ===== src/Control/PathPlannerCubic/Pieces.antt =====
-- Single runs along a trajectory: includes/eeros/control/PathPlannerCubic.hpp.
use mathlib.Core.List.{append_assoc}
use eeros_framework.Base.{
  ℕ, zero, suc, ◌+◌, ◌≤◌, ◌<◌, ◌≡◌, refl, sym, ap, ap₂, ◌∙◌, true, false, List, [], ◌∷◌, ◌++◌, map,
  arith, leb, if◌then◌else◌, lt→ltb, le→leb, ◌==◌, length, length-append, ok, All,
}
use eeros_framework.Control.PathPlannerCubic.{
  Arithmetic, Coefficients, Motion, PathPlannerCubic, read_at, integrate, output, piece, advance,
  proceed, run,
}

module _ {T : Type 0} where
  pub read_at-append :
      (xs : List T) (y : T) (ys : List T) → read_at (xs ++ (y ∷ ys)) (length xs) ≡ ok y
  unfolding read_at
  read_at-append [] y ys = refl
  read_at-append (x ∷ xs) y ys = read_at-append xs y ys

  read_at-lt : (xs : List T) (i : ℕ) → i < length xs → (x : T) × (read_at xs i ≡ ok x)
  unfolding read_at
  read_at-lt [] i h = absurd (omega arith)
  read_at-lt (x ∷ xs) zero h = (x, refl)
  read_at-lt (x ∷ xs) (suc i) h = read_at-lt xs i (omega arith)

abbrev pub sum : List ℕ → ℕ
sum [] = 0
sum (n ∷ ns) = n + sum ns

-- The five vectors have one length.
pub record HasLength {T : Type 0} (n : ℕ) (c : Coefficients T) : Type 0 where
  pub time_length : length c.time ≡ n
  pub jerk_length : length c.jerk ≡ n
  pub acc_length : length c.acc ≡ n
  pub vel_length : length c.vel ≡ n
  pub pos_length : length c.pos ≡ n

gt_leb : (n : ℕ) → leb (suc n) n ≡ false
gt_leb n = ground arith

pub ne_eqb : {m n : ℕ} → m < n → (m == n) ≡ false
ne_eqb h = ground arith

pub eq_eqb : {m n : ℕ} → m ≡ n → (m == n) ≡ true
eq_eqb h = ground (arith, h)

pub suc_eqb : (m n : ℕ) → (m == n) ≡ (suc m == suc n)
suc_eqb m n = ground arith

module _ {T : Type 0} (a : Arithmetic T) where
  piece_returns :
      (now n : ℕ) (p : PathPlannerCubic T)
      → HasLength n p.coeff
      → p.index < n
      → (m : Motion T) × (piece a now p ≡ ok (output a now m p))
  unfolding piece
  piece_returns now n p h l =
      let (j, hj) = read_at-lt p.coeff.jerk p.index (omega (arith, h.jerk_length, l)) in
      let (c, hc) = read_at-lt p.coeff.acc p.index (omega (arith, h.acc_length, l)) in
      let (v, hv) = read_at-lt p.coeff.vel p.index (omega (arith, h.vel_length, l)) in
      let (s, hs) = read_at-lt p.coeff.pos p.index (omega (arith, h.pos_length, l)) in
      (record { pos = s; vel = v; acc = c; jerk = j }, rw (hj, hc, hv, hs) refl)

  proceed_returns :
      (now n : ℕ) (p : PathPlannerCubic T)
      → HasLength n p.coeff
      → p.index < n
      → (m : Motion T) × (proceed a now p ≡ ok (output a now m p))
  unfolding proceed
  proceed_returns now n p h l =
      let (j, hj) = read_at-lt p.coeff.jerk p.index (omega (arith, h.jerk_length, l)) in
      (integrate a p.dt j p.prev, rw hj refl)

  -- `n` times the sampling time, as it is added up.
  abbrev pub tick : T → ℕ → T
  tick dt zero = a.zero
  tick dt (suc n) = a.add (tick dt n) dt

  -- What the comparison of times and the sum of times do on multiples of the sampling time.
  pub record CountsTicks (dt : T) : Type 0 where
    pub le_tick : (m n : ℕ) → a.le (tick dt m) (a.add (tick dt n) (a.half dt)) ≡ leb m n
    pub le_neg : (n : ℕ) → a.le (tick dt n) (a.add (a.neg dt) (a.half dt)) ≡ false
    pub add_tick : (m n : ℕ) → a.add (tick dt m) (tick dt n) ≡ tick dt (m + n)

  -- After `m` ticks the planner follows a piece that ends at tick `s`, and the pieces `ns` are left.
  pub record Follows (p : PathPlannerCubic T) (m s : ℕ) (ns : List ℕ) : Type 0 where
    pub running : p.finished ≡ false
    pub started : p.first ≡ false
    pub now_tick : p.t ≡ tick p.dt m
    pub end_tick : p.interval ≡ tick p.dt s
    pub in_piece : m ≤ s + 1
    pub done : List T
    pub times : p.coeff.time ≡ done ++ map (tick p.dt) ns
    pub at_index : length done ≡ p.index + 1
    pub lengths : HasLength (length p.coeff.time) p.coeff
    pub positive : All (λ n. 1 ≤ n) ns

  index_lt :
      {p : PathPlannerCubic T} {m s : ℕ} {ns : List ℕ}
      → Follows p m s ns
      → p.index < length p.coeff.time
  index_lt {p} {m} {s} {ns} h =
      omega (arith, h.at_index, ap length h.times, length-append h.done (map (tick p.dt) ns))

  run_active :
      (now : ℕ) (p : PathPlannerCubic T)
      → p.finished ≡ false
      → p.index < length p.coeff.time
      → run a now p
        ≡ (if a.le p.t (a.add p.interval (a.half p.dt)) then proceed a now p else advance a now p)
  unfolding run
  run_active now p h l =
      rw (h, lt→ltb 0 (length p.coeff.time) (omega arith), lt→ltb p.index (length p.coeff.time) l)
        refl

  le_end :
      (p : PathPlannerCubic T) (m s : ℕ) (ns : List ℕ)
      → CountsTicks p.dt
      → Follows p m s ns
      → a.le p.t (a.add p.interval (a.half p.dt)) ≡ leb m s
  le_end p m s ns law h =
      ap₂ (λ x y. a.le x (a.add y (a.half p.dt))) h.now_tick h.end_tick ∙ law.le_tick m s

  pub output-Follows :
      (now : ℕ) (v : Motion T) (p : PathPlannerCubic T) (m s : ℕ) (ns : List ℕ)
      → Follows p m s ns
      → m ≤ s
      → Follows (output a now v p) (suc m) s ns
  unfolding output
  output-Follows now v p m s ns h l = record {
    running = h.running;
    started = h.started;
    now_tick = ap (λ x. a.add x p.dt) h.now_tick;
    end_tick = h.end_tick;
    in_piece = omega (arith, l);
    done = h.done;
    times = h.times;
    at_index = h.at_index;
    lengths = h.lengths;
    positive = h.positive;
  }

  pub run_within :
      (now : ℕ) (p : PathPlannerCubic T) (m s : ℕ) (ns : List ℕ)
      → CountsTicks p.dt
      → Follows p m s ns
      → m ≤ s
      → (v : Motion T) × (run a now p ≡ ok (output a now v p))
  run_within now p m s ns law h l =
      let (v, e) = proceed_returns now (length p.coeff.time) p h.lengths (index_lt h) in
      (v, run_active now p h.running (index_lt h) ∙ rw (le_end p m s ns law h, le→leb m s l) e)

  -- The planner at the start of the next piece, before its output.
  abbrev pub next_piece : T → PathPlannerCubic T → PathPlannerCubic T
  next_piece time p = record p { index = p.index + 1; interval = a.add p.interval time }

  advance_next :
      (now : ℕ) (p : PathPlannerCubic T) (time : T)
      → p.first ≡ false
      → (p.index + 1 == length p.coeff.time) ≡ false
      → read_at p.coeff.time (p.index + 1) ≡ ok time
      → advance a now p ≡ piece a now (next_piece time p)
  unfolding advance
  advance_next now p time f g e = rw (f, g, e) refl

  advance_last :
      (now : ℕ) (p : PathPlannerCubic T)
      → p.first ≡ false
      → (p.index + 1 == length p.coeff.time) ≡ true
      → (q : PathPlannerCubic T) × (advance a now p ≡ ok q) × (q.finished ≡ true)
  unfolding advance
  advance_last now p f g = (record p { index = p.index + 1; finished = true }, rw (f, g) refl, refl)

  -- The run after the last tick of a piece with another one behind it.
  pub run_next :
      (now : ℕ) (p : PathPlannerCubic T) (s n : ℕ) (ns : List ℕ)
      → CountsTicks p.dt
      → Follows p (suc s) s (n ∷ ns)
      → (v : Motion T) × (run a now p ≡ ok (output a now v (next_piece (tick p.dt n) p)))
        × Follows (output a now v (next_piece (tick p.dt n) p)) (suc (suc s)) (s + n) ns
  unfolding output
  run_next now p s n ns law h =
      let more : p.index + 1 < length p.coeff.time =
        omega
          (arith, h.at_index, ap length h.times, length-append h.done (map (tick p.dt) (n ∷ ns))) in
      let time : read_at p.coeff.time (p.index + 1) ≡ ok (tick p.dt n) =
        ap₂ read_at h.times (sym h.at_index)
        ∙ read_at-append h.done (tick p.dt n) (map (tick p.dt) ns) in
      let (v, e) =
        piece_returns now (length p.coeff.time) (next_piece (tick p.dt n) p) h.lengths more in
      (
        v,
        run_active now p h.running (index_lt h)
            ∙ rw (le_end p (suc s) s (n ∷ ns) law h)
                (rw (gt_leb s) (advance_next now p (tick p.dt n) h.started (ne_eqb more) time ∙ e)),
        record {
          running = h.running;
          started = h.started;
          now_tick = ap (λ x. a.add x p.dt) h.now_tick;
          end_tick = ap (λ x. a.add x (tick p.dt n)) h.end_tick ∙ law.add_tick s n;
          in_piece = omega (arith, h.positive.0);
          done = h.done ++ (tick p.dt n ∷ []);
          times = h.times ∙ sym (append_assoc h.done (tick p.dt n ∷ []) (map (tick p.dt) ns));
          at_index = omega (arith, length-append h.done (tick p.dt n ∷ []), h.at_index);
          lengths = h.lengths;
          positive = h.positive.1;
        },
      )

  pub run_last :
      (now : ℕ) (p : PathPlannerCubic T) (s : ℕ)
      → CountsTicks p.dt
      → Follows p (suc s) s []
      → (q : PathPlannerCubic T) × (run a now p ≡ ok q) × (q.finished ≡ true)
  run_last now p s law h =
      let last : p.index + 1 ≡ length p.coeff.time =
        omega (arith, h.at_index, ap length h.times, length-append h.done []) in
      let (q, e, f) = advance_last now p h.started (eq_eqb last) in
      (
        q,
        run_active now p h.running (index_lt h)
            ∙ rw (le_end p (suc s) s [] law h) (rw (gt_leb s) e),
        f,
      )

  -- The coefficients of a trajectory of pieces with `n` and `ns` ticks.
  pub record HasPieces (dt : T) (c : Coefficients T) (n : ℕ) (ns : List ℕ) : Type 0 where
    pub piece_times : c.time ≡ map (tick dt) (n ∷ ns)
    pub same_length : HasLength (length c.time) c
    pub not_empty : All (λ k. 1 ≤ k) (n ∷ ns)

  -- A planner before its first run of a trajectory, as a run without one leaves it.
  pub record Waits (p : PathPlannerCubic T) (n : ℕ) (ns : List ℕ) : Type 0 where
    pub running : p.finished ≡ false
    pub first_run : p.first ≡ true
    pub at_start : p.index ≡ 0
    pub one_tick : p.t ≡ tick p.dt 1
    pub before : p.interval ≡ a.neg p.dt
    pub has_pieces : HasPieces p.dt p.coeff n ns

  -- The planner in its first piece, before its output.
  abbrev pub first_piece : T → PathPlannerCubic T → PathPlannerCubic T
  first_piece time p = record p { index = 0; interval = time; first = false }

  advance_first :
      (now : ℕ) (p : PathPlannerCubic T) (time : T)
      → p.first ≡ true
      → read_at p.coeff.time 0 ≡ ok time
      → advance a now p ≡ piece a now (first_piece time p)
  unfolding advance
  advance_first now p time f e = rw (f, e) refl

  pub run_first :
      (now : ℕ) (p : PathPlannerCubic T) (n : ℕ) (ns : List ℕ)
      → CountsTicks p.dt
      → Waits p n ns
      → (v : Motion T) × (run a now p ≡ ok (output a now v (first_piece (tick p.dt n) p)))
        × Follows (output a now v (first_piece (tick p.dt n) p)) 2 n ns
  unfolding output
  run_first now p n ns law w =
      let c = w.has_pieces in
      let some_piece : 0 < length p.coeff.time = omega (arith, ap length c.piece_times) in
      let time : read_at p.coeff.time 0 ≡ ok (tick p.dt n) =
        ap (λ x. read_at x 0) c.piece_times
        ∙ read_at-append [] (tick p.dt n) (map (tick p.dt) ns) in
      let late : a.le p.t (a.add p.interval (a.half p.dt)) ≡ false =
        ap₂ (λ x y. a.le x (a.add y (a.half p.dt))) w.one_tick w.before ∙ law.le_neg 1 in
      let (v, e) =
        piece_returns now (length p.coeff.time) (first_piece (tick p.dt n) p) c.same_length
          some_piece in
      (
        v,
        run_active now p w.running (omega (arith, some_piece, w.at_start))
            ∙ rw late (advance_first now p (tick p.dt n) w.first_run time ∙ e),
        record {
          running = w.running;
          started = refl;
          now_tick = ap (λ x. a.add x p.dt) w.one_tick;
          end_tick = refl;
          in_piece = omega (arith, c.not_empty.0);
          done = tick p.dt n ∷ [];
          times = c.piece_times;
          at_index = omega arith;
          lengths = c.same_length;
          positive = c.not_empty.1;
        },
      )

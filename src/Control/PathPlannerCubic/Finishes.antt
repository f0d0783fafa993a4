-- ===== src/Control/PathPlannerCubic/Finishes.antt =====
-- How long a trajectory takes: includes/eeros/control/PathPlannerCubic.hpp.
use eeros_framework.Base.{
  subst, ℕ, zero, suc, ◌+◌, ◌≤◌, ◌≡◌, refl, sym, ap, ◌∙◌, inl, inr, true, false, List, [], ◌∷◌, map,
  arith, leb, leb→le, Bool-cases, ◌==◌, length, Result, ok, ◌>>=◌,
}
use eeros_framework.Control.PathPlannerCubic.{Arithmetic, PathPlannerCubic, output, run, move_raw}
use eeros_framework.Control.PathPlannerCubic.Pieces.{
  HasPieces, Follows, Waits, CountsTicks, tick, sum, run_within, run_next, run_last, run_first,
  output-Follows, first_piece, ne_eqb, eq_eqb, suc_eqb,
}

module _ {T : Type 0} (a : Arithmetic T) where
  -- The runs at the given times of the clock.
  pub runs : List ℕ → PathPlannerCubic T → Result (PathPlannerCubic T)
  runs [] p = ok p
  runs (now ∷ nows) p = run a now p >>= runs nows

  -- A planner that follows pieces finishes with the run after their last tick.
  Finishes : List ℕ → PathPlannerCubic T → ℕ → Type 0
  Finishes nows p left =
      (q : PathPlannerCubic T) × (runs nows p ≡ ok q) × (q.finished ≡ (length nows == left))

  runs-first :
      (now : ℕ) (nows : List ℕ) (p q : PathPlannerCubic T) (left : ℕ)
      → run a now p ≡ ok q
      → Finishes nows q left
      → Finishes (now ∷ nows) p (suc left)
  unfolding runs Finishes
  runs-first now nows p q left e (r, f, g) =
      (r, ap (λ x. x >>= runs nows) e ∙ f, g ∙ suc_eqb (length nows) left)

  stays_finished :
      (nows : List ℕ) (q : PathPlannerCubic T) (left : ℕ)
      → q.finished ≡ true
      → left ≡ 0
      → length nows ≤ left
      → Finishes nows q left
  unfolding runs Finishes
  stays_finished [] q left f z l = (q, refl, f ∙ sym (eq_eqb (sym z)))
  stays_finished (now ∷ nows) q left f z l = absurd (omega (arith, z, l))

  -- What is shown for the runs behind the first one.
  abbrev Later : List ℕ → Type 0
  Later nows =
      (q : PathPlannerCubic T) (m s left : ℕ) (ns : List ℕ)
      → CountsTicks a q.dt
      → Follows a q m s ns
      → m + left ≡ s + sum ns + 2
      → length nows ≤ left
      → Finishes nows q left

  piece-Finishes :
      (now : ℕ) (nows : List ℕ) (p : PathPlannerCubic T) (s left : ℕ) (ns : List ℕ)
      → CountsTicks a p.dt
      → Follows a p (suc s) s ns
      → suc s + suc left ≡ s + sum ns + 2
      → length nows ≤ left
      → Later nows
      → Finishes (now ∷ nows) p (suc left)
  unfolding output
  piece-Finishes now nows p s left [] law h e l later =
      let (q, r, f) = run_last a now p s law h in
      runs-first now nows p q left r (stays_finished nows q left f (omega (arith, e)) l)
  piece-Finishes now nows p s left (n ∷ ns) law h e l later =
      let (v, r, g) = run_next a now p s n ns law h in
      runs-first now nows p _ left r
        (later _ (suc (suc s)) (s + n) left ns law g (omega (arith, e)) l)

  follows_finishes : (nows : List ℕ) → Later nows
  unfolding runs Finishes output
  follows_finishes [] p m s left ns law h e l =
      (p, refl, h.running ∙ sym (ne_eqb (omega (arith, h.in_piece, e))))
  follows_finishes (now ∷ nows) p m s zero ns law h e l = absurd (omega (arith, l))
  follows_finishes (now ∷ nows) p m s (suc left) ns law h e l = elim (Bool-cases (leb m s)) [
    | inl k ↦
        let (v, r) = run_within a now p m s ns law h (leb→le m s k) in
        runs-first now nows p _ left r (
          follows_finishes nows _ (suc m) s left ns law
            (output-Follows a now v p m s ns h (leb→le m s k)) (omega (arith, e))
            (omega (arith, l)))
    | inr k ↦
        let z : m ≡ suc s = ground (arith, k, h.in_piece) in
        piece-Finishes now nows p s left ns law (subst (λ x. Follows a p x s ns) z h)
          (omega (arith, e, z)) (omega (arith, l)) (follows_finishes nows)
  ]

  Waits-Finishes :
      (nows : List ℕ) (p : PathPlannerCubic T) (n : ℕ) (ns : List ℕ)
      → CountsTicks a p.dt
      → Waits a p n ns
      → length nows ≤ suc (n + sum ns)
      → Finishes nows p (suc (n + sum ns))
  unfolding runs Finishes output
  Waits-Finishes [] p n ns law w l = (p, refl, w.running ∙ sym (ne_eqb (omega arith)))
  Waits-Finishes (now ∷ nows) p n ns law w l =
      let (v, r, g) = run_first a now p n ns law w in
      runs-first now nows p (output a now v (first_piece a (tick a p.dt n) p)) (n + sum ns) r (
        follows_finishes nows (output a now v (first_piece a (tick a p.dt n) p)) 2 n (n + sum ns) ns
          law g (omega arith) (omega (arith, l)))

  length-map : (f : T → T) (xs : List T) → length (map f xs) ≡ length xs
  length-map f [] = refl
  length-map f (x ∷ xs) = ap suc (length-map f xs)

  -- The planner that `move(startPos)` makes of one that has just run without a trajectory.
  abbrev moved : ℕ → T → PathPlannerCubic T → PathPlannerCubic T
  moved now start p = record p {
    finished = false;
    first = true;
    index = 0;
    interval = a.neg p.dt;
    t = tick a p.dt 1;
    out = p.prev;
    timestamp = now;
    coeff = record p.raw { pos = map (λ x. a.add x start) p.raw.pos };
  }

  moved-Waits :
      (now : ℕ) (start : T) (p : PathPlannerCubic T) (n : ℕ) (ns : List ℕ)
      → HasPieces a p.dt p.raw n ns
      → Waits a (moved now start p) n ns
  moved-Waits now start p n ns h = record {
    running = refl;
    first_run = refl;
    at_start = refl;
    one_tick = refl;
    before = refl;
    has_pieces = record {
      piece_times = h.piece_times;
      same_length = record {
        time_length = h.same_length.time_length;
        jerk_length = h.same_length.jerk_length;
        acc_length = h.same_length.acc_length;
        vel_length = h.same_length.vel_length;
        pos_length = length-map (λ x. a.add x start) p.raw.pos ∙ h.same_length.pos_length;
      };
      not_empty = h.not_empty;
    };
  }

  move_raw-run :
      (now : ℕ) (start : T) (p : PathPlannerCubic T) (n : ℕ) (ns : List ℕ)
      → p.finished ≡ true
      → HasPieces a p.dt p.raw n ns
      → (run a now p >>= move_raw a start) ≡ ok (moved now start p, true)
  unfolding run move_raw output
  move_raw-run now start p n ns f h =
      let some_piece : (length p.raw.time == 0) ≡ false = ground (arith, ap length h.piece_times) in
      rw (f, some_piece) refl

  -- A planner without a trajectory runs once and is moved along the one it has read_at, whose pieces
  -- last `n` and `ns` sampling times, each at least one. Then it runs without a fault, and has
  -- finished with the run after as many as there are sampling times, and not before.
  pub move_raw-finishes :
      (now : ℕ) (start : T) (p : PathPlannerCubic T) (n : ℕ) (ns : List ℕ) (nows : List ℕ)
      → CountsTicks a p.dt
      → p.finished ≡ true
      → HasPieces a p.dt p.raw n ns
      → length nows ≤ n + sum ns + 1
      → (m : PathPlannerCubic T) × ((run a now p >>= move_raw a start) ≡ ok (m, true))
        × (q : PathPlannerCubic T) × (runs nows m ≡ ok q)
        × (q.finished ≡ (length nows == n + sum ns + 1))
  unfolding Finishes
  move_raw-finishes now start p n ns nows law f h l =
      let (q, r, g) =
        Waits-Finishes nows (moved now start p) n ns law (moved-Waits now start p n ns h)
          (omega (arith, l)) in
      (
        moved now start p,
        move_raw-run now start p n ns f h,
        q,
        r,
        g ∙ ap (λ k. length nows == k) (omega arith),
      )

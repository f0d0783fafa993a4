-- ===== src/Control/PathPlannerCubic.antt =====
-- The path planner that follows a trajectory with pieces of constant jerk:
-- includes/eeros/control/PathPlannerCubic.hpp. The mutex makes each run one step.
pub mod Pieces
pub mod Finishes
mod Examples
use Prim.Native.String.{String}
use eeros_framework.Base.{
  ℕ, zero, suc, ◌+◌, ◌-◌, Bool, true, false, not, ◌&&◌, Option, some, none, List, [], ◌∷◌, ◌++◌,
  map, ltb, ◌==◌, if◌then◌else◌, length, get_elem?, Result, ok, throw, ◌>>=◌, undefined, no_file,
  no_trajectory,
}

-- The arithmetic of doubles; `round_to c d` is `round(c / d) * d`.
pub record Arithmetic (T : Type 0) : Type 0 where
  pub zero : T
  pub add : T → T → T
  pub mul : T → T → T
  pub neg : T → T
  pub div : T → T → T
  pub half : T → T
  pub sixth : T → T
  pub round_to : T → T → T
  pub le : T → T → Bool
  pub atof : String → T

pub record Motion (T : Type 0) : Type 0 where
  pub pos : T
  pub vel : T
  pub acc : T
  pub jerk : T

-- The five vectors of coefficients.
pub record Coefficients (T : Type 0) : Type 0 where
  pub time : List T
  pub jerk : List T
  pub acc : List T
  pub vel : List T
  pub pos : List T

-- `out` holds the four outputs and `prev` what the next run starts from.
pub record PathPlannerCubic (T : Type 0) : Type 0 where
  pub finished : Bool
  pub first : Bool
  pub index : ℕ
  pub dt : T
  pub interval : T
  pub t : T
  pub prev : Motion T
  pub out : Motion T
  pub timestamp : ℕ
  pub raw : Coefficients T
  pub coeff : Coefficients T

-- Reading a vector, also behind its end.
pub read_at : {T : Type 0} → List T → ℕ → Result T
read_at xs i = elim (get_elem? xs i) [ some x ↦ ok x | none ↦ throw undefined ]

module _ {T : Type 0} (a : Arithmetic T) where
  abbrev empty : Coefficients T
  empty = record { time = []; jerk = []; acc = []; vel = []; pos = [] }

  -- What is not initialised is `junk`.
  pub create : T → T → ℕ → PathPlannerCubic T
  create dt junk now =
      let still : Motion T = record { pos = a.zero; vel = a.zero; acc = a.zero; jerk = a.zero } in
      record {
        finished = true;
        first = true;
        index = 0;
        dt = dt;
        interval = a.neg dt;
        t = junk;
        prev = record still { jerk = junk };
        out = still;
        timestamp = now;
        raw = empty;
        coeff = empty;
      }

  -- `jerk * dt` and so on, in the order of the source.
  pub integrate : T → T → Motion T → Motion T
  integrate dt jerk m =
      let cube = a.mul (a.mul (a.mul (a.sixth jerk) dt) dt) dt in
      let square = a.mul (a.mul (a.half m.acc) dt) dt in
      record {
        jerk = jerk;
        acc = a.add m.acc (a.mul jerk dt);
        vel = a.add (a.add m.vel (a.mul m.acc dt)) (a.mul (a.mul (a.half jerk) dt) dt);
        pos = a.add (a.add (a.add m.pos (a.mul m.vel dt)) square) cube;
      }

  -- The end of a run that puts out a motion.
  pub output : ℕ → Motion T → PathPlannerCubic T → PathPlannerCubic T
  output now m p = record p { t = a.add p.t p.dt; prev = m; out = m; timestamp = now }

  -- The motion at the start of the piece `index`.
  pub piece : ℕ → PathPlannerCubic T → Result (PathPlannerCubic T)
  unfolding read_at output
  piece now p = do
    jerk ← read_at p.coeff.jerk p.index
    acc ← read_at p.coeff.acc p.index
    vel ← read_at p.coeff.vel p.index
    pos ← read_at p.coeff.pos p.index
    ok (output now (record { pos = pos; vel = vel; acc = acc; jerk = jerk }) p)

  -- The branch after an interval.
  pub advance : ℕ → PathPlannerCubic T → Result (PathPlannerCubic T)
  unfolding read_at piece
  advance now p =
      if p.first
      then (do
        interval ← read_at p.coeff.time 0
        piece now (record p { index = 0; interval = interval; first = false }))
      else (if p.index + 1 == length p.coeff.time
          then ok (record p { index = p.index + 1; finished = true })
          else (do
            time ← read_at p.coeff.time (p.index + 1)
            piece now (record p { index = p.index + 1; interval = a.add p.interval time })))

  -- The branch within an interval.
  pub proceed : ℕ → PathPlannerCubic T → Result (PathPlannerCubic T)
  unfolding read_at output integrate
  proceed now p = do
    jerk ← read_at p.coeff.jerk p.index
    ok (output now (integrate p.dt jerk p.prev) p)

  pub run : ℕ → PathPlannerCubic T → Result (PathPlannerCubic T)
  unfolding advance proceed output
  run now p =
      if not p.finished && ltb 0 (length p.coeff.time) && ltb p.index (length p.coeff.time)
      then (if a.le p.t (a.add p.interval (a.half p.dt)) then proceed now p else advance now p)
      else ok (
          output now p.prev
            (record p { t = a.zero; index = 0; interval = a.neg p.dt; first = true }))

  -- `move(startPos)`, with what it returns. The raw vectors have one length, since `init` pushes to
  -- all of them.
  pub move_raw : T → PathPlannerCubic T → Result (PathPlannerCubic T × Bool)
  move_raw start p =
      if not p.finished
      then ok (p, false)
      else (if length p.raw.time == 0
          then throw no_trajectory
          else ok (
            record p {
              coeff = record p.raw { pos = map (λ x. a.add x start) p.raw.pos };
              finished = false;
            },
            true,
          ))

  -- The sum of a vector, from the left.
  pub total : T → List T → T
  total sum [] = sum
  total sum (x ∷ xs) = total (a.add sum x) xs

  -- The motion after a time `t` with a jerk `j`.
  pub end_of : T → T → Motion T → Motion T
  end_of t j m =
      let cube = a.mul (a.mul (a.mul j t) t) t in
      let square = a.mul (a.mul m.acc t) t in
      record {
        jerk = j;
        acc = a.add m.acc (a.mul j t);
        vel = a.add (a.add m.vel (a.mul m.acc t)) (a.half (a.mul (a.mul j t) t));
        pos = a.add (a.add (a.add m.pos (a.mul m.vel t)) (a.half square)) (a.sixth cube);
      }

  -- The motions at the start of the pieces with the times and jerks, from the first one.
  pub curve : Motion T → List T → List T → List (Motion T)
  unfolding end_of
  curve m [] js = []
  curve m (t ∷ ts) [] = []
  curve m (t ∷ ts) (j ∷ js) = m ∷ curve (end_of t j m) ts js

  pub scale_path : T → T → PathPlannerCubic T → Result (PathPlannerCubic T)
  unfolding total curve read_at
  scale_path time delta p = do
    last ← read_at p.raw.pos (length p.raw.time - 1)
    let time_total = total a.zero p.raw.time
    let times = map (λ x. a.round_to (a.mul x (a.div time time_total)) p.dt) p.raw.time
    let time_scale = a.div (total a.zero times) time_total
    let cube = a.mul (a.mul time_scale time_scale) time_scale
    let jerks = map (λ x. a.div (a.mul x (a.div delta last)) cube) p.raw.jerk
    let still : Motion T = record { pos = a.zero; vel = a.zero; acc = a.zero; jerk = a.zero }
    let motions = curve still times jerks
    ok (record p {
      coeff = record {
        time = times;
        jerk = jerks;
        acc = map (λ m. m.acc) motions;
        vel = map (λ m. m.vel) motions;
        pos = map (λ m. m.pos) motions;
      };
    })

  -- `move(time, startPos, deltaPos)`, with what it returns.
  pub move : T → T → T → PathPlannerCubic T → Result (PathPlannerCubic T × Bool)
  unfolding scale_path
  move time start delta p =
      if not p.finished
      then ok (p, false)
      else (if length p.raw.time == 0 then throw no_trajectory else (do
        scaled ← scale_path time delta p
        ok (
          record scaled {
            coeff = record scaled.coeff { pos = map (λ x. a.add x start) scaled.coeff.pos };
            finished = false;
          },
          true,
        )))

  -- A line of the file is pushed to the five vectors.
  pub push_line : String → String → String → String → String → Coefficients T → Coefficients T
  push_line t j c v s raw = record {
    time = raw.time ++ (a.atof t ∷ []);
    jerk = raw.jerk ++ (a.atof j ∷ []);
    acc = raw.acc ++ (a.atof c ∷ []);
    vel = raw.vel ++ (a.atof v ∷ []);
    pos = raw.pos ++ (a.atof s ∷ []);
  }

  -- The loop over the words of the file; behind the last word `>>` gives an empty one.
  pub read_file : List String → Coefficients T → Coefficients T
  unfolding push_line
  read_file [] raw = raw
  read_file (t ∷ []) raw = push_line t "" "" "" "" raw
  read_file (t ∷ j ∷ []) raw = push_line t j "" "" "" raw
  read_file (t ∷ j ∷ c ∷ []) raw = push_line t j c "" "" raw
  read_file (t ∷ j ∷ c ∷ v ∷ []) raw = push_line t j c v "" raw
  read_file (t ∷ j ∷ c ∷ v ∷ s ∷ ws) raw = read_file ws (push_line t j c v s raw)

  -- `init` with the words of the file, if it can be opened.
  pub init : Option (List String) → PathPlannerCubic T → Result (PathPlannerCubic T)
  unfolding read_file
  init none p = throw no_file
  init (some ws) p = ok (record p { raw = read_file ws empty; coeff = empty })

  pub reset : PathPlannerCubic T → PathPlannerCubic T
  reset p = record p { finished = true }

-- ===== src/Math/Frame.antt =====
-- Frames between coordinate systems: src/math/Frame.cpp. The frames are addresses in a store, and
-- `list` is the static list of the source. A coordinate system is the address by which the source
-- compares it.
pub mod Lookup
pub mod Rigid
mod Examples
use eeros_framework.Base.{
  ℕ, zero, suc, ◌+◌, ◌≡◌, Option, none, some, Bool, true, false, not, ◌&&◌, ◌==◌, List, [], ◌∷◌,
  ◌++◌, if◌then◌else◌, length, Store, update, for_below, Result, ok, throw, frame_exists,
  incompatible_frames,
}
use eeros_framework.Math.Ring.{Ring}
use eeros_framework.Math.Matrix.{place, cell}
use eeros_framework.Math.Matrix.Algebra.{eye, multiply}

pub record Frame (T : Type 0) : Type 0 where
  pub from : ℕ
  pub to : ℕ
  pub t : Store T

pub record Frames (T : Type 0) : Type 0 where
  pub heap : Store (Frame T)
  pub list : List ℕ

-- `list.remove(x)`
pub remove : ℕ → List ℕ → List ℕ
remove x [] = []
remove x (y ∷ ys) = let rest = remove x ys in if y == x then rest else y ∷ rest

module _ {T : Type 0} where
  pub find_frame : Store (Frame T) → ℕ → ℕ → List ℕ → Option ℕ
  find_frame h a b [] = none
  find_frame h a b (f ∷ fs) =
      if ((h f).from == a) && ((h f).to == b) then some f else find_frame h a b fs

  pub get_frame : ℕ → ℕ → Frames T → Option ℕ
  unfolding find_frame
  get_frame a b w = find_frame w.heap a b w.list

  pub get_nof_frames : Frames T → ℕ
  get_nof_frames w = length w.list

  -- The constructor of the object at `x` with a matrix: the object is gone when it throws.
  pub create : ℕ → ℕ → ℕ → Store T → Frames T → Result (Frames T)
  unfolding get_frame
  create x a b t w = elim (get_frame a b w) [
    | some f ↦ throw frame_exists
    | none ↦ ok (record {
      heap = update w.heap x (record { from = a; to = b; t = t });
      list = w.list ++ (x ∷ []);
    })
  ]

  -- The destructor.
  pub destroy : ℕ → Frames T → Frames T
  unfolding remove
  destroy x w = record w { list = remove x w.list }

  -- `set(T)`
  pub set : ℕ → Store T → Frames T → Frames T
  set x t w = record w { heap = update w.heap x (record (w.heap x) { t = t }) }

  module _ (r : Ring T) where
    -- `set(R, r)`, the array that the frame has then.
    pub rigid : Store T → Store T → Store T → Store T
    rigid rot v t =
        let t =
          for_below 3 (λ n t. for_below 3 (λ m t. update t (place 4 m n) (cell 3 rot m n)) t) t in
        let t = for_below 3 (λ m t. update t (place 4 m 3) (v m)) t in
        let t = update t (place 4 3 0) r.zero in
        let t = update t (place 4 3 1) r.zero in
        let t = update t (place 4 3 2) r.zero in update t (place 4 3 3) r.one

    -- The constructors without a matrix, and with a rotation and a translation.
    pub create_eye : ℕ → ℕ → ℕ → Store T → Frames T → Result (Frames T)
    unfolding create
    create_eye x a b junk w = create x a b (eye r 4 4 junk) w

    pub create_rigid : ℕ → ℕ → ℕ → Store T → Store T → Store T → Frames T → Result (Frames T)
    unfolding create rigid
    create_rigid x a b rot v junk w = create x a b (rigid rot v junk) w

    -- `operator*`: the product becomes the object at `x`.
    pub times : ℕ → ℕ → ℕ → Store T → Frames T → Result (Frames T)
    unfolding create
    times x left right junk w =
        if (w.heap left).to == (w.heap right).from
        then create x (w.heap left).from (w.heap right).to
            (multiply r 4 4 4 (w.heap left).t (w.heap right).t junk) w
        else throw incompatible_frames

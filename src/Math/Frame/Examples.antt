-- ===== src/Math/Frame/Examples.antt =====
-- A run of the frames.
use eeros_framework.Base.{ℕ, ◌≡◌, refl, Bool, true, false, some, [], ◌∷◌, Store, update, ok}
use eeros_framework.Math.Bits.{bits}
use eeros_framework.Math.Matrix.Algebra.{multiply}
use eeros_framework.Math.Frame.{Frame, Frames, find_frame, get_frame, create, times}
use eeros_framework.Math.Frame.Lookup.{Steps, here, then_step, created, multiplied, get_frame-Steps}

abbrev zeros : Store Bool
zeros p = false

abbrev ones : Store Bool
ones p = true

-- Frames from system 0 to 1 and from 1 to 2, and their product.
abbrev blank : Store (Frame Bool)
blank x = record { from = 9; to = 9; t = ones }

abbrev at_start : Frames Bool
at_start = record { heap = blank; list = [] }

abbrev one_frame : Frames Bool
one_frame = record { heap = update blank 4 (record { from = 0; to = 1; t = zeros }); list = 4 ∷ [] }

abbrev two_frames : Frames Bool
two_frames = record {
  heap = update one_frame.heap 5 (record { from = 1; to = 2; t = ones });
  list = 4 ∷ 5 ∷ [];
}

abbrev three_frames : Frames Bool
three_frames = record {
  heap =
      update two_frames.heap 6
        (record { from = 0; to = 2; t = multiply bits 4 4 4 zeros ones ones });
  list = 4 ∷ 5 ∷ 6 ∷ [];
}

first_made : create 4 0 1 zeros at_start ≡ ok one_frame
unfolding create get_frame find_frame
first_made = refl

second_made : create 5 1 2 ones one_frame ≡ ok two_frames
unfolding create get_frame find_frame
second_made = refl

product_made : times bits 6 4 5 ones two_frames ≡ ok three_frames
unfolding times create get_frame find_frame
product_made = refl

history : Steps bits at_start three_frames
history =
    then_step two_frames three_frames
      (then_step one_frame two_frames
        (then_step at_start one_frame here (created 4 0 1 zeros one_frame refl first_made))
        (created 5 1 2 ones two_frames refl second_made))
      (multiplied 6 4 5 ones three_frames refl product_made)

get_frame-Steps_example :
    (get_frame 0 2 three_frames ≡ some 6)
    × ((◌≡◌ {A = ℕ} 0 0) → (◌≡◌ {A = ℕ} 2 1) → ◌≡◌ {A = ℕ} 6 4)
get_frame-Steps_example = get_frame-Steps bits blank three_frames 6 4 history refl refl

-- ===== src/Control/WrapAround/Examples.antt =====
-- A signal that wraps around.
use eeros_framework.Base.{◌≡◌, refl, ◌⊎◌, true, ℤ, pos, negsuc, ◌+ℤ◌, ◌-ℤ◌, ◌*ℤ◌, ltb_ℤ}
use eeros_framework.Control.Signals.{Signal}
use eeros_framework.Control.WrapAround.{
  create, enable, disable, set_min_max, floor_div, abs, calculate_result, run,
}
use eeros_framework.Control.WrapAround.Range.{run-wraps}

abbrev signal : Signal ℤ
signal = record { value = negsuc 7; timestamp = 0 }

-- -8 wraps to 2 between -5 and 5, and 15 stays outside.
inside : calculate_result (create (negsuc 4) (pos 5)) (negsuc 7) ≡ pos 2
unfolding calculate_result create floor_div abs ◌+ℤ◌ ◌-ℤ◌ ◌*ℤ◌
inside = refl

outside : calculate_result (create (negsuc 4) (pos 5)) (pos 15) ≡ pos 15
unfolding calculate_result create floor_div abs ◌+ℤ◌ ◌-ℤ◌ ◌*ℤ◌
outside = refl

run-wraps_example :
    let y =
      (run
        (set_min_max (pos 0) (pos 1) (enable (disable (create (negsuc 4) (pos 5)))))
        signal).value in
    let delta = pos 5 -ℤ negsuc 4 in
    ((k : ℤ) × (y +ℤ k *ℤ delta ≡ negsuc 7))
    × (((ltb_ℤ (negsuc 4) y ≡ true) × (ltb_ℤ y (pos 5) ≡ true))
        ⊎ ((y ≡ negsuc 7) × ((k : ℤ) × (negsuc 7 ≡ negsuc 4 +ℤ k *ℤ delta))))
run-wraps_example = run-wraps (negsuc 4) (pos 5) (pos 0) (pos 1) signal refl

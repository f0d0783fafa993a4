-- ===== src/Base/Outcome.antt =====
-- What a call that may throw returns: a value, or the fault that was thrown.
use Prim.Native.String.{String}
use mathlib.Core.Path.{◌≡◌, refl}
use mathlib.Core.Logic.{◌⊎◌, inl, inr}
use mathlib.Core.Bool.{Bool, true, false}

-- The faults of the modelled code. `undefined` stands for a call whose behaviour C++ leaves
-- undefined, such as a read through a null pointer.
pub data Fault : Type 0 where
  level_not_defined single_instance not_verified not_connected index_out_of_range : Fault
  missing_output missing_input : String → Fault
  nan_output no_safety_event period_not_set period_deviation priority_not_set no_task : Fault
  second_main_task bad_delay undefined : Fault
  exclusive_reserved already_claimed signal_not_found signal_exists null_signal : Fault
  system_exists frame_exists incompatible_frames no_name name_exists not_invertible not_implemented
        property_exists length_inconsistent no_path invalid_number no_file no_trajectory :
      Fault

pub data Result {ℓ} (A : Type ℓ) : Type ℓ where
  ok : A → Result A
  throw : Fault → Result A

infixl 5 ◌>>=◌ ◌>>◌
abbrev pub ◌>>=◌ {ℓ κ} : {A : Type ℓ} {B : Type κ} → Result A → (A → Result B) → Result B
throw fault >>= next = throw fault
ok value >>= next = next value

abbrev pub ◌>>◌ {ℓ} : {B : Type ℓ} → Result (Unit {0}) → Result B → Result B
call >> next = call >>= λ (_ : Unit). next

abbrev pub ensure : Bool → Fault → Result (Unit {0})
ensure true e = ok tt
ensure false e = throw e

pub Result-cases {ℓ} :
    {A : Type ℓ} (r : Result A) → ((a : A) × (r ≡ ok a)) ⊎ ((e : Fault) × (r ≡ throw e))
Result-cases (ok a) = inl (a, refl)
Result-cases (throw e) = inr (e, refl)

-- Inversion of a call that returned.
module _ {ℓ κ} {A : Type ℓ} {B : Type κ} where
  pub >>=-eq-ok :
      (call : Result A) (next : A → Result B) {result : B}
      → (call >>= next) ≡ ok result
      → (value : A) × (call ≡ ok value) × (next value ≡ ok result)
  >>=-eq-ok (throw e) next h = cc
  >>=-eq-ok (ok value) next h = (value, refl, h)

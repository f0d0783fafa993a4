-- ===== src/Hal/Registry.antt =====
-- The two directions of the registry of src/hal/HAL.cpp. `is_logic` and `is_scalable` say what the
-- `dynamic_cast` of the source finds out about an object.
use Prim.Native.String.{String}
use eeros_framework.Base.{ℕ, Bool, Result}
use eeros_framework.Hal.Claims.{Ports, no_ports, get, get_as, release, add}

pub record Hal : Type 0 where
  pub inputs : Ports
  pub outputs : Ports

pub create : Hal
create = record { inputs = no_ports; outputs = no_ports }

-- A call for one direction leaves the other alone.
abbrev on_inputs : {A : Type 0} → (Ports → Ports × Result A) → Hal → Hal × Result A
on_inputs f h = let (p, r) = f h.inputs in (record h { inputs = p }, r)

abbrev on_outputs : {A : Type 0} → (Ports → Ports × Result A) → Hal → Hal × Result A
on_outputs f h = let (p, r) = f h.outputs in (record h { outputs = p }, r)

pub add_input : ℕ → String → Hal → Hal × Result Bool
add_input x name = on_inputs (add x name)

pub add_output : ℕ → String → Hal → Hal × Result Bool
add_output x name = on_outputs (add x name)

pub release_input : String → Hal → Hal × Result (Unit {0})
release_input name = on_inputs (release name)

pub release_output : String → Hal → Hal × Result (Unit {0})
release_output name = on_outputs (release name)

pub get_input : String → Bool → Hal → Hal × Result ℕ
get_input name exclusive = on_inputs (get name exclusive)

pub get_output : String → Bool → Hal → Hal × Result ℕ
get_output name exclusive = on_outputs (get name exclusive)

module _ (is_logic is_scalable : ℕ → Bool) where
  pub get_logic_input : String → Bool → Hal → Hal × Result ℕ
  get_logic_input name exclusive = on_inputs (get_as is_logic name exclusive)

  pub get_logic_output : String → Bool → Hal → Hal × Result ℕ
  get_logic_output name exclusive = on_outputs (get_as is_logic name exclusive)

  pub get_scalable_input : String → Bool → Hal → Hal × Result ℕ
  get_scalable_input name exclusive = on_inputs (get_as is_scalable name exclusive)

  pub get_scalable_output : String → Bool → Hal → Hal × Result ℕ
  get_scalable_output name exclusive = on_outputs (get_as is_scalable name exclusive)

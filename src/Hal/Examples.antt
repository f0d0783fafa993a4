-- ===== src/Hal/Examples.antt =====
-- Runs of the registry with two objects.
use eeros_framework.Base.{◌≡◌, true, false, ◌&&◌, List, [], ◌∷◌, elem}
use eeros_framework.Hal.Claims.{Ports, no_ports, call_get, call_release, call_add, Call, calls}
use eeros_framework.Hal.Claims.Disjoint.{calls_disjoint}

abbrev program : List Call
program =
    call_add 4 "enc"
    ∷ call_add 5 "led"
    ∷ call_get "enc" true
    ∷ call_get "led" false
    ∷ call_release "enc"
    ∷ []

calls_disjoint_example :
    let p = calls program no_ports in (elem 4 p.exclusive && elem 4 p.non_exclusive) ≡ false
calls_disjoint_example = calls_disjoint program 4

abbrev two : Ports
two = record { objects = ("enc", 4) ∷ ("led", 5) ∷ []; exclusive = []; non_exclusive = 5 ∷ [] }

abbrev later : List Call
later = call_get "led" false ∷ call_release "led" ∷ call_get "new" true ∷ []

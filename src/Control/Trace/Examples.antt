-- ===== src/Control/Trace/Examples.antt =====
-- A run of the trace.
use eeros_framework.Base.{
  ℕ, ◌-◌, ◌*◌, ◌<◌, ◌≡◌, arith, false, ltb, if◌then◌else◌, List, [], ◌∷◌, some, length, get_elem?,
}
use eeros_framework.Control.Signals.{Signal}
use eeros_framework.Control.Trace.{
  create, get_trace, get_size, Call, call_run, call_enable, call_disable, call_get_trace, calls,
}
use eeros_framework.Control.Trace.Recorded.{recorded}
use eeros_framework.Control.Trace.Latest.{get_trace-calls}

abbrev sample : ℕ → Signal ℕ
sample i = record { value = 10 * i; timestamp = i }

-- Four signals are recorded and one is not, in a buffer of three places.
abbrev use_of_trace : List (Call ℕ)
use_of_trace =
    call_run (sample 1)
    ∷ call_enable
    ∷ call_run (sample 2)
    ∷ call_run (sample 3)
    ∷ call_get_trace
    ∷ call_run (sample 4)
    ∷ call_disable
    ∷ call_enable
    ∷ call_run (sample 5)
    ∷ []

get_trace-calls_example :
    let (t, b) = get_trace (calls use_of_trace (create (sample 0) 3)) in
    let h = recorded false [] use_of_trace in
    (get_size t ≡ (if ltb (length h) 3 then length h else 3))
    × ((i : ℕ) → i < get_size t → get_elem? h (get_size t - 1 - i) ≡ some (b i))
get_trace-calls_example = get_trace-calls 3 (sample 0) use_of_trace (omega arith)

-- ===== src/Sequencer/Timeout.antt =====
-- The timeout of a sequence: includes/eeros/sequencer/ConditionTimeout.hpp. The clock counts
-- nanoseconds; a timeout is a number of milliseconds.
use eeros_framework.Base.{
  ℕ, ◌-◌, ◌/◌, ◌≡◌, refl, ap, ◌∙◌, Bool, true, false, not, ◌&&◌, List, [], ◌∷◌, ltb, ◌==◌,
  if◌then◌else◌, Bool-cases, inl, inr,
}

pub record ConditionTimeout : Type 0 where
  pub timeout : ℕ
  pub started : Bool
  pub start_time : ℕ

-- The constructor; `start_time` is not initialised there.
pub create : ℕ → ConditionTimeout
create start_time = record { timeout = 0; started = false; start_time = start_time }

pub set_timeout_time : ℕ → ConditionTimeout → ConditionTimeout
set_timeout_time time c = record c { timeout = time }

pub reset_timeout : ℕ → ConditionTimeout → ConditionTimeout
reset_timeout now c = record c { started = true; start_time = now }

pub validate : ℕ → ConditionTimeout → Bool × ConditionTimeout
unfolding reset_timeout
validate now c =
    if c.timeout == 0
    then (false, c)
    else (if not c.started
        then (false, reset_timeout now c)
        else (ltb c.timeout ((now - c.start_time) / 1000000), c))

-- The condition after it was evaluated at each of the times.
pub validate_all : List ℕ → ConditionTimeout → ConditionTimeout
validate_all [] c = c
validate_all (now ∷ times) c = validate_all times (validate now c).1

validate_all-started :
    (times : List ℕ) (ms t0 : ℕ)
    → (let c : ConditionTimeout = record { timeout = ms; started = true; start_time = t0 } in
        validate_all times c ≡ c)
unfolding validate_all validate
validate_all-started [] ms t0 = refl
validate_all-started (t ∷ times) ms t0 = elim (Bool-cases (ms == 0)) [
  | inl z ↦ rw z (validate_all-started times ms t0)
  | inr z ↦ rw z (validate_all-started times ms t0)
]

validate_all-off :
    (times : List ℕ) (ms t0 : ℕ)
    → (ms == 0) ≡ true
    → (let c : ConditionTimeout = record { timeout = ms; started = false; start_time = t0 } in
        validate_all times c ≡ c)
unfolding validate_all validate
validate_all-off [] ms t0 z = refl
validate_all-off (t ∷ times) ms t0 z = rw z (validate_all-off times ms t0 z)

first_starts :
    (ms t0 first : ℕ) (times : List ℕ)
    → (ms == 0) ≡ false
    → validate_all (first ∷ times) (set_timeout_time ms (create t0))
      ≡ (record { timeout = ms; started = true; start_time = first })
unfolding validate_all validate set_timeout_time create reset_timeout
first_starts ms t0 first times z = rw z (validate_all-started times ms first)

-- A timeout of `ms` milliseconds, first evaluated at `first` and then at any times, fires at `now`
-- if and only if it is not 0 and more than `ms` whole milliseconds have passed since `first`.
pub validate-elapsed :
    (ms start_time first : ℕ) (times : List ℕ) (now : ℕ)
    → (validate now (validate_all (first ∷ times) (set_timeout_time ms (create start_time)))).0
      ≡ (not (ms == 0) && ltb ms ((now - first) / 1000000))
unfolding validate set_timeout_time create
validate-elapsed ms start_time first times now = elim (Bool-cases (ms == 0)) [
  | inl z ↦
      ap (λ c. (validate now c).0) (validate_all-off (first ∷ times) ms start_time z) ∙ rw z refl
  | inr z ↦ ap (λ c. (validate now c).0) (first_starts ms start_time first times z) ∙ rw z refl
]

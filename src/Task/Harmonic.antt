-- ===== src/Task/Harmonic.antt =====
-- Harmonic tasks and lists of them: src/task/Harmonic.cpp and src/task/HarmonicTaskList.cpp. `R` is
-- the type of references to `Runnable` objects, and `exec` says what `run` of each does to the
-- world.
use native.Mathlib.Nat.{add-div_right, add-mod_right, div-eq_of_lt, mod-eq_of_lt, zero-add}
use eeros_framework.Base.{
  ℕ, zero, suc, ◌+◌, ◌/◌, ◌%◌, ◌<◌, ◌≡◌, sym, ap, ◌∙◌, List, [], ◌∷◌, ◌++◌, arith, leb,
  if◌then◌else◌, Bool-cases, inl, inr,
}

pub record Harmonic (R : Type 0) : Type 0 where
  pub n : ℕ
  pub k : ℕ
  pub task : R

unfoldable pub create : {R : Type 0} → R → ℕ → Harmonic R
create task n = record { n = n; k = 0; task = task }

-- `add` of a task list.
unfoldable pub add : {R : Type 0} → List (Harmonic R) → R → ℕ → List (Harmonic R)
unfolding create
add tasks task n = tasks ++ (create task n ∷ [])

div_step : (k m n : ℕ) → suc k ≡ n → (k + suc m) / n ≡ suc (m / n)
div_step k m n h =
    ap (λ a. a / n) (omega arith) ∙ add-div_right m {k = n} (omega arith) ∙ omega arith

mod_step : (k m n : ℕ) → suc k ≡ n → (k + suc m) % n ≡ m % n
mod_step k m n h = ap (λ a. a % n) (omega arith) ∙ add-mod_right m n

module _ {R W : Type 0} (exec : R → W → W) where
  pub run : Harmonic R → W → Harmonic R × W
  run h w =
      if leb h.n (h.k + 1)
      then (record h { k = 0 }, exec h.task w)
      else (record h { k = h.k + 1 }, w)

  -- `HarmonicTaskList::run`
  pub run_list : List (Harmonic R) → W → List (Harmonic R) × W
  unfolding run
  run_list [] w = ([], w)
  run_list (h ∷ hs) w = let (h', w') = run h w in let (hs', w'') = run_list hs w' in (h' ∷ hs', w'')

  -- `m` runs, one after the other.
  pub run_times : ℕ → Harmonic R → W → Harmonic R × W
  run_times zero h w = (h, w)
  run_times (suc m) h w = let (h', w') = run h w in run_times m h' w'

  pub iterate : ℕ → R → W → W
  iterate zero task w = w
  iterate (suc c) task w = iterate c task (exec task w)

  -- What `m` runs make of a task with divider `n` and counter `k`.
  abbrev after_runs : ℕ → ℕ → ℕ → R → W → Harmonic R × W
  after_runs m n k task w =
      (record { n = n; k = (k + m) % n; task = task }, iterate ((k + m) / n) task w)

  after_runs_zero :
      (n k : ℕ) (task : R) (w : W)
      → k < n
      → after_runs 0 n k task w ≡ (record { n = n; k = k; task = task }, w)
  unfolding iterate
  after_runs_zero n k task w h =
      let d : (k + 0) / n ≡ 0 = ap (λ a. a / n) (omega arith) ∙ div-eq_of_lt h in
      let r : (k + 0) % n ≡ k = ap (λ a. a % n) (omega arith) ∙ mod-eq_of_lt h in rw (d, r)

  run_times_lem :
      (m n k : ℕ) (task : R) (w : W)
      → k < n
      → run_times m (record { n = n; k = k; task = task }) w ≡ after_runs m n k task w
  unfolding run_times run iterate
  run_times_lem zero n k task w h = sym (after_runs_zero n k task w h)
  run_times_lem (suc m) n k task w h = elim (Bool-cases (leb n (k + 1))) [
    | inl due ↦
        let last : suc k ≡ n = ground arith in
        rw (due, div_step k m n last, mod_step k m n last)
          (run_times_lem m n 0 task (exec task w) (omega arith) ∙ rw (zero-add m))
    | inr early ↦
        let same : k + 1 + m ≡ k + suc m = omega arith in
        rw (early, ← same) (run_times_lem m n (k + 1) task w (ground arith))
  ]

  -- A harmonic task with divider `n` runs its task once in `n` cycles: `m` cycles after it was
  -- created the task has run `m / n` times, and the counter stands at the remainder.
  pub run_times-create :
      (m n : ℕ) (task : R) (w : W)
      → 0 < n
      → run_times m (create task n) w
        ≡ (record (create task n) { k = m % n }, iterate (m / n) task w)
  unfolding create
  run_times-create m n task w h = run_times_lem m n 0 task w h ∙ rw (zero-add m)

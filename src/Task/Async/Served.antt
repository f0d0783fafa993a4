-- ===== src/Task/Async/Served.antt =====
-- Every call of `run` of an asynchronous task leads to one run of the task: src/task/Async.cpp.
use eeros_framework.Base.{
  ℕ, zero, suc, ◌+◌, ◌*◌, ◌≤◌, ◌≡◌, refl, ap, ◌∙◌, false, none, some, arith, for_below,
}
use eeros_framework.Task.Async.{
  Async, Place, waiting, testing, working, ended, thread_step, thread_steps, Reach, wait,
}
use eeros_framework.Task.Async.Invariant.{taken, has_ended, Reach-Serves}

module _ {W : Type 0} (task : W → W) where
  -- `n` runs of the task.
  abbrev pub runs : ℕ → W → W
  runs n = for_below n (λ _. task)

  runs_suc : (n : ℕ) (w : W) → runs n (task w) ≡ runs (suc n) w
  runs_suc zero w = refl
  runs_suc (suc n) w = ap task (runs_suc n w)

  pub runs-runs : (m n : ℕ) (w : W) → runs m (runs n w) ≡ runs (n + m) w
  runs-runs zero n w = ap (λ (k : ℕ). runs k w) {x = n} (omega arith)
  runs-runs (suc m) n w =
      ap task (runs-runs m n w) ∙ ap (λ (k : ℕ). runs k w) {x = suc (n + m)} (omega arith)

  -- Before `stop`, with `k` calls not served.
  abbrev at_place : Place → ℕ → ℕ → W → Async W
  at_place p k s w = record { semaphore = k; finished = false; place = p; stopping = s; world = w }

  wait-suc : (k : ℕ) → wait (suc k) ≡ some k
  unfolding wait
  wait-suc k = ground arith

  wait-zero : wait 0 ≡ none
  unfolding wait
  wait-zero = refl

  -- The thread serves one call.
  one_call :
      (k f s : ℕ) (w : W)
      → thread_steps task (suc (suc (suc f))) (at_place waiting (suc k) s w)
        ≡ thread_steps task f (at_place waiting k s (task w))
  unfolding thread_steps thread_step
  one_call k f s w = rw (wait-suc k, thread_steps, thread_step)

  steps-waiting :
      (k f s : ℕ) (w : W)
      → k * 3 ≤ f
      → thread_steps task f (at_place waiting k s w) ≡ at_place waiting 0 s (runs k w)
  unfolding thread_steps thread_step
  steps-waiting zero zero s w h = refl
  steps-waiting zero (suc f) s w h = rw (wait-zero, thread_steps, thread_step)
  steps-waiting (suc k) (suc (suc (suc f))) s w h =
      one_call k f s w
      ∙ steps-waiting k f s (task w) (omega arith)
      ∙ ap (at_place waiting 0 s) (runs_suc k w)
  steps-waiting (suc k) zero s w h = absurd (omega arith)
  steps-waiting (suc k) (suc zero) s w h = absurd (omega arith)
  steps-waiting (suc k) (suc (suc zero)) s w h = absurd (omega arith)

  one_more :
      (k s : ℕ) (w : W)
      → at_place waiting 0 s (runs k (task w)) ≡ at_place waiting 0 s (runs (k + 1) w)
  one_more k s w =
      ap (at_place waiting 0 s) (runs_suc k w ∙ ap (λ (m : ℕ). runs m w) {x = suc k} (omega arith))

  -- At most two steps more, if the thread has taken a call already.
  steps-place :
      (p : Place) (k f s : ℕ) (w : W)
      → has_ended p ≡ false
      → k * 3 ≤ f
      → thread_steps task (suc (suc f)) (at_place p k s w)
        ≡ at_place waiting 0 s (runs (k + taken p) w)
  unfolding thread_steps thread_step
  steps-place waiting k f s w e h =
      steps-waiting k (suc (suc f)) s w (omega arith)
      ∙ ap (λ (m : ℕ). at_place waiting 0 s (runs m w)) {x = k} (omega arith)
  steps-place testing k f s w e h = steps-waiting k f s (task w) (omega arith) ∙ one_more k s w
  steps-place working k f s w e h =
      steps-waiting k (suc f) s (task w) (omega arith) ∙ one_more k s w
  steps-place ended k f s w e h = cc

  -- If `stop` has not been called, whatever the callers and the thread did before, the thread left
  -- alone gets to wait with no call open within three steps for each call that the semaphore counts
  -- and two more, and then the task has run exactly as often as `run` was called.
  pub thread_steps-serves :
      {n : ℕ} {a : Async W} (w : W)
      → Reach task w n a
      → a.finished ≡ false
      → let b = thread_steps task (suc (suc (a.semaphore * 3))) a in
        (b.place ≡ waiting) × (b.semaphore ≡ 0) × (b.world ≡ runs n w)
  thread_steps-serves {n} {a} w r f =
      let (done, inv) = Reach-Serves task w r in
      let same : a ≡ at_place a.place a.semaphore a.stopping a.world = ground arith in
      let e =
        ap (thread_steps task (suc (suc (a.semaphore * 3)))) same
        ∙ steps-place a.place a.semaphore (a.semaphore * 3) a.stopping a.world (inv.runs_on f)
            (omega arith) in
      (
        ap (λ b. b.place) e,
        ap (λ b. b.semaphore) e,
        ap (λ b. b.world) e
            ∙ ap (runs (a.semaphore + taken a.place)) inv.world_is
            ∙ runs-runs (a.semaphore + taken a.place) done w
            ∙ ap (λ m. runs m w) (inv.open_calls f),
      )

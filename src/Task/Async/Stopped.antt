-- ===== src/Task/Async/Stopped.antt =====
-- After `stop` the thread of an asynchronous task ends, so that `join` returns: src/task/Async.cpp.
use eeros_framework.Base.{ℕ, ◌+◌, ◌≤◌, ◌<◌, ◌≡◌, refl, ap, ◌∙◌, true, arith}
use eeros_framework.Task.Async.{
  Async, Place, waiting, testing, working, ended, thread_step, thread_steps, Reach, wait,
}
use eeros_framework.Task.Async.Invariant.{in_body, awaits, Reach-Serves}
use eeros_framework.Task.Async.Served.{runs, runs-runs}

module _ {W : Type 0} (task : W → W) where
  -- After the store of `stop`.
  abbrev halted : Place → ℕ → ℕ → W → Async W
  halted p k s w = record { semaphore = k; finished = true; place = p; stopping = s; world = w }

  steps-halted :
      (p : Place) (k s : ℕ) (w : W)
      → (awaits p ≡ true → 0 < k)
      → let b = thread_steps task 3 (halted p k s w) in
        (b.place ≡ ended) × (b.world ≡ runs task (in_body p) w)
  unfolding thread_steps thread_step wait
  steps-halted waiting k s w h = ground (arith, h refl)
  steps-halted testing k s w h = ground arith
  steps-halted working k s w h = ground (arith, h refl)
  steps-halted ended k s w h = (refl, refl)

  -- Once every call of `stop` has returned, the thread ends within three steps of its own, whatever
  -- came before. The task is then finished if it was running and is not run again, and it has run
  -- at most as often as `run` was called.
  pub thread_steps-ends :
      {n : ℕ} {a : Async W} (w : W)
      → Reach task w n a
      → a.finished ≡ true
      → a.stopping ≡ 0
      → let b = thread_steps task 3 a in
        (b.place ≡ ended)
        × (b.world ≡ runs task (in_body a.place) a.world)
        × ((done : ℕ) × (done ≤ n) × (b.world ≡ runs task done w))
  thread_steps-ends {n} {a} w r f s =
      let (done, inv) = Reach-Serves task w r in
      let same : a ≡ halted a.place a.semaphore a.stopping a.world = ground arith in
      let (end, last) =
        steps-halted a.place a.semaphore a.stopping a.world
          (λ e. omega (arith, inv.will_wake f e)) in
      let e = ap (thread_steps task 3) same in
      let world_end = ap (λ b. b.world) e ∙ last in
      (
        ap (λ b. b.place) e ∙ end,
        world_end,
        (
          done + in_body a.place,
          inv.at_most,
          world_end
              ∙ ap (runs task (in_body a.place)) inv.world_is
              ∙ runs-runs task (in_body a.place) done w,
        ),
      )

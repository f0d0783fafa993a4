-- ===== src/Task/Async/Invariant.antt =====
-- What holds of an asynchronous task whatever its callers do: src/task/Async.cpp.
use eeros_framework.Base.{
  ℕ, suc, ◌+◌, ◌-◌, ◌≤◌, ◌<◌, ◌≡◌, refl, ap, subst, Bool, true, false, some, arith, for_below, ◌==◌,
  if◌then◌else◌, Bool-cases, inl, inr,
}
use eeros_framework.Task.Async.{
  Async, Place, waiting, testing, working, ended, create, run, stop_store, stop_post, thread_step,
  Step, step_thread, step_run, step_store, step_post, Reach, start, later, wait,
}

-- A call that the thread has taken and not yet served.
abbrev pub taken : Place → ℕ
taken waiting = 0
taken testing = 1
taken working = 1
taken ended = 0

abbrev pub in_body : Place → ℕ
in_body working = 1
in_body _ = 0

-- In these places the thread will wait, or waits, for the semaphore.
abbrev pub awaits : Place → Bool
awaits waiting = true
awaits working = true
awaits _ = false

abbrev pub has_ended : Place → Bool
has_ended ended = true
has_ended _ = false

module _ {W : Type 0} (task : W → W) (w : W) where
  -- With `n` calls of `run`, of which `done` are served.
  pub record Serves (n done : ℕ) (a : Async W) : Type 0 where
    pub world_is : a.world ≡ for_below done (λ _. task) w
    pub open_calls : a.finished ≡ false → done + (a.semaphore + taken a.place) ≡ n
    pub at_most : done + in_body a.place ≤ n
    pub will_wake : a.finished ≡ true → awaits a.place ≡ true → 0 < a.semaphore + a.stopping
    pub no_stop : a.finished ≡ false → a.stopping ≡ 0
    pub runs_on : a.finished ≡ false → has_ended a.place ≡ false

  wake-Serves :
      (n done : ℕ) (a : Async W)
      → a.place ≡ waiting
      → 0 < a.semaphore
      → Serves n done a
      → Serves n done (record a { semaphore = a.semaphore - 1; place = testing })
  wake-Serves n done a at h inv = record {
    world_is = inv.world_is;
    open_calls = λ f. ground (arith, inv.open_calls f);
    at_most = ground (arith, inv.at_most);
    will_wake = λ f e. cc;
    no_stop = inv.no_stop;
    runs_on = λ f. refl;
  }

  test-Serves :
      (n done : ℕ) (a : Async W)
      → a.place ≡ testing
      → Serves n done a
      → Serves n done (record a { place = if a.finished then ended else working })
  test-Serves n done a at inv = record {
    world_is = inv.world_is;
    open_calls = λ e. ground (arith, inv.open_calls e);
    at_most = elim (Bool-cases a.finished) [
      | inl f ↦ ground (arith, inv.at_most)
      | inr f ↦ ground (arith, inv.open_calls f)
    ];
    will_wake = λ e k. ground arith;
    no_stop = inv.no_stop;
    runs_on = λ e. ground arith;
  }

  work-Serves :
      (n done : ℕ) (a : Async W)
      → a.place ≡ working
      → Serves n done a
      → Serves n (suc done) (record a { world = task a.world; place = waiting })
  work-Serves n done a at inv = record {
    world_is = ap task inv.world_is;
    open_calls = λ f. ground (arith, inv.open_calls f);
    at_most = ground (arith, inv.at_most);
    will_wake = λ f e. ground (arith, inv.will_wake f);
    no_stop = inv.no_stop;
    runs_on = λ f. refl;
  }

  thread_step-Serves :
      (n done : ℕ) (place : Place) (a : Async W) {b : Async W}
      → a.place ≡ place
      → thread_step task place a ≡ some b
      → Serves n done a
      → (done' : ℕ) × Serves n done' b
  unfolding thread_step wait
  thread_step-Serves n done waiting a at h inv = elim (Bool-cases (a.semaphore == 0)) [
    | inl none_left ↦ cc (h, none_left)
    | inr left ↦ (
      done,
      subst (Serves n done) (ground (arith, h)) (wake-Serves n done a at (ground arith) inv),
    )
  ]
  thread_step-Serves n done testing a at h inv =
      (done, subst (Serves n done) (ground (arith, h)) (test-Serves n done a at inv))
  thread_step-Serves n done working a at h inv =
      (suc done, subst (Serves n (suc done)) (ground (arith, h)) (work-Serves n done a at inv))
  thread_step-Serves n done ended a at h inv = cc

  run-Serves : (n done : ℕ) (a : Async W) → Serves n done a → Serves (suc n) done (run a)
  unfolding run
  run-Serves n done a inv = record {
    world_is = inv.world_is;
    open_calls = λ f. omega (arith, inv.open_calls f);
    at_most = omega (arith, inv.at_most);
    will_wake = λ f e. omega (arith, inv.will_wake f e);
    no_stop = inv.no_stop;
    runs_on = inv.runs_on;
  }

  stop_store-Serves : (n done : ℕ) (a : Async W) → Serves n done a → Serves n done (stop_store a)
  unfolding stop_store
  stop_store-Serves n done a inv = record {
    world_is = inv.world_is;
    open_calls = λ f. cc;
    at_most = inv.at_most;
    will_wake = λ f e. omega arith;
    no_stop = λ f. cc;
    runs_on = λ f. cc;
  }

  stop_post-Serves :
      (n done : ℕ) (a : Async W) → 0 < a.stopping → Serves n done a → Serves n done (stop_post a)
  unfolding stop_post
  stop_post-Serves n done a h inv = record {
    world_is = inv.world_is;
    open_calls = λ f. absurd (omega (arith, inv.no_stop f));
    at_most = inv.at_most;
    will_wake = λ f e. omega (arith, inv.will_wake f e);
    no_stop = λ f. omega (arith, inv.no_stop f);
    runs_on = inv.runs_on;
  }

  Step-Serves :
      {m n : ℕ} {a b : Async W} (done : ℕ)
      → Step task m a n b
      → Serves m done a
      → (done' : ℕ) × Serves n done' b
  Step-Serves done (step_thread n a b h) inv = thread_step-Serves n done a.place a refl h inv
  Step-Serves done (step_run n a) inv = (done, run-Serves n done a inv)
  Step-Serves done (step_store n a) inv = (done, stop_store-Serves n done a inv)
  Step-Serves done (step_post n a h) inv = (done, stop_post-Serves n done a h inv)

  pub Reach-Serves : {n : ℕ} {a : Async W} → Reach task w n a → (done : ℕ) × Serves n done a
  unfolding create
  Reach-Serves start = (
    0,
    record {
      world_is = refl;
      open_calls = λ f. omega arith;
      at_most = omega arith;
      will_wake = λ f e. cc;
      no_stop = λ f. refl;
      runs_on = λ f. refl;
    },
  )
  Reach-Serves (later r s) = Step-Serves (Reach-Serves r).0 s (Reach-Serves r).1

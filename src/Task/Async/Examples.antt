-- ===== src/Task/Async/Examples.antt =====
-- An asynchronous task that counts its runs.
use eeros_framework.Base.{ℕ, ◌+◌, ◌≤◌, ◌≡◌, refl, arith, true, false}
use eeros_framework.Task.Async.{
  Async, waiting, testing, working, ended, create, run, stop_store, stop_post, thread_step,
  thread_steps, Reach, start, later, step_thread, step_run, step_store, step_post, wait,
}
use eeros_framework.Task.Async.Served.{runs, thread_steps-serves}
use eeros_framework.Task.Async.Stopped.{thread_steps-ends}

abbrev count : ℕ → ℕ
count n = n + 1

-- `run` was called twice and the thread has taken the first call.
abbrev busy : Async ℕ
busy = record { semaphore = 1; finished = false; place = testing; stopping = 0; world = 0 }

abbrev called_twice : Async ℕ
called_twice = record { semaphore = 2; finished = false; place = waiting; stopping = 0; world = 0 }

called_twice-reached : Reach count 0 2 called_twice
unfolding create run
called_twice-reached = later (later start (step_run 0 (create 0))) (step_run 1 (run (create 0)))

busy-reached : Reach count 0 2 busy
unfolding thread_step wait
busy-reached = later called_twice-reached (step_thread 2 called_twice busy refl)

thread_steps-serves_example :
    let b = thread_steps count 5 busy in
    (b.place ≡ waiting) × (b.semaphore ≡ 0) × (b.world ≡ runs count 2 0)
thread_steps-serves_example = thread_steps-serves count 0 busy-reached refl

-- The thread is in the body when `stop` is called.
abbrev in_run : Async ℕ
in_run = record busy { place = working }

abbrev stopped : Async ℕ
stopped = record { semaphore = 2; finished = true; place = working; stopping = 0; world = 0 }

stopped-reached : Reach count 0 2 stopped
unfolding stop_store stop_post thread_step
stopped-reached =
    later (later (later busy-reached (step_thread 2 busy in_run refl)) (step_store 2 in_run))
      (step_post 2 (stop_store in_run) (omega arith))

thread_steps-ends_example :
    let b = thread_steps count 3 stopped in
    (b.place ≡ ended)
    × (b.world ≡ runs count 1 0)
    × ((done : ℕ) × (done ≤ 2) × (b.world ≡ runs count done 0))
thread_steps-ends_example = thread_steps-ends count 0 stopped-reached refl refl

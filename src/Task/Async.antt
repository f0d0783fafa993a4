-- ===== src/Task/Async.antt =====
-- The asynchronous task and the semaphore: src/task/Async.cpp, src/core/Semaphore.cpp, with
-- includes/eeros/task/Async.hpp, and src/task/TaskList.cpp.
-- `task` is what `run` of the wrapped task does to the world. A step is what one thread does with
-- no other in between: the mutex of the semaphore makes its calls such steps. The measurements of
-- the counter and the settings of the operating system are left out, and so is the overflow of the
-- `int` of the semaphore.
mod Invariant
pub mod Served
pub mod Stopped
mod Examples
use eeros_framework.Base.{
  ℕ, zero, suc, ◌+◌, ◌-◌, ◌<◌, ◌≡◌, Bool, true, false, Option, none, some, ◌==◌, if◌then◌else◌,
}

-- `post` and the two `wait`s of a semaphore; `none` while `wait` blocks. `woken` says that the
-- wait did not run into its timeout.
abbrev pub post : ℕ → ℕ
post counter = counter + 1

pub wait : ℕ → Option ℕ
wait counter = if counter == 0 then none else some (counter - 1)

-- Where `run_thread` stands: in `semaphore.wait()`, at the test of its loop, in the body, or at
-- its end.
pub data Place : Type 0 where
  waiting testing working ended : Place

-- `stopping` counts the calls of `stop` that stand between their two statements.
pub record Async (W : Type 0) : Type 0 where
  pub semaphore : ℕ
  pub finished : Bool
  pub place : Place
  pub stopping : ℕ
  pub world : W

module _ {W : Type 0} where
  pub create : W → Async W
  create w = record { semaphore = 0; finished = false; place = waiting; stopping = 0; world = w }

  -- `run`
  pub run : Async W → Async W
  run a = record a { semaphore = post a.semaphore }

  -- The two statements of `stop`.
  pub stop_store : Async W → Async W
  stop_store a = record a { finished = true; stopping = a.stopping + 1 }

  pub stop_post : Async W → Async W
  stop_post a = record a { semaphore = post a.semaphore; stopping = a.stopping - 1 }

  module _ (task : W → W) where
    -- The next step of `run_thread`; `none` when it has to wait or has ended.
    pub thread_step : Place → Async W → Option (Async W)
    thread_step waiting a = elim (wait a.semaphore) [
      | none ↦ none
      | some counter ↦ some (record a { semaphore = counter; place = testing })
    ]
    thread_step testing a = some (record a { place = if a.finished then ended else working })
    thread_step working a = some (record a { world = task a.world; place = waiting })
    thread_step ended a = none

    -- At most `n` steps of `run_thread` alone.
    pub thread_steps : ℕ → Async W → Async W
    unfolding thread_step
    thread_steps zero a = a
    thread_steps (suc n) a = elim (thread_step a.place a) [ none ↦ a | some b ↦ thread_steps n b ]

    -- A step of the thread or of any caller.
    pub data Step : ℕ → Async W → ℕ → Async W → Type 0 where
      step_thread : (n : ℕ) (a b : Async W) → thread_step a.place a ≡ some b → Step n a n b
      step_run : (n : ℕ) (a : Async W) → Step n a (suc n) (run a)
      step_store : (n : ℕ) (a : Async W) → Step n a n (stop_store a)
      step_post : (n : ℕ) (a : Async W) → 0 < a.stopping → Step n a n (stop_post a)

    -- What is reached from the construction; the number is that of the calls of `run`.
    pub data Reach (w : W) : ℕ → Async W → Type 0 where
      start : Reach w 0 (create w)
      later : {m n : ℕ} {a b : Async W} → Reach w m a → Step m a n b → Reach w n b

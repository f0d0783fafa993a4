-- ===== src/Task/Executor.antt =====
-- How the executor turns its periodic tasks into threads: `createThreads` and `createThread` of
-- src/core/Executor.cpp. Periods are numbers of one fixed unit of time. A nice value at or below 0,
-- such as the default -1, is 0.
pub mod Threads
pub mod Total
use eeros_framework.Base.{
  ℕ, ◌+◌, ◌-◌, ◌*◌, ◌/◌, Bool, not, ◌&&◌, List, [], ◌∷◌, ◌++◌, ltb, leb, ◌==◌, Store, is_empty,
  length, Option, none, some, Result, ok, throw, ◌>>=◌, ◌>>◌, ensure, undefined, period_deviation,
  priority_not_set, no_task, second_main_task,
}
use eeros_framework.Task.Harmonic.{Harmonic, add}
use eeros_framework.Task.Priorities.{Info, Periodic, periodic, Periodics, nil, cons}

-- A `Runnable` of the application, or the `Async` of the thread at an index.
pub data Runnable : Type 0 where
  task async : ℕ → Runnable

-- `TaskThread`: the period that its counter is set to, the task that it is for, and what it runs.
pub record Thread : Type 0 where
  pub period : ℕ
  pub info : Info
  pub tasks : List (Harmonic Runnable)

abbrev pub Created : Type 0
Created = List Thread × List (Harmonic Runnable)

-- `deviation > 0.01`
pub deviates : ℕ → ℕ → Bool
deviates period actual = ltb period (100 * (period - actual))

-- The lists are those of the reference parameters `threads` and `output`.
mutual
  pub create_threads :
      Store ℕ → Periodics → ℕ → List Thread → List (Harmonic Runnable) → Result Created
  create_threads nice nil base threads output = ok (threads, output)
  create_threads nice (cons t ts) base threads output = do
    (threads', output') ← create_thread nice t base threads output
    create_threads nice ts base threads' output'

  pub create_thread :
      Store ℕ → Periodic → ℕ → List Thread → List (Harmonic Runnable) → Result Created
  create_thread nice (periodic i before after) base threads output = do
    ensure (not (base == 0)) undefined
    let k = i.period / base
    let actual = k * base
    (threads1, list1) ← create_threads nice before i.period threads []
    (threads2, list2) ← create_threads nice after i.period threads1 (add list1 (task i.task) 1)
    ensure (not (deviates i.period actual)) period_deviation
    ensure (not (i.realtime && leb (nice i.address) 0)) priority_not_set
    ensure (not (is_empty list2)) no_task
    ok (
      threads2 ++ (record { period = actual; info = i; tasks = list2 } ∷ []),
      add output (async (length threads2)) k,
    )

-- The executor's main task and its period; `set_main_task` accepts one main task only.
pub record Executor : Type 0 where
  pub period : ℕ
  pub main_task : Option Info

pub set_main_task : Executor → Info → Result Executor
set_main_task e i = elim e.main_task [
  | none ↦ ok (record { period = i.period; main_task = some i })
  | some other ↦ throw second_main_task
]

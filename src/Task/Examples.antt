-- ===== src/Task/Examples.antt =====
-- Runs of a harmonic task, of the assignment of priorities and of the creation of threads.
use mathlib.Core.List.{Mem, Nodup, Nodup-cons, Nodup-nil, mem-cons, not-mem-nil}
use mathlib.Core.Logic.Or
use eeros_framework.Base.{ℕ, ◌+◌, ◌/◌, ◌%◌, ◌≡◌, refl, true, map, arith, Store}
use eeros_framework.Task.Harmonic.{create, run_times, iterate, run_times-create}
use eeros_framework.Task.Priorities.{Info, periodic, Periodics, nil, cons, traverse}

-- The world counts the runs.
run_times-create_example :
    run_times (λ (r : ℕ) (w : ℕ). w + 1) 11 (create 7 4) 0
    ≡ (record (create 7 4) { k = 11 % 4 }, iterate (λ (r : ℕ) (w : ℕ). w + 1) (11 / 4) 7 0)
run_times-create_example = run_times-create (λ (r : ℕ) (w : ℕ). w + 1) 11 4 7 0 (omega arith)

-- A task of period 2 and, behind it, one of period 4 and a slow one of period 9 without realtime.
abbrev fast : Info
fast = record { address = 1; task = 1; period = 2; realtime = true }

abbrev slow : Info
slow = record { address = 2; task = 2; period = 4; realtime = true }

abbrev tree : Periodics
tree = cons (periodic fast nil (cons (periodic slow nil nil) nil)) nil

nice : Store ℕ
nice q = 5

mem_fast : Mem fast (traverse tree)
unfolding traverse
mem_fast = mem-cons.1 (Or.inl refl)

mem_slow : Mem slow (traverse tree)
unfolding traverse
mem_slow = mem-cons.1 (Or.inr (mem-cons.1 (Or.inl refl)))

distinct : Nodup (map (λ (t : Info). t.address) (traverse tree))
unfolding traverse
distinct = Nodup-cons.1 (
  λ m. Or.elim (λ x y. absurd x) (mem-cons.0 m) (λ e. absurd (omega (arith, e))) not-mem-nil,
  Nodup-cons.1 (not-mem-nil, Nodup-nil),
)

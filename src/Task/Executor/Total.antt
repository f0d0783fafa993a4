-- ===== src/Task/Executor/Total.antt =====
-- When the executor's creation of threads succeeds, and that it then covers every task.
use eeros_framework.Base.{
  ℕ, ◌-◌, ◌*◌, ◌/◌, ◌≤◌, ◌<◌, ◌≡◌, ◌≢◌, refl, true, false, not, ◌&&◌, List, [], ◌∷◌, ◌++◌, arith,
  leb, ◌==◌, Store, is_empty, length, Result, ok,
}
use eeros_framework.Task.Harmonic.{Harmonic, add}
use eeros_framework.Task.Priorities.{Info, Periodic, periodic, Periodics, nil, cons}
use eeros_framework.Task.Executor.{
  Thread, Runnable, task, async, Created, deviates, create_threads, create_thread,
}

-- Every task's period is a multiple of the period of the task that it depends on, up to one
-- percent, that period is not 0, and every realtime task has a priority.
unfoldable mutual
  pub AreAdmissible : Store ℕ → Periodics → ℕ → Type 0
  AreAdmissible nice nil base = Unit
  AreAdmissible nice (cons t ts) base = IsAdmissible nice t base × AreAdmissible nice ts base

  pub IsAdmissible : Store ℕ → Periodic → ℕ → Type 0
  IsAdmissible nice (periodic i before after) base =
      (base ≢ 0)
      × (100 * (i.period - i.period / base * base) ≤ i.period)
      × (i.realtime ≡ true → 0 < nice i.address)
      × AreAdmissible nice before i.period
      × AreAdmissible nice after i.period

-- The call returns, and does not empty the output list.
abbrev Returns : List (Harmonic Runnable) → Result Created → Type 0
Returns output r = (c : Created) × (r ≡ ok c) × (is_empty output ≡ false → is_empty c.1 ≡ false)

is_empty-add :
    (hs : List (Harmonic Runnable)) (r : Runnable) (n : ℕ) → is_empty (add hs r n) ≡ false
unfolding add
is_empty-add [] r n = refl
is_empty-add (h ∷ hs) r n = refl

admitted :
    (nice : Store ℕ) (i : Info) (base : ℕ)
    → base ≢ 0
    → 100 * (i.period - i.period / base * base) ≤ i.period
    → (i.realtime ≡ true → 0 < nice i.address)
    → (not (base == 0) ≡ true)
      × (not (deviates i.period (i.period / base * base)) ≡ true)
      × (not (i.realtime && leb (nice i.address) 0) ≡ true)
unfolding deviates
admitted nice i base b d p = (ground arith, ground arith, ground arith)

mutual
  unfolding create_threads create_thread AreAdmissible

  create_threads-Returns :
      (nice : Store ℕ) (ts : Periodics) (base : ℕ) (threads : List Thread)
      (output : List (Harmonic Runnable))
      → AreAdmissible nice ts base
      → Returns output (create_threads nice ts base threads output)
  create_threads-Returns nice nil base threads output h = ((threads, output), refl, λ e. e)
  create_threads-Returns nice (cons t ts) base threads output h =
      let ((threads1, output1), e1, f1) = create_thread-Returns nice t base threads output h.0 in
      let (c, e2, f2) = create_threads-Returns nice ts base threads1 output1 h.1 in
      (c, rw e1 e2, λ e. f2 (f1 e))

  create_thread-Returns :
      (nice : Store ℕ) (t : Periodic) (base : ℕ) (threads : List Thread)
      (output : List (Harmonic Runnable))
      → IsAdmissible nice t base
      → Returns output (create_thread nice t base threads output)
  create_thread-Returns nice (periodic i before after) base threads output h =
      let (b, d, p) = admitted nice i base h.0 h.1 h.2 in
      let ((threads1, list1), e1, f1) =
        create_threads-Returns nice before i.period threads [] h.3 in
      let ((threads2, list2), e2, f2) =
        create_threads-Returns nice after i.period threads1 (add list1 (task i.task) 1) h.4 in
      let r : is_empty list2 ≡ false = f2 (is_empty-add list1 (task i.task) 1) in
      let created : Thread = record { period = i.period / base * base; info = i; tasks = list2 } in
      (
        (threads2 ++ (created ∷ []), add output (async (length threads2)) (i.period / base)),
        rw (b, e1, e2, d, p, r) refl,
        λ e. is_empty-add output _ _,
      )

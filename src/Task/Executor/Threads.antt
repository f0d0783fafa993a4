-- ===== src/Task/Executor/Threads.antt =====
-- What threads the executor creates.
use mathlib.Core.List.{append-nil, append_assoc}
use native.Mathlib.Nat.{div-mul-le_self}
use eeros_framework.Base.{
  ℕ, ◌+◌, ◌-◌, ◌*◌, ◌/◌, ◌≤◌, ◌<◌, ◌≡◌, refl, sym, ap, ◌∙◌, Bool, true, false, not, ◌&&◌, List, [],
  ◌∷◌, ◌++◌, arith, leb, ◌==◌, Store, is_empty, length, length-append, All, Result, ok, ◌>>◌,
  ensure, >>=-eq-ok, undefined, Fault, period_deviation, priority_not_set, no_task,
}
use eeros_framework.Task.Harmonic.{Harmonic, add}
use eeros_framework.Task.Priorities.{
  Info, Periodic, periodic, Periodics, nil, cons, traverse, traverse_task,
}
use eeros_framework.Task.Executor.{Thread, Runnable, task, deviates, create_threads, create_thread}

-- The thread's period is that of its task up to one percent, and not longer; a thread for a
-- realtime task has a priority; the thread runs something.
pub record IsSound (nice : Store ℕ) (t : Thread) : Type 0 where
  pub not_longer : t.period ≤ t.info.period
  pub within : 100 * (t.info.period - t.period) ≤ t.info.period
  pub priority : t.info.realtime ≡ true → 0 < nice t.info.address
  pub runs : is_empty t.tasks ≡ false

-- `threads'` is `threads` and behind it `count` sound threads.
pub record Added (nice : Store ℕ) (count : ℕ) (threads threads' : List Thread) : Type 0 where
  pub new : List Thread
  pub behind : threads' ≡ threads ++ new
  pub many : length new ≡ count
  pub sound : All (IsSound nice) new

All-append : {A : Type 0} (P : A → Type 0) (xs ys : List A) → All P xs → All P ys → All P (xs ++ ys)
All-append P [] ys hx hy = hy
All-append P (x ∷ xs) ys hx hy = (hx.0, All-append P xs ys hx.1 hy)

Added-none : (nice : Store ℕ) (threads : List Thread) → Added nice 0 threads threads
Added-none nice threads = record {
  new = [];
  behind = sym (append-nil threads);
  many = refl;
  sound = tt;
}

Added-trans :
    {nice : Store ℕ} {m n : ℕ} {a b c : List Thread}
    → Added nice m a b
    → Added nice n b c
    → Added nice (m + n) a c
Added-trans {a = a} x y = record {
  new = x.new ++ y.new;
  behind = y.behind ∙ ap (λ l. l ++ y.new) x.behind ∙ append_assoc a x.new y.new;
  many = omega (arith, length-append x.new y.new, x.many, y.many);
  sound = All-append _ x.new y.new x.sound y.sound;
}

Added-one :
    (nice : Store ℕ) (threads : List Thread) (t : Thread)
    → IsSound nice t
    → Added nice 1 threads (threads ++ (t ∷ []))
Added-one nice threads t h = record { new = t ∷ []; behind = refl; many = refl; sound = (h, tt) }

ensure-ok :
    {B : Type 0} (b : Bool) (e : Fault) (k : Result B) {r : B}
    → (ensure b e >> k) ≡ ok r
    → (b ≡ true) × (k ≡ ok r)
ensure-ok true e k h = (refl, h)
ensure-ok false e k h = cc

IsSound-thread :
    (nice : Store ℕ) (i : Info) (base : ℕ) (tasks : List (Harmonic Runnable))
    → not (deviates i.period (i.period / base * base)) ≡ true
    → not (i.realtime && leb (nice i.address) 0) ≡ true
    → not (is_empty tasks) ≡ true
    → IsSound nice (record { period = i.period / base * base; info = i; tasks = tasks })
unfolding deviates
IsSound-thread nice i base tasks d p r = record {
  not_longer = div-mul-le_self i.period base;
  within = ground arith;
  priority = λ h. ground arith;
  runs = ground arith;
}

resize :
    {nice : Store ℕ} {m n : ℕ} {a b b' : List Thread}
    → Added nice n a b
    → m ≡ n
    → b' ≡ b
    → Added nice m a b'
resize x e f = record { new = x.new; behind = f ∙ x.behind; many = x.many ∙ sym e; sound = x.sound }

mutual
  unfolding create_threads create_thread traverse

  pub create_threads-Added :
      (nice : Store ℕ) (ts : Periodics) (base : ℕ) (threads : List Thread)
      (output : List (Harmonic Runnable)) {r : List Thread × List (Harmonic Runnable)}
      → create_threads nice ts base threads output ≡ ok r
      → Added nice (length (traverse ts)) threads r.0
  create_threads-Added nice nil base threads output h =
      resize {n = 0} (Added-none nice threads) refl (cc)
  create_threads-Added nice (cons t ts) base threads output h =
      let ((threads1, output1), e1, h1) =
        >>=-eq-ok (create_thread nice t base threads output) _ h in
      resize
        (Added-trans (create_thread-Added nice t base threads output e1)
          (create_threads-Added nice ts base threads1 output1 h1))
        (length-append (traverse_task t) (traverse ts)) refl

  pub create_thread-Added :
      (nice : Store ℕ) (t : Periodic) (base : ℕ) (threads : List Thread)
      (output : List (Harmonic Runnable)) {r : List Thread × List (Harmonic Runnable)}
      → create_thread nice t base threads output ≡ ok r
      → Added nice (length (traverse_task t)) threads r.0
  create_thread-Added nice (periodic i before after) base threads output h =
      let (_, h0) = ensure-ok (not (base == 0)) undefined _ h in
      let ((threads1, list1), e1, h1) =
        >>=-eq-ok (create_threads nice before i.period threads []) _ h0 in
      let ((threads2, list2), e2, h2) =
        >>=-eq-ok (create_threads nice after i.period threads1 (add list1 (task i.task) 1)) _ h1 in
      let (d, h3) =
        ensure-ok (not (deviates i.period (i.period / base * base))) period_deviation _ h2 in
      let (p, h4) = ensure-ok (not (i.realtime && leb (nice i.address) 0)) priority_not_set _ h3 in
      let (r, h5) = ensure-ok (not (is_empty list2)) no_task _ h4 in
      resize
        (Added-trans
          (Added-trans (create_threads-Added nice before i.period threads [] e1)
            (create_threads-Added nice after i.period threads1 _ e2))
          (Added-one nice threads2 _ (IsSound-thread nice i base list2 d p r)))
        (omega (arith, length-append (traverse before) (traverse after))) (cc)

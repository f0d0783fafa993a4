-- ===== src/Task/Priorities.antt =====
-- How the executor assigns priorities: `traverse` and `Executor::assignPriorities` of
-- src/core/Executor.cpp, over the trees of includes/eeros/task/Periodic.hpp. `std::sort` is a
-- parameter. Periods are numbers of one fixed unit of time, as `getPeriod` gives them.
pub mod Sorting
use native.Mathlib.Bridge.{le_prop}
use mathlib.Core.List.{Mem, Perm, Nodup, Nodup-cons, mem-cons, mem-map_of_mem, not-mem-nil}
use mathlib.Core.List.Perm
use mathlib.Core.Logic.Or
use eeros_framework.Base.{
  ℕ, zero, suc, ◌+◌, ◌≤◌, ◌<◌, ◌≡◌, refl, sym, ap, subst, ◌∙◌, ◌≢◌, Bool, true, false, List, [],
  ◌∷◌, ◌++◌, map, arith, ltb, ◌==◌, if◌then◌else◌, All, Store, update, update_self, update_ne,
  Bool-cases, inl, inr,
}

-- The object at `address`; `task` is the address of its `Runnable`.
pub record Info : Type 0 where
  pub address : ℕ
  pub task : ℕ
  pub period : ℕ
  pub realtime : Bool

mutual
  pub data Periodic : Type 0 where
    periodic : Info → Periodics → Periodics → Periodic

  pub data Periodics : Type 0 where
    nil : Periodics
    cons : Periodic → Periodics → Periodics

-- A task, then what runs before it, then what runs after it.
unfoldable mutual
  pub traverse : Periodics → List Info
  traverse nil = []
  traverse (cons t ts) = traverse_task t ++ traverse ts

  pub traverse_task : Periodic → List Info
  traverse_task (periodic i before after) = i ∷ (traverse before ++ traverse after)

abbrev pub same_bool : Bool → Bool → Bool
same_bool true b = b
same_bool false true = false
same_bool false false = true

-- The comparison that is given to `std::sort`.
pub goes_before : Info → Info → Bool
goes_before a b = if same_bool a.realtime b.realtime then ltb a.period b.period else a.realtime

-- The loop that assigns: only realtime tasks get a new value, counted from `nice`.
pub assign : List Info → ℕ → Store ℕ → Store ℕ
assign [] nice heap = heap
assign (t ∷ ts) nice heap =
    assign ts (if t.realtime then nice + 1 else nice)
      (if t.realtime then update heap t.address nice else heap)

-- No entry goes before an earlier one.
abbrev pub IsOrdered : List Info → Type 0
IsOrdered [] = Unit
IsOrdered (t ∷ ts) = ((u : Info) → Mem u ts → goes_before u t ≡ false) × IsOrdered ts

-- What `std::sort` promises: an ordered permutation.
pub record StdSort : Type 0 where
  pub sort : List Info → List Info
  pub sort-IsOrdered : (ts : List Info) → IsOrdered (sort ts)
  pub sort-perm : (ts : List Info) → Perm ts (sort ts)

-- The nice values by address, `nice` before the call.
pub assign_priorities : StdSort → Periodics → Store ℕ → Store ℕ
assign_priorities std tasks nice = assign (std.sort (traverse tasks)) 1 nice

abbrev addresses : List Info → List ℕ
addresses = map (λ (t : Info). t.address)

assign_elsewhere :
    (ts : List Info) (n q : ℕ) (heap : Store ℕ)
    → ¬ Mem q (addresses ts)
    → assign ts n heap q ≡ heap q
unfolding assign
assign_elsewhere [] n q heap h = refl
assign_elsewhere (t ∷ ts) n q heap h =
    assign_elsewhere ts _ q _ (λ m. h (mem-cons.1 (Or.inr m))) ∙ kept t.realtime
  where
    kept : (b : Bool) → (if b then update heap t.address n else heap) q ≡ heap q
    kept true = update_ne heap t.address q n (λ e. h (mem-cons.1 (Or.inl (sym e))))
    kept false = refl

-- The task at the front, when it is a realtime task, gets the next value.
assign_front :
    (t : Info) (ts : List Info) (n : ℕ) (heap : Store ℕ)
    → t.realtime ≡ true
    → ¬ Mem t.address (addresses ts)
    → assign (t ∷ ts) n heap t.address ≡ n
unfolding assign
assign_front t ts n heap r new =
    assign_elsewhere ts _ t.address _ new ∙ rw r (update_self heap t.address n)

next_ge : (b : Bool) (n : ℕ) → n ≤ (if b then n + 1 else n)
next_ge true n = omega arith
next_ge false n = omega arith

next_true : (b : Bool) (n : ℕ) → b ≡ true → (if b then n + 1 else n) ≡ n + 1
next_true b n h = rw h

realtime_of : {a t : Info} → a ≡ t → a.realtime ≡ true → t.realtime ≡ true
realtime_of e r = ap (λ (y : Info). y.realtime) (sym e) ∙ r

shorter_first :
    (a t : Info)
    → a.realtime ≡ true
    → t.realtime ≡ true
    → goes_before a t ≡ false
    → t.period ≤ a.period
unfolding goes_before
shorter_first a t ra rt h = ground arith

assign-ge :
    (ts : List Info) (n : ℕ) (heap : Store ℕ) (x : Info)
    → Nodup (addresses ts)
    → x.realtime ≡ true
    → Mem x ts
    → n ≤ assign ts n heap x.address
unfolding assign
assign-ge [] n heap x d r m = absurd (not-mem-nil m)
assign-ge (t ∷ ts) n heap x d r m =
    let (new, rest) = Nodup-cons.0 d in
    Or.elim le_prop (mem-cons.0 m)
      (λ e.
        subst (λ (y : Info). n ≤ assign (t ∷ ts) n heap y.address) (sym e)
          (omega (arith, assign_front t ts n heap (realtime_of e r) new)))
      (λ later. omega (arith, next_ge t.realtime n, assign-ge ts _ _ x rest r later))

-- Of two realtime tasks in an ordered list the one with the shorter period gets the lower value.
assign-lt :
    (ts : List Info) (n : ℕ) (heap : Store ℕ) (a b : Info)
    → IsOrdered ts
    → Nodup (addresses ts)
    → a.realtime ≡ true
    → b.realtime ≡ true
    → a.period < b.period
    → Mem a ts
    → Mem b ts
    → assign ts n heap a.address < assign ts n heap b.address
unfolding assign
assign-lt [] n heap a b o d ra rb lt ma mb = absurd (not-mem-nil ma)
assign-lt (t ∷ ts) n heap a b o d ra rb lt ma mb =
    let (new, rest) = Nodup-cons.0 d in
    Or.elim le_prop (mem-cons.0 ma)
      (λ ea.
        Or.elim le_prop (mem-cons.0 mb)
          (λ eb.
            absurd (omega (arith, ap (λ (y : Info). y.period) ea, ap (λ (y : Info). y.period) eb)))
          (λ lb.
            subst
              (λ (y : Info). assign (t ∷ ts) n heap y.address < assign (t ∷ ts) n heap b.address)
              (sym ea)
              (omega (
                arith,
                assign_front t ts n heap (realtime_of ea ra) new,
                next_true t.realtime n (realtime_of ea ra),
                assign-ge ts (if t.realtime then n + 1 else n) _ b rest rb lb,
              ))))
      (λ la.
        Or.elim le_prop (mem-cons.0 mb)
          (λ eb. absurd (
            omega (
              arith,
              shorter_first a t ra (realtime_of eb rb) (o.0 a la),
              ap (λ (y : Info). y.period) eb,
            )))
          (λ lb. assign-lt ts _ _ a b o.1 rest ra rb lt la lb))

-- Rate-monotonic priorities: of two realtime tasks anywhere in the trees of the executor, the one
-- with the shorter period gets the lower nice value, so the higher priority, if the task objects
-- have different addresses.
pub assign_priorities-lt :
    (std : StdSort) (tasks : Periodics) (nice : Store ℕ) (a b : Info)
    → Nodup (addresses (traverse tasks))
    → a.realtime ≡ true
    → b.realtime ≡ true
    → a.period < b.period
    → Mem a (traverse tasks)
    → Mem b (traverse tasks)
    → assign_priorities std tasks nice a.address < assign_priorities std tasks nice b.address
unfolding assign_priorities
assign_priorities-lt std tasks nice a b d ra rb lt ma mb =
    let p = std.sort-perm (traverse tasks) in
    assign-lt (std.sort (traverse tasks)) 1 nice a b (std.sort-IsOrdered (traverse tasks))
      (Perm.nodup (Perm.map _ p) d) ra rb lt (Perm.subset p a ma) (Perm.subset p b mb)

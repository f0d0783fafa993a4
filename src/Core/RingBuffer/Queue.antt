-- ===== src/Core/RingBuffer/Queue.antt =====
-- What a ring buffer is to its callers: the valid buffers up to what they hold, with `push` and
-- `pop`, and the bounded queues of which the buffer is an implementation.
use std.Equiv.{◌≃◌, Iso, iso_to_equiv}
use std.Univalence.{ua}
use mathlib.Core.HLevel.{Σ_prop_path, Σ_set, prop→set, ×_prop}
use mathlib.Core.Bool.{Bool-set}
use mathlib.Core.Path.{PathP}
use mathlib.Core.Quot
use mathlib.Core.Quot.{Quot, Quot-set}
use native.Mathlib.Bridge.{le_prop}
use native.Mathlib.Nat.{mod-eq_of_lt}
use eeros_framework.Base.{
  ℕ, suc, ◌+◌, ◌^◌, ◌≤◌, ◌<◌, ◌≡◌, refl, sym, ap, ap₂, ◌∙◌, Bool, true, false, Option, none, some,
  List, [], ◌∷◌, ◌++◌, arith, ◌==◌, if◌then◌else◌, is_some, length, get_or, Store, length-append,
}
use eeros_framework.Core.RingBuffer.{RingBuffer, push, pop}
use eeros_framework.Core.RingBuffer.Contents.{
  IsValid, contents, yielded, queued, length-queued, push_lem, pop_lem,
}

-- A type of states with the two calls.
pub record QueueCalls (T A : Type 0) : Type 0 where
  pub push : T → A → A × Bool
  pub pop : A → A × Option T

-- A call over an equivalence that it respects.
call_over :
    {A B C : Type 0} (e : A ≃ B) {f : A → A × C} {g : B → B × C}
    → ((a : A) → e.0 (f a).0 ≡ (g (e.0 a)).0)
    → ((a : A) → (f a).1 ≡ (g (e.0 a)).1)
    → PathP (λ i. ua e i → ua e i × C) f g
call_over e {f = f} {g = g} h k = λ i a. (
  vin i (f a).0 (hcom 1 0 (g (vproj i a e)).0 [ i = 0 ↦ j. h a j | i = 1 ↦ _. (g a).0 ]),
  hcom 1 0 (g (vproj i a e)).1 [ i = 0 ↦ j. k a j | i = 1 ↦ _. (g a).1 ],
)

-- The bounded queues: `push` appends if there is room, `pop` takes the first item.
abbrev pub BoundedQueue : Type 0 → ℕ → Type 0
BoundedQueue T capacity = (xs : List T) × (length xs ≤ capacity)

abbrev Buffer : Type 0 → ℕ → Type 0
Buffer T capacity = (b : RingBuffer T) × IsValid capacity b

abbrev SameContents : (T : Type 0) (capacity : ℕ) → Buffer T capacity → Buffer T capacity → Type 0
SameContents T capacity a b = contents capacity a.0 ≡ contents capacity b.0

-- The valid buffers up to what they hold.
abbrev pub Observed : Type 0 → ℕ → Type 0
Observed T capacity = Quot (SameContents T capacity)

module _ {T : Type 0} (capacity : ℕ) where
  abbrev append_item : List T → T → List T × Bool
  append_item xs v = if length xs == capacity then (xs, false) else (xs ++ (v ∷ []), true)

  abbrev take_item : List T → List T × Option T
  take_item [] = ([], none)
  take_item (x ∷ xs) = (xs, some x)

  append_item-le :
      (xs : List T) (v : T) → length xs ≤ capacity → length (append_item xs v).0 ≤ capacity
  append_item-le xs v h = ground (arith, length-append xs (v ∷ []))

  take_item-le : (xs : List T) → length xs ≤ capacity → length (take_item xs).0 ≤ capacity
  take_item-le [] h = h
  take_item-le (x ∷ xs) h = omega arith

  -- The calls of a bounded queue.
  pub list_calls : QueueCalls T (BoundedQueue T capacity)
  list_calls = record {
    push = λ v q. (((append_item q.0 v).0, append_item-le q.0 v q.1), (append_item q.0 v).1);
    pop = λ q. (((take_item q.0).0, take_item-le q.0 q.1), (take_item q.0).1);
  }

  push_buffer : T → Buffer T capacity → Buffer T capacity × Bool
  push_buffer v b =
      (((push capacity b.0 v).0, (push_lem capacity b.0 b.1 v).3), (push capacity b.0 v).1)

  pop_buffer : Buffer T capacity → Buffer T capacity × Option T
  pop_buffer b = (((pop capacity b.0).0, (pop_lem capacity b.0 b.1).3), (pop capacity b.0).1)

  push-eq-append_item :
      (b : RingBuffer T) (valid : IsValid capacity b) (v : T)
      → append_item (contents capacity b) v
        ≡ (contents capacity (push capacity b v).0, (push capacity b v).1)
  push-eq-append_item b valid v =
      let accepted = (push_lem capacity b valid v).0 in
      let held = (push_lem capacity b valid v).1 in
      let len = length-queued b.items capacity b.tail b.len in ground (arith, accepted, held, len)

  take_item_lem :
      (xs ys : List T) (o : Option T)
      → xs ≡ yielded o ++ ys
      → (is_some o ≡ false → xs ≡ [])
      → take_item xs ≡ (ys, o)
  take_item_lem xs ys none h e = rw (e refl) (ap (λ zs. (zs, none)) (sym (e refl) ∙ h))
  take_item_lem xs ys (some v) h e = rw h

  contents-empty : (b : RingBuffer T) → b.len ≡ 0 → contents capacity b ≡ []
  unfolding queued
  contents-empty b h = ap (queued b.items capacity b.tail) h

  pop-eq-take_item :
      (b : RingBuffer T) (valid : IsValid capacity b)
      → take_item (contents capacity b) ≡ (contents capacity (pop capacity b).0, (pop capacity b).1)
  pop-eq-take_item b valid =
      let (found, held, _, _) = pop_lem capacity b valid in
      take_item_lem _ _ (pop capacity b).1 held (λ e. contents-empty b (ground (arith, found, e)))

  -- Buffers that hold the same stay so, and the calls return the same.
  push-SameContents :
      (v : T) (a b : Buffer T capacity)
      → SameContents T capacity a b
      → (SameContents T capacity (push_buffer v a).0 (push_buffer v b).0)
        × ((push_buffer v a).1 ≡ (push_buffer v b).1)
  unfolding push_buffer
  push-SameContents v a b h =
      let e =
        sym (push-eq-append_item a.0 a.1 v)
        ∙ ap (λ xs. append_item xs v) h
        ∙ push-eq-append_item b.0 b.1 v in
      (ap (λ p. p.0) e, ap (λ p. p.1) e)

  pop-SameContents :
      (a b : Buffer T capacity)
      → SameContents T capacity a b
      → (SameContents T capacity (pop_buffer a).0 (pop_buffer b).0)
        × ((pop_buffer a).1 ≡ (pop_buffer b).1)
  unfolding pop_buffer
  pop-SameContents a b h =
      let e = sym (pop-eq-take_item a.0 a.1) ∙ ap take_item h ∙ pop-eq-take_item b.0 b.1 in
      (ap (λ p. p.0) e, ap (λ p. p.1) e)

-- The calls of the ring buffer on what can be observed of it.
module _ {T : Type 0} (T_set : IsSet T) (capacity : ℕ) where
  Option_set : IsSet (Option T)
  Option_set = hlevel

  List_set : IsSet (List T)
  List_set = hlevel

  BoundedQueue_set : IsSet (BoundedQueue T capacity)
  BoundedQueue_set = Σ_set List_set (λ xs. prop→set le_prop)

  pub ring_calls : QueueCalls T (Observed T capacity)
  unfolding push_buffer pop_buffer
  ring_calls = record {
    push = λ v.
        Quot.lift (Σ_set Quot-set (λ _. Bool-set))
          (λ b. (Quot.mk (push_buffer capacity v b).0, (push_buffer capacity v b).1))
          (λ a b h.
            ap₂ (λ x y. (x, y)) (Quot.sound (push-SameContents capacity v a b h).0)
              (push-SameContents capacity v a b h).1);
    pop =
        Quot.lift (Σ_set Quot-set (λ _. Option_set))
          (λ b. (Quot.mk (pop_buffer capacity b).0, (pop_buffer capacity b).1))
          (λ a b h.
            ap₂ (λ x y. (x, y)) (Quot.sound (pop-SameContents capacity a b h).0)
              (pop-SameContents capacity a b h).1);
  }

  module _ (blank : T) (has_room : 0 < capacity) (small : capacity < 2 ^ 31) where
    queued-get_or :
        (xs : List T) (items : Store T) (t : ℕ)
        → ((i : ℕ) → i < length xs → items (t + i) ≡ get_or xs i blank)
        → t + length xs ≤ capacity
        → queued items capacity t (length xs) ≡ xs
    unfolding queued
    queued-get_or [] items t h k = refl
    queued-get_or (x ∷ []) items t h k =
        ap (λ y. y ∷ []) (ap items (omega arith) ∙ h 0 (omega arith))
    queued-get_or (x ∷ y ∷ ys) items t h k = ap₂ ◌∷◌ (ap items (omega arith) ∙ h 0 (omega arith)) (
        ap (λ u. queued items capacity u (suc (length ys))) (mod-eq_of_lt (omega arith))
        ∙ queued-get_or (y ∷ ys) items (t + 1)
            (λ i l. ap items (omega arith) ∙ h (suc i) (omega arith)) (omega arith))

    -- A buffer for each list that fits.
    filled : BoundedQueue T capacity → Buffer T capacity
    filled q = (
      record { tail = 0; len = length q.0; items = λ i. get_or q.0 i blank },
      record { small = small; tail_in = has_room; len_in = q.1 },
    )

    contents-filled : (q : BoundedQueue T capacity) → contents capacity (filled q).0 ≡ q.0
    unfolding filled
    contents-filled q =
        queued-get_or q.0 _ 0 (λ i l. ap (λ j. get_or q.0 j blank) (omega arith))
          (omega (arith, q.1))

    contents-le : (b : Buffer T capacity) → length (contents capacity b.0) ≤ capacity
    contents-le b = rw (length-queued b.0.items capacity b.0.tail b.0.len) (b.1.len_in)

    observe : Observed T capacity → BoundedQueue T capacity
    observe =
        Quot.lift BoundedQueue_set (λ b. (contents capacity b.0, contents-le b))
          (λ a b h. Σ_prop_path (λ xs. le_prop) h)

    contents_iso : Iso (Observed T capacity) (BoundedQueue T capacity)
    unfolding observe
    contents_iso = record {
      fun = observe;
      inv = λ q. Quot.mk (filled q);
      rinv = λ q. Σ_prop_path (λ xs. le_prop) (contents-filled q);
      linv =
          Quot.ind (λ q. Quot-set _ _)
            (λ b. Quot.sound (contents-filled (contents capacity b.0, contents-le b)));
    }

    -- What is observed after a call, and what it returns.
    observe-push :
        (v : T) (q : Observed T capacity)
        → (observe ((ring_calls).push v q).0 ≡ ((list_calls capacity).push v (observe q)).0)
          × (((ring_calls).push v q).1 ≡ ((list_calls capacity).push v (observe q)).1)
    unfolding ring_calls list_calls observe push_buffer
    observe-push v =
        Quot.ind (λ q. ×_prop (BoundedQueue_set _ _) (Bool-set _ _))
          (λ b.
            let e = sym (push-eq-append_item capacity b.0 b.1 v) in
            (Σ_prop_path (λ xs. le_prop) (ap (λ p. p.0) e), ap (λ p. p.1) e))

    observe-pop :
        (q : Observed T capacity)
        → (observe ((ring_calls).pop q).0 ≡ ((list_calls capacity).pop (observe q)).0)
          × (((ring_calls).pop q).1 ≡ ((list_calls capacity).pop (observe q)).1)
    unfolding ring_calls list_calls observe pop_buffer
    observe-pop =
        Quot.ind (λ q. ×_prop (BoundedQueue_set _ _) (Option_set _ _))
          (λ b.
            let e = sym (pop-eq-take_item capacity b.0 b.1) in
            (Σ_prop_path (λ xs. le_prop) (ap (λ p. p.0) e), ap (λ p. p.1) e))

    -- The valid ring buffers of a capacity that is not 0 and fits an `int`, up to what they hold,
    -- are the lists of at most that length: the types are equal, and over this equation `push` is to
    -- append an item if there is room, and `pop` to take the first item if there is one, with what
    -- they return. The items are of a set with an element, their default value.
    pub ring_calls-list_calls :
        (p : Observed T capacity ≡ BoundedQueue T capacity) × PathP
          (λ i. QueueCalls T (p i))
          ring_calls
          (list_calls capacity)
    unfolding contents_iso
    ring_calls-list_calls =
        let e = iso_to_equiv contents_iso in
        (
          ua e,
          λ i. record {
            push = λ v.
                call_over e {f = ring_calls.push v} {g = (list_calls capacity).push v}
                  (λ q. (observe-push v q).0) (λ q. (observe-push v q).1) i;
            pop =
                call_over e {f = ring_calls.pop} {g = (list_calls capacity).pop}
                  (λ q. (observe-pop q).0) (λ q. (observe-pop q).1) i;
          },
        )

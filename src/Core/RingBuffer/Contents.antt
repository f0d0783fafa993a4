-- ===== src/Core/RingBuffer/Contents.antt =====
-- A ring buffer holds a bounded queue: what `push` and `pop` do to its contents, and its bounds.
use native.Mathlib.Nat.{mod-add-mod, mod-eq_of_lt, mod-lt}
use eeros_framework.Base.{
  ℕ, zero, suc, ◌+◌, ◌-◌, ◌%◌, ◌^◌, ◌≤◌, ◌<◌, ◌≡◌, refl, sym, ap, ap₂, not, inl, inr, ◌∙◌, ◌≢◌,
  Option, none, some, List, [], ◌∷◌, ◌++◌, arith, ◌==◌, if◌then◌else◌, Bool-cases, mod_once,
  is_some, length, Store, update, update_self, update_ne,
}
use eeros_framework.Core.RingBuffer.{RingBuffer, free_index, push, pop}

-- The `k` items from index `t` on, going round at `n`.
unfoldable pub queued : {T : Type 0} → Store T → ℕ → ℕ → ℕ → List T
queued items n t zero = []
queued items n t (suc k) = items t ∷ queued items n ((t + 1) % n) k

shift : (n t k : ℕ) → ((t + 1) % n + k) % n ≡ (t + suc k) % n
shift n t k = rw mod-add-mod (ap (λ a. a % n) (omega arith))

-- Two different places of a row that is no longer than the array lie at different indices.
places-ne : (n t i k : ℕ) → t < n → i < k → k < n → (t + k) % n ≢ (t + i) % n
places-ne n t i k ht hi hk e =
    ground (arith, mod_once (t + i) n (omega arith), mod_once (t + k) n (omega arith))

module _ {T : Type 0} where
  -- The last item of a row stands `k` places behind the first.
  queued-snoc :
      (items : Store T) (n t k : ℕ)
      → t < n
      → queued items n t (suc k) ≡ queued items n t k ++ (items ((t + k) % n) ∷ [])
  unfolding queued
  queued-snoc items n t zero h =
      ap (λ i. items i ∷ []) (sym (ap (λ a. a % n) (omega arith) ∙ mod-eq_of_lt h))
  queued-snoc items n t (suc k) h = ap (◌∷◌ (items t)) (
      queued-snoc items n ((t + 1) % n) k (omega arith)
      ∙ ap (λ i. queued items n ((t + 1) % n) k ++ (items i ∷ [])) (shift n t k))

  -- A write at an index that the row does not reach leaves the row as it is.
  queued-update :
      (items : Store T) (n t k j : ℕ) (v : T)
      → t < n
      → ((i : ℕ) → i < k → j ≢ (t + i) % n)
      → queued (update items j v) n t k ≡ queued items n t k
  unfolding queued
  queued-update items n t zero j v ht h = refl
  queued-update items n t (suc k) j v ht h =
      ap₂ ◌∷◌
        (update_ne items j t v
          (λ e. h 0 (omega arith) (e ∙ sym (ap (λ a. a % n) (omega arith) ∙ mod-eq_of_lt ht))))
        (queued-update items n ((t + 1) % n) k j v (omega arith)
          (λ i hi e. h (suc i) (omega arith) (e ∙ shift n t i)))

  pub length-queued : (items : Store T) (n t k : ℕ) → length (queued items n t k) ≡ k
  unfolding queued
  length-queued items n t zero = refl
  length-queued items n t (suc k) = ap suc (length-queued items n ((t + 1) % n) k)

  -- `queued` matches on the length, the code tests it.
  queued_of_ne_zero :
      (items : Store T) (n t k : ℕ)
      → k ≢ 0
      → queued items n t k ≡ items t ∷ queued items n ((t + 1) % n) (k - 1)
  unfolding queued
  queued_of_ne_zero items n t zero h = absurd (h refl)
  queued_of_ne_zero items n t (suc k) h =
      ap (λ j. items t ∷ queued items n ((t + 1) % n) j) (omega arith)

-- The invariant of a buffer of the given capacity, an `int`.
pub record IsValid {T : Type 0} (capacity : ℕ) (b : RingBuffer T) : Type 0 where
  pub small : capacity < 2 ^ 31
  pub tail_in : b.tail < capacity
  pub len_in : b.len ≤ capacity

-- What the buffer holds, oldest item first.
abbrev pub contents : {T : Type 0} → ℕ → RingBuffer T → List T
contents capacity b = queued b.items capacity b.tail b.len

-- What a call of `pop` yields, as a list.
abbrev pub yielded : {T : Type 0} → Option T → List T
yielded none = []
yielded (some v) = v ∷ []

module _ {T : Type 0} (capacity : ℕ) (b : RingBuffer T) (valid : IsValid capacity b) where
  free_index-eq : free_index capacity b ≡ (b.tail + b.len) % capacity
  free_index-eq = ap (λ a. a % capacity) (omega arith)

  free_index-lt : free_index capacity b < capacity
  free_index-lt = rw free_index-eq (mod-lt (b.tail + b.len) {m = capacity} (omega arith))

  queued-push :
      (v : T)
      → b.len < capacity
      → queued (update b.items (free_index capacity b) v) capacity b.tail ((b.len + 1) % 2 ^ 32)
        ≡ contents capacity b ++ (v ∷ [])
  queued-push v room =
      let longer : (b.len + 1) % 2 ^ 32 ≡ suc b.len = omega arith in
      rw (longer, free_index-eq)
        (queued-snoc _ capacity b.tail b.len valid.tail_in
          ∙ ap₂ (λ xs x. xs ++ (x ∷ []))
              (queued-update b.items capacity b.tail b.len _ v valid.tail_in
                (λ i h. places-ne capacity b.tail i b.len valid.tail_in h room))
              (update_self b.items _ v))

  -- A buffer that is not full takes the item at the end of its contents; a full one refuses it and
  -- stays as it is. The index that is written lies in the array, and the buffer stays valid.
  pub push_lem :
      (v : T)
      → let (b', accepted) = push capacity b v in
        (accepted ≡ not (b.len == capacity))
        × (contents capacity b'
            ≡ (if accepted then contents capacity b ++ (v ∷ []) else contents capacity b))
        × (free_index capacity b < capacity)
        × IsValid capacity b'
  unfolding push
  push_lem v = elim (Bool-cases (b.len == capacity)) [
    | inl full ↦ rw full (refl, refl, free_index-lt, valid)
    | inr room ↦ rw room (
      refl,
      queued-push v (ground (arith, valid.len_in)),
      free_index-lt,
      ground (arith, valid.len_in, valid.tail_in, valid.small),
    )
  ]

  -- A buffer that is not empty yields an item, and an empty one yields none. What is yielded and
  -- what the buffer then holds are, in this order, what it held before. The index that is read lies
  -- in the array, and the buffer stays valid.
  pub pop_lem :
      let (b', item) = pop capacity b in
      (is_some item ≡ not (b.len == 0))
      × (contents capacity b ≡ yielded item ++ contents capacity b')
      × (b.tail < capacity)
      × IsValid capacity b'
  unfolding pop
  pop_lem = elim (Bool-cases (b.len == 0)) [
    | inl empty ↦ rw empty (refl, refl, valid.tail_in, valid)
    | inr some_left ↦ rw some_left (
      refl,
      queued_of_ne_zero b.items capacity b.tail b.len (ground arith)
          ∙ ap (λ t. b.items b.tail ∷ queued b.items capacity t (b.len - 1))
              (ap (λ a. a % capacity) (omega arith)),
      valid.tail_in,
      ground (arith, valid.small, valid.len_in, valid.tail_in),
    )
  ]

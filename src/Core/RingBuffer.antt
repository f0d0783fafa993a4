-- ===== src/Core/RingBuffer.antt =====
-- The template `RingBuffer<T, N>`: includes/eeros/core/RingBuffer.hpp. `capacity` is the template
-- parameter `N`, an `int`. The mutex makes every call atomic. The array is a store: the theorems of
-- `Contents` show that every access lies below `N`.
pub mod Contents
pub mod Queue
use eeros_framework.Base.{
  ℕ, ◌+◌, ◌-◌, ◌%◌, ◌^◌, Bool, true, false, Option, none, some, ◌==◌, if◌then◌else◌, Store, update,
}

pub record RingBuffer (T : Type 0) : Type 0 where
  pub tail : ℕ
  pub len : ℕ
  pub items : Store T

-- Addition of `unsigned int`.
abbrev pub add_unsigned : ℕ → ℕ → ℕ
add_unsigned a b = (a + b) % 2 ^ 32

module _ {T : Type 0} (capacity : ℕ) where
  -- The index that `push` writes.
  abbrev pub free_index : RingBuffer T → ℕ
  free_index b = add_unsigned b.tail b.len % capacity

  pub push : RingBuffer T → T → RingBuffer T × Bool
  push b v =
      if b.len == capacity
      then (b, false)
      else (record b { items = update b.items (free_index b) v; len = add_unsigned b.len 1 }, true)

  -- The option is the reference parameter: `none` when `pop` returns false and leaves it alone.
  pub pop : RingBuffer T → RingBuffer T × Option T
  pop b = if b.len == 0 then (b, none) else (
    record b { tail = add_unsigned b.tail 1 % capacity; len = b.len - 1 },
    some (b.items b.tail),
  )

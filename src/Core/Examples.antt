-- ===== src/Core/Examples.antt =====
-- Runs of the two buffers.
use eeros_framework.Base.{ℕ, ◌<◌, ◌≡◌, refl, ◌≢◌, true, [], ◌∷◌, ◌++◌, arith, ◌==◌, if◌then◌else◌}
use eeros_framework.Core.RingBuffer
use eeros_framework.Core.RingBuffer.{RingBuffer, free_index}
use eeros_framework.Core.RingBuffer.Contents.{contents, yielded, push_lem, pop_lem, queued}
use eeros_framework.Core.RingBuffer.Contents
use eeros_framework.Core.RingBuffer.Queue.{
  QueueCalls, Observed, BoundedQueue, ring_calls, list_calls, ring_calls-list_calls,
}
use mathlib.Core.Path.{PathP}
use native.Mathlib.Nat.{ℕ_set}
use eeros_framework.Core.AsyncBuffer
use eeros_framework.Core.AsyncBuffer.{
  AsyncBuffer, create, write, write_to, read, write_lem, new_data_inverted,
}

-- Three places, the oldest item 8 at index 2, then 9 at index 0.
abbrev round : RingBuffer ℕ
round = record { tail = 2; len = 2; items = λ i. if i == 2 then 8 else 9 }

round-IsValid : Contents.IsValid 3 round
round-IsValid = omega arith

contents-round : contents 3 round ≡ 8 ∷ 9 ∷ []
unfolding queued
contents-round = refl

push_lem_example :
    let (b, accepted) = RingBuffer.push 3 round 7 in
    (accepted ≡ true)
    × (contents 3 b ≡ (if accepted then contents 3 round ++ (7 ∷ []) else contents 3 round))
    × (free_index 3 round < 3)
    × Contents.IsValid 3 b
push_lem_example = push_lem 3 round round-IsValid 7

abbrev fresh : AsyncBuffer ℕ
fresh = create 0

fresh-IsValid : AsyncBuffer.IsValid fresh
unfolding create
fresh-IsValid = omega arith

write_lem_example :
    (write_to fresh ≢ fresh.last_read_index)
    × (write_to fresh ≢ fresh.last_written_index)
    × AsyncBuffer.IsValid (write fresh 5)
    × ((read (write fresh 5)).2 ≡ 5)
write_lem_example = write_lem fresh fresh-IsValid 5

ring_calls-list_calls_example :
    (p : Observed ℕ 3 ≡ BoundedQueue ℕ 3) × PathP
      (λ i. QueueCalls ℕ (p i))
      (ring_calls ℕ_set 3)
      (list_calls 3)
ring_calls-list_calls_example = ring_calls-list_calls ℕ_set 3 0 (omega arith) (omega arith)

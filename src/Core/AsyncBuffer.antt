-- ===== src/Core/AsyncBuffer.antt =====
-- The three-slot buffer between one writer and one reader: includes/eeros/core/AsyncBuffer.hpp.
-- `write` and `read` are the calls run without interruption; `begin_read` is the first step of
-- `read`, after which the writer may come in between.
use eeros_framework.Base.{
  ℕ, zero, suc, ◌≤◌, ◌≡◌, ◌≢◌, Bool, true, false, arith, ◌==◌, Store, update, update_self,
}

pub record AsyncBuffer (T : Type 0) : Type 0 where
  pub buffer : Store T
  pub last_read_index : ℕ
  pub last_written_index : ℕ

-- The table `choose`; indices beyond the table do not occur.
pub choose : ℕ → ℕ → ℕ
choose zero zero = 1
choose zero (suc zero) = 2
choose zero (suc (suc n)) = 1
choose (suc zero) zero = 2
choose (suc zero) (suc zero) = 2
choose (suc zero) (suc (suc n)) = 0
choose (suc (suc m)) zero = 1
choose (suc (suc m)) (suc zero) = 0
choose (suc (suc m)) (suc (suc n)) = 1

module _ {T : Type 0} where
  unfoldable pub create : T → AsyncBuffer T
  create t = record { buffer = λ i. t; last_read_index = 0; last_written_index = 1 }

  pub write_to : AsyncBuffer T → ℕ
  unfolding choose
  write_to b = choose b.last_read_index b.last_written_index

  pub write : AsyncBuffer T → T → AsyncBuffer T
  unfolding write_to
  write b t = record b { buffer = update b.buffer (write_to b) t; last_written_index = write_to b }

  -- The load of the index that the reader is about to copy.
  pub begin_read : AsyncBuffer T → ℕ
  begin_read b = b.last_written_index

  -- The new state, the value of `newData` and the result.
  pub read : AsyncBuffer T → AsyncBuffer T × Bool × T
  unfolding begin_read
  read b =
      let to_read = begin_read b in
      (record b { last_read_index = to_read }, to_read == b.last_read_index, b.buffer to_read)

pub record IsValid {T : Type 0} (b : AsyncBuffer T) : Type 0 where
  pub read_in : b.last_read_index ≤ 2
  pub written_in : b.last_written_index ≤ 2

choose_lem : (r w : ℕ) → r ≤ 2 → w ≤ 2 → (choose r w ≢ r) × (choose r w ≢ w) × (choose r w ≤ 2)
unfolding choose
choose_lem zero zero h k = omega arith
choose_lem zero (suc zero) h k = omega arith
choose_lem zero (suc (suc n)) h k = omega arith
choose_lem (suc zero) zero h k = omega arith
choose_lem (suc zero) (suc zero) h k = omega arith
choose_lem (suc zero) (suc (suc n)) h k = omega arith
choose_lem (suc (suc m)) zero h k = omega arith
choose_lem (suc (suc m)) (suc zero) h k = omega arith
choose_lem (suc (suc m)) (suc (suc n)) h k = omega arith

module _ {T : Type 0} (b : AsyncBuffer T) (valid : IsValid b) where
  -- A write goes neither to the slot that was read last nor to the one that was written last, stays
  -- in the buffer, and is what the next read returns.
  pub write_lem :
      (t : T)
      → (write_to b ≢ b.last_read_index)
        × (write_to b ≢ b.last_written_index)
        × IsValid (write b t)
        × ((read (write b t)).2 ≡ t)
  unfolding write read
  write_lem t =
      let (ne_read, ne_written, small) = choose_lem _ _ valid.read_in valid.written_in in
      (
        ne_read,
        ne_written,
        record { read_in = valid.read_in; written_in = small },
        update_self b.buffer (write_to b) t,
      )

  -- The flag `newData` is false when something was written since the last read, and true when
  -- nothing was.
  pub new_data_inverted : (t : T) → ((read (write b t)).1 ≡ false) × ((read (read b).0).1 ≡ true)
  unfolding write read
  new_data_inverted t =
      let (ne_read, _, _) = choose_lem _ _ valid.read_in valid.written_in in
      (ground (arith, ne_read), ground arith)

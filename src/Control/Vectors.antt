-- ===== src/Control/Vectors.antt =====
-- The blocks that put signals together into a vector and take it apart:
-- includes/eeros/control/Mux.hpp and includes/eeros/control/DeMux.hpp. `n` is the number of the
-- inputs of the one and of the outputs of the other, a vector is an array.
use eeros_framework.Base.{
  ℕ, zero, suc, ◌<◌, ◌≡◌, ◌∙◌, arith, ltb, if◌then◌else◌, Store, update, for_below,
}
use eeros_framework.Control.Signals.{Signal}

module _ {T : Type 0} (n : ℕ) where
  pub mux : Store T → (ℕ → Signal T) → Signal (Store T)
  mux junk inputs =
      let new_value = for_below n (λ i v. update v i (inputs i).value) junk in
      record { value = new_value; timestamp = (inputs 0).timestamp }

  -- Each output gets its value and then its timestamp.
  pub demux : Signal (Store T) → Store (Signal T) → Store (Signal T)
  demux input outputs =
      for_below n
        (λ i out.
          let out = update out i (record (out i) { value = input.value i }) in
          update out i (record (out i) { timestamp = input.timestamp }))
        outputs

  mux-loop :
      (k : ℕ) (junk : Store T) (inputs : ℕ → Signal T) (i : ℕ)
      → i < k
      → for_below k (λ i v. update v i (inputs i).value) junk i ≡ (inputs i).value
  mux-loop zero junk inputs i l = absurd (omega arith)
  mux-loop (suc k) junk inputs i l = ground (arith, mux-loop k junk inputs i)

  demux_loop : ℕ → Signal (Store T) → Store (Signal T) → Store (Signal T)
  demux_loop k input outputs =
      for_below k
        (λ i out.
          let out = update out i (record (out i) { value = input.value i }) in
          update out i (record (out i) { timestamp = input.timestamp }))
        outputs

  demux-loop :
      (k : ℕ) (input : Signal (Store T)) (outputs : Store (Signal T)) (i : ℕ)
      → demux_loop k input outputs i ≡ (
          if ltb i k
          then record { value = input.value i; timestamp = input.timestamp }
          else outputs i)
  unfolding demux_loop
  demux-loop zero input outputs i = ground arith
  demux-loop (suc k) input outputs i = ground (arith, demux-loop k input outputs i)

  -- A demultiplexer behind a multiplexer gives back the value of every input, all with the
  -- timestamp of the first input, and touches no other output.
  pub demux-mux :
      (junk : Store T) (inputs : ℕ → Signal T) (outputs : Store (Signal T)) (i : ℕ)
      → demux (mux junk inputs) outputs i ≡ (
          if ltb i n
          then record { value = (inputs i).value; timestamp = (inputs 0).timestamp }
          else outputs i)
  unfolding demux mux demux_loop
  demux-mux junk inputs outputs i =
      demux-loop n (mux junk inputs) outputs i ∙ ground (arith, mux-loop n junk inputs i)

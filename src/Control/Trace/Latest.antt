-- ===== src/Control/Trace/Latest.antt =====
-- What a trace gives back: the latest signals that came while it was enabled.
use native.Mathlib.Nat.{mod-lt}
use eeros_framework.Base.{
  ℕ, ◌+◌, ◌-◌, ◌%◌, ◌<◌, ◌≡◌, refl, subst, sym, ap, ◌∙◌, inl, inr, true, false, ltb, if◌then◌else◌,
  arith, Bool-cases, some, List, [], length, get_elem?, Store, mod_once,
}
use eeros_framework.Control.Signals.{Signal}
use eeros_framework.Control.Trace.{Trace, create, get_trace, get_size, Call, calls}
use eeros_framework.Control.Trace.Recorded.{recorded, Holds, Holds-calls}

module _ {T : Type 0} where
  -- `b` has the latest of the signals `h`, `n` at most, the oldest first.
  abbrev pub Gives : ℕ → List (Signal T) → Trace T × Store (Signal T) → Type 0
  Gives n h (t, b) =
      (get_size t ≡ (if ltb (length h) n then length h else n))
      × ((i : ℕ) → i < get_size t → get_elem? h (get_size t - 1 - i) ≡ some (b i))

  full-elem :
      (n : ℕ) (h : List (Signal T)) (t : Trace T) (i : ℕ)
      → Holds n h t
      → t.cycle ≡ true
      → i < n
      → get_elem? h (n - 1 - i) ≡ some (t.buf ((i + t.index) % n))
  full-elem n h t i p c l = elim (mod_once (i + t.index) n (omega (arith, p.index_in))) [
    | inl e ↦
        let below : i + t.index < n =
          omega (arith, e, mod-lt (i + t.index) {m = n} (omega arith)) in
        ap (get_elem? h) (omega arith)
        ∙ p.earlier (i + t.index) c (omega arith) below
        ∙ ap (λ k. some (t.buf k)) (sym e)
    | inr (e, above) ↦
        ap (get_elem? h) (omega (arith, p.index_in))
        ∙ p.recent (i + t.index - n) (omega (arith, p.index_in))
        ∙ ap (λ k. some (t.buf k)) (sym e)
  ]

  full-Gives :
      (n : ℕ) (h : List (Signal T)) (t : Trace T)
      → Holds n h t
      → t.cycle ≡ true
      → Gives n h (record t { size = t.max_buf_len }, λ i. t.buf ((i + t.index) % t.max_buf_len))
  unfolding get_size
  full-Gives n h t p c = (
    ground (arith, p.len, p.filled c),
    λ i l.
        ap (λ k. get_elem? h (k - 1 - i)) p.len
        ∙ full-elem n h t i p c (omega (arith, p.len))
        ∙ ap (λ k. some (t.buf ((i + t.index) % k))) (sym p.len),
  )

  part-Gives :
      (n : ℕ) (h : List (Signal T)) (t : Trace T)
      → Holds n h t
      → t.cycle ≡ false
      → Gives n h (record t { size = t.index }, t.buf)
  unfolding get_size
  part-Gives n h t p c = (ground (arith, p.index_in, p.partial c), λ i l. p.recent i l)

  get_trace_full :
      (t : Trace T)
      → t.cycle ≡ true
      → get_trace t
        ≡ (record t { size = t.max_buf_len }, λ i. t.buf ((i + t.index) % t.max_buf_len))
  unfolding get_trace
  get_trace_full t e = rw e refl

  get_trace_part :
      (t : Trace T) → t.cycle ≡ false → get_trace t ≡ (record t { size = t.index }, t.buf)
  unfolding get_trace
  get_trace_part t e = rw e refl

  get_trace-Gives :
      (n : ℕ) (h : List (Signal T)) (t : Trace T) → Holds n h t → Gives n h (get_trace t)
  get_trace-Gives n h t p = elim (Bool-cases t.cycle) [
    | inl e ↦ subst (Gives n h) (sym (get_trace_full t e)) (full-Gives n h t p e)
    | inr e ↦ subst (Gives n h) (sym (get_trace_part t e)) (part-Gives n h t p e)
  ]

  -- After any calls on a new trace of `n` places, `n` not 0, the trace gives the latest signals
  -- that came while it was enabled, `n` at most, the oldest of them first.
  pub get_trace-calls :
      (n : ℕ) (junk : Signal T) (cs : List (Call T))
      → 0 < n
      → let (t, b) = get_trace (calls cs (create junk n)) in
        let h = recorded false [] cs in
        (get_size t ≡ (if ltb (length h) n then length h else n))
        × ((i : ℕ) → i < get_size t → get_elem? h (get_size t - 1 - i) ≡ some (b i))
  unfolding create
  get_trace-calls n junk cs l =
      get_trace-Gives n (recorded false [] cs) (calls cs (create junk n)) (
        Holds-calls n cs [] (create junk n) (record {
          len = refl;
          index_in = l;
          recent = λ j k. absurd (omega arith);
          earlier = λ j c. absurd (cc);
          filled = λ c. absurd (cc);
          partial = λ c. refl;
        }))

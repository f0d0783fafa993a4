-- ===== src/Control/Delay/Behind.antt =====
-- How far the output of a delay is behind its input.
use eeros_framework.Base.{
  ℕ, zero, suc, ◌+◌, ◌-◌, ◌≤◌, ◌<◌, ◌≡◌, ◌≢◌, refl, sym, ap, ◌∙◌, Bool, true, false, arith, ltb,
  leb, ◌⊎◌, subst, ◌==◌, ==_iff, if◌then◌else◌, update, Bool-cases, inl, inr, ok, throw, bad_delay,
}
use eeros_framework.Control.Signals.{Signal}
use eeros_framework.Control.Delay.{Delay, create, run, run_times}

still : (n base i : ℕ) → (base ≡ 0) ⊎ (n ≤ base) → i + 1 < n → leb n (suc (base + i)) ≡ leb n base
still n base i (inl z) l = ground arith
still n base i (inr z) l = ground arith

ne : {i j : ℕ} → (i == j) ≡ false → i ≢ j
ne h = ground arith

module _ {T : Type 0} where
  -- After `base + index` runs the places before `index` hold the signals since run `base`, and the
  -- others those of the cycle before.
  record Holds (x : ℕ → Signal T) (n base : ℕ) (d : Delay T) : Type 0 where
    size : d.buf_len ≡ n
    index_in : d.index < n
    recent : (j : ℕ) → j < d.index → d.buf j ≡ x (base + j)
    earlier : (j : ℕ) → d.index ≤ j → j < n → d.cycle ≡ true → d.buf j ≡ x (base + j - n)
    full : d.cycle ≡ leb n base
    base_in : (base ≡ 0) ⊎ (n ≤ base)

  Holds-wraps :
      (x : ℕ → Signal T) (n base : ℕ) (d : Delay T)
      → Holds x n base d
      → d.index + 1 ≡ n
      → (out : Signal T)
      → Holds x n (base + n) (record d {
        index = 0;
        cycle = true;
        buf = update d.buf d.index (x (base + d.index));
        out = out;
      })
  Holds-wraps x n base d h last out = record {
    size = h.size;
    index_in = omega (arith, h.index_in);
    recent = λ j l. absurd (omega arith);
    earlier = λ j l k c. elim (Bool-cases (d.index == j)) [
      | inl e ↦ rw e (ap x (omega (arith, (==_iff d.index j).0 e)))
      | inr e ↦ rw e (h.recent j (omega (arith, ne e)) ∙ ap x (omega arith))
    ];
    full = ground arith;
    base_in = inr (omega arith);
  }

  Holds-next :
      (x : ℕ → Signal T) (n base : ℕ) (d : Delay T)
      → Holds x n base d
      → d.index + 1 < n
      → (out : Signal T)
      → Holds x n base (record d {
        index = d.index + 1;
        buf = update d.buf d.index (x (base + d.index));
        out = out;
      })
  Holds-next x n base d h l out = record {
    size = h.size;
    index_in = l;
    recent = λ j k. elim (Bool-cases (d.index == j)) [
      | inl e ↦ rw e (ap x (omega (arith, (==_iff d.index j).0 e)))
      | inr e ↦ rw e (h.recent j (omega (arith, ne e)))
    ];
    earlier = λ j k k' c. elim (Bool-cases (d.index == j)) [
      | inl e ↦ absurd (omega (arith, (==_iff d.index j).0 e))
      | inr e ↦ rw e (h.earlier j (omega arith) k' c)
    ];
    full = h.full;
    base_in = h.base_in;
  }

  wrapped : Signal T → Delay T → Delay T
  wrapped s d =
      let buf = update d.buf d.index s in
      record d { index = 0; cycle = true; buf = buf; out = buf 0 }

  advanced : Signal T → Delay T → Delay T
  advanced s d =
      let buf = update d.buf d.index s in
      record d {
        index = d.index + 1;
        buf = buf;
        out = if d.cycle then buf (d.index + 1) else d.out;
      }

  run-wrapped :
      (s : Signal T) (d : Delay T) → ((d.index + 1) == d.buf_len) ≡ true → run s d ≡ wrapped s d
  unfolding run wrapped
  run-wrapped s d e = rw e refl

  run-advanced :
      (s : Signal T) (d : Delay T) → ((d.index + 1) == d.buf_len) ≡ false → run s d ≡ advanced s d
  unfolding run advanced
  run-advanced s d e = rw e refl

  -- The delay after run `m`, when its output was `before`.
  After : (ℕ → Signal T) → ℕ → ℕ → Signal T → Delay T → Type 0
  After x n m before d =
      (base : ℕ) × Holds x n base d
      × (suc m ≡ base + d.index)
      × (d.out ≡ (if leb n (suc m) then x (suc m - n) else before))

  After-wrapped :
      (x : ℕ → Signal T) (n base : ℕ) (d : Delay T)
      → Holds x n base d
      → d.index + 1 ≡ n
      → After x n (base + d.index) d.out (wrapped (x (base + d.index)) d)
  unfolding After wrapped
  After-wrapped x n base d h l =
      let h' = Holds-wraps x n base d h l (update d.buf d.index (x (base + d.index)) 0) in
      let due : leb n (suc (base + d.index)) ≡ true = ground arith in
      (
        base + n,
        h',
        omega arith,
        rw due (h'.earlier 0 (omega arith) (omega arith) refl ∙ ap x (omega arith)),
      )

  After-advanced :
      (x : ℕ → Signal T) (n base : ℕ) (d : Delay T)
      → Holds x n base d
      → d.index + 1 < n
      → After x n (base + d.index) d.out (advanced (x (base + d.index)) d)
  unfolding After advanced
  After-advanced x n base d h l =
      let buf = update d.buf d.index (x (base + d.index)) in
      let h' = Holds-next x n base d h l (if d.cycle then buf (d.index + 1) else d.out) in
      (
        base,
        h',
        omega arith,
        rw (still n base d.index h.base_in l ∙ sym h.full) (out d.cycle refl h'),
      )
    where
      out :
          (c : Bool)
          → d.cycle ≡ c
          → Holds x n base (advanced (x (base + d.index)) d)
          → (if c then update d.buf d.index (x (base + d.index)) (d.index + 1) else d.out)
            ≡ (if c then x (suc (base + d.index) - n) else d.out)
      out true c h' = h'.earlier (d.index + 1) (omega arith) l c ∙ ap x (omega arith)
      out false c h' = refl

  After-run :
      (x : ℕ → Signal T) (n base : ℕ) (d : Delay T)
      → Holds x n base d
      → After x n (base + d.index) d.out (run (x (base + d.index)) d)
  After-run x n base d h = elim (Bool-cases ((d.index + 1) == d.buf_len)) [
    | inl e ↦
        subst (After x n (base + d.index) d.out) (sym (run-wrapped (x (base + d.index)) d e))
          (After-wrapped x n base d h ((==_iff _ _).0 e ∙ h.size))
    | inr e ↦
        subst (After x n (base + d.index) d.out) (sym (run-advanced (x (base + d.index)) d e))
          (After-advanced x n base d h (omega (arith, ne e, h.size, h.index_in)))
  ]

  abbrev start : Signal T → ℕ → Delay T
  start junk n = record { buf_len = n; index = 0; cycle = false; buf = λ i. junk; out = junk }

  After-times :
      (x : ℕ → Signal T) (n : ℕ) (junk : Signal T) (m : ℕ)
      → 0 < n
      → After x n m junk (run_times x (suc m) (start junk n))
  unfolding run_times After
  After-times x n junk zero l = After-run x n 0 (start junk n) (record {
    size = refl;
    index_in = l;
    recent = λ j k. absurd (omega arith);
    earlier = λ j k k' c. absurd (cc);
    full = ground arith;
    base_in = inl refl;
  })
  After-times x n junk (suc m) l =
      let (base, h, e, o) = After-times x n junk m l in
      let d = run_times x (suc m) (start junk n) in
      let (base', h', e', o') =
        subst (λ k. After x n k d.out (run (x k) d)) (sym e) (After-run x n base d h) in
      (
        base',
        h',
        e',
        elim (Bool-cases (leb n (suc (suc m)))) [
          | inl y ↦ o' ∙ rw y refl
          | inr y ↦
              let early : leb n (suc m) ≡ false = ground arith in o' ∙ rw y (o ∙ rw early refl)
        ],
      )

  -- A delay for `n` places, made from a delay time of `n` periods, is refused when `n` is 0; else
  -- run `m` puts out the signal of `n - 1` runs before, and while there is none the initial signal.
  pub out-run_times :
      (x : ℕ → Signal T) (n : ℕ) (junk : Signal T) (m : ℕ)
      → ((n ≡ 0) × (create junk n ≡ throw bad_delay))
        ⊎ ((d : Delay T) × (create junk n ≡ ok d)
            × ((run_times x (suc m) d).out ≡ (if leb n (suc m) then x (suc m - n) else junk)))
  unfolding create After
  out-run_times x n junk m = elim (Bool-cases (ltb n 1)) [
    | inl y ↦ inl (ground arith, rw y refl)
    | inr y ↦ inr (start junk n, rw y refl, (After-times x n junk m (ground arith)).3)
  ]

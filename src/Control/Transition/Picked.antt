-- ===== src/Control/Transition/Picked.antt =====
-- What the transition from a fast to a slow time domain carries over:
-- includes/eeros/control/Transition.hpp.
use mathlib.Core.List.{append-nil, append_assoc}
use eeros_framework.Base.{
  ℕ, suc, ◌≡◌, refl, sym, ap, ◌∙◌, ◌⊎◌, inl, inr, true, false, some, List, [], ◌∷◌, ◌++◌, arith,
  ltb, if◌then◌else◌, get_elem?, ok, throw, ◌>>=◌, undefined, All, Bool-cases,
}
use eeros_framework.Control.Signals.{Signal}
use eeros_framework.Control.Transition.{
  Transition, Interpolation, run_in, older, signal_before, pick, run_down, run_out,
}

module _ {T : Type 0} where
  -- The first of the signals, if any, is not older than the time.
  abbrev pub StartsLate : ℕ → List (Signal T) → Type 0
  StartsLate time [] = Unit
  StartsLate time (s ∷ ss) = ltb s.timestamp time ≡ false

  -- `s` is the last of the older signals at the start of the buffer, or else its first signal.
  pub record IsPicked (time : ℕ) (buf : List (Signal T)) (s : Signal T) : Type 0 where
    pub before : List (Signal T)
    pub behind : List (Signal T)
    pub split : buf ≡ before ++ (s ∷ behind)
    pub older_before : All (λ r. ltb r.timestamp time ≡ true) before
    pub last_or_first :
        ((ltb s.timestamp time ≡ true) × StartsLate time behind)
        ⊎ ((before ≡ []) × (ltb s.timestamp time ≡ false))

  -- `s` stands at index `n`, behind older signals and before one that is not older.
  record LastOlder (time n : ℕ) (buf : List (Signal T)) (s : Signal T) : Type 0 where
    found : get_elem? buf n ≡ some s
    ahead : List (Signal T)
    rest : List (Signal T)
    parts : buf ≡ ahead ++ (s ∷ rest)
    older_ahead : All (λ r. ltb r.timestamp time ≡ true) ahead
    is_older : ltb s.timestamp time ≡ true
    late : StartsLate time rest

  last_older :
      (time : ℕ) (s : Signal T) (ss : List (Signal T))
      → ltb s.timestamp time ≡ true
      → (r : Signal T) × LastOlder time (older time ss) (s ∷ ss) r
  unfolding older
  last_older time s [] h = (
    s,
    record {
      found = refl;
      ahead = [];
      rest = [];
      parts = refl;
      older_ahead = tt;
      is_older = h;
      late = tt;
    },
  )
  last_older time s (t ∷ ts) h = elim (Bool-cases (ltb t.timestamp time)) [
    | inl old ↦
        let (r, p) = last_older time t ts old in
        rw old (
          r,
          record {
            found = p.found;
            ahead = s ∷ p.ahead;
            rest = p.rest;
            parts = ap (◌∷◌ s) p.parts;
            older_ahead = (h, p.older_ahead);
            is_older = p.is_older;
            late = p.late;
          },
        )
    | inr new ↦ rw new (
      s,
      record {
        found = refl;
        ahead = [];
        rest = t ∷ ts;
        parts = refl;
        older_ahead = tt;
        is_older = h;
        late = new;
      },
    )
  ]

  older_cons :
      (time : ℕ) (s : Signal T) (ss : List (Signal T))
      → older time (s ∷ ss) ≡ (if ltb s.timestamp time then suc (older time ss) else 0)
  unfolding older
  older_cons time s ss = refl

  signal_before-suc :
      (n : ℕ) (buf : List (Signal T)) (s : Signal T)
      → get_elem? buf n ≡ some s
      → signal_before (suc n) buf ≡ ok s
  unfolding signal_before
  signal_before-suc n buf s h = ground (arith, h)

  first_signal : (s : Signal T) (ss : List (Signal T)) → signal_before 0 (s ∷ ss) ≡ ok s
  unfolding signal_before
  first_signal s ss = refl

  pick-IsPicked :
      (time : ℕ) (s : Signal T) (ss : List (Signal T))
      → (r : Signal T) × (pick time (s ∷ ss) ≡ ok r) × IsPicked time (s ∷ ss) r
  unfolding pick
  pick-IsPicked time s ss = elim (Bool-cases (ltb s.timestamp time)) [
    | inl old ↦
        let (r, p) = last_older time s ss old in
        (
          r,
          ap (λ i. signal_before i (s ∷ ss)) (older_cons time s ss ∙ rw old)
              ∙ signal_before-suc (older time ss) (s ∷ ss) r p.found,
          record {
            before = p.ahead;
            behind = p.rest;
            split = p.parts;
            older_before = p.older_ahead;
            last_or_first = inl (p.is_older, p.late);
          },
        )
    | inr late ↦ (
      s,
      ap (λ i. signal_before i (s ∷ ss)) (older_cons time s ss ∙ rw late) ∙ first_signal s ss,
      record {
        before = [];
        behind = ss;
        split = refl;
        older_before = tt;
        last_or_first = inr (refl, late);
      },
    )
  ]

pick_none : {T : Type 0} (time : ℕ) → pick {T = T} time [] ≡ throw undefined
unfolding pick signal_before older
pick_none time = refl

module _ {T Step : Type 0} where
  -- The runs of the in block with the signals at its input.
  pub run_ins : List (Signal T) → Transition T Step → Transition T Step
  run_ins [] c = c
  run_ins (s ∷ ss) c = run_ins ss (run_in s c)

  run_in_down :
      (s : Signal T) (c : Transition T Step)
      → c.steady ≡ false
      → c.up ≡ false
      → run_in s c ≡ record c { buf = c.buf ++ (s ∷ []) }
  unfolding run_in
  run_in_down s c h k = ground (arith, h, k)

  run_ins-buf :
      (ss : List (Signal T)) (c : Transition T Step)
      → c.steady ≡ false
      → c.up ≡ false
      → run_ins ss c ≡ record c { buf = c.buf ++ ss }
  unfolding run_ins run_in
  run_ins-buf [] c h k = ap (λ b. record c { buf = b }) (sym (append-nil c.buf))
  run_ins-buf (s ∷ ss) c h k =
      ap (run_ins ss) (run_in_down s c h k)
      ∙ run_ins-buf ss (record c { buf = c.buf ++ (s ∷ []) }) h k
      ∙ ap (λ b. record c { buf = b }) (append_assoc c.buf (s ∷ []) ss)

  run_out_down :
      (a : Interpolation T Step) (time : ℕ) (buf : List (Signal T)) (c : Transition T Step)
      → c.steady ≡ false
      → c.up ≡ false
      → run_out a time (record c { buf = buf })
        ≡ (pick time buf >>= λ s. ok (record c { buf = []; out = s }))
  unfolding run_out run_down
  run_out_down a time buf c h k = rw (h, k)

  run_out-run_ins :
      (a : Interpolation T Step) (time : ℕ) (ss : List (Signal T)) (c : Transition T Step)
      → c.steady ≡ false
      → c.up ≡ false
      → c.buf ≡ []
      → run_out a time (run_ins ss c) ≡ (pick time ss >>= λ s. ok (record c { buf = []; out = s }))
  run_out-run_ins a time ss c h k e =
      ap (run_out a time) (run_ins-buf ss c h k ∙ ap (λ b. record c { buf = b ++ ss }) e)
      ∙ run_out_down a time ss c h k

  -- What the out block of a transition from a fast to a slow time domain puts out, after the in
  -- block ran with the signals `ss` since its last run. Without any it reads outside of the buffer.
  -- Otherwise it puts out the last signal older than the time at its input, as far as the older
  -- signals reach from the start, or the first one if that is not older, and empties the buffer.
  pub run_out-down :
      (a : Interpolation T Step) (time : ℕ) (ss : List (Signal T)) (c : Transition T Step)
      → c.steady ≡ false
      → c.up ≡ false
      → c.buf ≡ []
      → ((ss ≡ []) × (run_out a time (run_ins ss c) ≡ throw undefined))
        ⊎ ((d : Transition T Step) × (run_out a time (run_ins ss c) ≡ ok d)
            × IsPicked time ss d.out
            × (d.buf ≡ []))
  run_out-down a time [] c h k e = inl (
    refl,
    run_out-run_ins a time [] c h k e
        ∙ ap (λ r. r >>= (λ s'. ok (record c { buf = []; out = s' }))) (pick_none time),
  )
  run_out-down a time (s ∷ ss) c h k e =
      let (r, found, p) = pick-IsPicked time s ss in
      inr (
        record c { buf = []; out = r },
        run_out-run_ins a time (s ∷ ss) c h k e
            ∙ ap (λ r. r >>= (λ s'. ok (record c { buf = []; out = s' }))) found,
        p,
        refl,
      )

-- ===== src/Control/Trace/Recorded.antt =====
-- What a trace holds after its calls.
use eeros_framework.Base.{
  ℕ, suc, ◌+◌, ◌-◌, ◌≤◌, ◌<◌, ◌≡◌, refl, subst, sym, ap, ◌∙◌, inl, inr, Bool, true, false, ◌==◌,
  ==_iff, if◌then◌else◌, arith, Bool-cases, some, List, [], ◌∷◌, length, get_elem?, Store, update,
  update_ne,
}
use eeros_framework.Control.Signals.{Signal}
use eeros_framework.Control.Trace.{
  Trace, run, get_trace, enable, disable, Call, call_run, call_enable, call_disable, call_get_trace,
  call, calls,
}

module _ {T : Type 0} where
  -- The signals that came while the trace was enabled, the latest first: `on` says if it is enabled
  -- and `h` is what came before.
  abbrev pub recorded : Bool → List (Signal T) → List (Call T) → List (Signal T)
  recorded on h [] = h
  recorded on h (call_run s ∷ cs) = recorded on (if on then s ∷ h else h) cs
  recorded on h (call_enable ∷ cs) = recorded true h cs
  recorded on h (call_disable ∷ cs) = recorded false h cs
  recorded on h (call_get_trace ∷ cs) = recorded on h cs

  pub record Holds (n : ℕ) (h : List (Signal T)) (t : Trace T) : Type 0 where
    pub len : t.max_buf_len ≡ n
    pub index_in : t.index < n
    pub recent : (j : ℕ) → j < t.index → get_elem? h (t.index - 1 - j) ≡ some (t.buf j)
    pub earlier :
        (j : ℕ)
        → t.cycle ≡ true
        → t.index ≤ j
        → j < n
        → get_elem? h (n + t.index - 1 - j) ≡ some (t.buf j)
    pub filled : t.cycle ≡ true → n ≤ length h
    pub partial : t.cycle ≡ false → length h ≡ t.index

  get_elem?-suc :
      (s : Signal T) (h : List (Signal T)) (k l : ℕ)
      → k ≡ suc l
      → get_elem? (s ∷ h) k ≡ get_elem? h l
  get_elem?-suc s h k l e = ap (get_elem? (s ∷ h)) e

  get_elem?_zero :
      (s : Signal T) (h : List (Signal T)) (k : ℕ) → k ≡ 0 → get_elem? (s ∷ h) k ≡ some s
  get_elem?_zero s h k e = ap (get_elem? (s ∷ h)) e

  -- A place that is written or not, `k` runs ago.
  get_elem?-update :
      (s : Signal T) (h : List (Signal T)) (b : Store (Signal T)) (i j k l : ℕ)
      → (i ≡ j → k ≡ 0)
      → (¬ (i ≡ j) → (k ≡ suc l) × (get_elem? h l ≡ some (b j)))
      → get_elem? (s ∷ h) k ≡ some (update b i s j)
  get_elem?-update s h b i j k l p q = elim (Bool-cases (i == j)) [
    | inl e ↦ rw e (get_elem?_zero s h k (p ((==_iff i j).0 e)))
    | inr e ↦ let (x, y) = q (λ eq. ground arith) in rw e (get_elem?-suc s h k l x ∙ y)
  ]

  Holds-next :
      (n : ℕ) (h : List (Signal T)) (t : Trace T) (s : Signal T)
      → Holds n h t
      → t.index + 1 < n
      → Holds n (s ∷ h) (record t { index = t.index + 1; buf = update t.buf t.index s })
  Holds-next n h t s p l = record {
    len = p.len;
    index_in = l;
    recent = λ j k.
        get_elem?-update s h t.buf t.index j (t.index + 1 - 1 - j) (t.index - 1 - j)
          (λ e. omega arith) (λ e. (omega arith, p.recent j (omega arith)));
    earlier = λ j c k k'.
        get_elem?-suc s h (n + (t.index + 1) - 1 - j) (n + t.index - 1 - j) (omega arith)
        ∙ p.earlier j c (omega arith) k'
        ∙ ap some (sym (update_ne t.buf t.index j s (λ e. omega arith)));
    filled = λ c. omega (arith, p.filled c);
    partial = λ c. omega (arith, p.partial c);
  }

  Holds-wraps :
      (n : ℕ) (h : List (Signal T)) (t : Trace T) (s : Signal T)
      → Holds n h t
      → t.index + 1 ≡ n
      → Holds n (s ∷ h) (record t { index = 0; cycle = true; buf = update t.buf t.index s })
  Holds-wraps n h t s p l = record {
    len = p.len;
    index_in = omega (arith, p.index_in);
    recent = λ j k. absurd (omega arith);
    earlier = λ j c k k'.
        get_elem?-update s h t.buf t.index j (n + 0 - 1 - j) (t.index - 1 - j) (λ e. omega arith)
          (λ e. (omega arith, p.recent j (omega arith)));
    filled = λ c. long t.cycle refl;
    partial = λ c. absurd (cc);
  }
    where
      long : (c : Bool) → t.cycle ≡ c → n ≤ suc (length h)
      long true c = omega (arith, p.filled c)
      long false c = omega (arith, p.partial c)

  wrapped : Signal T → Trace T → Trace T
  wrapped s t = record t { index = 0; cycle = true; buf = update t.buf t.index s }

  advanced : Signal T → Trace T → Trace T
  advanced s t = record t { index = t.index + 1; buf = update t.buf t.index s }

  run-wrapped :
      (s : Signal T) (t : Trace T)
      → t.running ≡ true
      → ((t.index + 1) == t.max_buf_len) ≡ true
      → run s t ≡ wrapped s t
  unfolding run wrapped
  run-wrapped s t e f = rw (e, f) refl

  run-advanced :
      (s : Signal T) (t : Trace T)
      → t.running ≡ true
      → ((t.index + 1) == t.max_buf_len) ≡ false
      → run s t ≡ advanced s t
  unfolding run advanced
  run-advanced s t e f = rw (e, f) refl

  run-stopped : (s : Signal T) (t : Trace T) → t.running ≡ false → run s t ≡ t
  unfolding run
  run-stopped s t e = ground (arith, e)

  added : Bool → Signal T → List (Signal T) → List (Signal T)
  added on s h = if on then s ∷ h else h

  added_on : (s : Signal T) (h : List (Signal T)) (on : Bool) → on ≡ true → added on s h ≡ s ∷ h
  unfolding added
  added_on s h on e = rw e refl

  added_off : (s : Signal T) (h : List (Signal T)) (on : Bool) → on ≡ false → added on s h ≡ h
  unfolding added
  added_off s h on e = rw e refl

  Holds-cong :
      (n : ℕ) {h h' : List (Signal T)} {t t' : Trace T}
      → h ≡ h'
      → t ≡ t'
      → Holds n h' t'
      → Holds n h t
  Holds-cong n {h} {h'} {t} {t'} e f p =
      subst (λ g. Holds n g t) (sym e) (subst (Holds n h') (sym f) p)

  Holds-run :
      (n : ℕ) (h : List (Signal T)) (t : Trace T) (s : Signal T)
      → Holds n h t
      → Holds n (added t.running s h) (run s t)
  unfolding wrapped advanced
  Holds-run n h t s p = elim (Bool-cases t.running) [
    | inl e ↦ elim (Bool-cases ((t.index + 1) == t.max_buf_len)) [
      | inl f ↦
          Holds-cong n (added_on s h t.running e) (run-wrapped s t e f)
            (Holds-wraps n h t s p ((==_iff _ _).0 f ∙ p.len))
      | inr f ↦
          Holds-cong n (added_on s h t.running e) (run-advanced s t e f)
            (Holds-next n h t s p (ground (arith, p.len, p.index_in)))
    ]
    | inr e ↦ Holds-cong n (added_off s h t.running e) (run-stopped s t e) p
  ]

  running-run : (s : Signal T) (t : Trace T) → (run s t).running ≡ t.running
  unfolding run
  running-run s t = ground arith

  running-get_trace : (t : Trace T) → (get_trace t).0.running ≡ t.running
  unfolding get_trace
  running-get_trace t = ground arith

  Holds-fields :
      (n : ℕ) (h : List (Signal T)) (t : Trace T) (size : ℕ) (on : Bool)
      → Holds n h t
      → Holds n h (record t { size = size; running = on })
  Holds-fields n h t size on p = record {
    len = p.len;
    index_in = p.index_in;
    recent = p.recent;
    earlier = p.earlier;
    filled = p.filled;
    partial = p.partial;
  }

  get_trace_size :
      (t : Trace T)
      → (get_trace t).0 ≡ record t { size = if t.cycle then t.max_buf_len else t.index }
  unfolding get_trace
  get_trace_size t = ground arith

  pub Holds-calls :
      (n : ℕ) (cs : List (Call T)) (h : List (Signal T)) (t : Trace T)
      → Holds n h t
      → Holds n (recorded t.running h cs) (calls cs t)
  unfolding calls call enable disable added
  Holds-calls n [] h t p = p
  Holds-calls n (call_run s ∷ cs) h t p =
      subst (λ on. Holds n (recorded on (added t.running s h) cs) (calls cs (run s t)))
        (running-run s t) (Holds-calls n cs (added t.running s h) (run s t) (Holds-run n h t s p))
  Holds-calls n (call_enable ∷ cs) h t p =
      Holds-calls n cs h (enable t) (Holds-fields n h t t.size true p)
  Holds-calls n (call_disable ∷ cs) h t p =
      Holds-calls n cs h (disable t) (Holds-fields n h t t.size false p)
  Holds-calls n (call_get_trace ∷ cs) h t p =
      subst (λ on. Holds n (recorded on h cs) (calls cs (get_trace t).0)) (running-get_trace t)
        (Holds-calls n cs h (get_trace t).0 (
          subst (Holds n h) (sym (get_trace_size t))
            (Holds-fields n h t (if t.cycle then t.max_buf_len else t.index) t.running p)))

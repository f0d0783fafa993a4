-- ===== src/Core/PeriodicCounter/Measured.antt =====
-- What a periodic counter has measured: src/core/PeriodicCounter.cpp.
use mathlib.Core.List.{append-nil, append_assoc}
use eeros_framework.Base.{
  ℕ, ◌≡◌, refl, sym, ◌∙◌, false, List, [], ◌∷◌, ◌++◌, map, if◌then◌else◌, Bool-cases, inl, inr,
}
use eeros_framework.Math.Ring.{sub}
use eeros_framework.Core.Statistics
use eeros_framework.Core.Statistics.{add, adds, last-add}
use eeros_framework.Core.PeriodicCounter.{
  PeriodicCounter, Surroundings, default, create, reset, set_period, add_default_monitor, outside,
  call_monitors, call_monitor, tick, tock, cycles,
}

module _ {T F : Type 0} (u : Surroundings T F) where
  -- The times from each tick to its tock.
  abbrev pub run_times : List (ℕ × ℕ) → List T
  run_times [] = []
  run_times ((a, b) ∷ cs) = u.seconds a b ∷ run_times cs

  -- The times from `a` to the first tick and from each tick to the next.
  abbrev pub periods : ℕ → List (ℕ × ℕ) → List T
  periods a [] = []
  periods a ((b, c) ∷ cs) = u.seconds a b ∷ periods b cs

  -- The periods outside of the limits.
  abbrev pub warned : T → T → List T → List T
  warned tmin tmax [] = []
  warned tmin tmax (p ∷ ps) =
      let rest = warned tmin tmax ps in if outside u tmin tmax p then p ∷ rest else rest

  -- The statistics are those of what was measured, and the warnings those of the periods.
  record Continues (tmin tmax : T) (cs : List (ℕ × ℕ)) (c d : PeriodicCounter T F) : Type 0 where
    run_adds : d.run ≡ adds u.numbers (run_times cs) c.run
    period_adds : d.period ≡ adds u.numbers (periods c.start cs) c.period
    jitter_adds :
        d.jitter
        ≡ adds u.numbers
            (map (λ p. sub u.numbers.ring p c.counter_period) (periods c.start cs))
            c.jitter
    log_adds : d.log ≡ c.log ++ warned tmin tmax (periods c.start cs)

  -- The state after a cycle with the default monitor.
  abbrev after : T → T → ℕ → ℕ → PeriodicCounter T F → PeriodicCounter T F
  after tmin tmax a b c =
      let p = u.seconds c.start a in
      record c {
        last = c.start;
        start = a;
        run = add u.numbers (u.seconds a b) c.run;
        period = add u.numbers p c.period;
        jitter = add u.numbers (sub u.numbers.ring p c.counter_period) c.jitter;
        log = if outside u tmin tmax p then c.log ++ (p ∷ []) else c.log;
      }

  tock-tick :
      (tmin tmax : T) (a b : ℕ) (c : PeriodicCounter T F)
      → c.first ≡ false
      → c.monitors ≡ default tmin tmax ∷ []
      → tock u b (tick u a c) ≡ after tmin tmax a b c
  unfolding tock tick call_monitors call_monitor
  tock-tick tmin tmax a b c h k =
      rw (h, k, last-add u.numbers (u.seconds c.start a) c.period)
        (elim (Bool-cases (outside u tmin tmax (u.seconds c.start a))) [
          | inl e ↦ rw e refl
          | inr e ↦ rw e refl
        ])

  after-Continues :
      (tmin tmax : T) (a b : ℕ) (cs : List (ℕ × ℕ)) (c d : PeriodicCounter T F)
      → Continues tmin tmax cs (after tmin tmax a b c) d
      → Continues tmin tmax ((a, b) ∷ cs) c d
  unfolding adds
  after-Continues tmin tmax a b cs c d h = record {
    run_adds = h.run_adds;
    period_adds = h.period_adds;
    jitter_adds = h.jitter_adds;
    log_adds = h.log_adds ∙ elim (Bool-cases (outside u tmin tmax (u.seconds c.start a))) [
      | inl e ↦
          rw e (append_assoc c.log (u.seconds c.start a ∷ []) (warned tmin tmax (periods a cs)))
      | inr e ↦ rw e refl
    ];
  }

  cycles-Continues :
      (tmin tmax : T) (cs : List (ℕ × ℕ)) (c : PeriodicCounter T F)
      → c.first ≡ false
      → c.monitors ≡ default tmin tmax ∷ []
      → Continues tmin tmax cs c (cycles u cs c)
  unfolding cycles adds
  cycles-Continues tmin tmax [] c h k = record {
    run_adds = refl;
    period_adds = refl;
    jitter_adds = refl;
    log_adds = sym (append-nil c.log);
  }
  cycles-Continues tmin tmax ((a, b) ∷ cs) c h k = rw (tock-tick tmin tmax a b c h k) (
      after-Continues tmin tmax a b cs c (cycles u cs (after tmin tmax a b c))
        (cycles-Continues tmin tmax cs (after tmin tmax a b c) h k))

  -- What a new counter with the default monitor has measured after one or more pairs of `tick` and
  -- `tock`: every time of a run, every period but the one before the first tick, each with its
  -- distance to the set period, and the warnings of exactly the periods outside of the tolerance.
  pub cycles-measured :
      (period tolerance : T) (now a b : ℕ) (cs : List (ℕ × ℕ))
      → let r = u.numbers.ring in
        let d = cycles u ((a, b) ∷ cs) (add_default_monitor u tolerance (create u period now)) in
        let empty = Statistics.reset u.numbers in
        (d.run ≡ adds u.numbers (run_times ((a, b) ∷ cs)) empty)
        × (d.period ≡ adds u.numbers (periods a cs) empty)
        × (d.jitter ≡ adds u.numbers (map (λ p. sub r p period) (periods a cs)) empty)
        × (d.log
            ≡ warned
                (r.mul period (sub r r.one tolerance))
                (r.mul period (r.add r.one tolerance))
                (periods a cs))
  unfolding cycles create set_period reset add_default_monitor adds tock tick
  cycles-measured period tolerance now a b cs =
      let r = u.numbers.ring in
      let c = add_default_monitor u tolerance (create u period now) in
      let h =
        cycles-Continues (r.mul period (sub r r.one tolerance))
          (r.mul period (r.add r.one tolerance)) cs
          (record c {
            last = c.start;
            start = a;
            run = add u.numbers (u.seconds a b) c.run;
            first = false;
          })
          refl refl in
      (h.run_adds, h.period_adds, h.jitter_adds, h.log_adds)

-- ===== src/Control/Step/Delayed.antt =====
-- When the step comes: includes/eeros/control/Step.hpp.
use eeros_framework.Base.{
  ℕ, ◌+◌, ◌≤◌, ◌≡◌, refl, sym, ap, ap₂, ◌∙◌, true, false, leb, if◌then◌else◌, Bool-cases, inl, inr,
  arith, List, [], ◌∷◌,
}
use eeros_framework.Control.Step.{Step, reset, begin, rise, run}

-- The times that the clock gives in a run: twice the time, and the timestamp.
pub record Clock : Type 0 where
  pub now : ℕ
  pub later : ℕ
  pub stamp : ℕ

-- The clock does not run backwards from a time on.
abbrev pub Forward : ℕ → List Clock → Type 0
Forward t [] = Unit
Forward t (c ∷ cs) = (t ≤ c.now) × (c.now ≤ c.later) × Forward c.later cs

-- The last time that the clock gave, from a time on.
abbrev pub last_time : ℕ → List Clock → ℕ
last_time t [] = t
last_time t (c ∷ cs) = last_time c.later cs

module _ {T : Type 0} (plus : T → T → T) where
  pub runs : List Clock → Step T → Step T
  runs [] s = s
  runs (c ∷ cs) s = runs cs (run plus c.now c.later c.stamp s)

  -- The step is done if the delay was over at a time, and the output says so.
  record IsStep (init height : T) (over t : ℕ) (s : Step T) : Type 0 where
    begun : s.first ≡ false
    same_init : s.init_value ≡ init
    same_height : s.step_height ≡ height
    step_time : s.time ≡ over
    done_iff : s.step_done ≡ leb over t
    level : s.out.value ≡ (if leb over t then plus init height else init)

  rise_done : (later : ℕ) (s : Step T) → s.step_done ≡ true → rise plus later s ≡ s
  unfolding rise
  rise_done later s h = rw h refl

  rise_waits :
      (later : ℕ) (s : Step T)
      → s.step_done ≡ false
      → leb s.time later ≡ false
      → rise plus later s ≡ s
  unfolding rise
  rise_waits later s h k = rw (h, k) refl

  rise_due :
      (later : ℕ) (s : Step T)
      → s.step_done ≡ false
      → leb s.time later ≡ true
      → rise plus later s ≡ record s {
        out = record s.out { value = plus s.init_value s.step_height };
        step_done = true;
      }
  unfolding rise
  rise_due later s h k = rw (h, k) refl

  stamp-IsStep :
      (init height : T) (over t later stamp : ℕ) (s : Step T)
      → IsStep init height over t s
      → leb over t ≡ leb over later
      → IsStep init height over later (record s { out = record s.out { timestamp = stamp } })
  stamp-IsStep init height over t later stamp s h e = record {
    begun = h.begun;
    same_init = h.same_init;
    same_height = h.same_height;
    step_time = h.step_time;
    done_iff = h.done_iff ∙ e;
    level = h.level ∙ ap (λ x. if x then plus init height else init) e;
  }

  rise-IsStep :
      (init height : T) (over t later stamp : ℕ) (s : Step T)
      → IsStep init height over t s
      → t ≤ later
      → let r = rise plus later s in
        IsStep init height over later (record r { out = record r.out { timestamp = stamp } })
  rise-IsStep init height over t later stamp s h l = elim (Bool-cases (leb over t)) [
    | inl k ↦
        let j : leb over later ≡ true = ground (arith, k, l) in
        rw (rise_done later s (h.done_iff ∙ k))
          (stamp-IsStep init height over t later stamp s h (k ∙ sym j))
    | inr k ↦ elim (Bool-cases (leb over later)) [
      | inl j ↦
          rw (rise_due later s (h.done_iff ∙ k) (ap (λ x. leb x later) h.step_time ∙ j)) (record {
            begun = h.begun;
            same_init = h.same_init;
            same_height = h.same_height;
            step_time = h.step_time;
            done_iff = sym j;
            level = ap₂ plus h.same_init h.same_height ∙ rw j refl;
          })
      | inr j ↦
          rw (rise_waits later s (h.done_iff ∙ k) (ap (λ x. leb x later) h.step_time ∙ j))
            (stamp-IsStep init height over t later stamp s h (k ∙ sym j))
    ]
  ]

  begin_begun : (now : ℕ) (s : Step T) → s.first ≡ false → begin plus now s ≡ s
  unfolding begin
  begin_begun now s h = rw h refl

  run-IsStep :
      (init height : T) (over t : ℕ) (c : Clock) (s : Step T)
      → IsStep init height over t s
      → t ≤ c.later
      → IsStep init height over c.later (run plus c.now c.later c.stamp s)
  unfolding run
  run-IsStep init height over t c s h l =
      rw (begin_begun c.now s h.begun) (rise-IsStep init height over t c.later c.stamp s h l)

  runs-IsStep :
      (init height : T) (over t : ℕ) (cs : List Clock) (s : Step T)
      → IsStep init height over t s
      → Forward t cs
      → IsStep init height over (last_time t cs) (runs cs s)
  unfolding runs
  runs-IsStep init height over t [] s h f = h
  runs-IsStep init height over t (c ∷ cs) s h (l, m, f) =
      runs-IsStep init height over c.later cs (run plus c.now c.later c.stamp s)
        (run-IsStep init height over t c s h (omega (arith, l, m))) f

  first_run-IsStep :
      (c : Clock) (s : Step T)
      → IsStep s.init_value s.step_height
          (s.delay_time + c.now)
          c.later
          (run plus c.now c.later c.stamp (reset plus s))
  unfolding run begin rise reset
  first_run-IsStep c s = elim (Bool-cases (leb (s.delay_time + c.now) c.later)) [
    | inl k ↦ rw k (record {
      begun = refl;
      same_init = refl;
      same_height = refl;
      step_time = refl;
      done_iff = sym k;
      level = rw k refl;
    })
    | inr k ↦ rw k (record {
      begun = refl;
      same_init = refl;
      same_height = refl;
      step_time = refl;
      done_iff = sym k;
      level = rw k refl;
    })
  ]

  -- After a reset and one or more runs, with a clock that does not run backwards, the output is the
  -- initial value with the height added once the delay since the first run was over at the last
  -- time that was read, and the initial value before.
  pub runs-step :
      (c : Clock) (cs : List Clock) (s : Step T)
      → Forward c.later cs
      → (runs (c ∷ cs) (reset plus s)).out.value ≡ (
          if leb (s.delay_time + c.now) (last_time c.later cs)
          then plus s.init_value s.step_height
          else s.init_value)
  unfolding runs
  runs-step c cs s f =
      (runs-IsStep s.init_value s.step_height (s.delay_time + c.now) c.later cs
        (run plus c.now c.later c.stamp (reset plus s)) (first_run-IsStep c s) f).level

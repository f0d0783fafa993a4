-- ===== src/Safety/System/Trigger.antt =====
-- `SafetySystem::triggerEvent`: which level is pending after events were triggered.
use eeros_framework.Base.{
  ℕ, ◌≤◌, ◌≡◌, refl, sym, subst, ◌∙◌, inl, inr, Bool, true, false, Option, none, some, List, [],
  ◌∷◌, arith, ◌==◌, if◌then◌else◌, Option-cases, All, Store, Result, ok, ◌>>=◌,
}
use eeros_framework.Safety.Level.{
  SafetyEvent, Request, in_context, outside, Level, rank, level_lt, get_dest_level_for_event,
}
use eeros_framework.Safety.System.{
  System, rounds, retry, null_read, store_round, store_next_level, trigger_event, make_request,
  make_requests, take_next_level,
}

same_level_self : (n : ℕ) → (n == n) ≡ true
same_level_self n = ground arith

pub take_next_level_lem : (next : Option ℕ) → take_next_level rounds none next ≡ (next, none)
unfolding take_next_level
take_next_level_lem none = refl
take_next_level_lem (some n) = ground (arith, same_level_self n)

module _ {W V : Type 0} where
  -- The pending level is there, and its id is at most `k`.
  abbrev pub AtMost : Store (Level W V) → ℕ → Option ℕ → Type 0
  AtMost heap k none = ⊥
  AtMost heap k (some m) = rank (heap m).id ≤ k

  -- The lower of a new destination and the level that is pending already.
  pub lower_of : Store (Level W V) → ℕ → Option ℕ → Option ℕ
  lower_of heap new_level none = some new_level
  lower_of heap new_level (some old) =
      if level_lt (heap old) (heap new_level) then some old else some new_level

  -- With no other thread the loop ends within its fuel and reads no null pointer.
  pub store_next_level_lem :
      (heap : Store (Level W V)) (new_level : ℕ) (next : Option ℕ)
      → store_next_level rounds heap none new_level next ≡ ok (lower_of heap new_level next)
  unfolding store_next_level store_round lower_of
  store_next_level_lem heap new_level none = refl
  store_next_level_lem heap new_level (some old) = ground (arith, same_level_self old)

  lower_of-new :
      (heap : Store (Level W V)) (new_level : ℕ) (next : Option ℕ)
      → AtMost heap (rank (heap new_level).id) (lower_of heap new_level next)
  unfolding lower_of level_lt
  lower_of-new heap new_level none = omega arith
  lower_of-new heap new_level (some old) = ground arith

  lower_of-old :
      (heap : Store (Level W V)) (new_level k : ℕ) (next : Option ℕ)
      → AtMost heap k next
      → AtMost heap k (lower_of heap new_level next)
  unfolding lower_of level_lt
  lower_of-old heap new_level k none h = absurd h
  lower_of-old heap new_level k (some old) h = ground arith

abbrev pub event_of : Request → SafetyEvent
event_of (in_context event) = event
event_of (outside event) = event

abbrev pub is_in_context : Request → Bool
is_in_context (in_context event) = true
is_in_context (outside event) = false

-- What every event that a running safety system triggers leaves alone: the level, the level
-- objects, and a bound on the pending level.
pub record Keeps {W V : Type 0} (s s' : System W V) : Type 0 where
  pub current : s'.current_level ≡ s.current_level
  pub levels : s'.levels ≡ s.levels
  pub bound : (k : ℕ) → AtMost s.levels k s.next_level → AtMost s.levels k s'.next_level

-- The call returns, and keeps these.
abbrev pub Runs : {W V : Type 0} → System W V → Result (System W V) → Type 0
Runs {W} {V} s r = (s' : System W V) × (r ≡ ok s') × Keeps s s'

module _ {W V : Type 0} where
  pub Keeps-refl : (s : System W V) → Keeps s s
  Keeps-refl s = record { current = refl; levels = refl; bound = λ k h. h }

  -- The bound of a later part, read over the level objects of an earlier state.
  pub bound_later :
      {s t u : System W V} (k : ℕ)
      → Keeps s t
      → Keeps t u
      → AtMost s.levels k t.next_level
      → AtMost s.levels k u.next_level
  bound_later {s} {t} {u} k keeps later h =
      subst (λ heap. AtMost heap k u.next_level) keeps.levels
        (later.bound k (subst (λ heap. AtMost heap k t.next_level) (sym keeps.levels) h))

  pub Keeps-trans : {s t u : System W V} → Keeps s t → Keeps t u → Keeps s u
  Keeps-trans k l = record {
    current = l.current ∙ k.current;
    levels = l.levels ∙ k.levels;
    bound = λ n h. bound_later n k l (k.bound n h);
  }

  pub Runs-bind :
      {s : System W V} (m : Result (System W V)) (f : System W V → Result (System W V))
      → Runs s m
      → ((t : System W V) → Keeps s t → Runs t (f t))
      → Runs s (m >>= f)
  Runs-bind m f (t, e, k) rest = let (u, e', l) = rest t k in (u, rw e e', Keeps-trans k l)

  pub trigger_event-none :
      (s : System W V) (event : SafetyEvent) (in_private_context : Bool) (c : ℕ)
      → s.current_level ≡ some c
      → get_dest_level_for_event (s.levels c) event in_private_context ≡ none
      → trigger_event s event in_private_context ≡ ok s
  unfolding trigger_event
  trigger_event-none s event in_private_context c h d = ground arith

  pub trigger_event-some :
      (s : System W V) (event : SafetyEvent) (in_private_context : Bool) (c n : ℕ)
      → s.current_level ≡ some c
      → get_dest_level_for_event (s.levels c) event in_private_context ≡ some n
      → trigger_event s event in_private_context
        ≡ ok (record s { next_level = lower_of s.levels n s.next_level })
  unfolding trigger_event
  trigger_event-some s event in_private_context c n h d =
      ground (arith, store_next_level_lem s.levels n s.next_level)

  -- The level that a request leads to from level `l`.
  abbrev pub dest_of : Level W V → Request → Option ℕ
  dest_of l r = get_dest_level_for_event l (event_of r) (is_in_context r)

  -- If the request leads anywhere from level `c`, then a level at most as high is pending.
  abbrev pub IsServed : Store (Level W V) → ℕ → Option ℕ → Request → Type 0
  IsServed heap c next r =
      (n : ℕ) → dest_of (heap c) r ≡ some n → AtMost heap (rank (heap n).id) next

  pub trigger_event-Runs :
      (s : System W V) (event : SafetyEvent) (in_private_context : Bool) (c : ℕ)
      → s.current_level ≡ some c
      → (s' : System W V) × (trigger_event s event in_private_context ≡ ok s')
        × Keeps s s'
        × ((n : ℕ)
            → get_dest_level_for_event (s.levels c) event in_private_context ≡ some n
            → AtMost s.levels (rank (s.levels n).id) s'.next_level)
  trigger_event-Runs s event in_private_context c h =
      elim (Option-cases (get_dest_level_for_event (s.levels c) event in_private_context)) [
        | inl e ↦ (s, trigger_event-none s event in_private_context c h e, Keeps-refl s, λ n d. cc)
        | inr (n, e) ↦ (
          record s { next_level = lower_of s.levels n s.next_level },
          trigger_event-some s event in_private_context c n h e,
          record {
            current = refl;
            levels = refl;
            bound = λ k. lower_of-old s.levels n k s.next_level;
          },
          λ m d.
              let same : n ≡ m = cc in
              subst (λ m. AtMost s.levels (rank (s.levels m).id) (lower_of s.levels n s.next_level))
                same (lower_of-new s.levels n s.next_level),
        )
      ]

  pub trigger_event-world :
      (s t : System W V) (event : SafetyEvent) (in_private_context : Bool) (c : ℕ)
      → s.current_level ≡ some c
      → trigger_event s event in_private_context ≡ ok t
      → t.world ≡ s.world
  trigger_event-world s t event in_private_context c h e =
      elim (Option-cases (get_dest_level_for_event (s.levels c) event in_private_context)) [
        | inl d ↦ cc (trigger_event-none s event in_private_context c h d)
        | inr (n, d) ↦ cc (trigger_event-some s event in_private_context c n h d)
      ]

  pub make_request-Runs :
      (s : System W V) (r : Request) (c : ℕ)
      → s.current_level ≡ some c
      → (s' : System W V) × (make_request s r ≡ ok s')
        × Keeps s s'
        × IsServed s.levels c s'.next_level r
  unfolding make_request
  make_request-Runs s (in_context event) c h = trigger_event-Runs s event true c h
  make_request-Runs s (outside event) c h = trigger_event-Runs s event false c h

  -- In a level any sequence of events triggers without a fault. It leaves the current level and all
  -- level objects as they are, never raises the pending level, and leaves pending a level that is
  -- at most as high as the destination of each of the events that has one there.
  pub make_requests-Runs :
      (s : System W V) (rs : List Request) (c : ℕ)
      → s.current_level ≡ some c
      → (s' : System W V) × (make_requests s rs ≡ ok s')
        × Keeps s s'
        × All (IsServed s.levels c s'.next_level) rs
  unfolding make_requests
  make_requests-Runs s [] c h = (s, refl, Keeps-refl s, tt)
  make_requests-Runs s (r ∷ rs) c h =
      let (t, e, k, first) = make_request-Runs s r c h in
      let (u, e', l, others) = make_requests-Runs t rs c (k.current ∙ h) in
      (
        u,
        rw e e',
        Keeps-trans k l,
        (
          λ n d. bound_later (rank (s.levels n).id) k l (first n d),
          subst (λ heap. All (IsServed heap c u.next_level) rs) k.levels others,
        ),
      )

-- With another thread the loop can fail. When a level that is not lower is pending, the first round
-- expects it in the next one; if `run` takes it in between, the next round reads through a null
-- pointer.
pub store_round_race :
    {W V : Type 0} (heap : Store (Level W V)) (new_level pending : ℕ)
    → level_lt (heap pending) (heap new_level) ≡ false
    → let left = (take_next_level rounds none (some pending)).1 in
      (store_round heap none new_level (some pending) ≡ retry (some pending))
      × (left ≡ none)
      × (store_round heap (some pending) new_level left ≡ null_read)
unfolding store_round
store_round_race heap new_level pending h = (
  ground arith,
  ground (arith, take_next_level_lem (some pending)),
  ground (arith, take_next_level_lem (some pending)),
)

-- ===== src/Safety/Properties/Events.antt =====
-- Numbering the levels, and registering an event for several levels at once:
-- src/safety/SafetyProperties.cpp.
use eeros_framework.Base.{
  ℕ, suc, ◌+◌, ◌^◌, ◌<◌, ◌≡◌, refl, ap, ◌∙◌, inl, inr, Bool, false, ◌&&◌, ◌||◌, none, some, List,
  [], ◌∷◌, ◌++◌, arith, ◌==◌, leb, if◌then◌else◌, is_some, not, update_ne, Has, length,
  length-append, Store, update,
}
use eeros_framework.Safety.Level.{
  SafetyEvent, EventType, Level, rank, find, insert, add_event, get_dest_level_for_event,
  is_private,
}
use eeros_framework.Safety.Properties.{
  Properties, add_level, add_event_to_level, add_event_where, add_event_to_level_and_above,
  add_event_to_level_and_below, add_event_to_all_levels_between,
}

abbrev pub Transitions : Type 0
Transitions = List (ℕ × (ℕ × EventType))

-- An event keeps the destination that was registered first.
pub find-insert :
    (k j : ℕ) (v : ℕ × EventType) (m : Transitions)
    → find j (insert k v m)
      ≡ (if k == j then (if is_some (find k m) then find k m else some v) else find j m)
unfolding find insert
find-insert k j v [] = ground arith
find-insert k j v ((i, w) ∷ m) = ground (arith, find-insert k j v m)

insert_again :
    (k : ℕ) (v : ℕ × EventType) (m : Transitions) → insert k v (insert k v m) ≡ insert k v m
unfolding insert
insert_again k v [] = ground arith
insert_again k v ((i, w) ∷ m) = ground (arith, insert_again k v m)

unfoldable pub contains : ℕ → List ℕ → Bool
contains q [] = false
contains q (x ∷ xs) = x == q || contains q xs

module _ {W V : Type 0} (event : SafetyEvent) (next_level : ℕ) (type : EventType) where
  add_event_again :
      (l : Level W V)
      → add_event (add_event l event next_level type) event next_level type
        ≡ add_event l event next_level type
  unfolding add_event
  add_event_again l =
      ap (λ t. record l { transitions = t })
        (insert_again event.id (next_level, type) l.transitions)

  id-add_event : (l : Level W V) → (add_event l event next_level type).id ≡ l.id
  unfolding add_event
  id-add_event l = refl

  pub add_event_where_lem :
      (test : ℕ → Bool) (ls : List ℕ) (heap : Store (Level W V)) (q : ℕ)
      → add_event_where test ls heap event next_level type q ≡ (
          if contains q ls && test (rank (heap q).id)
          then add_event (heap q) event next_level type
          else heap q)
  unfolding add_event_where contains
  add_event_where_lem test [] heap q = refl
  add_event_where_lem test (l ∷ ls) heap q = ground (
    arith,
    add_event_where_lem test ls heap q,
    add_event_where_lem test ls (add_event_to_level heap l event next_level type) q,
    id-add_event (heap q),
    add_event_again (heap q),
  )

  -- An event that is new to a level leads to the registered destination, unless it is private and
  -- not triggered from a private context; an event that the level knows already, and every other
  -- event, leads where it led before.
  pub get_dest_level_for_event-add_event :
      (l : Level W V) (e : SafetyEvent) (private_event_ok : Bool)
      → get_dest_level_for_event (add_event l event next_level type) e private_event_ok ≡ (
          if (event.id == e.id) && not (is_some (find event.id l.transitions))
          then (if not (is_private type) || private_event_ok then some next_level else none)
          else get_dest_level_for_event l e private_event_ok)
  unfolding get_dest_level_for_event add_event
  get_dest_level_for_event-add_event l e private_event_ok =
      ground (arith, find-insert event.id e.id (next_level, type) l.transitions)

  -- The three operations register the event exactly with the listed levels whose id is at least
  -- that of `level`, at most that of `level`, or between those of `lower` and `level`, and leave
  -- every other level as it is.
  pub add_event_ranges :
      (p : Properties) (heap : Store (Level W V)) (level lower q : ℕ)
      → let changed = add_event (heap q) event next_level type in
        let listed = contains q p.levels in
        let at_least = leb (rank (heap level).id) (rank (heap q).id) in
        let at_most = leb (rank (heap q).id) (rank (heap level).id) in
        let from_lower = leb (rank (heap lower).id) (rank (heap q).id) in
        (add_event_to_level_and_above p heap level event next_level type q
          ≡ (if listed && at_least then changed else heap q))
        × (add_event_to_level_and_below p heap level event next_level type q
            ≡ (if listed && at_most then changed else heap q))
        × (add_event_to_all_levels_between p heap lower level event next_level type q
            ≡ (if listed && (from_lower && at_most) then changed else heap q))
  unfolding add_event_to_level_and_above add_event_to_level_and_below
      add_event_to_all_levels_between
  add_event_ranges p heap level lower q = (
    add_event_where_lem _ p.levels heap q,
    add_event_where_lem _ p.levels heap q,
    add_event_where_lem _ p.levels heap q,
  )

-- The listed levels have the ids `from`, `from + 1`, ….
abbrev pub AreNumbered : {W V : Type 0} → Store (Level W V) → ℕ → List ℕ → Type 0
AreNumbered heap from [] = Unit
AreNumbered heap from (l ∷ ls) = ((heap l).id ≡ from) × AreNumbered heap (suc from) ls

pub record IsNumbered {W V : Type 0} (p : Properties) (heap : Store (Level W V)) : Type 0 where
  pub numbered : AreNumbered heap 0 p.levels
  pub counted : p.count ≡ length p.levels

module _ {W V : Type 0} where
  AreNumbered-update :
      (heap : Store (Level W V)) (from l : ℕ) (v : Level W V) (ls : List ℕ)
      → ¬ Has l ls
      → AreNumbered heap from ls
      → AreNumbered (update heap l v) from ls
  AreNumbered-update heap from l v [] new h = tt
  AreNumbered-update heap from l v (k ∷ ls) new h = (
    ap (λ (t : Level W V). t.id) (update_ne heap l k v (λ e. new (inl e))) ∙ h.0,
    AreNumbered-update heap (suc from) l v ls (λ m. new (inr m)) h.1,
  )

  AreNumbered-append :
      (heap : Store (Level W V)) (from l : ℕ) (ls : List ℕ)
      → AreNumbered heap from ls
      → (heap l).id ≡ from + length ls
      → AreNumbered heap from (ls ++ (l ∷ []))
  AreNumbered-append heap from l [] h e = (omega arith, tt)
  AreNumbered-append heap from l (k ∷ ls) h e =
      (h.0, AreNumbered-append heap (suc from) l ls h.1 (omega arith))

  -- Adding a level that is not yet there keeps the levels numbered by their place in the list, as
  -- long as their number fits in 32 bits.
  pub add_level-IsNumbered :
      (p : Properties) (heap : Store (Level W V)) (l : ℕ)
      → IsNumbered p heap
      → ¬ Has l p.levels
      → length p.levels + 1 < 2 ^ 32
      → IsNumbered (add_level p heap l).0 (add_level p heap l).1
  unfolding add_level
  add_level-IsNumbered p heap l v new small = record {
    numbered =
        AreNumbered-append (add_level p heap l).1 0 l p.levels
          (AreNumbered-update heap 0 l _ p.levels new v.numbered) (ground (arith, v.counted));
    counted = omega (arith, length-append p.levels (l ∷ []), v.counted);
  }

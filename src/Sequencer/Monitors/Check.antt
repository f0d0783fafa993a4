-- ===== src/Sequencer/Monitors/Check.antt =====
-- What `checkMonitors` does when one monitor of the caller stack fires.
use eeros_framework.Base.{
  ℕ, ◌≡◌, refl, ◌≢◌, Bool, true, false, some, List, ◌∷◌, ◌++◌, Store, update, ==_iff, if◌then◌else◌,
  All,
}
use eeros_framework.Sequencer.Monitors.{aborting, Monitor, BaseSequence, apply_behavior, stops}
use eeros_framework.Sequencer.Monitors.Fired.{set_aborting}
use eeros_framework.Sequencer.Monitors.Quiet.{AreQuiet}

-- The owner of a monitor that has just fired.
abbrev fired_owner : Monitor → BaseSequence → BaseSequence
fired_owner m s =
    apply_behavior m.behavior
      (record s { monitor_fired = true; active_monitor = some m; in_exc_processing = false })

-- The monitor `m` fires, whatever the world, and no other monitor of the caller stack of `self`
-- does; `before` are the sequences called below the owner of `m`. No monitor fired on them or on
-- the owner before, and the owner runs no exception sequence.
pub record FiresAlone {W : Type 0} (validate : ℕ → W → Bool × W) (h : Store BaseSequence) (self : ℕ)
    (m : Monitor) (before : List ℕ) : Type 0 where
  pub after : List ℕ
  pub earlier : List Monitor
  pub later : List Monitor
  pub stack : (h self).caller_stack ≡ before ++ (m.owner ∷ after)
  pub monitors : (h m.owner).monitors ≡ earlier ++ (m ∷ later)
  pub fires : (w : W) → (validate m.condition w).0 ≡ true
  pub quiet_earlier : AreQuiet validate earlier
  pub quiet_later : AreQuiet validate later
  pub quiet_before : All (λ s. AreQuiet validate (h s).monitors) before
  pub quiet_after : All (λ s. AreQuiet validate (h s).monitors) after
  pub others_before : All (λ s. m.owner ≢ s) before
  pub others_after : All (λ s. m.owner ≢ s) after
  pub not_fired_before : All (λ s. (h s).monitor_fired ≡ false) before
  pub not_fired : (h m.owner).monitor_fired ≡ false
  pub not_processing : (h m.owner).in_exc_processing ≡ false

-- The store after monitor `m` fired, with the sequences `callees` called below its owner.
pub after_fired : Monitor → List ℕ → Store BaseSequence → Store BaseSequence
after_fired m callees h =
    let s = record (h m.owner) {
      monitor_fired = true;
      active_monitor = some m;
      in_exc_processing = false;
    } in
    let h' = update h m.owner (apply_behavior m.behavior s) in
    if stops m.behavior then set_aborting callees h' else h'

pub after_fired-head :
    (m : Monitor) (self : ℕ) (callees : List ℕ) (h : Store BaseSequence)
    → stops m.behavior ≡ true
    → (after_fired m (self ∷ callees) h self).state ≡ aborting
unfolding after_fired
after_fired-head m self callees h st = rw (st, (==_iff self self).1 refl) refl

-- ===== src/Safety/System/Construct.antt =====
-- The constructor of the safety system, and its first cycle.
use eeros_framework.Base.{ℕ, ◌≡◌, refl, true, none, some, Store, update, ok}
use eeros_framework.Safety.Level.{OutputAction, Level}
use eeros_framework.Safety.Properties.{Properties, verify}
use eeros_framework.Safety.System.{System, Hal, run, construct}
use eeros_framework.Safety.System.Cycle.{run_enters}

module _ {W V : Type 0} (p : Properties) (heap : Store (Level W V)) (outs : Store (OutputAction V))
    (w : W) where
  abbrev pub started : ℕ → System W V
  started e = record {
    properties = p;
    levels = update heap e (record (heap e) { nof_activations = 0 });
    output_actions = outs;
    current_level = none;
    next_level = some e;
    entry_level = some e;
    world = w;
  }

  construct-ok :
      (e : ℕ)
      → verify p heap outs ≡ ok true
      → p.entry_level ≡ some e
      → construct 0 p heap outs w ≡ (1, ok (started e))
  unfolding construct
  construct-ok e h he = rw (h, he)

  -- With properties that `verify` accepts and no instance before it, the constructor succeeds, and
  -- the first cycle of the safety system enters the entry level without a fault.
  pub construct_starts :
      (hal : Hal W V) (e : ℕ)
      → verify p heap outs ≡ ok true
      → p.entry_level ≡ some e
      → (s : System W V) × (t : System W V) × (construct 0 p heap outs w ≡ (1, ok s))
        × (run hal s ≡ ok t)
        × (t.current_level ≡ some e)
  construct_starts hal e h he =
      let (t, r, c, _) = run_enters hal (started e) e refl in
      (started e, t, construct-ok e h he, r, c)

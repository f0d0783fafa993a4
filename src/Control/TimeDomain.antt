-- ===== src/Control/TimeDomain.antt =====
-- A time domain runs its blocks: src/control/TimeDomain.cpp. `W` is the rest of the world: `exec`
-- runs the block at an address and gives the fault that it threw, if any, and `trigger` is
-- `triggerEvent` of the safety system, for the event with a number.
use eeros_framework.Base.{
  ℕ, ◌≡◌, ◌≢◌, refl, ap, fun_ext, ◌∙◌, Bool, true, false, Option, none, some, List, [], ◌∷◌, ◌++◌,
  arith, ◌==◌, if◌then◌else◌, Bool-cases, inl, inr, ◌⊎◌, Fault, not_connected, nan_output,
  no_safety_event,
}

-- `event` is the registered event, none while no safety system is registered.
pub record TimeDomain : Type 0 where
  pub running : Bool
  pub blocks : List ℕ
  pub event : Option ℕ

pub create : TimeDomain
create = record { running = true; blocks = []; event = none }

pub register_safety_event : ℕ → TimeDomain → TimeDomain
register_safety_event e td = record td { event = some e }

pub start : TimeDomain → TimeDomain
start td = record td { running = true }

pub stop : TimeDomain → TimeDomain
stop td = record td { running = false }

pub add_block : ℕ → TimeDomain → TimeDomain
add_block b td = record td { blocks = td.blocks ++ (b ∷ []) }

-- `std::list::remove`
remove : ℕ → List ℕ → List ℕ
remove b [] = []
remove b (c ∷ cs) = let rest = remove b cs in if c == b then rest else c ∷ rest

pub remove_block : ℕ → TimeDomain → TimeDomain
unfolding remove
remove_block b td = record td { blocks = remove b td.blocks }

module _ {W : Type 0} where
  continue : W × Option Fault → (W → W × Option Fault) → W × Option Fault
  continue (w, none) next = next w
  continue (w, some f) next = (w, some f)

module _ {W : Type 0} (trigger : ℕ → W → W) where
  -- The catch clauses: the world after them, and the fault that leaves `run`.
  handle : Option ℕ → W → W × Option Fault
  handle none w = (w, some no_safety_event)
  handle (some e) w = (trigger e w, none)

  catch : Option ℕ → W × Option Fault → W × Option Fault
  unfolding handle
  catch event (w, none) = (w, none)
  catch event (w, some not_connected) = handle event w
  catch event (w, some nan_output) = handle event w
  catch event (w, some f) = (w, some f)

module _ {W : Type 0} (exec : ℕ → W → W × Option Fault) where
  -- The loop over the blocks, left at the first fault.
  run_blocks : List ℕ → W → W × Option Fault
  unfolding continue
  run_blocks [] w = (w, none)
  run_blocks (b ∷ bs) w = continue (exec b w) (λ w'. run_blocks bs w')

  pub run : (ℕ → W → W) → TimeDomain → W → W × Option Fault
  unfolding run_blocks catch
  run trigger td w =
      if td.running then catch trigger td.event (run_blocks td.blocks w) else (w, none)

-- The blocks of a list run one after the other, without a fault, from one world to another.
pub data Completes {W : Type 0} (exec : ℕ → W → W × Option Fault) : List ℕ → W → W → Type 0 where
  done : {w : W} → Completes exec [] w w
  block :
      {b : ℕ} {bs : List ℕ} {w w' w2 : W}
      → exec b w ≡ (w', none)
      → Completes exec bs w' w2
      → Completes exec (b ∷ bs) w w2

module _ {W : Type 0} (exec : ℕ → W → W × Option Fault) (trigger : ℕ → W → W) where
  run_blocks-fault :
      (before after : List ℕ) (b : ℕ) (w w1 w2 : W) (f : Fault)
      → Completes exec before w w1
      → exec b w1 ≡ (w2, some f)
      → run_blocks exec (before ++ (b ∷ after)) w ≡ (w2, some f)
  unfolding run_blocks continue
  run_blocks-fault _ after b w w1 w2 f done e =
      ap (λ r. continue r (λ v. run_blocks exec after v)) e
  run_blocks-fault _ after b w w1 w2 f (block {b = c} {bs = bs} d cs) e =
      ap (λ r. continue r (λ v. run_blocks exec (bs ++ (b ∷ after)) v)) d
      ∙ run_blocks-fault bs after b _ w1 w2 f cs e

  -- When a block of a running time domain meets an unconnected input, the blocks behind it are not
  -- run; the registered event is triggered and no fault leaves `run`, or, with no event registered,
  -- the fault that there is none does. A NaN at an output is handled in the same way.
  pub run-catches :
      (td : TimeDomain) (before after : List ℕ) (b : ℕ) (w w1 w2 : W) (f : Fault)
      → td.running ≡ true
      → td.blocks ≡ before ++ (b ∷ after)
      → Completes exec before w w1
      → exec b w1 ≡ (w2, some f)
      → (f ≡ not_connected) ⊎ (f ≡ nan_output)
      → run exec trigger td w
        ≡ (elim td.event [ none ↦ (w2, some no_safety_event) | some e ↦ (trigger e w2, none) ])
  unfolding run catch handle
  run-catches td before after b w w1 w2 f r l c e k = rw r (
      ap (λ bs. catch trigger td.event (run_blocks exec bs w)) l
      ∙ ap (catch trigger td.event) (run_blocks-fault before after b w w1 w2 f c e)
      ∙ elim k [
        | inl p ↦ ap (λ g. catch trigger td.event (w2, some g)) p ∙ handled td.event
        | inr p ↦ ap (λ g. catch trigger td.event (w2, some g)) p ∙ handled td.event
      ])
    where
      handled :
          (event : Option ℕ)
          → handle trigger event w2
            ≡ (elim event [ none ↦ (w2, some no_safety_event) | some e ↦ (trigger e w2, none) ])
      handled none = refl
      handled (some e) = refl

  -- A block that was removed is not run any more: what its `run` would do makes no difference.
  pub run-remove_block :
      (other : ℕ → W → W × Option Fault) (b : ℕ) (td : TimeDomain) (w : W)
      → ((c : ℕ) (v : W) → b ≢ c → exec c v ≡ other c v)
      → run exec trigger (remove_block b td) w ≡ run other trigger (remove_block b td) w
  unfolding run remove_block remove run_blocks
  run-remove_block other b td w same =
      ap (λ r. if td.running then catch trigger td.event r else (w, none)) (go td.blocks w)
    where
      go :
          (bs : List ℕ) (v : W) → run_blocks exec (remove b bs) v ≡ run_blocks other (remove b bs) v
      go [] v = refl
      go (c ∷ cs) v = elim (Bool-cases (c == b)) [
        | inl h ↦ rw h (go cs v)
        | inr h ↦
            let ne : b ≢ c = ground arith in
            rw h (
              ap (λ r. continue r (λ u. run_blocks exec (remove b cs) u)) (same c v ne)
              ∙ ap (continue (other c v)) (fun_ext (go cs)))
      ]

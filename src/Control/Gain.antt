-- ===== src/Control/Gain.antt =====
-- The block that amplifies a signal: includes/eeros/control/Gain.hpp, where the gain and the signal
-- are of one arithmetic type.
pub mod Smooth
mod Examples
use eeros_framework.Base.{
  ℕ, zero, suc, ◌≡◌, refl, Bool, true, false, not, ◌&&◌, List, [], ◌∷◌, if◌then◌else◌, Order,
}
use eeros_framework.Control.Signals.{Signal}

-- The arithmetic of the type, with `fabs` and `sqrt`; `two` is 2.
pub record Arithmetic (T : Type 0) : Type 0 where
  pub zero : T
  pub two : T
  pub add : T → T → T
  pub sub : T → T → T
  pub mul : T → T → T
  pub neg : T → T
  pub abs : T → T
  pub sqrt : T → T

pub record Gain (T : Type 0) : Type 0 where
  pub gain : T
  pub max_gain : T
  pub min_gain : T
  pub target_gain : T
  pub gain_diff : T
  pub enabled : Bool
  pub smooth_change : Bool
  pub parabolic : Bool
  pub parabolic_switch_point : T

module _ {T : Type 0} (o : Order T) (a : Arithmetic T) where
  -- `Gain(c, maxGain, minGain)`; the switch point is `junk`.
  pub create : T → T → T → T → Gain T
  create c max min junk = record {
    gain = c;
    max_gain = max;
    min_gain = min;
    target_gain = c;
    gain_diff = a.zero;
    enabled = true;
    smooth_change = false;
    parabolic = false;
    parabolic_switch_point = junk;
  }

  -- The two halves of the smooth change and the two limits, each on the value of `gain` so far.
  abbrev pub rise : Gain T → T → T
  rise g v =
      if o.lt v g.target_gain
      then (let w = a.add v g.gain_diff in if o.lt g.target_gain w then g.target_gain else w)
      else v

  abbrev pub fall : Gain T → T → T
  fall g v =
      if o.lt g.target_gain v
      then (let w = a.sub v g.gain_diff in if o.lt w g.target_gain then g.target_gain else w)
      else v

  abbrev pub limit : Gain T → T → T
  limit g v =
      let w = if o.lt g.max_gain v then g.max_gain else v in
      if o.lt w g.min_gain then g.min_gain else w

  -- The gain that a run makes of the gain before.
  pub next_gain : Gain T → T
  next_gain g = limit g (if g.smooth_change then fall g (rise g g.gain) else g.gain)

  -- `calculateParabolic`
  pub calculate_parabolic : Gain T → T → T
  calculate_parabolic g v =
      let p = g.parabolic_switch_point in
      if o.lt p (a.abs v)
      then (if not (o.lt v a.zero)
          then a.mul g.gain (a.sqrt (a.mul p (a.sub (a.mul a.two v) p)))
          else a.mul g.gain (a.neg (a.sqrt (a.mul p (a.sub (a.mul (a.neg a.two) v) p)))))
      else a.mul g.gain v

  -- `run` with a signal at the input: the new state and the signal at the output.
  pub run : Signal T → Gain T → Gain T × Signal T
  unfolding calculate_parabolic
  run s g =
      let g' = record g { gain = next_gain g } in
      (
        g',
        record {
          value =
              if g.enabled
              then (if g.parabolic then calculate_parabolic g' s.value else a.mul g'.gain s.value)
              else s.value;
          timestamp = s.timestamp;
        },
      )

  pub set_gain : T → Gain T → Gain T
  set_gain c g =
      if not (o.lt g.max_gain c) && not (o.lt c g.min_gain)
      then (if g.smooth_change then record g { target_gain = c } else record g { gain = c })
      else g

module _ {T : Type 0} where
  pub enable : Gain T → Gain T
  enable g = record g { enabled = true }

  pub disable : Gain T → Gain T
  disable g = record g { enabled = false }

  pub enable_smooth_change : Bool → Gain T → Gain T
  enable_smooth_change on g = record g { smooth_change = on }

  pub enable_parabolic_gain : Bool → Gain T → Gain T
  enable_parabolic_gain on g = record g { parabolic = on }

  pub set_max_gain : T → Gain T → Gain T
  set_max_gain max g = record g { max_gain = max }

  pub set_min_gain : T → Gain T → Gain T
  set_min_gain min g = record g { min_gain = min }

  pub set_gain_diff : T → Gain T → Gain T
  set_gain_diff diff g = record g { gain_diff = diff }

  pub set_parabolic_gain_params : T → Gain T → Gain T
  set_parabolic_gain_params p g = record g { parabolic_switch_point = p }

-- ===== src/Robot/Gripper.antt =====
-- franka_deploy/robot/gripper_runtime.py: the decision to grasp or to open, and the loop that acts on it.
pub mod Commands
pub mod Failures
pub mod Thread
mod Examples
use franka_deploy.Common.{
  ◌≡◌, Bool, true, false, not, ◌&&◌, Option, none, some, List, [], ◌∷◌, ◌-ℤ◌, ltb_ℤ, leb_ℤ, Float,
  nought, Numpy, if◌then◌else◌, Result, ok, err,
}

pub data Command : Type 0 where
  grasp move : Command

-- `last_change_t` is `none` for minus infinity.
pub record GripperHysteresis : Type 0 where
  pub close_at : Float
  pub open_at : Float
  pub min_dwell_s : Float
  pub closed : Bool
  pub last_change_t : Option Float

-- `none` is the `ValueError` of `__init__`.
unfoldable pub make : Float → Float → Float → Option GripperHysteresis
make close_at open_at min_dwell_s =
    if not (ltb_ℤ open_at close_at)
    then none
    else some (record {
      close_at = close_at;
      open_at = open_at;
      min_dwell_s = min_dwell_s;
      closed = false;
      last_change_t = none;
    })

-- `now - last_change_t < min_dwell_s`, where nothing is less than infinity.
abbrev pub dwells : Float → Option Float → Float → Bool
dwells now none min_dwell_s = false
dwells now (some last) min_dwell_s = ltb_ℤ (now -ℤ last) min_dwell_s

unfoldable pub decide : GripperHysteresis → Float → Float → GripperHysteresis × Option Command
decide g trigger now =
    if dwells now g.last_change_t g.min_dwell_s
    then (g, none)
    else if not g.closed && leb_ℤ g.close_at trigger
    then (record g { closed = true; last_change_t = some now }, some grasp)
    else if g.closed && leb_ℤ trigger g.open_at
    then (record g { closed = false; last_change_t = some now }, some move)
    else (g, none)

-- The commands of a sequence of decisions, each with its time.
abbrev pub note : Option Command → Float → List (Command × Float) → List (Command × Float)
note none now rest = rest
note (some c) now rest = (c, now) ∷ rest

unfoldable pub commands : GripperHysteresis → List (Float × Float) → List (Command × Float)
commands g [] = []
commands g ((trigger, now) ∷ polls) =
    let (g', command) = decide g trigger now in note command now (commands g' polls)

pub record GripperRuntime : Type 0 where
  pub hysteresis : GripperHysteresis
  pub width : Float
  pub target_trigger : Float

unfoldable pub set_target : Numpy → GripperRuntime → Float → GripperRuntime
set_target np g trigger = record g { target_trigger = np.clip trigger nought (np.lit 1 0) }

-- What the hand does in one round: whether the blocking call of a command returns or raises, and the
-- width that it then reads, if the read does not raise.
pub record Hand : Type 0 where
  pub command_returns : Bool
  pub read_once : Option Float

abbrev pub width_after : Option Command → Hand → Float → Float
width_after (some c) h width =
    if h.command_returns then elim h.read_once [ none ↦ width | some w ↦ w ] else width
width_after none h width = elim h.read_once [ none ↦ width | some w ↦ w ]

-- One round of `_loop`: the new runtime and the command that the hand was sent.
unfoldable pub loop_round : GripperRuntime → Float → Hand → GripperRuntime × Option Command
unfolding decide
loop_round g now hand =
    let (hysteresis, decision) = decide g.hysteresis g.target_trigger now in
    (record g { hysteresis = hysteresis; width = width_after decision hand g.width }, decision)

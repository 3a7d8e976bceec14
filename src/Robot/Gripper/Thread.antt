-- ===== src/Robot/Gripper/Thread.antt =====
-- The life of `GripperRuntime` in franka_deploy/robot/gripper_runtime.py: its start, its thread and its stop.
-- What the hand does comes in as arguments; printing and the lock are left out.
use mathlib.Core.Path.{subst}
use franka_deploy.Common.{
  ◌||◌, ◌⊎◌, inl, inr, ap, sym, ◌≡◌, refl, arith, All, if-intro, Bool, true, false, Option, none,
  some, List, [], ◌∷◌, ◌-ℤ◌, ◌<ℤ◌, Float, Numpy, if◌then◌else◌, Result, ok, guard, or_raise, ◌>>=◌,
  ◌>>◌, >>=-ok, ok-injective, or_raise-ok,
}
use franka_deploy.Robot.Gripper.{
  Command, GripperHysteresis, make, decide, GripperRuntime, Hand, set_target, loop_round,
}

-- Why a start raises: the hand is not there, its homing or the read of its state fails, or the `ValueError` of
-- the hysteresis.
pub data StartError : Type 0 where
  no_hand homing_failed bad_thresholds read_failed : StartError

-- Whether the connection and the homing succeed, and the width that is read.
pub record Attached : Type 0 where
  pub connects : Bool
  pub homes : Bool
  pub width : Option Float

-- `alive` is whether the thread runs its loop; `hand_stopped` whether the hand was told to stop.
pub record GripperThread : Type 0 where
  pub runtime : GripperRuntime
  pub stop_evt : Bool
  pub alive : Bool
  pub hand_stopped : Bool

module _ (np : Numpy) where
  open np use {lit, div}

  abbrev pub max_gripper_width : Float
  max_gripper_width = lit 8 2

  -- The target is the measured width, so that nothing is asked of the hand.
  abbrev pub started : GripperHysteresis → Float → GripperThread
  started hysteresis width = record {
    runtime = record {
      hysteresis = hysteresis;
      width = width;
      target_trigger = lit 1 0 -ℤ div width max_gripper_width;
    };
    stop_evt = false;
    alive = true;
    hand_stopped = false;
  }

  unfoldable pub connect : Float → Float → Float → Bool → Attached → Result StartError GripperThread
  unfolding make
  connect close_at open_at min_dwell_s home_on_connect hand = do
    guard hand.connects no_hand
    guard (if home_on_connect then hand.homes else true) homing_failed
    hysteresis ← or_raise (make close_at open_at min_dwell_s) bad_thresholds
    width ← or_raise hand.width read_failed
    ok (started hysteresis width)

unfoldable pub get_width : GripperThread → Float
get_width g = g.runtime.width

-- A round of `_loop`: its time, what the hand does, a target that is set before the round reads it, and whether the
-- stop event is set while the round is under way, after its test of the event.
pub record Round : Type 0 where
  pub now : Float
  pub hand : Hand
  pub target : Option Float
  pub told : Bool

abbrev pub aimed : Numpy → GripperRuntime → Option Float → GripperRuntime
aimed np g none = g
aimed np g (some trigger) = set_target np g trigger

-- The rounds of `_loop`. One that has passed the test of the event goes on to its command.
unfoldable pub loop : Numpy → GripperThread → List Round → GripperThread × List (Option Command)
unfolding loop_round set_target
loop np g [] = (g, [])
loop np g (r ∷ rounds) =
    let (runtime, command) = loop_round (aimed np g.runtime r.target) r.now r.hand in
    let (g', commands) =
      loop np (record g { runtime = runtime; stop_evt = g.stop_evt || r.told }) rounds in
    if g.stop_evt then (record g { alive = false }, []) else (g', command ∷ commands)

-- `joins` says whether the thread ends within two seconds. An exception of the hand is dropped.
unfoldable pub stop : GripperThread → Bool → GripperThread
stop g joins = record g {
  stop_evt = true;
  alive = if joins then false else g.alive;
  hand_stopped = true;
}

-- A hand that is open further than the closing threshold, and stays without a target.
abbrev pub Calm : GripperThread → Type 0
Calm g =
    (g.runtime.hysteresis.closed ≡ false)
    × (g.runtime.target_trigger <ℤ g.runtime.hysteresis.close_at)

round-Calm :
    (r : GripperRuntime) (now : Float) (hand : Hand)
    → r.hysteresis.closed ≡ false
    → r.target_trigger <ℤ r.hysteresis.close_at
    → ((loop_round r now hand).1 ≡ none)
      × ((loop_round r now hand).0.hysteresis ≡ r.hysteresis)
      × ((loop_round r now hand).0.target_trigger ≡ r.target_trigger)
unfolding loop_round decide
round-Calm r now hand c below = ground arith

-- No target is set before the round.
abbrev pub Untargeted : Round → Type 0
Untargeted r = r.target ≡ none

loop-Calm :
    (np : Numpy) (g : GripperThread) (rounds : List Round)
    → All Untargeted rounds
    → Calm g
    → All (λ c. c ≡ none) (loop np g rounds).1
unfolding loop
loop-Calm np g [] untargeted calm = tt
loop-Calm np g (r ∷ rounds) untargeted (open_, below) =
    let (silent, same, target) = round-Calm g.runtime r.now r.hand open_ below in
    let g' = record g {
      runtime = (loop_round g.runtime r.now r.hand).0;
      stop_evt = g.stop_evt || r.told;
    } in
    let calm' : Calm g' = (rw same open_, rw (same, target) below) in
    rw untargeted.0 (
      if-intro (λ (out : GripperThread × List (Option Command)). All (λ c. c ≡ none) out.1)
        g.stop_evt tt (silent, loop-Calm np g' rounds untargeted.1 calm'))

make_open :
    (close_at open_at min_dwell_s : Float) (h : GripperHysteresis)
    → make close_at open_at min_dwell_s ≡ some h
    → (h.closed ≡ false) × (h.close_at ≡ close_at)
unfolding make
make_open close_at open_at min_dwell_s h made = ground arith

stopped_silent :
    (np : Numpy) (g : GripperThread) (rounds : List Round)
    → g.stop_evt ≡ true
    → (loop np g rounds).1 ≡ []
unfolding loop
stopped_silent np g [] stopped = refl
stopped_silent np g (r ∷ rounds) stopped = rw (stopped, loop) refl

stop-silent :
    (np : Numpy) (g : GripperThread) (joins : Bool) (rounds : List Round)
    → (loop np (stop g joins) rounds).1 ≡ []
unfolding stop
stop-silent np g joins rounds = stopped_silent np (stop g joins) rounds refl

-- At most one round sends a command.
abbrev pub AtMostOne : List (Option Command) → Type 0
AtMostOne commands = (commands ≡ []) ⊎ ((c : Option Command) × (commands ≡ c ∷ []))

or_true : (b : Bool) → (b || true) ≡ true
or_true true = refl
or_true false = refl

told_last :
    (np : Numpy) (g : GripperThread) (r : Round) (rounds : List Round)
    → r.told ≡ true
    → AtMostOne (loop np g (r ∷ rounds)).1
unfolding loop
told_last np g r rounds told =
    let after = record g {
      runtime = (loop_round (aimed np g.runtime r.target) r.now r.hand).0;
      stop_evt = g.stop_evt || r.told;
    } in
    let command = (loop_round (aimed np g.runtime r.target) r.now r.hand).1 in
    let silent = stopped_silent np after rounds (rw told (or_true g.stop_evt)) in
    if-intro (λ (out : GripperThread × List (Option Command)). AtMostOne out.1) g.stop_evt
      (inl refl) (inr (command, ap (λ cs. command ∷ cs) silent))

module _ (np : Numpy) where
  -- What a start that succeeds was made of.
  connect-ok :
      (close_at open_at min_dwell_s : Float) (home : Bool) (hand : Attached) (g : GripperThread)
      → connect np close_at open_at min_dwell_s home hand ≡ ok g
      → (h : GripperHysteresis) × (width : Float) × (make close_at open_at min_dwell_s ≡ some h)
        × (started np h width ≡ g)
  unfolding connect
  connect-ok close_at open_at min_dwell_s home hand g fine =
      let (_, _, h₁) = >>=-ok (guard hand.connects no_hand) _ fine in
      let (_, _, h₂) = >>=-ok (guard (if home then hand.homes else true) homing_failed) _ h₁ in
      let (hysteresis, made, h₃) =
        >>=-ok (or_raise (make close_at open_at min_dwell_s) bad_thresholds) _ h₂ in
      let (width, read, h₄) = >>=-ok (or_raise hand.width read_failed) _ h₃ in
      (
        hysteresis,
        width,
        or_raise-ok (make close_at open_at min_dwell_s) bad_thresholds hysteresis made,
        ok-injective (started np hysteresis width) g h₄,
      )

  started-Calm :
      (close_at open_at min_dwell_s width : Float) (h : GripperHysteresis)
      → make close_at open_at min_dwell_s ≡ some h
      → (started np h width).runtime.target_trigger <ℤ close_at
      → Calm (started np h width)
  started-Calm close_at open_at min_dwell_s width h made below =
      let (open_, same) = make_open close_at open_at min_dwell_s h made in (open_, rw same below)

  -- A gripper that is attached while it is open, so that its first target lies below the closing threshold,
  -- sends the hand no command in any rounds before which no target is set. Then, whatever targets are set:
  -- rounds that begin after it is told to stop send no command, whether or not the thread ends in time,
  -- and if it is told so while a round is under way, that round alone may still send one.
  pub connect-quiet :
      (close_at open_at min_dwell_s : Float) (home : Bool) (hand : Attached) (g : GripperThread)
      (rounds later : List Round) (joins : Bool) (r : Round)
      → connect np close_at open_at min_dwell_s home hand ≡ ok g
      → g.runtime.target_trigger <ℤ close_at
      → All Untargeted rounds
      → r.told ≡ true
      → let g' = (loop np g rounds).0 in
        All (λ c. c ≡ none) (loop np g rounds).1
        × ((loop np (stop g' joins) later).1 ≡ [])
        × AtMostOne (loop np g' (r ∷ later)).1
  connect-quiet close_at open_at min_dwell_s home hand g rounds later joins r fine below untargeted
        told =
      let (h, width, made, same) = connect-ok close_at open_at min_dwell_s home hand g fine in
      let calm : Calm (started np h width) =
        started-Calm close_at open_at min_dwell_s width h made
          (subst (λ (t : GripperThread). t.runtime.target_trigger <ℤ close_at) (sym same) below) in
      let g' = (loop np g rounds).0 in
      (
        loop-Calm np g rounds untargeted (subst Calm same calm),
        stop-silent np g' joins later,
        told_last np g' r later told,
      )

-- ===== src/Robot/Gripper/Examples.antt =====
-- The theorem about a gripper that is attached open, at a concrete hand, and tests.
use franka_deploy.Common.{
  ◌≡◌, refl, arith, maximum, minimum, true, false, none, some, List, [], ◌∷◌, pos, ◌-ℤ◌, All,
  decimal, err, ok,
}
use franka_deploy.Robot.Gripper.{GripperHysteresis, make, grasp, set_target, decide, loop_round}
use franka_deploy.Robot.Gripper.Thread
use franka_deploy.Robot.Gripper.Thread.{
  Attached, GripperThread, bad_thresholds, Round, connect, started, loop, stop,
}

abbrev hysteresis : GripperHysteresis
hysteresis = record {
  close_at = pos 6_000;
  open_at = pos 2_000;
  min_dwell_s = pos 5_000;
  closed = false;
  last_change_t = none;
}

-- Seven of eight centimetres.
abbrev wide : Attached
wide = record { connects = true; homes = false; width = some (pos 700) }

abbrev attached : GripperThread
attached = started decimal hysteresis (pos 700)

attached_of : connect decimal (pos 6_000) (pos 2_000) (pos 5_000) false wide ≡ ok attached
unfolding connect make
attached_of = refl

swapped_thresholds :
    connect decimal (pos 2_000) (pos 6_000) (pos 5_000) false wide ≡ err bad_thresholds
unfolding connect make
swapped_thresholds = refl

abbrev polls : List Round
polls =
    record {
      now = pos 0;
      hand = record { command_returns = true; read_once = some (pos 700) };
      target = none;
      told = false;
    }
    ∷ record {
      now = pos 500;
      hand = record { command_returns = true; read_once = none };
      target = none;
      told = false;
    }
    ∷ []

-- A target to close is set, and the stop comes while the hand is closing.
abbrev closing : Round
closing = record {
  now = pos 1_000;
  hand = record { command_returns = true; read_once = none };
  target = some (pos 9_000);
  told = true;
}

closes_once : (loop decimal attached (closing ∷ closing ∷ [])).1 ≡ some grasp ∷ []
unfolding loop set_target decide loop_round decimal maximum minimum ◌-ℤ◌
closes_once = refl

connect-quiet_example :
    All (λ c. c ≡ none) (loop decimal attached polls).1
    × ((loop decimal (stop (loop decimal attached polls).0 false) polls).1 ≡ [])
    × Thread.AtMostOne (loop decimal (loop decimal attached polls).0 (closing ∷ polls)).1
unfolding decimal ◌-ℤ◌
connect-quiet_example =
    Thread.connect-quiet decimal (pos 6_000) (pos 2_000) (pos 5_000) false wide attached polls polls
      false closing attached_of (omega arith) (refl, (refl, tt)) refl

-- ===== src/Robot/Gripper/Failures.antt =====
-- The gripper loop when the blocking calls raise.
use franka_deploy.Common.{
  ◌≡◌, arith, true, false, Option, none, some, List, [], ◌∷◌, ◌<ℤ◌, Float, All,
}
use franka_deploy.Robot.Gripper.{Command, grasp, GripperRuntime, Hand, decide, loop_round}

-- The commands of later rounds with one target.
unfoldable pub sent : GripperRuntime → List (Float × Hand) → List (Option Command)
sent g [] = []
sent g ((now, hand) ∷ rounds) =
    let (g', command) = loop_round g now hand in command ∷ sent g' rounds

round-closed :
    (g : GripperRuntime) (now : Float) (hand : Hand)
    → g.hysteresis.closed ≡ true
    → g.hysteresis.open_at <ℤ g.target_trigger
    → ((loop_round g now hand).1 ≡ none)
      × ((loop_round g now hand).0.hysteresis ≡ g.hysteresis)
      × ((loop_round g now hand).0.target_trigger ≡ g.target_trigger)
unfolding loop_round decide
round-closed g now hand c above = ground arith

sent-closed :
    (g : GripperRuntime) (rounds : List (Float × Hand))
    → g.hysteresis.closed ≡ true
    → g.hysteresis.open_at <ℤ g.target_trigger
    → All (λ c. c ≡ none) (sent g rounds)
unfolding sent
sent-closed g [] c above = tt
sent-closed g ((now, hand) ∷ rounds) c above =
    let (silent, same, target) = round-closed g now hand c above in
    (silent, sent-closed (loop_round g now hand).0 rounds (rw same c) (rw (same, target) above))

after_raise :
    (g : GripperRuntime) (now : Float) (hand : Hand)
    → (loop_round g now hand).1 ≡ some grasp
    → hand.command_returns ≡ false
    → ((loop_round g now hand).0.width ≡ g.width)
      × ((loop_round g now hand).0.hysteresis.closed ≡ true)
      × ((loop_round g now hand).0.hysteresis.open_at ≡ g.hysteresis.open_at)
      × ((loop_round g now hand).0.target_trigger ≡ g.target_trigger)
unfolding loop_round decide
after_raise g now hand e raised = ground arith

-- A grasp that raises is not tried again: the width stays what it was, and while the target stays
-- above the opening threshold no later round sends any command.
pub sent-grasp_raised :
    (g : GripperRuntime) (now : Float) (hand : Hand) (rounds : List (Float × Hand))
    → (loop_round g now hand).1 ≡ some grasp
    → hand.command_returns ≡ false
    → g.hysteresis.open_at <ℤ g.target_trigger
    → ((loop_round g now hand).0.width ≡ g.width)
      × All (λ c. c ≡ none) (sent (loop_round g now hand).0 rounds)
sent-grasp_raised g now hand rounds e raised above =
    let (width, closed, open_at, target) = after_raise g now hand e raised in
    (width, sent-closed (loop_round g now hand).0 rounds closed (rw (open_at, target) above))

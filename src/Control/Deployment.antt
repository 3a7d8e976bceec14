-- ===== src/Control/Deployment.antt =====
-- The policy thread with the adapter of the confirmed format and the kinematics of the arm.
pub mod Formats
mod Examples
use franka_deploy.Common.{ℕ, Option, none, some, List, [], ◌∷◌, Float, Vec, Numpy}
use franka_deploy.Control.Config.{LoopConfig}
use franka_deploy.Safety.Limits.{Joint, j1, j2, j3, j4, j5, j6, j7}
use franka_deploy.Safety.Workspace.{Axis, WorkspaceBounds}
use franka_deploy.Schema.Apply.{ActionSpaceAdapter, row_to_joint_target}
use franka_deploy.Kinematics.Trigonometry.{Trigonometry, Matrix4}
use franka_deploy.Kinematics.Frames.{geometry, fk, origin}
use franka_deploy.Schema.Apply.Deployed.{rotations}
use franka_deploy.Control.Ticks
use franka_deploy.Control.Ticks.{Fault, Tick, ThreadState}

abbrev pub all_joints : List Joint
all_joints = j1 ∷ j2 ∷ j3 ∷ j4 ∷ j5 ∷ j6 ∷ j7 ∷ []

module _ (np : Numpy) (trig : Trigonometry) (x_ee : Matrix4) (cfg : LoopConfig)
    (adapter : ActionSpaceAdapter) (workspace : WorkspaceBounds) where
  -- The rounds of `_run`, with what the modules beside it give.
  unfoldable pub rounds : ThreadState → List Tick → ThreadState × Option Fault
  rounds s ts =
      Ticks.rounds np cfg all_joints (λ q. origin (fk np trig x_ee q))
        (row_to_joint_target np (geometry np trig x_ee) (rotations np trig x_ee) adapter) workspace
        s ts

-- ===== src/Kinematics.antt =====
-- franka_deploy/kinematics/fr3_kinematics.py: the iterative solver and the step of an end-effector delta.
-- The trigonometry and the linear algebra come in as the fields of a record.
pub mod Reach
pub mod Trigonometry
pub mod Frames
pub mod Rotations
pub mod Chunks
pub mod Examples
use franka_deploy.Common.{
  ℕ, zero, suc, true, false, Option, none, some, List, neg, ◌+ℤ◌, ltb_ℤ, Float, Vec, nought, Numpy,
  if◌then◌else◌,
}
use franka_deploy.Safety.Limits.{Joint, fr3_q_lower, fr3_q_upper}
use franka_deploy.Safety.Workspace.{Axis, axis_x, axis_y, axis_z}

abbrev pub Rotation : Type 0
Rotation = Axis → Axis → Float

pub record Pose : Type 0 where
  pub position : Vec Axis
  pub rotation : Rotation

-- `fk`, the norm of the error between a target and a pose, the step of the damped least squares (`none`
-- where the linear system has no solution), and the matrix of an axis and angle.
pub record Geometry : Type 0 where
  pub fk : Vec Joint → Pose
  pub error_norm : Pose → Vec Joint → Float
  pub solve : Pose → Vec Joint → Option (Vec Joint)
  pub axis_angle_to_rot : Vec Axis → Rotation

module _ (np : Numpy) where
  open np use {lit, mul, clip}

  -- `R @ d` and `A @ B`.
  abbrev pub apply : Rotation → Vec Axis → Vec Axis
  apply r d a =
      mul (r a axis_x) (d axis_x) +ℤ mul (r a axis_y) (d axis_y) +ℤ mul (r a axis_z) (d axis_z)

  abbrev pub compose : Rotation → Rotation → Rotation
  compose r s a b =
      mul (r a axis_x) (s axis_x b)
      +ℤ mul (r a axis_y) (s axis_y b)
      +ℤ mul (r a axis_z) (s axis_z b)

  module _ (geo : Geometry) where
    open geo use {fk, error_norm, solve, axis_angle_to_rot}

    -- `FR3_Q_MIN` and `FR3_Q_MAX` are the limits of safety/limits.py again.
    unfoldable pub clipped : Vec Joint → Vec Joint → Vec Joint
    clipped q dq j = clip (q j +ℤ dq j) (fr3_q_lower np j) (fr3_q_upper np j)

    unfoldable pub ik_from : ℕ → Float → Pose → Vec Joint → Option (Vec Joint)
    ik_from zero tol target q = some q
    ik_from (suc iters) tol target q = elim (ltb_ℤ (error_norm target q) tol) [
      | true ↦ some q
      | false ↦ elim (solve target q) [
        | none ↦ none
        | some dq ↦ ik_from iters tol target (clipped q dq)
      ]
    ]

    unfoldable pub ik : Pose → Vec Joint → Option (Vec Joint)
    ik target q_seed = ik_from 30 (lit 1 5) target q_seed

    -- The pose that a delta in the frame of the tool leads to.
    unfoldable pub stepped : Pose → Vec Axis → Vec Axis → Float → Float → Pose
    stepped t dpos drot pos_max rot_max = record {
      position = λ a. t.position a +ℤ apply t.rotation (λ b. mul (dpos b) pos_max) a;
      rotation =
          compose (axis_angle_to_rot (apply t.rotation (λ b. mul (drot b) rot_max))) t.rotation;
    }

    -- The seven joints of the result.
    unfoldable pub ee_step_to_joint :
        Vec Axis → Vec Axis → Vec Joint → Float → Float → Option (Vec Joint)
    ee_step_to_joint dpos drot q_meas pos_max rot_max =
        ik (stepped (fk q_meas) dpos drot pos_max rot_max) q_meas

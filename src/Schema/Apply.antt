-- ===== src/Schema/Apply.antt =====
-- franka_deploy/schema/apply.py: the joint target that a row of a confirmed format stands for.
-- `none` is an exception: a row that is too short, an unknown format, or a solver that raises.
pub mod Targets
pub mod Given
pub mod Rows
pub mod Deployed
use franka_deploy.Common.{
  ℕ, zero, suc, ◌+◌, ◌-◌, Bool, true, false, Option, none, some, List, [], ◌∷◌, ◌+ℤ◌, pos, sub_ℕ,
  Float, Vec, nought, Numpy, if◌then◌else◌, length, take, drop, get_item, Result,
}
use franka_deploy.Safety.Limits.{Joint, j1, j2, j3, j4, j5, j6, j7}
use franka_deploy.Safety.Workspace.{Axis, axis_x, axis_y, axis_z}
use franka_deploy.Schema.Options.{◌>>=◌}
use franka_deploy.Schema.Spec.{
  Kind, joint_absolute, joint_delta, ee_absolute, ee_delta, other_kind, GripperConvention, zero_one,
  minus_one_one, no_gripper, RotationRepr, quat, rot6d, axis_angle, other_rotation, ActionSpaceSpec,
}
use franka_deploy.Kinematics
use franka_deploy.Kinematics.{Pose, Rotation, Geometry, ik, ee_step_to_joint}

-- The record of an adapter, and the width of its rotation.
pub record ActionSpaceAdapter : Type 0 where
  pub spec : ActionSpaceSpec
  pub rot_dim : ℕ

-- `_ROT_DIM`, which has no other key.
unfoldable pub rot_dim_of : Option RotationRepr → Option ℕ
rot_dim_of (some axis_angle) = some 3
rot_dim_of (some quat) = some 4
rot_dim_of (some rot6d) = some 6
rot_dim_of (some (other_rotation r)) = none
rot_dim_of none = some 0

unfoldable pub make : ActionSpaceSpec → Option ActionSpaceAdapter
make spec = elim (rot_dim_of spec.rotation_repr) [
  | none ↦ none
  | some n ↦ some (record { spec = spec; rot_dim = n })
]

-- An array of seven, or of three, entries; an assignment to one also takes a single entry.
abbrev pub exact_3 : List Float → Option (Vec Axis)
exact_3 (x ∷ y ∷ z ∷ []) = some (λ a. elim a [ axis_x ↦ x | axis_y ↦ y | axis_z ↦ z ])
exact_3 _ = none

abbrev pub broadcast_3 : List Float → Option (Vec Axis)
broadcast_3 (x ∷ []) = some (λ a. x)
broadcast_3 [] = none
broadcast_3 (x ∷ y ∷ xs) = exact_3 (x ∷ y ∷ xs)

abbrev pub exact_7 : List Float → Option (Vec Joint)
exact_7 (a ∷ b ∷ c ∷ d ∷ e ∷ f ∷ g ∷ []) =
    some (λ j. elim j [ j1 ↦ a | j2 ↦ b | j3 ↦ c | j4 ↦ d | j5 ↦ e | j6 ↦ f | j7 ↦ g ])
exact_7 _ = none

abbrev pub broadcast_7 : List Float → Option (Vec Joint)
broadcast_7 (x ∷ []) = some (λ j. x)
broadcast_7 [] = none
broadcast_7 (x ∷ y ∷ xs) = exact_7 (x ∷ y ∷ xs)

-- `quat_to_rot` and `rot6d_to_rot` of kinematics/rotations.py, and `axis_angle_to_rot` on an array.
pub record Rotations : Type 0 where
  pub quat_to_rot : List Float → Option Rotation
  pub rot6d_to_rot : List Float → Option Rotation
  pub axis_angle_to_rot : List Float → Option Rotation

module _ (np : Numpy) (geo : Geometry) (rots : Rotations) where
  open np use {lit, mul, div, clip}

  unfoldable pub gripper_to_0_1 : Float → GripperConvention → Float
  gripper_to_0_1 value minus_one_one = clip (div (value +ℤ lit 1 0) (lit 2 0)) nought (lit 1 0)
  gripper_to_0_1 value zero_one = clip value nought (lit 1 0)
  gripper_to_0_1 value no_gripper = clip value nought (lit 1 0)

  unfoldable pub rotation_matrix : List Float → Option RotationRepr → Option Rotation
  rotation_matrix v (some quat) = rots.quat_to_rot v
  rotation_matrix v (some rot6d) = rots.rot6d_to_rot v
  rotation_matrix v (some axis_angle) = rots.axis_angle_to_rot v
  rotation_matrix v (some (other_rotation r)) = none
  rotation_matrix v none = none

  unfoldable pub ee_absolute_target :
      ActionSpaceAdapter → List Float → Vec Joint → Option (Vec Joint)
  ee_absolute_target s row q_meas = do
    rot ← rotation_matrix (take s.rot_dim (drop 3 row)) s.spec.rotation_repr
    position ← broadcast_3 (take 3 row)
    ik np geo (record { position = position; rotation = rot }) q_meas

  -- `d[6]` of the row of seven that is put together needs six columns.
  unfoldable pub axis_angle_delta : ActionSpaceAdapter → List Float → Vec Joint → Option (Vec Joint)
  axis_angle_delta s row q_meas = do
    dpos ← exact_3 (take 3 row)
    drot ← exact_3 (take 3 (drop 3 row))
    ee_step_to_joint np geo dpos drot q_meas s.spec.delta_pos_scale s.spec.delta_rot_scale

  unfoldable pub matrix_delta : ActionSpaceAdapter → List Float → Vec Joint → Option (Vec Joint)
  matrix_delta s row q_meas = do
    rot ← rotation_matrix (take s.rot_dim (drop 3 row)) s.spec.rotation_repr
    dpos ← exact_3 (take 3 row)
    let now = geo.fk q_meas
    let moved = Kinematics.apply np now.rotation (λ a. mul (dpos a) s.spec.delta_pos_scale)
    ik np geo
        (record {
          position = λ a. now.position a +ℤ moved a;
          rotation = Kinematics.compose np rot now.rotation;
        })
        q_meas

  abbrev pub is_axis_angle : Option RotationRepr → Bool
  is_axis_angle (some axis_angle) = true
  is_axis_angle (some quat) = false
  is_axis_angle (some rot6d) = false
  is_axis_angle (some (other_rotation r)) = false
  is_axis_angle none = false

  unfoldable pub ee_delta_target : ActionSpaceAdapter → List Float → Vec Joint → Option (Vec Joint)
  ee_delta_target s row q_meas =
      if is_axis_angle s.spec.rotation_repr
      then axis_angle_delta s row q_meas
      else matrix_delta s row q_meas

  abbrev pub joints_for : Kind → ActionSpaceAdapter → List Float → Vec Joint → Option (Vec Joint)
  joints_for joint_absolute s row q_meas = broadcast_7 (take 7 row)
  joints_for joint_delta s row q_meas = do
    d ← broadcast_7 (take 7 row)
    some (λ j. q_meas j +ℤ mul (d j) s.spec.delta_joint_scale)
  joints_for ee_absolute s row q_meas = ee_absolute_target s row q_meas
  joints_for ee_delta s row q_meas = ee_delta_target s row q_meas
  joints_for (other_kind k) s row q_meas = none

  unfoldable pub gripper_of : ActionSpaceAdapter → List Float → Option Float
  gripper_of s row =
      if s.spec.has_gripper
      then (do
        value ← get_item row (sub_ℕ s.spec.dim 1)
        some (gripper_to_0_1 value s.spec.gripper_convention))
      else some nought

  unfoldable pub row_to_joint_target :
      ActionSpaceAdapter → List Float → Vec Joint → Option (Vec Joint × Float)
  row_to_joint_target s row q_meas = do
    gripper ← gripper_of s row
    q ← joints_for s.spec.kind s row q_meas
    some (q, gripper)

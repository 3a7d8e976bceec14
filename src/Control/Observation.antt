-- ===== src/Control/Observation.antt =====
-- `ee_pose_to_matrix`, `_mat_to_quat` and `_current_ctx_and_state` of franka_deploy/control_loop.py: what a prediction
-- is made from. Arrays are a type `Array`, made by `asarray` from their numbers.
pub mod Quaternions
mod Examples
use Prim.Native.String.{String}
use franka_deploy.Common.{
  Bool, true, false, ◌&&◌, Option, none, some, List, [], ◌∷◌, ◌+ℤ◌, ◌-ℤ◌, ltb_ℤ, Float, Vec, nought,
  Numpy, if◌then◌else◌,
}
use franka_deploy.Safety.Workspace.{Axis, axis_x, axis_y, axis_z}
use franka_deploy.Kinematics.Trigonometry.{
  Trigonometry, Matrix3, Matrix4, i0, i1, i2, i3, row_4, rows_4, index_of,
}
use franka_deploy.Schema.Options.{◌>>=◌}
use franka_deploy.Schema.Json.{number}
use franka_deploy.Schema.Encode.{Raw, plain}
use franka_deploy.Schema.Sources.{SourceContext, robot_state_dict}
use franka_deploy.Cameras.{CameraManager, read_cameras}

-- A column-major flat array of sixteen; the reshape of any other length raises.
unfoldable pub ee_pose_to_matrix : List Float → Option Matrix4
ee_pose_to_matrix (a ∷ b ∷ c ∷ d ∷ e ∷ f ∷ g ∷ h ∷ i ∷ j ∷ k ∷ l ∷ m ∷ n ∷ o ∷ p ∷ []) =
    some (rows_4 (row_4 a e i m) (row_4 b f j n) (row_4 c g k o) (row_4 d h l p))
ee_pose_to_matrix _ = none

-- Which of the four branches is taken: the trace is positive, or an entry of the diagonal is the largest.
pub data Pivot : Type 0 where
  by_trace : Pivot
  by_axis : Axis → Pivot

abbrev pub trace : Matrix3 → Float
trace r = r axis_x axis_x +ℤ r axis_y axis_y +ℤ r axis_z axis_z

unfoldable pub pivot_of : Matrix3 → Pivot
pivot_of r =
    if ltb_ℤ nought (trace r)
    then by_trace
    else if ltb_ℤ (r axis_y axis_y) (r axis_x axis_x) && ltb_ℤ (r axis_z axis_z) (r axis_x axis_x)
    then by_axis axis_x
    else if ltb_ℤ (r axis_z axis_z) (r axis_y axis_y)
    then by_axis axis_y
    else by_axis axis_z

module _ (np : Numpy) (trig : Trigonometry) where
  open np use {lit, mul, div}
  open trig use {sqrt}

  -- What the square root is taken of, in each of the four branches.
  unfoldable pub radicand : Pivot → Matrix3 → Float
  radicand by_trace r = trace r +ℤ lit 1 0
  radicand (by_axis axis_x) r = lit 1 0 +ℤ r axis_x axis_x -ℤ r axis_y axis_y -ℤ r axis_z axis_z
  radicand (by_axis axis_y) r = lit 1 0 +ℤ r axis_y axis_y -ℤ r axis_x axis_x -ℤ r axis_z axis_z
  radicand (by_axis axis_z) r = lit 1 0 +ℤ r axis_z axis_z -ℤ r axis_x axis_x -ℤ r axis_y axis_y

  -- `s`.
  unfoldable pub divisor : Matrix3 → Float
  unfolding pivot_of radicand
  divisor r = mul (sqrt (radicand (pivot_of r) r)) (lit 2 0)

  abbrev quarter : Float → Float
  quarter s = mul (lit 25 2) s

  -- [x, y, z, w], for the divisor `s`.
  unfoldable pub quat_by : Pivot → Matrix3 → Float → List Float
  quat_by by_trace r s =
      div (r axis_z axis_y -ℤ r axis_y axis_z) s
      ∷ div (r axis_x axis_z -ℤ r axis_z axis_x) s
      ∷ div (r axis_y axis_x -ℤ r axis_x axis_y) s
      ∷ quarter s
      ∷ []
  quat_by (by_axis axis_x) r s =
      quarter s
      ∷ div (r axis_x axis_y +ℤ r axis_y axis_x) s
      ∷ div (r axis_x axis_z +ℤ r axis_z axis_x) s
      ∷ div (r axis_z axis_y -ℤ r axis_y axis_z) s
      ∷ []
  quat_by (by_axis axis_y) r s =
      div (r axis_x axis_y +ℤ r axis_y axis_x) s
      ∷ quarter s
      ∷ div (r axis_y axis_z +ℤ r axis_z axis_y) s
      ∷ div (r axis_x axis_z -ℤ r axis_z axis_x) s
      ∷ []
  quat_by (by_axis axis_z) r s =
      div (r axis_x axis_z +ℤ r axis_z axis_x) s
      ∷ div (r axis_y axis_z +ℤ r axis_z axis_y) s
      ∷ quarter s
      ∷ div (r axis_y axis_x -ℤ r axis_x axis_y) s
      ∷ []

  unfoldable pub mat_to_quat : Matrix3 → List Float
  unfolding pivot_of divisor quat_by
  mat_to_quat r = quat_by (pivot_of r) r (divisor r)

  module _ {Array : Type 0} (asarray : List Float → Array) (append : Array → Raw Array → Array)
      (concatenate : Array → Array → Array) where
    -- The width of a gripper over its stroke, or zero without one.
    abbrev pub opening_of : Option Float → Float
    opening_of none = nought
    opening_of (some width) = div width (lit 8 2)

    -- The joints and their velocities, and the pose of the end effector: a state of the robot node.
    abbrev pub NodeState : Type 0
    NodeState = Array × Array × List Float

    unfoldable pub current_ctx_and_state :
        Option NodeState
        → Option Float
        → CameraManager Array
        → Option (SourceContext Array × NodeState × Vec Axis)
    unfolding ee_pose_to_matrix mat_to_quat robot_state_dict read_cameras
    current_ctx_and_state state gripper cameras = do
      (q, dq, ee_pose) ← state
      ee_mat ← ee_pose_to_matrix ee_pose
      let ee_pos : Vec Axis = λ a. ee_mat (index_of a) i3
      let ee_quat = mat_to_quat (λ a b. ee_mat (index_of a) (index_of b))
      let robot_state =
          robot_state_dict append concatenate q dq
            (asarray (ee_pos axis_x ∷ ee_pos axis_y ∷ ee_pos axis_z ∷ [])) (asarray ee_quat)
            (plain (number (opening_of gripper)))
      some (
        record { cameras = read_cameras cameras; robot_state = robot_state },
        (q, dq, ee_pose),
        ee_pos,
      )

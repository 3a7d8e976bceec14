-- ===== src/Kinematics/Chunks.antt =====
-- franka_deploy/kinematics/fr3_kinematics.py: rows of seven to joint targets of eight, for a waypoint, a step and
-- a whole chunk, and the relative proprioception. A row is its translation, its rotation and its gripper.
pub mod Anchors
pub mod Proprio
mod Examples
use franka_deploy.Common.{
  Option, none, some, List, [], ◌∷◌, ◌++◌, ◌+ℤ◌, ◌-ℤ◌, Float, Vec, nought, Numpy,
}
use franka_deploy.Safety.Limits.{Joint}
use franka_deploy.Safety.Workspace.{Axis, axis_x, axis_y, axis_z}
use franka_deploy.Kinematics.{Geometry, Pose, Rotation, apply, compose, ik, stepped}

abbrev pub Row : Type 0
Row = Vec Axis × Vec Axis × Float

-- Seven joints and the gripper.
abbrev pub Target : Type 0
Target = Vec Joint × Float

abbrev pub with_gripper : Float → Option (Vec Joint) → Option Target
with_gripper g none = none
with_gripper g (some q) = some (q, g)

module _ (np : Numpy) (geo : Geometry) where
  open np use {lit, div, clip}
  open geo use {fk}

  abbrev pub pos_max_wp : Float
  pos_max_wp = lit 30 2

  abbrev pub rot_max_wp : Float
  rot_max_wp = lit 15 1

  -- From -1..1 to 0..1.
  unfoldable pub gripper_out : Float → Float
  gripper_out g = clip (div (g +ℤ lit 1 0) (lit 2 0)) nought (lit 1 0)

  -- The pose of the anchor does not move with the seed of the solver.
  unfoldable pub ee_waypoint_step_to_joint :
      Row → Vec Joint → Vec Joint → Float → Float → Option Target
  unfolding ik stepped gripper_out
  ee_waypoint_step_to_joint (dpos, drot, g) q_anchor q_seed pos_max rot_max =
      with_gripper (gripper_out g)
        (ik np geo (stepped np geo (fk q_anchor) dpos drot pos_max rot_max) q_seed)

  unfoldable pub ee_step_to_joint : Row → Vec Joint → Float → Float → Option Target
  unfolding ik stepped gripper_out
  ee_step_to_joint (dpos, drot, g) q_meas pos_max rot_max =
      with_gripper (gripper_out g)
        (ik np geo (stepped np geo (fk q_meas) dpos drot pos_max rot_max) q_meas)

  -- The loop over the rows: `t0` is the pose of the measurement, `q` where the solver starts.
  abbrev pub and_rest : Option Target → (Vec Joint → Option (List Target)) → Option (List Target)
  and_rest none rest = none
  and_rest (some (q, g)) rest = elim (rest q) [ none ↦ none | some rows ↦ some ((q, g) ∷ rows) ]

  unfoldable pub chunk_from : Pose → Vec Joint → List Row → Float → Float → Option (List Target)
  unfolding ik stepped gripper_out
  chunk_from t0 q [] pos_max rot_max = some []
  chunk_from t0 q ((dpos, drot, g) ∷ ds) pos_max rot_max =
      and_rest
        (with_gripper (gripper_out g) (ik np geo (stepped np geo t0 dpos drot pos_max rot_max) q))
        (λ r. chunk_from t0 r ds pos_max rot_max)

  unfoldable pub ee_chunk_to_joint_chunk :
      List Row → Vec Joint → Float → Float → Option (List Target)
  unfolding chunk_from
  ee_chunk_to_joint_chunk actions q_meas pos_max rot_max =
      chunk_from (fk q_meas) q_meas actions pos_max rot_max

  abbrev pub transposed : Rotation → Rotation
  transposed r a b = r b a

  -- `np.concatenate([R[:, 0], R[:, 1]])`.
  abbrev pub column : Rotation → Axis → List Float
  column r b = r axis_x b ∷ r axis_y b ∷ r axis_z b ∷ []

  unfoldable pub rot6d : Rotation → List Float
  rot6d r = column r axis_x ++ column r axis_y

  unfoldable pub compute_proprio_single :
      Vec Joint → Vec Joint → Vec Joint → Float → Float → List Float
  unfolding rot6d
  compute_proprio_single q_cur q_prev q_start grip_cur grip_prev =
      let t = fk q_cur in
      let p = fk q_prev in
      let s = fk q_start in
      let pos_prev = apply np (transposed t.rotation) (λ a. p.position a -ℤ t.position a) in
      (pos_prev axis_x ∷ pos_prev axis_y ∷ pos_prev axis_z ∷ [])
      ++ rot6d (compose np (transposed t.rotation) p.rotation)
      ++ rot6d (compose np (transposed s.rotation) t.rotation)
      ++ grip_cur ∷ grip_prev ∷ []

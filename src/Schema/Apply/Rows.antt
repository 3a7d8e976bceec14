-- ===== src/Schema/Apply/Rows.antt =====
-- A row with the columns of the confirmed format always has a target.
use franka_deploy.Common.{
  ℕ, zero, suc, ◌+◌, ◌<◌, ◌≤◌, ◌≡◌, arith, Bool-cases, some, Option-cases, List, sub_ℕ, Float, Vec,
  Numpy, length, take, drop, get_item, length-drop, ltb_ℤ, inl, inr, sym, ◌∙◌,
}
use franka_deploy.Safety.Limits.{Joint}
use franka_deploy.Schema.Spec.{
  Kind, joint_absolute, joint_delta, ee_absolute, ee_delta, other_kind, RotationRepr, quat, rot6d,
  axis_angle, other_rotation,
}
use franka_deploy.Schema.Detect.Formats.{columns_of, Agrees}
use franka_deploy.Kinematics.{Geometry, Pose, ik, ik_from, ee_step_to_joint}
use franka_deploy.Schema.Apply.{
  ActionSpaceAdapter, make, rot_dim_of, exact_3, broadcast_3, broadcast_7, Rotations,
  rotation_matrix, ee_absolute_target, axis_angle_delta, matrix_delta, is_axis_angle,
  ee_delta_target, joints_for, gripper_of, row_to_joint_target,
}
use franka_deploy.Schema.Apply.Given.{
  Given, not-Given, Given->>=, length-take, exact_3-Given, broadcast_3-Given, broadcast_7-Given,
  get_item-Given, Given-some, make-rot_dim, columns-some, columns-none, columns_pos,
}

-- The conversions accept arrays of their own length, and the linear systems have solutions.
pub record Works (geo : Geometry) (rots : Rotations) : Type 0 where
  pub quat_given : (v : List Float) → length v ≡ 4 → Given (rots.quat_to_rot v)
  pub rot6d_given : (v : List Float) → length v ≡ 6 → Given (rots.rot6d_to_rot v)
  pub axis_angle_given : (v : List Float) → length v ≡ 3 → Given (rots.axis_angle_to_rot v)
  pub solve_given : (target : Pose) (q : Vec Joint) → Given (geo.solve target q)

module _ (np : Numpy) (geo : Geometry) (rots : Rotations) (works : Works geo rots) where
  ik_from-Given :
      (n : ℕ) (tol : Float) (target : Pose) (q : Vec Joint) → Given (ik_from np geo n tol target q)
  unfolding ik_from
  ik_from-Given zero tol target q = tt
  ik_from-Given (suc n) tol target q = elim (Bool-cases (ltb_ℤ (geo.error_norm target q) tol)) [
    | inl close ↦ rw (close, ik_from) tt
    | inr far ↦ elim (Option-cases (geo.solve target q)) [
      | inl singular ↦ absurd (not-Given _ (works.solve_given target q) singular)
      | inr (dq, solved) ↦ rw (far, ik_from) (rw solved (ik_from-Given n tol target _))
    ]
  ]

  ik-Given : (target : Pose) (q : Vec Joint) → Given (ik np geo target q)
  unfolding ik
  ik-Given target q = ik_from-Given 30 _ target q

  -- The slice of the rotation has its length.
  rotation_matrix-Given :
      (r : RotationRepr) (n : ℕ) (v : List Float)
      → rot_dim_of (some r) ≡ some n
      → length v ≡ n
      → Given (rotation_matrix np geo rots v (some r))
  unfolding rot_dim_of rotation_matrix
  rotation_matrix-Given quat n v h k = works.quat_given v (ground arith)
  rotation_matrix-Given rot6d n v h k = works.rot6d_given v (ground arith)
  rotation_matrix-Given axis_angle n v h k = works.axis_angle_given v (ground arith)
  rotation_matrix-Given (other_rotation r) n v h k = cc

  -- A row that has a position and a rotation.
  rotation-Given :
      (r : RotationRepr) (n : ℕ) (row : List Float)
      → rot_dim_of (some r) ≡ some n
      → 3 + n ≤ length row
      → Given (rotation_matrix np geo rots (take n (drop 3 row)) (some r))
  rotation-Given r n row h k =
      rotation_matrix-Given r n _ h (length-take n (drop 3 row) (omega (arith, length-drop 3 row)))

  ee_absolute_target-Given :
      (s : ActionSpaceAdapter) (row : List Float) (q : Vec Joint) (r : RotationRepr)
      → s.spec.rotation_repr ≡ some r
      → rot_dim_of (some r) ≡ some s.rot_dim
      → 3 + s.rot_dim ≤ length row
      → Given (ee_absolute_target np geo rots s row q)
  unfolding ee_absolute_target
  ee_absolute_target-Given s row q r e known h =
      Given->>= (rotation_matrix np geo rots (take s.rot_dim (drop 3 row)) s.spec.rotation_repr) _
        (rw e (rotation-Given r s.rot_dim row known h))
        λ rot.
          Given->>= (broadcast_3 (take 3 row)) _
            (broadcast_3-Given _ (length-take 3 row (omega arith))) λ position. ik-Given _ q

  axis_angle_delta-Given :
      (s : ActionSpaceAdapter) (row : List Float) (q : Vec Joint)
      → 6 ≤ length row
      → Given (axis_angle_delta np geo rots s row q)
  unfolding axis_angle_delta ee_step_to_joint
  axis_angle_delta-Given s row q h =
      Given->>= (exact_3 (take 3 row)) _ (exact_3-Given _ (length-take 3 row (omega arith))) λ dpos.
        Given->>= (exact_3 (take 3 (drop 3 row))) _
          (exact_3-Given _ (length-take 3 (drop 3 row) (omega (arith, length-drop 3 row))))
          λ drot. ik-Given _ q

  matrix_delta-Given :
      (s : ActionSpaceAdapter) (row : List Float) (q : Vec Joint) (r : RotationRepr)
      → s.spec.rotation_repr ≡ some r
      → rot_dim_of (some r) ≡ some s.rot_dim
      → 3 + s.rot_dim ≤ length row
      → Given (matrix_delta np geo rots s row q)
  unfolding matrix_delta
  matrix_delta-Given s row q r e known h =
      Given->>= (rotation_matrix np geo rots (take s.rot_dim (drop 3 row)) s.spec.rotation_repr) _
        (rw e (rotation-Given r s.rot_dim row known h))
        λ rot.
          Given->>= (exact_3 (take 3 row)) _ (exact_3-Given _ (length-take 3 row (omega arith)))
            λ dpos. ik-Given _ q

  ee_delta_target-Given :
      (s : ActionSpaceAdapter) (row : List Float) (q : Vec Joint) (r : RotationRepr)
      → s.spec.rotation_repr ≡ some r
      → rot_dim_of (some r) ≡ some s.rot_dim
      → 3 + s.rot_dim ≤ length row
      → 6 ≤ length row
      → Given (ee_delta_target np geo rots s row q)
  unfolding ee_delta_target
  ee_delta_target-Given s row q r e known h k =
      elim (Bool-cases (is_axis_angle np geo rots s.spec.rotation_repr)) [
        | inl angle ↦ rw angle (axis_angle_delta-Given s row q k)
        | inr matrix ↦ rw matrix (matrix_delta-Given s row q r e known h)
      ]

  joint_target-Given :
      (s : ActionSpaceAdapter) (row : List Float) (q : Vec Joint)
      → 7 ≤ length row
      → Given (joints_for np geo rots joint_absolute s row q)
        × Given (joints_for np geo rots joint_delta s row q)
  joint_target-Given s row q h =
      let seven = broadcast_7-Given (take 7 row) (length-take 7 row h) in
      (seven, Given->>= (broadcast_7 (take 7 row)) _ seven λ d. tt)

  joints_for-Given :
      (k : Kind) (s : ActionSpaceAdapter) (row : List Float) (q : Vec Joint)
      → Agrees k s.spec.rotation_repr
      → rot_dim_of s.spec.rotation_repr ≡ some s.rot_dim
      → columns_of s.spec.rotation_repr s.spec.has_gripper ≡ length row
      → Given (joints_for np geo rots k s row q)
  joints_for-Given joint_absolute s row q a d w =
      (joint_target-Given s row q (columns-none s.spec.has_gripper row (rw a at w))).0
  joints_for-Given joint_delta s row q a d w =
      (joint_target-Given s row q (columns-none s.spec.has_gripper row (rw a at w))).1
  joints_for-Given ee_absolute s row q (r, e) d w =
      let known = rw e at d in
      let (wide, _) = columns-some r s.rot_dim s.spec.has_gripper row known (rw e at w) in
      ee_absolute_target-Given s row q r e known wide
  joints_for-Given ee_delta s row q (r, e) d w =
      let known = rw e at d in
      let (wide, six) = columns-some r s.rot_dim s.spec.has_gripper row known (rw e at w) in
      ee_delta_target-Given s row q r e known wide six
  joints_for-Given (other_kind k) s row q a d w = elim a [ ]

  gripper_of-Given :
      (s : ActionSpaceAdapter) (row : List Float)
      → 0 < s.spec.dim
      → s.spec.dim ≤ length row
      → Given (gripper_of np geo rots s row)
  unfolding gripper_of
  gripper_of-Given s row h k = elim (Bool-cases s.spec.has_gripper) [
    | inl on ↦ rw on (
        Given->>= (get_item row (sub_ℕ s.spec.dim 1)) _ (get_item-Given row s.spec.dim h k) λ x. tt)
    | inr off ↦ rw off tt
  ]

  -- A confirmed format whose columns are those of its kind of space, its rotation and its gripper turns
  -- every row with as many columns into a target, at any measured joints: no tick fails on it. The
  -- rotations accept arrays of their own length, and the solver's linear systems have solutions.
  pub row_to_joint_target-Given :
      (s : ActionSpaceAdapter) (row : List Float) (q_meas : Vec Joint)
      → make s.spec ≡ some s
      → Agrees s.spec.kind s.spec.rotation_repr
      → columns_of s.spec.rotation_repr s.spec.has_gripper ≡ s.spec.dim
      → length row ≡ s.spec.dim
      → (r : Vec Joint × Float) × (row_to_joint_target np geo rots s row q_meas ≡ some r)
  unfolding row_to_joint_target
  row_to_joint_target-Given s row q_meas made agrees columns even =
      let dim = make-rot_dim s made in
      Given-some _ (
        Given->>= (gripper_of np geo rots s row) _
          (gripper_of-Given s row
            (omega
              (arith, columns_pos s.spec.rotation_repr s.rot_dim s.spec.has_gripper dim, columns))
            (omega (arith, even)))
          λ gripper.
            Given->>= (joints_for np geo rots s.spec.kind s row q_meas) _
              (joints_for-Given s.spec.kind s row q_meas agrees dim (columns ∙ sym even)) λ q. tt)

-- ===== src/Schema/Apply/Targets.antt =====
-- What a target can be, and that a row of the confirmed format always has one.
use franka_deploy.Common.{
  inl, inr, Bool-cases, Option, none, some, List, ◌≤ℤ◌, sub_ℕ, Float, Vec, nought, Numpy, IsNumpy,
  clip_bounds, take, drop, get_item, int_laws,
}
use franka_deploy.Safety.Limits.{Joint}
use franka_deploy.Schema.Spec.{
  Kind, joint_absolute, joint_delta, ee_absolute, ee_delta, other_kind, GripperConvention, zero_one,
  minus_one_one, no_gripper,
}
use franka_deploy.Kinematics.{Geometry, ee_step_to_joint}
use franka_deploy.Kinematics.Reach.{Each, Lands, Ordered, ik-Lands}
use franka_deploy.Schema.Options.{◌>>=◌}
use franka_deploy.Schema.Apply.{
  ActionSpaceAdapter, exact_3, broadcast_3, Rotations, gripper_to_0_1, rotation_matrix,
  ee_absolute_target, axis_angle_delta, matrix_delta, is_axis_angle, ee_delta_target, joints_for,
  gripper_of, row_to_joint_target,
}

Each->>= :
    {A B : Type 0} (P : A → Type 0) (Q : B → Type 0) (m : Option A) (k : A → Option B)
    → Each P m
    → ((a : A) → P a → Each Q (k a))
    → Each Q (m >>= k)
Each->>= P Q none k h f = tt
Each->>= P Q (some a) k h f = f a h

Each-any : {A : Type 0} (o : Option A) → Each (λ a. Unit) o
Each-any none = tt
Each-any (some a) = tt

-- A gripper width between closed and open.
abbrev pub InUnit : Numpy → Float → Type 0
InUnit np x = (nought ≤ℤ x) × (x ≤ℤ np.lit 1 0)

module _ (np : Numpy) (geo : Geometry) (rots : Rotations) where
  -- What a kind promises of the joints: a kind of end effector is solved for.
  abbrev pub Promised : Kind → Vec Joint → Vec Joint → Type 0
  Promised ee_absolute q_meas q = Lands np geo q_meas q
  Promised ee_delta q_meas q = Lands np geo q_meas q
  Promised joint_absolute q_meas q = Unit
  Promised joint_delta q_meas q = Unit
  Promised (other_kind k) q_meas q = Unit

  module _ (laws : IsNumpy np) (ordered : Ordered np geo) where
    gripper_to_0_1-InUnit :
        (x : Float) (c : GripperConvention) → InUnit np (gripper_to_0_1 np geo rots x c)
    unfolding gripper_to_0_1
    gripper_to_0_1-InUnit x minus_one_one =
        clip_bounds np laws _ _ _ (omega (int_laws, laws.one_pos))
    gripper_to_0_1-InUnit x zero_one = clip_bounds np laws _ _ _ (omega (int_laws, laws.one_pos))
    gripper_to_0_1-InUnit x no_gripper = clip_bounds np laws _ _ _ (omega (int_laws, laws.one_pos))

    gripper_of-InUnit :
        (s : ActionSpaceAdapter) (row : List Float)
        → Each (InUnit np) (gripper_of np geo rots s row)
    unfolding gripper_of
    gripper_of-InUnit s row = elim (Bool-cases s.spec.has_gripper) [
      | inl on ↦ rw on (
          Each->>= (λ _. Unit) (InUnit np) (get_item row (sub_ℕ s.spec.dim 1)) _ (Each-any _)
            λ x _. gripper_to_0_1-InUnit x s.spec.gripper_convention)
      | inr off ↦ rw off (omega int_laws, omega (int_laws, laws.one_pos))
    ]

    ee_absolute_target-Lands :
        (s : ActionSpaceAdapter) (row : List Float) (q : Vec Joint)
        → Each (Lands np geo q) (ee_absolute_target np geo rots s row q)
    unfolding ee_absolute_target
    ee_absolute_target-Lands s row q =
        Each->>= (λ _. Unit) (Lands np geo q)
          (rotation_matrix np geo rots (take s.rot_dim (drop 3 row)) s.spec.rotation_repr) _
          (Each-any _)
          λ rot _.
            Each->>= (λ _. Unit) (Lands np geo q) (broadcast_3 (take 3 row)) _ (Each-any _)
              λ position _. ik-Lands np geo laws ordered _ q

    axis_angle_delta-Lands :
        (s : ActionSpaceAdapter) (row : List Float) (q : Vec Joint)
        → Each (Lands np geo q) (axis_angle_delta np geo rots s row q)
    unfolding axis_angle_delta ee_step_to_joint
    axis_angle_delta-Lands s row q =
        Each->>= (λ _. Unit) (Lands np geo q) (exact_3 (take 3 row)) _ (Each-any _)
          λ dpos _.
            Each->>= (λ _. Unit) (Lands np geo q) (exact_3 (take 3 (drop 3 row))) _ (Each-any _)
              λ drot _. ik-Lands np geo laws ordered _ q

    matrix_delta-Lands :
        (s : ActionSpaceAdapter) (row : List Float) (q : Vec Joint)
        → Each (Lands np geo q) (matrix_delta np geo rots s row q)
    unfolding matrix_delta
    matrix_delta-Lands s row q =
        Each->>= (λ _. Unit) (Lands np geo q)
          (rotation_matrix np geo rots (take s.rot_dim (drop 3 row)) s.spec.rotation_repr) _
          (Each-any _)
          λ rot _.
            Each->>= (λ _. Unit) (Lands np geo q) (exact_3 (take 3 row)) _ (Each-any _)
              λ dpos _. ik-Lands np geo laws ordered _ q

    ee_delta_target-Lands :
        (s : ActionSpaceAdapter) (row : List Float) (q : Vec Joint)
        → Each (Lands np geo q) (ee_delta_target np geo rots s row q)
    unfolding ee_delta_target
    ee_delta_target-Lands s row q =
        elim (Bool-cases (is_axis_angle np geo rots s.spec.rotation_repr)) [
          | inl angle ↦ rw angle (axis_angle_delta-Lands s row q)
          | inr matrix ↦ rw matrix (matrix_delta-Lands s row q)
        ]

    joints_for-Promised :
        (k : Kind) (s : ActionSpaceAdapter) (row : List Float) (q : Vec Joint)
        → Each (Promised k q) (joints_for np geo rots k s row q)
    joints_for-Promised joint_absolute s row q = Each-any _
    joints_for-Promised joint_delta s row q = Each-any _
    joints_for-Promised ee_absolute s row q = ee_absolute_target-Lands s row q
    joints_for-Promised ee_delta s row q = ee_delta_target-Lands s row q
    joints_for-Promised (other_kind k) s row q = tt

    -- Whenever a row yields a target, its gripper width is between closed and open, and for a kind of
    -- end effector the joints are within the position limits, or are the measured ones unchanged.
    pub row_to_joint_target-Promised :
        (s : ActionSpaceAdapter) (row : List Float) (q_meas : Vec Joint)
        → Each
            (λ r. Promised s.spec.kind q_meas r.0 × InUnit np r.1)
            (row_to_joint_target np geo rots s row q_meas)
    unfolding row_to_joint_target
    row_to_joint_target-Promised s row q_meas =
        Each->>= (InUnit np) _ (gripper_of np geo rots s row) _ (gripper_of-InUnit s row)
          λ gripper width.
            Each->>= (Promised s.spec.kind q_meas) _
              (joints_for np geo rots s.spec.kind s row q_meas) _
              (joints_for-Promised s.spec.kind s row q_meas) λ q p. (p, width)

-- ===== src/Kinematics/Chunks/Examples.antt =====
-- The theorem about chunks at two rows and a toy arm, and tests.
use franka_deploy.Common.{
  ◌≡◌, refl, some, List, [], ◌∷◌, pos, ◌+ℤ◌, nought, neg, Vec, arith, length, All, decimal,
  decimal-IsNumpy,
}
use franka_deploy.Safety.Limits
use franka_deploy.Safety.Limits.{Joint, j1, j2, j3, j4, j5, j6, j7}
use franka_deploy.Safety.Workspace.{Axis}
use franka_deploy.Kinematics.{Geometry, Pose}
use franka_deploy.Kinematics.Trigonometry.{triple}
use franka_deploy.Kinematics.Reach
use franka_deploy.Kinematics.Chunks.{Row, Target, ee_chunk_to_joint_chunk, gripper_out}
use franka_deploy.Kinematics.Chunks.Anchors

-- An arm whose position is its first three joints; the solver goes straight to the target.
abbrev still : Vec Axis
still axis = nought

abbrev corner : Vec Joint → Vec Axis
corner q = triple (q j1) (q j2) (q j3)

abbrev joints : Pose → Vec Joint → Vec Joint
joints t q j1 = t.position Axis.axis_x
joints t q j2 = q j2
joints t q j3 = q j3
joints t q j4 = q j4
joints t q j5 = q j5
joints t q j6 = q j6
joints t q j7 = q j7

abbrev toy : Geometry
toy = record {
  fk = λ q. record { position = corner q; rotation = λ a b. nought };
  error_norm = λ t q. t.position Axis.axis_x;
  solve = λ t q. some (joints t q);
  axis_angle_to_rot = λ v a b. nought;
}

abbrev at_pose : Vec Joint
at_pose j = pos 1_000

abbrev rows : List Row
rows = (still, still, pos 10_000) ∷ (still, still, neg (pos 10_000)) ∷ []

limits_Ordered : Reach.Ordered decimal toy
unfolding decimal Limits.fr3_q_lower Limits.fr3_q_upper neg
limits_Ordered j1 = omega arith
limits_Ordered j2 = omega arith
limits_Ordered j3 = omega arith
limits_Ordered j4 = omega arith
limits_Ordered j5 = omega arith
limits_Ordered j6 = omega arith
limits_Ordered j7 = omega arith

gripper_ends :
    (gripper_out decimal toy (neg (pos 10_000)) ≡ nought)
    × (gripper_out decimal toy (pos 10_000) ≡ pos 10_000)
unfolding gripper_out decimal neg ◌+ℤ◌
gripper_ends = (refl, refl)

ee_chunk_to_joint_chunk_anchored_example :
    (ts : List Target) × (ee_chunk_to_joint_chunk decimal toy rows at_pose (pos 500) (pos 5_000)
      ≡ some ts)
    × (length ts ≡ 2)
    × Anchors.Chained decimal toy at_pose (pos 500) (pos 5_000) at_pose rows ts
    × All (Anchors.Bounded decimal toy at_pose (pos 500) (pos 5_000)) ts
ee_chunk_to_joint_chunk_anchored_example =
    Anchors.ee_chunk_to_joint_chunk_anchored decimal toy at_pose (pos 500) (pos 5_000)
      decimal-IsNumpy limits_Ordered (λ t q. (joints t q, refl)) rows

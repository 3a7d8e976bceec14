-- ===== src/Schema/Examples.antt =====
-- The theorems about franka_deploy/schema/ at concrete inputs, and tests.
use Prim.Native.String.{String}
use franka_deploy.Common.{
  ℕ, ◌≡◌, refl, arith, Bool, true, Option, some, List, [], ◌∷◌, pos, neg, ◌-ℤ◌, Float, Vec, nought,
  decimal, decimal-IsNumpy, ok,
}
use franka_deploy.Safety.Limits
use franka_deploy.Safety.Limits.{Joint, j1, j2, j3, j4, j5, j6, j7}
use franka_deploy.Safety.Workspace.{Axis}
use franka_deploy.Schema.Spec.{ee_absolute, zero_one, quat, RotationRepr, DetectionResult}
use franka_deploy.Schema.Detect.{detect_action_space}
use franka_deploy.Schema.Detect.Formats
use franka_deploy.Schema.Apply.{
  ActionSpaceAdapter, Rotations, make, rot_dim_of, row_to_joint_target,
}
use franka_deploy.Schema.Apply.Targets
use franka_deploy.Schema.Apply.Rows
use franka_deploy.Kinematics.{Geometry, Rotation}
use franka_deploy.Kinematics.Reach

abbrev at_zero : Vec Joint
at_zero j = nought

abbrev origin : Vec Axis
origin a = nought

abbrev flat : Rotation
flat a b = nought

abbrev no_norm : Vec Axis → Float
no_norm v = nought

abbrev no_notes : Bool → Option RotationRepr → String
no_notes g r = ""

abbrev no_shape : ℕ → String
no_shape d = ""

abbrev row_of_8 : List Float
row_of_8 = pos 100 ∷ pos 100 ∷ pos 100 ∷ pos 100 ∷ pos 100 ∷ pos 100 ∷ pos 100 ∷ pos 10_000 ∷ []

-- Eight columns may be seven joints and a gripper, or a position, a quaternion and a gripper.
detect_action_space_cases_example :
    (r : DetectionResult) × (detect_action_space decimal no_norm no_notes no_shape
        (row_of_8 ∷ row_of_8 ∷ [])
        at_zero
        origin
      ≡ ok r)
    × Formats.IsSound decimal no_norm no_notes no_shape row_of_8 2 r
detect_action_space_cases_example =
    (Formats.detect_action_space_cases decimal no_norm no_notes no_shape at_zero origin row_of_8
        (row_of_8 ∷ [])).0
      refl

abbrev toy : Geometry
toy = record {
  fk = λ q. record { position = λ a. q j1; rotation = flat };
  error_norm = λ target q. pos 1;
  solve = λ target q. some (λ j. target.position Axis.axis_x -ℤ q j);
  axis_angle_to_rot = λ v. flat;
}

abbrev toy_rotations : Rotations
toy_rotations = record {
  quat_to_rot = λ v. some flat;
  rot6d_to_rot = λ v. some flat;
  axis_angle_to_rot = λ v. some flat;
}

toy-Works : Rows.Works toy toy_rotations
toy-Works = record {
  quat_given = λ v h. tt;
  rot6d_given = λ v h. tt;
  axis_angle_given = λ v h. tt;
  solve_given = λ target q. tt;
}

abbrev adapter : ActionSpaceAdapter
adapter = record {
  spec = record {
    kind = ee_absolute;
    dim = 8;
    has_gripper = true;
    gripper_convention = zero_one;
    rotation_repr = some quat;
    confidence = pos 10_000;
    notes = "";
    delta_pos_scale = pos 10_000;
    delta_rot_scale = pos 10_000;
    delta_joint_scale = pos 10_000;
  };
  rot_dim = 4;
}

adapter_made : make adapter.spec ≡ some adapter
unfolding make rot_dim_of
adapter_made = refl

row_to_joint_target-Given_example :
    (r : Vec Joint × Float) × (row_to_joint_target decimal toy toy_rotations adapter row_of_8
        at_zero
      ≡ some r)
row_to_joint_target-Given_example =
    Rows.row_to_joint_target-Given decimal toy toy_rotations toy-Works adapter row_of_8 at_zero
      adapter_made (quat, refl) refl refl

limits_Ordered : Reach.Ordered decimal toy
unfolding decimal Limits.fr3_q_lower Limits.fr3_q_upper neg
limits_Ordered j1 = omega arith
limits_Ordered j2 = omega arith
limits_Ordered j3 = omega arith
limits_Ordered j4 = omega arith
limits_Ordered j5 = omega arith
limits_Ordered j6 = omega arith
limits_Ordered j7 = omega arith

row_to_joint_target-Promised_example :
    Reach.Each
      (λ r.
        Targets.Promised decimal toy toy_rotations ee_absolute at_zero r.0
        × Targets.InUnit decimal r.1)
      (row_to_joint_target decimal toy toy_rotations adapter row_of_8 at_zero)
row_to_joint_target-Promised_example =
    Targets.row_to_joint_target-Promised decimal toy toy_rotations decimal-IsNumpy limits_Ordered
      adapter row_of_8 at_zero

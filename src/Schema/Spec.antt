-- ===== src/Schema/Spec.antt =====
-- franka_deploy/schema/spec.py: what one row of a response means.
use Prim.Native.String.{String}
use franka_deploy.Common.{ℕ, Bool, Option, List, Float}

-- The `ACTION_SPACE_*` constants, and any other text that a caller may give.
pub data Kind : Type 0 where
  joint_absolute joint_delta ee_absolute ee_delta : Kind
  other_kind : String → Kind

pub data GripperConvention : Type 0 where
  zero_one minus_one_one no_gripper : GripperConvention

pub data RotationRepr : Type 0 where
  quat rot6d axis_angle : RotationRepr
  other_rotation : String → RotationRepr

pub record ActionSpaceSpec : Type 0 where
  pub kind : Kind
  pub dim : ℕ
  pub has_gripper : Bool
  pub gripper_convention : GripperConvention
  pub rotation_repr : Option RotationRepr
  pub confidence : Float
  pub notes : String
  pub delta_pos_scale : Float
  pub delta_rot_scale : Float
  pub delta_joint_scale : Float

pub record DetectionResult : Type 0 where
  pub spec : ActionSpaceSpec
  pub sample_row : List Float
  pub chunk_shape : ℕ × ℕ
  pub candidates : List ActionSpaceSpec

pub data Layout : Type 0 where
  hwc chw : Layout

pub data Encoding : Type 0 where
  none_encoding raw_bytes_base64 png_base64 jpeg_base64 png_base64_str : Encoding

pub record RequestFieldSpec : Type 0 where
  pub name : String
  pub source : String
  pub dtype : Option String
  pub shape : Option (List ℕ)
  pub resize : Option (List ℕ)
  pub layout : Layout
  pub normalize : Option (List (String × Float))
  pub encoding : Encoding
  pub transform_fn : Option String

pub record ConnectionSpec : Type 0 where
  pub server_ip : String
  pub server_port : ℕ
  pub scheme : String
  pub predict_endpoint : String
  pub reset_endpoint : String
  pub headers : List (String × String)

pub record RequestSpec : Type 0 where
  pub connection : ConnectionSpec
  pub fields : List RequestFieldSpec
  pub reset_fields : List RequestFieldSpec
  pub actions_key : String
  pub instruction_field : Option String

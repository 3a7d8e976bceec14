-- ===== src/Api/State.antt =====
-- franka_deploy/api/state.py, with `CameraConfig` of franka_deploy/cameras/__init__.py.
use Prim.Native.String.{String}
use franka_deploy.Common.{ℕ, Option, List, Float}
use franka_deploy.Schema.Spec.{RequestSpec}
use franka_deploy.Control.Config.{LoopConfig}
use franka_deploy.Control.Loop.{ControlLoop}
use franka_deploy.Safety.Workspace.{WorkspaceBounds}

pub record CameraConfig : Type 0 where
  pub role : String
  pub serial : Option String
  pub width : ℕ
  pub height : ℕ
  pub fps : ℕ

pub record AppConfig : Type 0 where
  pub robot_node_address : String
  pub cameras : List CameraConfig
  pub request_spec : Option RequestSpec
  pub loop : LoopConfig
  pub v_max : Float
  pub a_max : Float
  pub j_max : Float
  pub filter_wn : Float

-- `roles` are those that the camera manager has started.
pub record AppState : Type 0 where
  pub config : AppConfig
  pub loop : Option ControlLoop
  pub roles : List String
  pub workspace : WorkspaceBounds

-- How a write of a file ends: it is written, or it raises, with what is then left of the file.
pub data Write (File : Type 0) : Type 0 where
  written : Write File
  breaks : Option File → Write File

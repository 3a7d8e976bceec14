-- ===== src/Schema/Sources.antt =====
-- franka_deploy/schema/sources.py: what a source string stands for. `none` is an exception.
use Prim.Native.Char.{code}
use Prim.Native.String.{String}
use text.Mathlib.Text
use franka_deploy.Common.{◌==◌, Option, none, some, List, [], ◌∷◌, if◌then◌else◌}
use franka_deploy.Schema.Json.{Json, string}
use franka_deploy.Schema.Encode.{Raw, plain, ndarray}

pub record SourceContext (Array : Type 0) : Type 0 where
  pub cameras : List (String × Array)
  pub robot_state : List (String × Raw Array)

-- `json.loads`, and the function of a plug-in on the context; `none` is an exception, also that of a
-- plug-in that is not there.
pub record Loaders (Array : Type 0) : Type 0 where
  pub loads : String → Option Json
  pub source_plugin : String → SourceContext Array → Option (Raw Array)
  pub value_plugin : String → Json → Option Json

abbrev pub at_key {ℓ} : {A : Type ℓ} → String → List (String × A) → Option A
at_key k [] = none
at_key k ((j, a) ∷ rest) = if Text.◌==◌ j k then some a else at_key k rest

-- `source.split(":", 1)`; without a colon there is no second part.
unfoldable pub split_colon : String → Option (String × String)
split_colon String.[] = none
split_colon (String.◌∷◌ c s) =
    let rest = split_colon s in
    if code c == b':'
    then some ("", s)
    else elim rest [ none ↦ none | some (kind, detail) ↦ some (String.◌∷◌ c kind, detail) ]

module _ {Array : Type 0} where
  -- `robot_state_dict`, on the arrays that `get_state` gives; `append` and `concatenate` are numpy's.
  unfoldable pub robot_state_dict :
      (Array → Raw Array → Array)
      → (Array → Array → Array)
      → Array
      → Array
      → Array
      → Array
      → Raw Array
      → List (String × Raw Array)
  robot_state_dict append concatenate q dq ee_pos ee_quat gripper =
      ("joint_positions", ndarray (append q gripper))
      ∷ ("joint_positions7", ndarray q)
      ∷ ("joint_velocities", ndarray dq)
      ∷ ("ee_pos", ndarray ee_pos)
      ∷ ("ee_quat", ndarray ee_quat)
      ∷ ("ee_pos_quat", ndarray (concatenate ee_pos ee_quat))
      ∷ ("gripper", gripper)
      ∷ []

  module _ (loaders : Loaders Array) (ctx : SourceContext Array) where
    abbrev pub image : Option Array → Option (Raw Array)
    image none = none
    image (some rgb) = some (ndarray rgb)

    -- A constant that is no JSON is taken as it is typed.
    abbrev pub constant : String → Option Json → Raw Array
    constant detail none = plain (string detail)
    constant detail (some value) = plain value

    abbrev pub resolve_kind : String → String → Option (Raw Array)
    resolve_kind kind detail =
        if Text.◌==◌ kind "camera"
        then image (at_key detail ctx.cameras)
        else if Text.◌==◌ kind "robot"
        then at_key detail ctx.robot_state
        else if Text.◌==◌ kind "static"
        then some (constant detail (loaders.loads detail))
        else if Text.◌==◌ kind "custom"
        then loaders.source_plugin detail ctx
        else none

    unfoldable pub resolve_source : String → Option (Raw Array)
    resolve_source source = elim (split_colon source) [
      | none ↦ none
      | some (kind, detail) ↦ resolve_kind kind detail
    ]

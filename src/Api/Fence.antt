-- ===== src/Api/Fence.antt =====
-- The workspace routes of franka_deploy/api/routes_control.py, with `save_workspace` and `load_workspace_into` of
-- franka_deploy/api/persist.py and `add_workspace_point` of franka_deploy/control_loop.py.
-- The loop shares the app's fence, so there is one. `as_int` and `as_float` are Python's `int` and `float` of a
-- JSON value, with none for an exception.
pub mod Replies
use Prim.Native.String.{String}
use franka_deploy.Common.{
  ℕ, Bool, true, false, Option, none, some, List, [], ◌∷◌, ℤ, Float, Vec, Numpy, Result, ok, err,
  if◌then◌else◌,
}
use franka_deploy.Safety.Workspace.{
  Axis, axis_x, axis_y, axis_z, WorkspaceBounds, WorkspaceDict, add_point, remove_point, clear,
  to_dict,
}
use franka_deploy.Schema.Options.{◌>>=◌}
use franka_deploy.Schema.Json.{
  Json, null, boolean, int, number, string, array, object, Items, nil, cons, Fields, end, field,
  get,
}
use franka_deploy.Schema.Serialize.{with_default, required, as_number, as_object, as_list, items_of}
use franka_deploy.Control.Loop.{
  State, idle, connected, detecting, awaiting_confirm, armed, running, stopped, error, ControlLoop,
  Exception, no_robot_state, external,
}
use franka_deploy.Api.State.{AppState, Write, written, breaks}
use franka_deploy.Api.Routes.{ensure_loop}

abbrev pub point_to_json : Vec Axis → Json
point_to_json p =
    array (cons (number (p axis_x)) (cons (number (p axis_y)) (cons (number (p axis_z)) nil)))

abbrev pub point_of : Float → Float → Float → Vec Axis
point_of x y z axis_x = x
point_of x y z axis_y = y
point_of x y z axis_z = z

-- A point in the file is a list of three numbers; here anything else is refused.
abbrev pub point_of_items : List Float → Option (Vec Axis)
point_of_items (x ∷ y ∷ z ∷ []) = some (point_of x y z)
point_of_items _ = none

abbrev pub point_from_json : Numpy → Json → Option (Vec Axis)
point_from_json np j = do xs ← as_list (as_number np) j; point_of_items xs

unfoldable pub fence_to_dict : WorkspaceBounds → Fields
fence_to_dict ws =
    field "points" (array (items_of point_to_json ws.points))
      (field "margin" (number ws.margin) end)

-- A fence that is being changed in place, and whether no exception has come.
abbrev pub set_margin : Numpy → Fields → WorkspaceBounds → WorkspaceBounds × Bool
set_margin np d ws = elim (with_default "margin" d ws.margin (as_number np)) [
  | none ↦ (ws, false)
  | some m ↦ (record ws { margin = m }, true)
]

unfoldable pub fence_from_dict : Numpy → Fields → WorkspaceBounds → WorkspaceBounds × Bool
fence_from_dict np d ws = elim (with_default "points" d [] (as_list (point_from_json np))) [
  | none ↦ (ws, false)
  | some ps ↦ set_margin np d (record ws { points = ps })
]

module _ {File : Type 0} (dumps : Json → File) (loads : File → Option Json) where
  unfoldable pub save_workspace : WorkspaceBounds → File
  unfolding fence_to_dict
  save_workspace ws = dumps (object (fence_to_dict ws))

  unfoldable pub load_workspace_into :
      Numpy → WorkspaceBounds → Option File → WorkspaceBounds × Bool
  unfolding fence_from_dict
  load_workspace_into np ws none = (ws, true)
  load_workspace_into np ws (some file) = elim (loads file) [
    | none ↦ (ws, false)
    | some j ↦ elim (as_object j) [ none ↦ (ws, false) | some d ↦ fence_from_dict np d ws ]
  ]

-- `add_workspace_point`: `position` is where the end effector is, none if the node does not answer.
abbrev pub measured : Option Bool → Option (Vec Axis) → Result Exception (Vec Axis)
measured none position = err no_robot_state
measured (some read_only) none = err external
measured (some read_only) (some p) = ok p

unfoldable pub add_workspace_point :
    ControlLoop → WorkspaceBounds → Option (Vec Axis) → Result Exception WorkspaceBounds
unfolding add_point
add_workspace_point s ws position = elim (measured s.runtime position) [
  | err e ↦ err e
  | ok p ↦ ok (add_point ws p)
]

-- What a route answers: the fence, or the status of an exception.
pub data FenceReply : Type 0 where
  fence : WorkspaceDict → FenceReply
  refused : ℕ → FenceReply

abbrev pub is_idle : State → Bool
is_idle idle = true
is_idle _ = false

module _ {File : Type 0} (dumps : Json → File) (loads : File → Option Json) where
  -- The app, the file of the fence, and the reply.
  abbrev pub Answered : Type 0
  Answered = AppState × Option File × FenceReply

  -- The fence in memory is changed before the write.
  abbrev pub saved : AppState → WorkspaceBounds → Write File → Answered
  saved app ws written =
      (record app { workspace = ws }, some (save_workspace dumps loads ws), fence (to_dict ws))
  saved app ws (breaks left) = (record app { workspace = ws }, left, refused 500)

  unfoldable pub get_workspace : AppState → WorkspaceDict
  get_workspace app = to_dict app.workspace

  abbrev pub add_to_loop :
      ControlLoop → AppState → Option File → Write File → Option (Vec Axis) → Answered
  add_to_loop s app file write position =
      if is_idle s.state
      then (app, file, refused 400)
      else elim (add_workspace_point s app.workspace position) [
        | err e ↦ (app, file, refused 500)
        | ok ws ↦ saved app ws write
      ]

  abbrev pub add_to_made :
      AppState × Result ℕ ControlLoop → Option File → Write File → Option (Vec Axis) → Answered
  add_to_made (app, err code) file write position = (app, file, refused code)
  add_to_made (app, ok s) file write position = add_to_loop s app file write position

  -- The loop is created before its state is looked at.
  unfoldable pub add_point_route :
      Numpy → AppState → Option File → Write File → Bool → Option (Vec Axis) → Answered
  unfolding ensure_loop add_workspace_point save_workspace to_dict
  add_point_route np app file write opens position =
      add_to_made (ensure_loop np app opens) file write position

  -- Only an `IndexError` is a 400.
  unfoldable pub remove_point_route :
      (Json → Option ℤ) → AppState → Option File → Write File → Fields → Answered
  unfolding remove_point save_workspace to_dict
  remove_point_route as_int app file write body = elim (required "index" body as_int) [
    | none ↦ (app, file, refused 500)
    | some i ↦ elim (remove_point app.workspace i) [
      | none ↦ (app, file, refused 400)
      | some ws ↦ saved app ws write
    ]
  ]

  unfoldable pub clear_route : AppState → Write File → Answered
  unfolding clear save_workspace to_dict
  clear_route app write = saved app (clear app.workspace) write

  unfoldable pub margin_route :
      (Json → Option Float) → AppState → Option File → Write File → Fields → Answered
  unfolding save_workspace to_dict
  margin_route as_float app file write body = elim (required "margin" body as_float) [
    | none ↦ (app, file, refused 500)
    | some m ↦ saved app (record app.workspace { margin = m }) write
  ]

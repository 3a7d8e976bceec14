-- ===== src/Api/Site/Examples.antt =====
-- The theorems about restarts and the workspace routes at concrete sessions, and tests.
use franka_deploy.Common.{
  ℕ, ◌≡◌, refl, ◌≢◌, arith, true, Option, none, some, List, [], ◌∷◌, ℤ, pos, Vec, decimal,
}
use franka_deploy.Safety.Workspace.{Axis, add_point, remove_point, delete, delete_at}
use franka_deploy.Schema.Spec.{RequestSpec}
use franka_deploy.Schema.Json.{Json, int, number, string, object, end, field, get}
use franka_deploy.Schema.Serialize.{as_number}
use franka_deploy.Control.Loop.{connect}
use franka_deploy.Api.State.{AppState, written, breaks}
use franka_deploy.Api.Persist.{change_by, load_config_into, set_config}
use franka_deploy.Api.Fence.{
  load_workspace_into, point_of, add_point_route, remove_point_route, margin_route,
}
use franka_deploy.Api.Fence.Replies
use franka_deploy.Api.Routes
use franka_deploy.Api.Routes.{connects}
use franka_deploy.Api.Site.{
  Site, Request, controls, configures, adds_point, removes_point, sets_margin, serve, session,
  start_app, config_status, default_config, default_workspace, app_with, begun,
}
use franka_deploy.Api.Site.Restarts

-- `int` of a whole number.
abbrev whole : Json → Option ℤ
whole (int n) = some n
whole _ = none

abbrev corner : Vec Axis
corner = point_of (pos 3_000) (pos 0) (pos 4_000)

abbrev server : RequestSpec
server = record {
  connection = record {
    server_ip = "127.0.0.1";
    server_port = 8080;
    scheme = "http";
    predict_endpoint = "/predict";
    reset_endpoint = "/reset";
    headers = [];
  };
  fields = [];
  reset_fields = [];
  actions_key = "actions";
  instruction_field = none;
}

abbrev first_start : AppState
first_start =
    app_with decimal {File = Json} (λ j. j) some (default_config decimal)
      (default_workspace decimal)

abbrev site : Site Json
site = begun decimal (λ j. j) some first_start none none

-- The address, the rate and a limit are changed, with ints as the dashboard sends them, a point is refused without a specification, and the margin is set.
abbrev requests : List (Request Json)
requests =
    configures written (
      field "robot_node_address" (string "tcp://10.0.0.7:5560")
        (field "loop" (object (field "fps" (int (pos 20)) end)) (field "a_max" (int (pos 4)) end)))
    ∷ adds_point written true (some corner)
    ∷ sets_margin written (field "margin" (number (pos 500)) end)
    ∷ []

starts : start_app decimal {File = Json} (λ j. j) some none none ≡ some first_start
unfolding start_app load_config_into load_workspace_into
starts = refl

not_500 : (n : ℕ) → n ≡ 200 → n ≢ 500
not_500 n e f = omega arith

none_raises :
    Restarts.NoneRaises {File = Json} (λ j. j) some decimal whole (as_number decimal) site requests
unfolding config_status set_config change_by get serve
none_raises = (not_500 200 refl, (not_500 200 refl, (not_500 200 refl, tt)))

start_app-session_example :
    let site' = session decimal (λ j. j) some whole (as_number decimal) site requests in
    start_app decimal {File = Json} (λ j. j) some site'.config_file site'.workspace_file
    ≡ some (app_with decimal {File = Json} (λ j. j) some site'.app.config site'.app.workspace)
start_app-session_example =
    Restarts.start_app-session {File = Json} (λ j. j) some decimal whole (as_number decimal) none
      none first_start requests (λ ws. refl) (λ cfg. refl) (tt, (refl, (refl, tt))) starts
      none_raises

abbrev configured : AppState
configured = record first_start {
  config = record (default_config decimal) { request_spec = some server };
}

-- A session in which a point is recorded, the margin set, and a point removed that is not there.
abbrev recording : List (Request Json)
recording =
    controls (connects true true true)
    ∷ adds_point written true (some corner)
    ∷ sets_margin written (field "margin" (number (pos 500)) end)
    ∷ removes_point written (field "index" (int (pos 4)) end)
    ∷ []

abbrev at_work : Site Json
at_work = begun decimal (λ j. j) some configured none none

recorded :
    (session decimal (λ j. j) some whole (as_number decimal) at_work recording).app.workspace
    ≡ record { points = corner ∷ []; margin = pos 500 }
unfolding session serve Routes.step Routes.connect_route Routes.ensure_loop connect add_point_route
    margin_route remove_point_route remove_point delete delete_at add_point get default_config
    default_workspace decimal
recorded = refl

session-FenceSaved_example :
    Restarts.FenceSaved {File = Json}
      (λ j. j)
      some
      decimal
      whole
      (as_number decimal)
      (session decimal (λ j. j) some whole (as_number decimal) at_work recording)
unfolding load_workspace_into
session-FenceSaved_example =
    Restarts.session-FenceSaved {File = Json} (λ j. j) some decimal whole (as_number decimal)
      at_work recording (λ ws. refl) (tt, (refl, (refl, (refl, tt)))) refl

add_point_route-new_example :
    Replies.Created {File = Json}
      (λ j. j)
      some
      decimal
      none
      written
      end
      configured.config.loop.ema_alpha
      (add_point_route {File = Json}
        (λ j. j)
        some
        decimal
        configured
        none
        written
        true
        (some corner))
add_point_route-new_example =
    Replies.add_point_route-new {File = Json} (λ j. j) some decimal configured none none written
      written (some corner) server end refl refl

-- A write that fails after the fence was changed: the file does not have the point.
torn : Site Json
torn =
    serve decimal (λ j. j) some whole (as_number decimal) (record at_work { workspace_file = none })
      (sets_margin (breaks none) (field "margin" (number (pos 500)) end))

torn_write : (torn.workspace_file ≡ none) × (torn.app.workspace.margin ≡ pos 500)
unfolding torn serve margin_route get
torn_write = (refl, refl)

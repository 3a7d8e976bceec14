-- ===== src/DevServers.antt =====
-- scripts/dev_motion_server.py and scripts/dev_ee_pingpong_server.py: stand-ins for a policy server.
-- What both share: how a request is read and what it can come to.
pub mod Motion
pub mod PingPong
mod Examples
use Prim.Native.String.{String}
use text.Mathlib.Text
use franka_deploy.Common.{
  ℕ, zero, suc, ◌+◌, Option, none, some, List, [], ◌∷◌, Float, if◌then◌else◌,
}
use franka_deploy.Schema.Json.{Json, number, array, object, Items, nil, cons, Fields, end, field}
use franka_deploy.Schema.Serialize.{items_of}

-- `_send`, or an exception, after which the server sends nothing.
pub data Answer : Type 0 where
  sent : Json → ℕ → Answer
  raised : Answer

abbrev pub row_to_json : List Float → Json
row_to_json row = array (items_of number row)

abbrev pub actions_to_json : List (List Float) → Json
actions_to_json chunk = object (field "actions" (array (items_of row_to_json chunk)) end)

-- `range(n)` from `i` on.
abbrev pub range_from : ℕ → ℕ → List ℕ
range_from i zero = []
range_from i (suc n) = i ∷ range_from (i + 1) n

-- `do_POST`: the body is none where `json.loads` raises. Only the two paths are served.
abbrev pub post : (Json → Answer) → (Json → Answer) → String → Option Json → Answer
post reset predict path none = raised
post reset predict path (some body) =
    if Text.◌==◌ path "/reset"
    then reset body
    else if Text.◌==◌ path "/predict"
    then predict body
    else sent (object end) 404

-- ===== src/Schema/Client.antt =====
-- franka_deploy/schema/client.py: the requests to a policy server and the numbers of its session.
-- The server, the clock and the uuids come in as arguments. The headers and the timeout of a request are left out.
pub mod Body
pub mod Session
pub mod Reset
mod Examples
use Prim.Native.String.{String}
use text.Mathlib.Text
use franka_deploy.Common.{
  ℕ, ◌+◌, Bool, true, false, Option, none, some, List, [], ◌∷◌, ℤ, pos, Float, nought,
  if◌then◌else◌,
}
use franka_deploy.Schema.Spec.{RequestFieldSpec, RequestSpec}
use franka_deploy.Schema.Json.{
  Json, null, boolean, int, number, string, array, object, Fields, end, get, assign_nested,
}
use franka_deploy.Schema.Encode.{Raw, plain, ndarray, Arrays, build_field_value}
use franka_deploy.Schema.Sources.{SourceContext, Loaders, split_colon, resolve_source}

-- `session_id` is null before a reset, and where the server has no sessions.
pub record PolicyClient : Type 0 where
  pub spec : RequestSpec
  pub last_predict_ms : Float
  pub session_id : Json
  pub sequence : ℕ

unfoldable pub new : RequestSpec → PolicyClient
new spec = record { spec = spec; last_predict_ms = nought; session_id = null; sequence = 0 }

-- What `uuid4` and `time_ns` give while a field is built.
pub record Moment : Type 0 where
  pub request_id : String
  pub timestamp_ns : ℤ

-- What a call leaves: the client, the body that it sent, and its result, `none` for an exception.
pub record Sent (A : Type 0) : Type 0 where
  pub client : PolicyClient
  pub body : Option Fields
  pub result : Option A

-- The instruction is merged under its name, if the request has one.
abbrev pub with_instruction : Option String → Option String → Fields → Option Fields
with_instruction (some name) (some instruction) body =
    if Text.◌==◌ name "" then some body else assign_nested body name (string instruction)
with_instruction none instruction body = some body
with_instruction (some name) none body = some body

-- `result.get("session_id")`, for a result that is a dict.
abbrev pub session_of : Json → Option Json
session_of (object d) = elim (get "session_id" d) [ none ↦ some null | some id ↦ some id ]
session_of null = none
session_of (boolean b) = none
session_of (int n) = none
session_of (number x) = none
session_of (string s) = none
session_of (array xs) = none

-- The end of a reset: the sequence starts over before the request is posted.
abbrev pub posted_reset : PolicyClient → Fields → Option Json → Sent Json
posted_reset c body answer =
    let c' = record c { sequence = 0 } in
    elim answer [
      | none ↦ record { client = c'; body = some body; result = none }
      | some result ↦ elim (session_of result) [
        | none ↦ record { client = c'; body = some body; result = none }
        | some id ↦ record {
          client = record c' { session_id = id };
          body = some body;
          result = some result;
        }
      ]
    ]

-- `data[actions_key]`, which is missing in anything but a dict.
abbrev pub actions_of : String → Json → Option Json
actions_of key (object d) = get key d
actions_of key null = none
actions_of key (boolean b) = none
actions_of key (int n) = none
actions_of key (number x) = none
actions_of key (string s) = none
actions_of key (array xs) = none

module _ {Array : Type 0} (np : Arrays Array) (loaders : Loaders Array) where
  -- A number of the sequence is used up when it is read.
  unfoldable pub resolve_session_source :
      PolicyClient → Moment → String → PolicyClient × Option (Raw Array)
  resolve_session_source c now kind =
      if Text.◌==◌ kind "id"
      then (c, some (plain c.session_id))
      else if Text.◌==◌ kind "sequence"
      then (record c { sequence = c.sequence + 1 }, some (plain (int (pos c.sequence))))
      else if Text.◌==◌ kind "request_id"
      then (c, some (plain (string now.request_id)))
      else if Text.◌==◌ kind "timestamp_ns"
      then (c, some (plain (int now.timestamp_ns)))
      else (c, none)

  -- `session:` sources are the client's own.
  abbrev pub raw_by :
      SourceContext Array
      → PolicyClient
      → Moment
      → String
      → Option (String × String)
      → PolicyClient × Option (Raw Array)
  raw_by ctx c now source none = (c, resolve_source loaders ctx source)
  raw_by ctx c now source (some (kind, detail)) =
      if Text.◌==◌ kind "session"
      then resolve_session_source c now detail
      else (c, resolve_source loaders ctx source)

  unfoldable pub raw_of :
      SourceContext Array → PolicyClient → Moment → String → PolicyClient × Option (Raw Array)
  unfolding resolve_session_source
  raw_of ctx c now source = raw_by ctx c now source (split_colon source)

  -- The loop of `_build_body` from the i-th field on.
  unfoldable pub build_fields :
      SourceContext Array
      → (ℕ → Moment)
      → ℕ
      → PolicyClient
      → Fields
      → List RequestFieldSpec
      → PolicyClient × Option Fields
  build_fields ctx now i c payload [] = (c, some payload)
  build_fields ctx now i c payload (f ∷ fs) =
      let (c', resolved) = raw_of ctx c (now i) f.source in
      elim resolved [
        | none ↦ (c', none)
        | some raw ↦ elim (build_field_value np loaders.value_plugin raw f) [
          | none ↦ (c', none)
          | some value ↦ elim (assign_nested payload f.name value) [
            | none ↦ (c', none)
            | some payload' ↦ build_fields ctx now (i + 1) c' payload' fs
          ]
        ]
      ]

  unfoldable pub build_body :
      SourceContext Array
      → (ℕ → Moment)
      → PolicyClient
      → List RequestFieldSpec
      → PolicyClient × Option Fields
  build_body ctx now c fields = build_fields ctx now 0 c end fields

  abbrev pub empty_ctx : SourceContext Array
  empty_ctx = record { cameras = []; robot_state = [] }

  unfoldable pub reset : PolicyClient → (ℕ → Moment) → Option String → Option Json → Sent Json
  reset c now instruction answer =
      let (c', built) = build_body empty_ctx now c c.spec.reset_fields in
      elim built [
        | none ↦ record { client = c'; body = none; result = none }
        | some body ↦ elim (with_instruction c.spec.instruction_field instruction body) [
          | none ↦ record { client = c'; body = none; result = none }
          | some body' ↦ posted_reset c' body' answer
        ]
      ]

  abbrev pub chunk_of : String → Json → Option Array
  chunk_of key result = elim (actions_of key result) [
    | none ↦ none
    | some actions ↦ np.asarray_float actions
  ]

  -- The clock is read after the answer.
  abbrev pub posted_predict : PolicyClient → Fields → Option Json → Float → Sent Array
  posted_predict c body answer elapsed_ms = elim answer [
    | none ↦ record { client = c; body = some body; result = none }
    | some result ↦ record {
      client = record c { last_predict_ms = elapsed_ms };
      body = some body;
      result = chunk_of c.spec.actions_key result;
    }
  ]

  unfoldable pub predict :
      PolicyClient → SourceContext Array → (ℕ → Moment) → Option Json → Float → Sent Array
  predict c ctx now answer elapsed_ms =
      let (c', built) = build_body ctx now c c.spec.fields in
      elim built [
        | none ↦ record { client = c'; body = none; result = none }
        | some body ↦ posted_predict c' body answer elapsed_ms
      ]

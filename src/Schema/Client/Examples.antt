-- ===== src/Schema/Client/Examples.antt =====
-- The theorems about the policy client at a request with three fields, and tests.
use Prim.Native.String.{String}
use text.Mathlib.TextEquality.{eq_iff}
use franka_deploy.Common.{
  ℕ, ◌≡◌, ◌≢◌, refl, arith, none, some, List, [], ◌∷◌, pos, nought, inr, All,
}
use franka_deploy.Schema.Spec.{RequestFieldSpec, RequestSpec, hwc, none_encoding}
use franka_deploy.Schema.Json.{
  Json, int, string, object, Fields, end, field, get, put, split_dots, assign, assign_nested,
}
use franka_deploy.Schema.Encode.{
  plain, ndarray, Arrays, build_field_value, before_transform, build_array_value, shaped, encoded,
}
use franka_deploy.Schema.Sources.{SourceContext, Loaders, split_colon, resolve_source}
use franka_deploy.Schema.Client.{
  PolicyClient, Moment, resolve_session_source, raw_of, build_fields, build_body,
}
use franka_deploy.Schema.Client.Body
use franka_deploy.Schema.Client.Session

-- Arrays that are the JSON values that they are made of.
abbrev toy : Arrays Json
toy = record {
  asarray = λ raw. elim raw [ plain j ↦ some j | ndarray a ↦ some a ];
  asarray_float = λ j. some j;
  resize = λ a hw. some a;
  shape_of = λ a. [];
  dtype_of = λ a. "float64";
  transpose_2_0_1 = λ a. a;
  times = λ a x. a;
  minus = λ a x. a;
  over = λ a x. a;
  astype = λ a t. some a;
  reshape = λ a s. some a;
  reverse_channels = λ a. a;
  ascontiguousarray = λ a t. some a;
  tobytes_base64 = λ a. "";
  imencode = λ fmt a. some "";
  tolist = λ a. a;
}

-- Every constant is a text, and there are no plug-ins.
abbrev loaders : Loaders Json
loaders = record {
  loads = λ s. none;
  source_plugin = λ path ctx. none;
  value_plugin = λ path value. none;
}

abbrev sent_as_is : String → String → RequestFieldSpec
sent_as_is name source = record {
  name = name;
  source = source;
  dtype = none;
  shape = none;
  resize = none;
  layout = hwc;
  normalize = none;
  encoding = none_encoding;
  transform_fn = none;
}

abbrev numbered : RequestFieldSpec
numbered = sent_as_is "meta.seq" "session:sequence"

abbrev fields : List RequestFieldSpec
fields = sent_as_is "task" "static:pick" ∷ numbered ∷ sent_as_is "meta.id" "session:id" ∷ []

abbrev spec : RequestSpec
spec = record {
  connection = record {
    server_ip = "localhost";
    server_port = 8080;
    scheme = "http";
    predict_endpoint = "/predict";
    reset_endpoint = "/reset";
    headers = [];
  };
  fields = fields;
  reset_fields = [];
  actions_key = "actions";
  instruction_field = some "task";
}

abbrev client : PolicyClient
client = record { spec = spec; last_predict_ms = nought; session_id = string "a1"; sequence = 4 }

abbrev now : ℕ → Moment
now i = record { request_id = "r"; timestamp_ns = pos i }

abbrev nothing : SourceContext Json
nothing = record { cameras = []; robot_state = [] }

abbrev round : Session.Round Json
round = record { ctx = nothing; now = now; answer = none; elapsed_ms = nought }

body_of_three :
    (build_body toy loaders nothing now client fields).1
    ≡ some (
        field "task"
          (string "pick")
          (field "meta" (object (field "seq" (int (pos 4)) (field "id" (string "a1") end))) end))
unfolding build_body build_fields raw_of resolve_session_source split_colon resolve_source
    build_field_value before_transform build_array_value shaped encoded assign_nested split_dots
    assign get put
body_of_three = refl

task_not_meta : ◌≢◌ {A = String} "task" "meta"
task_not_meta = ground (arith, eq_iff "task" "meta")

seq_not_id : ◌≢◌ {A = String} "seq" "id"
seq_not_id = ground (arith, eq_iff "seq" "id")

separate : Body.Separate fields
unfolding split_dots
separate = ((task_not_meta, (task_not_meta, tt)), ((inr seq_not_id, tt), (tt, tt)))

numbered-IsSequence : Session.IsSequence numbered
unfolding split_colon
numbered-IsSequence = record {
  source_parts = refl;
  no_dtype = refl;
  no_shape = refl;
  no_resize = refl;
  as_hwc = refl;
  no_normalize = refl;
  not_encoded = refl;
  no_transform = refl;
}

predicts-Increasing_example :
    Session.Increasing "meta.seq" 4
      (Session.predicts toy loaders client (round ∷ round ∷ round ∷ []))
predicts-Increasing_example =
    Session.predicts-Increasing toy loaders client (round ∷ round ∷ round ∷ []) 1 numbered
      (λ n. (int (pos n), refl, refl)) numbered-IsSequence separate refl 4 (omega arith)

as_it_is :
    (j : Json)
    → build_field_value toy (λ path value. none) (plain j) (sent_as_is "meta.id" "session:id")
      ≡ some j
unfolding build_field_value before_transform build_array_value shaped encoded
as_it_is j = ground arith

fields_HasValue : All (Body.HasValue toy loaders nothing now) fields
unfolding raw_of resolve_session_source split_colon resolve_source build_field_value
    before_transform build_array_value shaped encoded
fields_HasValue = (
  λ c i. (plain (string "pick"), string "pick", refl, refl),
  (
    λ c i. (plain (int (pos c.sequence)), int (pos c.sequence), refl, refl),
    (λ c i. (plain c.session_id, c.session_id, refl, as_it_is c.session_id), tt),
  ),
)

build_body_total_example :
    (out : Fields) × ((build_body toy loaders nothing now client fields).1 ≡ some out)
    × All
        (λ f.
          Body.Carries toy loaders nothing now client
            (build_body toy loaders nothing now client fields).0
            f
            out)
        fields
build_body_total_example =
    Body.build_body_total toy loaders nothing now client fields separate fields_HasValue

-- ===== src/Api/Persist/Types.antt =====
-- The types that the dataclasses of franka_deploy/ declare for what a body sets. The program does not check them:
-- it keeps a value of another type, for which the records here have no place.
use Prim.Native.String.{String}
use text.Mathlib.Text
use franka_deploy.Common.{◌||◌, Bool, true, false, ◌&&◌, none, some, List, [], ◌∷◌, pos, ◌≡◌}
use franka_deploy.Schema.Json.{
  Json, null, boolean, int, number, string, array, object, Items, nil, cons, Fields, end, field,
  get,
}

abbrev pub is_string : Json → Bool
is_string (string s) = true
is_string _ = false

-- A `Literal` of strings.
abbrev is_among : String → List String → Bool
is_among s [] = false
is_among s (t ∷ ts) = Text.◌==◌ s t || is_among s ts

abbrev is_one_of : List String → Json → Bool
is_one_of ts (string s) = is_among s ts
is_one_of ts _ = false

-- An int stands for a float.
abbrev pub is_number : Json → Bool
is_number (number x) = true
is_number (int n) = true
is_number _ = false

-- The sizes and counts are never negative.
abbrev is_count : Json → Bool
is_count (int (pos n)) = true
is_count _ = false

abbrev is_boolean : Json → Bool
is_boolean (boolean b) = true
is_boolean _ = false

abbrev is_null_or : (Json → Bool) → Json → Bool
is_null_or fits null = true
is_null_or fits j = fits j

abbrev each_fits : (Json → Bool) → Items → Bool
each_fits fits nil = true
each_fits fits (cons j js) = fits j && each_fits fits js

abbrev is_list : (Json → Bool) → Json → Bool
is_list fits (array js) = each_fits fits js
is_list fits _ = false

abbrev values_fit : (Json → Bool) → Fields → Bool
values_fit fits end = true
values_fit fits (field k j d) = fits j && values_fit fits d

abbrev is_dict : (Json → Bool) → Json → Bool
is_dict fits (object d) = values_fit fits d
is_dict fits _ = false

abbrev pub present_fits : String → (Json → Bool) → Fields → Bool
present_fits k fits d = elim (get k d) [ none ↦ true | some j ↦ fits j ]

-- Each of the keys, where it is present, has a value of its type.
abbrev all_fit : List (String × (Json → Bool)) → Fields → Bool
all_fit [] d = true
all_fit ((k, fits) ∷ rest) d = present_fits k fits d && all_fit rest d

abbrev has_types : List (String × (Json → Bool)) → Json → Bool
has_types types (object d) = all_fit types d
has_types types _ = false

abbrev is_camera : Json → Bool
is_camera = has_types (
    ("role", is_string)
    ∷ ("serial", is_null_or is_string)
    ∷ ("width", is_count)
    ∷ ("height", is_count)
    ∷ ("fps", is_count)
    ∷ [])

abbrev is_connection : Json → Bool
is_connection = has_types (
    ("server_ip", is_string)
    ∷ ("server_port", is_count)
    ∷ ("scheme", is_string)
    ∷ ("predict_endpoint", is_string)
    ∷ ("reset_endpoint", is_string)
    ∷ ("headers", is_dict is_string)
    ∷ [])

abbrev is_request_field : Json → Bool
is_request_field = has_types (
    ("name", is_string)
    ∷ ("source", is_string)
    ∷ ("dtype", is_null_or is_string)
    ∷ ("shape", is_null_or (is_list is_count))
    ∷ ("resize", is_null_or (is_list is_count))
    ∷ ("layout", is_one_of ("HWC" ∷ "CHW" ∷ []))
    ∷ ("normalize", is_null_or (is_dict is_number))
    ∷ (
      "encoding",
      is_one_of
          ("none" ∷ "raw_bytes_base64" ∷ "png_base64" ∷ "jpeg_base64" ∷ "png_base64_str" ∷ []),
    )
    ∷ ("transform_fn", is_null_or is_string)
    ∷ [])

abbrev is_request_spec : Json → Bool
is_request_spec = has_types (
    ("connection", is_connection)
    ∷ ("fields", is_list is_request_field)
    ∷ ("reset_fields", is_list is_request_field)
    ∷ ("actions_key", is_string)
    ∷ ("instruction_field", is_null_or is_string)
    ∷ [])

abbrev is_loop_config : Json → Bool
is_loop_config = has_types (
    ("fps", is_number)
    ∷ ("exec_horizon", is_count)
    ∷ ("lead_ticks", is_count)
    ∷ ("max_step_rad", is_number)
    ∷ ("ema_alpha", is_number)
    ∷ ("watchdog_enabled", is_boolean)
    ∷ ("watchdog_window", is_count)
    ∷ ("watchdog_threshold", is_number)
    ∷ ("watchdog_trip_count", is_count)
    ∷ ("watchdog_deadzone", is_number)
    ∷ [])

-- A body whose values have the types that are declared.
pub record IsTyped (body : Fields) : Type 0 where
  pub address : present_fits "robot_node_address" is_string body ≡ true
  pub cameras : present_fits "cameras" (is_list is_camera) body ≡ true
  pub request_spec : present_fits "request_spec" (is_null_or is_request_spec) body ≡ true
  pub loop : present_fits "loop" is_loop_config body ≡ true
  pub v_max : present_fits "v_max" is_number body ≡ true
  pub a_max : present_fits "a_max" is_number body ≡ true
  pub j_max : present_fits "j_max" is_number body ≡ true
  pub filter_wn : present_fits "filter_wn" is_number body ≡ true

-- ===== src/Schema/Serialize.antt =====
-- franka_deploy/schema/serialize.py: the request specification as a dict, and back.
-- `none` is an exception. The dataclasses take a value of any type; here one of another type is refused.
pub mod Roundtrip
use Prim.Native.String.{String}
use text.Mathlib.Text
use franka_deploy.Common.{
  ℕ, Bool, true, false, ◌&&◌, ◌||◌, Option, none, some, List, [], ◌∷◌, suc, pos, negsuc, neg, Float,
  Numpy, if◌then◌else◌,
}
use franka_deploy.Schema.Spec.{
  Layout, hwc, chw, Encoding, none_encoding, raw_bytes_base64, png_base64, jpeg_base64,
  png_base64_str, RequestFieldSpec, ConnectionSpec, RequestSpec,
}
use franka_deploy.Schema.Json.{
  Json, null, boolean, int, number, string, array, object, Items, nil, cons, Fields, end, field,
  get,
}
use franka_deploy.Schema.Options.{◌>>=◌}

-- A keyword that no parameter has is a `TypeError`.
abbrev pub is_known : List String → String → Bool
is_known [] k = false
is_known (j ∷ js) k = Text.◌==◌ j k || is_known js k

abbrev pub all_known : List String → Fields → Bool
all_known ks end = true
all_known ks (field k v d) = is_known ks k && all_known ks d

abbrev pub known : {A : Type 0} → List String → Fields → Option A → Option A
known ks d result = if all_known ks d then result else none

-- A parameter with and without a default.
abbrev pub with_default : {A : Type 0} → String → Fields → A → (Json → Option A) → Option A
with_default k d a read = elim (get k d) [ none ↦ some a | some j ↦ read j ]

abbrev pub required : {A : Type 0} → String → Fields → (Json → Option A) → Option A
required k d read = elim (get k d) [ none ↦ none | some j ↦ read j ]

abbrev pub as_string : Json → Option String
as_string (string s) = some s
as_string _ = none

-- An int is kept where a float is asked for; here it is the float of its value.
abbrev pub as_number : Numpy → Json → Option Float
as_number np (number x) = some x
as_number np (int (pos n)) = some (np.of_ℕ n)
as_number np (int (negsuc n)) = some (neg (np.of_ℕ (suc n)))
as_number np _ = none

abbrev pub as_boolean : Json → Option Bool
as_boolean (boolean b) = some b
as_boolean _ = none

abbrev pub as_ℕ : Json → Option ℕ
as_ℕ (int (pos n)) = some n
as_ℕ _ = none

abbrev pub as_object : Json → Option Fields
as_object (object d) = some d
as_object _ = none

-- The elements of an array.
abbrev pub each : {A : Type 0} → (Json → Option A) → Items → Option (List A)
each read nil = some []
each read (cons j js) = do a ← read j; rest ← each read js; some (a ∷ rest)

abbrev pub as_list : {A : Type 0} → (Json → Option A) → Json → Option (List A)
as_list read (array js) = each read js
as_list read _ = none

-- The entries of a dict.
abbrev pub entries : {A : Type 0} → (Json → Option A) → Fields → Option (List (String × A))
entries read end = some []
entries read (field k v d) = do a ← read v; rest ← entries read d; some ((k, a) ∷ rest)

abbrev pub as_dict : {A : Type 0} → (Json → Option A) → Json → Option (List (String × A))
as_dict read (object d) = entries read d
as_dict read _ = none

abbrev pub nullable : {A : Type 0} → (Json → Option A) → Json → Option (Option A)
nullable read null = some none
nullable read (boolean b) = do a ← read (boolean b); some (some a)
nullable read (int n) = do a ← read (int n); some (some a)
nullable read (number x) = do a ← read (number x); some (some a)
nullable read (string s) = do a ← read (string s); some (some a)
nullable read (array js) = do a ← read (array js); some (some a)
nullable read (object d) = do a ← read (object d); some (some a)

abbrev pub or_null : {A : Type 0} → (A → Json) → Option A → Json
or_null write none = null
or_null write (some a) = write a

abbrev pub items_of : {A : Type 0} → (A → Json) → List A → Items
items_of write [] = nil
items_of write (a ∷ rest) = cons (write a) (items_of write rest)

abbrev pub fields_of : {A : Type 0} → (A → Json) → List (String × A) → Fields
fields_of write [] = end
fields_of write ((k, a) ∷ rest) = field k (write a) (fields_of write rest)

abbrev pub layout_text : Layout → Json
layout_text hwc = string "HWC"
layout_text chw = string "CHW"

abbrev pub layout_named : String → Option Layout
layout_named s =
    if Text.◌==◌ s "HWC" then some hwc else if Text.◌==◌ s "CHW" then some chw else none

abbrev pub encoding_text : Encoding → Json
encoding_text none_encoding = string "none"
encoding_text raw_bytes_base64 = string "raw_bytes_base64"
encoding_text png_base64 = string "png_base64"
encoding_text jpeg_base64 = string "jpeg_base64"
encoding_text png_base64_str = string "png_base64_str"

abbrev pub encoding_named : String → Option Encoding
encoding_named s =
    if Text.◌==◌ s "none"
    then some none_encoding
    else if Text.◌==◌ s "raw_bytes_base64"
    then some raw_bytes_base64
    else if Text.◌==◌ s "png_base64"
    then some png_base64
    else if Text.◌==◌ s "jpeg_base64"
    then some jpeg_base64
    else if Text.◌==◌ s "png_base64_str"
    then some png_base64_str
    else none

abbrev pub as_layout : Json → Option Layout
as_layout j = do s ← as_string j; layout_named s

abbrev pub as_encoding : Json → Option Encoding
as_encoding j = do s ← as_string j; encoding_named s

-- `asdict` of a field, of the connection and of the whole.
unfoldable pub field_to_dict : RequestFieldSpec → Fields
field_to_dict f = field "name" (string f.name) (
    field "source" (string f.source) (
      field "dtype" (or_null string f.dtype) (
        field "shape" (or_null (λ ns. array (items_of (λ n. int (pos n)) ns)) f.shape) (
          field "resize" (or_null (λ ns. array (items_of (λ n. int (pos n)) ns)) f.resize) (
            field "layout" (layout_text f.layout) (
              field "normalize" (or_null (λ kvs. object (fields_of number kvs)) f.normalize) (
                field "encoding" (encoding_text f.encoding)
                  (field "transform_fn" (or_null string f.transform_fn) end))))))))

unfoldable pub connection_to_dict : ConnectionSpec → Fields
connection_to_dict c = field "server_ip" (string c.server_ip) (
    field "server_port" (int (pos c.server_port)) (
      field "scheme" (string c.scheme) (
        field "predict_endpoint" (string c.predict_endpoint) (
          field "reset_endpoint" (string c.reset_endpoint)
            (field "headers" (object (fields_of string c.headers)) end)))))

unfoldable pub request_spec_to_dict : RequestSpec → Fields
unfolding field_to_dict connection_to_dict
request_spec_to_dict s = field "connection" (object (connection_to_dict s.connection)) (
    field "fields" (array (items_of (λ f. object (field_to_dict f)) s.fields)) (
      field "reset_fields" (array (items_of (λ f. object (field_to_dict f)) s.reset_fields)) (
        field "actions_key" (string s.actions_key)
          (field "instruction_field" (or_null string s.instruction_field) end))))

unfoldable pub field_from_dict : Numpy → Json → Option RequestFieldSpec
field_from_dict np j = do
  d ← as_object j
  name ← required "name" d as_string
  source ← required "source" d as_string
  dtype ← with_default "dtype" d none (nullable as_string)
  shape ← with_default "shape" d none (nullable (as_list as_ℕ))
  resize ← with_default "resize" d none (nullable (as_list as_ℕ))
  layout ← with_default "layout" d hwc as_layout
  normalize ← with_default "normalize" d none (nullable (as_dict (as_number np)))
  encoding ← with_default "encoding" d none_encoding as_encoding
  transform_fn ← with_default "transform_fn" d none (nullable as_string)
  known
      ("name" ∷ "source" ∷ "dtype" ∷ "shape" ∷ "resize" ∷ "layout" ∷ "normalize" ∷ "encoding"
        ∷ "transform_fn" ∷ [])
      d
      (some (record {
        name = name;
        source = source;
        dtype = dtype;
        shape = shape;
        resize = resize;
        layout = layout;
        normalize = normalize;
        encoding = encoding;
        transform_fn = transform_fn;
      }))

unfoldable pub connection_from_dict : Json → Option ConnectionSpec
connection_from_dict j = do
  d ← as_object j
  server_ip ← required "server_ip" d as_string
  server_port ← with_default "server_port" d 8080 as_ℕ
  scheme ← with_default "scheme" d "http" as_string
  predict_endpoint ← with_default "predict_endpoint" d "/predict" as_string
  reset_endpoint ← with_default "reset_endpoint" d "/reset" as_string
  headers ← with_default "headers" d [] (as_dict as_string)
  known
      ("server_ip" ∷ "server_port" ∷ "scheme" ∷ "predict_endpoint" ∷ "reset_endpoint" ∷ "headers"
        ∷ [])
      d
      (some (record {
        server_ip = server_ip;
        server_port = server_port;
        scheme = scheme;
        predict_endpoint = predict_endpoint;
        reset_endpoint = reset_endpoint;
        headers = headers;
      }))

-- Other keys of the whole are passed over here.
unfoldable pub request_spec_from_dict : Numpy → Fields → Option RequestSpec
unfolding connection_from_dict field_from_dict
request_spec_from_dict np d = do
  connection ← required "connection" d connection_from_dict
  fields ← with_default "fields" d [] (as_list (field_from_dict np))
  reset_fields ← with_default "reset_fields" d [] (as_list (field_from_dict np))
  actions_key ← with_default "actions_key" d "actions" as_string
  instruction_field ← with_default "instruction_field" d none (nullable as_string)
  some (record {
    connection = connection;
    fields = fields;
    reset_fields = reset_fields;
    actions_key = actions_key;
    instruction_field = instruction_field;
  })

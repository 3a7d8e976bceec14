-- ===== src/Schema/Encode.antt =====
-- franka_deploy/schema/encode.py: a resolved value becomes what the request asks for.
-- `none` is an exception. The arrays of numpy and the image codecs come in as the fields of a record.
use Prim.Native.String.{String}
use text.Mathlib.Text
use franka_deploy.Common.{
  ℕ, ◌==◌, Bool, false, Option, none, some, List, [], ◌∷◌, pos, Float, if◌then◌else◌,
}
use franka_deploy.Schema.Options.{◌>>=◌}
use franka_deploy.Schema.Spec.{
  Layout, hwc, chw, Encoding, none_encoding, raw_bytes_base64, png_base64, jpeg_base64,
  png_base64_str, RequestFieldSpec,
}
use franka_deploy.Schema.Json.{Json, int, string, array, object, Items, nil, cons, end, field}

-- What a source resolves to: a plain value or an array.
pub data Raw (Array : Type 0) : Type 0 where
  plain : Json → Raw Array
  ndarray : Array → Raw Array

-- What the encoder calls of numpy, cv2 and base64; `asarray` raises on ragged lists, `astype` on an unknown
-- type, `reshape` on another size. `tobytes_base64` and `imencode` give the base64.
pub record Arrays (Array : Type 0) : Type 0 where
  pub asarray : Raw Array → Option Array
  pub asarray_float : Json → Option Array
  pub resize : Array → List ℕ → Option Array
  pub shape_of : Array → List ℕ
  pub dtype_of : Array → String
  pub transpose_2_0_1 : Array → Array
  pub times : Array → Float → Array
  pub minus : Array → Float → Array
  pub over : Array → Float → Array
  pub astype : Array → String → Option Array
  pub reshape : Array → List ℕ → Option Array
  pub reverse_channels : Array → Array
  pub ascontiguousarray : Array → String → Option Array
  pub tobytes_base64 : Array → String
  pub imencode : String → Array → Option String
  pub tolist : Array → Json

-- A key of the dict `normalize`.
abbrev pub entry : String → List (String × Float) → Option Float
entry k [] = none
entry k ((j, x) ∷ kvs) = if Text.◌==◌ j k then some x else entry k kvs

abbrev pub length_ℕ : List ℕ → ℕ
length_ℕ [] = 0
length_ℕ (x ∷ xs) = ℕ.suc (length_ℕ xs)

-- A three-dimensional shape whose last entry is three.
abbrev pub has_three_channels : List ℕ → Bool
has_three_channels (h ∷ w ∷ c ∷ []) = c == 3
has_three_channels _ = false

abbrev pub shape_items : List ℕ → Items
shape_items [] = nil
shape_items (n ∷ ns) = cons (int (pos n)) (shape_items ns)

module _ {Array : Type 0} (np : Arrays Array) where
  open np use {
    asarray, resize, shape_of, dtype_of, transpose_2_0_1, times, minus, over, astype, reshape,
    reverse_channels, ascontiguousarray, tobytes_base64, imencode, tolist,
  }

  abbrev pub apply_layout : Array → Layout → Array
  apply_layout arr chw = if length_ℕ (shape_of arr) == 3 then transpose_2_0_1 arr else arr
  apply_layout arr hwc = arr

  abbrev pub with_entry : Option Float → (Array → Float → Array) → Array → Array
  with_entry none f arr = arr
  with_entry (some x) f arr = f arr x

  unfoldable pub apply_normalize : Array → List (String × Float) → Option Array
  apply_normalize arr spec = do
    wide ← astype arr "float64"
    some (
        with_entry (entry "std" spec) over
          (with_entry (entry "mean" spec) minus (with_entry (entry "scale" spec) times wide)))

  unfoldable pub b64_raw : Array → String → Option Json
  b64_raw arr dtype = do
    flat ← ascontiguousarray arr dtype
    some (
        object (
          field "base64" (string (tobytes_base64 flat)) (
            field "shape" (array (shape_items (shape_of flat)))
              (field "dtype" (string dtype) end))))

  -- The bytes of the image, in base64; the type must be `uint8`.
  unfoldable pub encode_image_bytes : Array → String → Option String
  encode_image_bytes arr fmt =
      if Text.◌==◌ (dtype_of arr) "uint8"
      then imencode fmt (if has_three_channels (shape_of arr) then reverse_channels arr else arr)
      else none

  unfoldable pub b64_image : Array → String → Option Json
  b64_image arr fmt = do
    data_base64 ← encode_image_bytes arr fmt
    some (object (field "base64" (string data_base64) (field "format" (string fmt) end)))

  unfoldable pub b64_image_str : Array → String → Option Json
  b64_image_str arr fmt = do data_base64 ← encode_image_bytes arr fmt; some (string data_base64)

  abbrev pub or_default : Option String → String
  or_default none = "uint8"
  or_default (some dtype) = dtype

  unfoldable pub encoded : Array → Encoding → Option String → Option Json
  encoded arr raw_bytes_base64 dtype = b64_raw arr (or_default dtype)
  encoded arr png_base64 dtype = b64_image arr "png"
  encoded arr jpeg_base64 dtype = b64_image arr "jpg"
  encoded arr png_base64_str dtype = b64_image_str arr "png"
  encoded arr none_encoding dtype = some (tolist arr)

  -- A step that the request may leave out.
  abbrev pub when {ℓ} : {A : Type ℓ} → Option A → (Array → A → Option Array) → Array → Option Array
  when none f arr = some arr
  when (some a) f arr = f arr a

  unfoldable pub shaped : Array → RequestFieldSpec → Option Array
  shaped arr spec = do
    resized ← when spec.resize resize arr
    normal ← when spec.normalize apply_normalize (apply_layout resized spec.layout)
    typed ← when spec.dtype astype normal
    when spec.shape reshape typed

  unfoldable pub build_array_value : Raw Array → RequestFieldSpec → Option Json
  build_array_value raw spec = do
    arr ← asarray raw
    out ← shaped arr spec
    encoded out spec.encoding spec.dtype

  -- A bare text, where neither a type nor a shape is asked for.
  abbrev pub bare : Raw Array → Option String → Option (List ℕ) → Option Json
  bare (plain (string s)) none none = some (string s)
  bare _ _ _ = none

  unfoldable pub before_transform : Raw Array → RequestFieldSpec → Option Json
  before_transform raw spec = elim (bare raw spec.dtype spec.shape) [
    | some value ↦ some value
    | none ↦ build_array_value raw spec
  ]

  -- `load_plugin` is an argument: the function at a dotted path, where there is one.
  unfoldable pub build_field_value :
      (String → Json → Option Json) → Raw Array → RequestFieldSpec → Option Json
  build_field_value plugin raw spec = do
    value ← before_transform raw spec
    elim spec.transform_fn [ none ↦ some value | some path ↦ plugin path value ]

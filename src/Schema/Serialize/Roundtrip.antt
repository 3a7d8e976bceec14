-- ===== src/Schema/Serialize/Roundtrip.antt =====
-- A specification that is written as a dict is read back.
use Prim.Native.String.{String}
use franka_deploy.Common.{ℕ, ◌≡◌, refl, Option, none, some, List, [], ◌∷◌, pos, Float, Numpy}
use franka_deploy.Schema.Spec.{
  Layout, hwc, chw, Encoding, none_encoding, raw_bytes_base64, png_base64, jpeg_base64,
  png_base64_str, RequestFieldSpec, ConnectionSpec, RequestSpec,
}
use franka_deploy.Schema.Json.{Json, int, number, string, array, object, get}
use franka_deploy.Schema.Serialize.{
  each, as_ℕ, as_number, as_string, as_list, as_dict, nullable, or_null, items_of, entries,
  fields_of, layout_text, as_layout, encoding_text, as_encoding, field_to_dict, connection_to_dict,
  request_spec_to_dict, field_from_dict, connection_from_dict, request_spec_from_dict,
}

module _ {A : Type 0} (read : Json → Option A) (write : A → Json)
    (back : (a : A) → read (write a) ≡ some a) where
  pub each-items_of : (xs : List A) → each read (items_of write xs) ≡ some xs
  each-items_of [] = refl
  each-items_of (x ∷ xs) = rw (back x) (rw (each-items_of xs) refl)

  entries-fields_of : (kvs : List (String × A)) → entries read (fields_of write kvs) ≡ some kvs
  entries-fields_of [] = refl
  entries-fields_of ((k, a) ∷ rest) = rw (back a) (rw (entries-fields_of rest) refl)

pub strings_back : (o : Option String) → nullable as_string (or_null string o) ≡ some o
strings_back none = refl
strings_back (some s) = refl

numbers_back :
    (o : Option (List ℕ))
    → nullable (as_list as_ℕ) (or_null (λ ns. array (items_of (λ n. int (pos n)) ns)) o) ≡ some o
numbers_back none = refl
numbers_back (some ns) = rw (each-items_of as_ℕ (λ n. int (pos n)) (λ n. refl) ns) refl

normalize_back :
    (np : Numpy) (o : Option (List (String × Float)))
    → nullable (as_dict (as_number np)) (or_null (λ kvs. object (fields_of number kvs)) o) ≡ some o
normalize_back np none = refl
normalize_back np (some kvs) = rw (entries-fields_of (as_number np) number (λ x. refl) kvs) refl

layout_back : (l : Layout) → as_layout (layout_text l) ≡ some l
layout_back hwc = refl
layout_back chw = refl

encoding_back : (e : Encoding) → as_encoding (encoding_text e) ≡ some e
encoding_back none_encoding = refl
encoding_back raw_bytes_base64 = refl
encoding_back png_base64 = refl
encoding_back jpeg_base64 = refl
encoding_back png_base64_str = refl

field_from_dict-field_to_dict :
    (np : Numpy) (f : RequestFieldSpec) → field_from_dict np (object (field_to_dict f)) ≡ some f
unfolding field_from_dict field_to_dict get
field_from_dict-field_to_dict np f =
    rw
      (
        strings_back f.dtype,
        numbers_back f.shape,
        numbers_back f.resize,
        layout_back f.layout,
        normalize_back np f.normalize,
        encoding_back f.encoding,
        strings_back f.transform_fn,
      )
      refl

connection_from_dict-connection_to_dict :
    (c : ConnectionSpec) → connection_from_dict (object (connection_to_dict c)) ≡ some c
unfolding connection_from_dict connection_to_dict get
connection_from_dict-connection_to_dict c =
    rw (entries-fields_of as_string string (λ s. refl) c.headers) refl

-- A request specification that is written as a dict is read back as it was, with its connection, its
-- fields in their order, and all their options.
pub request_spec_from_dict-request_spec_to_dict :
    (np : Numpy) (s : RequestSpec) → request_spec_from_dict np (request_spec_to_dict s) ≡ some s
unfolding request_spec_from_dict request_spec_to_dict get
request_spec_from_dict-request_spec_to_dict np s =
    let back = λ (f : RequestFieldSpec). field_from_dict-field_to_dict np f in
    rw
      (
        connection_from_dict-connection_to_dict s.connection,
        each-items_of (field_from_dict np) (λ f. object (field_to_dict f)) back s.fields,
        each-items_of (field_from_dict np) (λ f. object (field_to_dict f)) back s.reset_fields,
        strings_back s.instruction_field,
      )
      refl

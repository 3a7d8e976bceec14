-- ===== src/Schema/Json.antt =====
-- JSON values, and `_assign_nested` of franka_deploy/schema/client.py.
pub mod Nested
use Prim.Native.Char.{Char, code}
use Prim.Native.String.{String}
use text.Mathlib.Text
use franka_deploy.Common.{ℕ, ◌==◌, Bool, Option, none, some, List, [], ◌∷◌, ℤ, Float, if◌then◌else◌}

mutual
  pub data Json : Type 0 where
    null : Json
    boolean : Bool → Json
    int : ℤ → Json
    number : Float → Json
    string : String → Json
    array : Items → Json
    object : Fields → Json

  pub data Items : Type 0 where
    nil : Items
    cons : Json → Items → Items

  pub data Fields : Type 0 where
    end : Fields
    field : String → Json → Fields → Fields

-- `d.get(k)`, and `d[k] = v`, which keeps the place of a key that is there.
unfoldable pub get : String → Fields → Option Json
get k end = none
get k (field j v d) = if Text.◌==◌ j k then some v else get k d

unfoldable pub put : String → Json → Fields → Fields
put k v end = field k v end
put k v (field j w d) = if Text.◌==◌ j k then field k v d else field j w (put k v d)

-- What `d.setdefault(p, {})` returns, where it is a dict; anything else raises at its next use.
abbrev pub dict_at : Option Json → Option Fields
dict_at none = some end
dict_at (some (object d)) = some d
dict_at (some null) = none
dict_at (some (boolean b)) = none
dict_at (some (int n)) = none
dict_at (some (number x)) = none
dict_at (some (string s)) = none
dict_at (some (array xs)) = none

-- A name with its dots split is a first part and the parts after it.
unfoldable pub split_dots : String → String × List String
split_dots String.[] = ("", [])
split_dots (String.◌∷◌ c s) =
    let (part, parts) = split_dots s in
    if code c == b'.' then ("", part ∷ parts) else (String.◌∷◌ c part, parts)

-- The loop over `parts[:-1]`, and the assignment.
unfoldable pub assign : String → List String → Json → Fields → Option Fields
assign k [] v d = some (put k v d)
assign k (p ∷ ps) v d = elim (dict_at (get k d)) [
  | none ↦ none
  | some child ↦ elim (assign p ps v child) [
    | none ↦ none
    | some inner ↦ some (put k (object inner) d)
  ]
]

unfoldable pub assign_nested : Fields → String → Json → Option Fields
assign_nested payload name v = let (k, ks) = split_dots name in assign k ks v payload

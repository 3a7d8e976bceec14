-- ===== src/DevServers/Motion.antt =====
-- scripts/dev_motion_server.py: holds the pose that it is given and turns the last joint to and fro.
-- `entry` is what `np.array` with a float dtype makes of an entry, `to_float` is Python's `float`; none stands for
-- an exception, and an entry that is a list is one as well.
pub mod Wiggle
pub mod Rollout
use Prim.Native.String.{String}
use franka_deploy.Common.{
  ℕ, zero, suc, ◌+◌, Bool, true, false, Option, none, some, List, [], ◌∷◌, ◌++◌, map, Float, nought,
  ltb, Numpy, ◌+ℤ◌, if◌then◌else◌,
}
use franka_deploy.Schema.Options.{◌>>=◌}
use franka_deploy.Schema.Json.{
  Json, null, boolean, int, number, string, array, object, Items, nil, cons, Fields, end, field,
  get,
}
use franka_deploy.Schema.Serialize.{as_object}
use franka_deploy.Api.Persist.{truthy}
use franka_deploy.Kinematics.Trigonometry.{Trigonometry}
use franka_deploy.DevServers.{Answer, sent, raised, actions_to_json, range_from, post}

abbrev text_length : String → ℕ
text_length String.[] = 0
text_length (String.◌∷◌ c s) = suc (text_length s)

abbrev pub items_length : Items → ℕ
items_length nil = 0
items_length (cons j js) = suc (items_length js)

abbrev fields_length : Fields → ℕ
fields_length end = 0
fields_length (field k v d) = suc (fields_length d)

-- `len`, which raises on what has no length.
abbrev pub length_of : Json → Option ℕ
length_of (array js) = some (items_length js)
length_of (string s) = some (text_length s)
length_of (object d) = some (fields_length d)
length_of null = none
length_of (boolean b) = none
length_of (int n) = none
length_of (number x) = none

-- `not state or len(state) < 7`.
unfoldable pub too_short : Json → Option Bool
too_short state = if truthy state then (do n ← length_of state; some (ltb n 7)) else some true

-- A key that is not there is `None`.
abbrev pub state_of : Fields → Json
state_of d = elim (get "state" d) [ none ↦ null | some j ↦ j ]

abbrev pub as_items : Json → Option Items
as_items (array js) = some js
as_items _ = none

abbrev pub short_state : Json
short_state = object (field "error" (string "missing/short 'state' field (need >=7 joints)") end)

module _ (np : Numpy) (trig : Trigonometry) (entry to_float : Json → Option Float)
    (amplitude period dt : Float) (chunk_len : ℕ) where
  open np use {lit, mul, div, of_ℕ}
  open trig use {pi, sin}

  abbrev pub wiggle : Float → ℕ → Float
  wiggle t0 i = mul amplitude (sin (div (mul (mul (lit 2 0) pi) (t0 +ℤ mul (of_ℕ i) dt)) period))

  -- The first seven entries, and the gripper if there is one.
  unfoldable pub measured : Items → Option (List Float × Float × Float)
  measured (cons a (cons b (cons c (cons d (cons e (cons f (cons g rest))))))) = do
    x1 ← entry a
    x2 ← entry b
    x3 ← entry c
    x4 ← entry d
    x5 ← entry e
    x6 ← entry f
    x7 ← entry g
    gripper ← elim rest [ nil ↦ some nought | cons h more ↦ to_float h ]
    some (x1 ∷ x2 ∷ x3 ∷ x4 ∷ x5 ∷ x6 ∷ [], x7, gripper)
  measured _ = none

  abbrev pub row_at : List Float × Float × Float → Float → ℕ → List Float
  row_at (others, x7, gripper) t0 i = others ++ (x7 +ℤ wiggle t0 i) ∷ gripper ∷ []

  unfoldable pub chunk_at : List Float × Float × Float → Float → List (List Float)
  chunk_at q t0 = map (row_at q t0) (range_from 0 chunk_len)

  abbrev pub moved : Option (List Float × Float × Float) → Float → Answer
  moved none t0 = raised
  moved (some q) t0 = sent (actions_to_json (chunk_at q t0)) 200

  abbrev pub on_state : Option Bool → Json → Float → Answer
  on_state none state t0 = raised
  on_state (some true) state t0 = sent short_state 400
  on_state (some false) state t0 = moved (do js ← as_items state; measured js) t0

  abbrev pub predict : Json → Float → Answer
  predict body t0 = elim (as_object body) [
    | none ↦ raised
    | some d ↦ on_state (too_short (state_of d)) (state_of d) t0
  ]

  abbrev pub echoed : Option Json → Json
  echoed none = string ""
  echoed (some j) = j

  abbrev pub reset : Json → Answer
  reset body = elim (as_object body) [
    | none ↦ raised
    | some d ↦ sent (object (field "instruction" (echoed (get "instruction" d)) end)) 200
  ]

  -- `t0` is the clock when the request is served.
  unfoldable pub do_post : String → Option Json → Float → Answer
  unfolding too_short measured chunk_at
  do_post path body t0 = post reset (λ j. predict j t0) path body

-- ===== src/Api/Persist/Raises.antt =====
-- What raises in a change of the configuration.
use Prim.Native.String.{String}
use franka_deploy.Common.{
  ◌≡◌, refl, arith, ◌≢◌, Bool, true, false, Option, none, some, Option-cases, ◌⊎◌, inl, inr, Numpy,
}
use franka_deploy.Schema.Json.{Json, null, boolean, int, number, string, array, object, Fields, get}
use franka_deploy.Schema.Serialize.{as_string, as_number, as_list}
use franka_deploy.Api.State.{AppConfig}
use franka_deploy.Api.Persist.{
  camera_from_dict, loop_from_dict, spec_of, Changing, and_then, set_from, if_in, unless_null,
  set_address, set_cameras, set_spec, set_loop, set_limits, change_by,
}
use franka_deploy.Api.Persist.Types.{present_fits, is_string, is_number, IsTyped}

and_then-raised :
    (m : Changing) (change : AppConfig → Changing)
    → (and_then m change).1 ≡ false
    → (m.1 ≡ false) ⊎ ((change m.0).1 ≡ false)
and_then-raised (cfg, true) change h = inr h
and_then-raised (cfg, false) change h = inl refl

-- The value of a key, which the reader does not take.
abbrev pub Unread : {A : Type 0} → String → (Json → Option A) → Fields → Type 0
Unread k read body = (j : Json) × (get k body ≡ some j) × (read j ≡ none)

module _ {A : Type 0} (read : Json → Option A) (assign : A → AppConfig → AppConfig) where
  set_from-raised :
      (j : Json) (cfg : AppConfig) → (set_from read assign j cfg).1 ≡ false → read j ≡ none
  set_from-raised j cfg h = ground arith

  unless_null-raised :
      (j : Json) (cfg : AppConfig)
      → (unless_null (set_from read assign) j cfg).1 ≡ false
      → read j ≡ none
  unless_null-raised null cfg h = cc
  unless_null-raised (boolean b) cfg h = set_from-raised (boolean b) cfg h
  unless_null-raised (int n) cfg h = set_from-raised (int n) cfg h
  unless_null-raised (number x) cfg h = set_from-raised (number x) cfg h
  unless_null-raised (string s) cfg h = set_from-raised (string s) cfg h
  unless_null-raised (array js) cfg h = set_from-raised (array js) cfg h
  unless_null-raised (object d) cfg h = set_from-raised (object d) cfg h

module _ {A : Type 0} (k : String) (body : Fields) (read : Json → Option A) where
  if_in-raised :
      (change : Json → AppConfig → Changing) (cfg : AppConfig)
      → ((j : Json) → (change j cfg).1 ≡ false → read j ≡ none)
      → (if_in k body change cfg).1 ≡ false
      → Unread k read body
  if_in-raised change cfg only h = elim (Option-cases (get k body)) [
    | inl absent ↦ absurd (present absent h)
    | inr (j, here) ↦ (j, here, only j (changed j here h))
  ]
    where
      present : get k body ≡ none → (if_in k body change cfg).1 ≢ false
      present e f = ground (arith, e)

      changed :
          (j : Json)
          → get k body ≡ some j
          → (if_in k body change cfg).1 ≡ false
          → (change j cfg).1 ≡ false
      changed j e f = ground (arith, e, f)

  -- A value of its type is read.
  if_in-typed :
      (fits : Json → Bool) (assign : A → AppConfig → AppConfig) (cfg : AppConfig)
      → ((j : Json) → fits j ≡ true → read j ≢ none)
      → present_fits k fits body ≡ true
      → (if_in k body (set_from read assign) cfg).1 ≢ false
  if_in-typed fits assign cfg reads typed h =
      let (j, here, unread) =
        if_in-raised (set_from read assign) cfg (λ i. set_from-raised read assign i cfg) h in
      reads j (fits_of j here) unread
    where
      fits_of : (j : Json) → get k body ≡ some j → fits j ≡ true
      fits_of j e = ground (arith, e, typed)

is_string-reads : (j : Json) → is_string j ≡ true → as_string j ≢ none
is_string-reads j h e = ground arith

is_number-reads : (np : Numpy) (j : Json) → is_number j ≡ true → as_number np j ≢ none
is_number-reads np j h e = ground arith

-- The loop over the limits does not raise on limits that are numbers.
set_limits-typed :
    (np : Numpy) (body : Fields) (cfg : AppConfig)
    → IsTyped body
    → (set_limits np body cfg).1 ≢ false
set_limits-typed np body cfg typed h =
    let reads = is_number-reads np in
    let v = if_in "v_max" body (set_from (as_number np) (λ x c. record c { v_max = x })) cfg in
    let a = if_in "a_max" body (set_from (as_number np) (λ x c. record c { a_max = x })) in
    let j = if_in "j_max" body (set_from (as_number np) (λ x c. record c { j_max = x })) in
    let w = if_in "filter_wn" body (set_from (as_number np) (λ x c. record c { filter_wn = x })) in
    elim (and_then-raised (and_then (and_then v a) j) w h) [
      | inr at_w ↦
          if_in-typed "filter_wn" body (as_number np) is_number (λ x c. record c { filter_wn = x })
            (and_then (and_then v a) j).0 reads typed.filter_wn at_w
      | inl before_w ↦ elim (and_then-raised (and_then v a) j before_w) [
        | inr at_j ↦
            if_in-typed "j_max" body (as_number np) is_number (λ x c. record c { j_max = x })
              (and_then v a).0 reads typed.j_max at_j
        | inl before_j ↦ elim (and_then-raised v a before_j) [
          | inr at_a ↦
              if_in-typed "a_max" body (as_number np) is_number (λ x c. record c { a_max = x }) v.0
                reads typed.a_max at_a
          | inl at_v ↦
              if_in-typed "v_max" body (as_number np) is_number (λ x c. record c { v_max = x }) cfg
                reads typed.v_max at_v
        ]
      ]
    ]

-- Something in the body of which no record is made: a camera, a specification or a loop without a key that it
-- needs, or with one that it does not know.
abbrev pub Unreadable : Numpy → Fields → Type 0
Unreadable np body =
    Unread "cameras" (as_list camera_from_dict) body
    ⊎ Unread "request_spec" (spec_of np) body
    ⊎ Unread "loop" (loop_from_dict np) body

pub change_by-raised :
    (np : Numpy) (body : Fields) (cfg : AppConfig)
    → IsTyped body
    → (change_by np body cfg).1 ≡ false
    → Unreadable np body
unfolding change_by
change_by-raised np body cfg typed h =
    let address = if_in "robot_node_address" body (set_address np) cfg in
    let cameras = and_then address (if_in "cameras" body (set_cameras np)) in
    let spec = and_then cameras (if_in "request_spec" body (unless_null (set_spec np))) in
    let loop = and_then spec (if_in "loop" body (set_loop np)) in
    elim (and_then-raised loop (set_limits np body) h) [
      | inr at_limits ↦ absurd (set_limits-typed np body loop.0 typed at_limits)
      | inl before_limits ↦
          elim (and_then-raised spec (if_in "loop" body (set_loop np)) before_limits) [
            | inr at_loop ↦ inr (
                inr (
                  if_in-raised "loop" body (loop_from_dict np) (set_loop np) spec.0
                    (λ i.
                      set_from-raised (loop_from_dict np) (λ l c. record c { loop = l }) i spec.0)
                    at_loop))
            | inl before_loop ↦
                elim (and_then-raised cameras
                  (if_in "request_spec" body (unless_null (set_spec np))) before_loop) [
                    | inr at_spec ↦ inr (
                        inl (
                          if_in-raised "request_spec" body (spec_of np) (unless_null (set_spec np))
                            cameras.0
                            (λ i.
                              unless_null-raised (spec_of np)
                                (λ s c. record c { request_spec = some s }) i cameras.0)
                            at_spec))
                    | inl before_spec ↦
                        elim (and_then-raised address (if_in "cameras" body (set_cameras np))
                          before_spec) [
                            | inr at_cameras ↦ inl (
                                if_in-raised "cameras" body (as_list camera_from_dict)
                                  (set_cameras np) address.0
                                  (λ i.
                                    set_from-raised (as_list camera_from_dict)
                                      (λ cs c. record c { cameras = cs }) i address.0)
                                  at_cameras)
                            | inl at_address ↦ absurd (
                                if_in-typed "robot_node_address" body as_string is_string
                                  (λ a c. record c { robot_node_address = a }) cfg is_string-reads
                                  typed.address at_address)
                          ]
                  ]
          ]
    ]

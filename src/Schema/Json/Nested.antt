-- ===== src/Schema/Json/Nested.antt =====
-- What a nested assignment changes, and where it raises.
use Prim.Native.String.{String}
use text.Mathlib.Text
use text.Mathlib.TextEquality.{eq_iff}
use franka_deploy.Common.{
  ◌≡◌, ◌≢◌, refl, sym, ◌∙◌, arith, true, false, Bool-cases, Option, none, some, Option-cases, List,
  [], ◌∷◌, ◌⊎◌, inl, inr, if◌then◌else◌,
}
use franka_deploy.Schema.Json.{
  Json, object, Fields, end, field, get, put, dict_at, split_dots, assign, assign_nested,
}

true-false : true ≡ false → ⊥
true-false e = cc

pub none-some : {A : Type 0} (x : A) → ◌≡◌ {A = Option A} none (some x) → ⊥
none-some x e = cc

some-injective : {A : Type 0} (x y : A) → ◌≡◌ {A = Option A} (some x) (some y) → x ≡ y
some-injective x y e = cc

get-put :
    (j k : String) (v : Json) (d : Fields)
    → get j (put k v d) ≡ (if Text.◌==◌ k j then some v else get j d)
unfolding get put
get-put j k v end = refl
get-put j k v (field i w d) = ground (arith, eq_iff k j, eq_iff i k, eq_iff i j, get-put j k v d)

get-put_same : (k : String) (v : Json) (d : Fields) → get k (put k v d) ≡ some v
get-put_same k v d = let same = (eq_iff k k).1 refl in get-put k k v d ∙ rw same refl

get-put_other : (j k : String) (v : Json) (d : Fields) → k ≢ j → get j (put k v d) ≡ get j d
get-put_other j k v d h = ground (arith, get-put j k v d, eq_iff k j)

-- The value at a name; a part that is missing is an empty dict, and under anything else there is nothing.
unfoldable pub lookup : String → List String → Fields → Option Json
lookup k [] d = get k d
lookup k (p ∷ ps) d = elim (dict_at (get k d)) [ none ↦ none | some inner ↦ lookup p ps inner ]

unfoldable pub lookup_nested : Fields → String → Option Json
lookup_nested payload name = let (k, ks) = split_dots name in lookup k ks payload

eq_or_not : (k j : String) → (k ≡ j) ⊎ (k ≢ j)
eq_or_not k j = elim (Bool-cases (Text.◌==◌ k j)) [
  | inl same ↦ inl ((eq_iff k j).0 same)
  | inr other ↦ inr (λ e. true-false (sym ((eq_iff k j).1 e) ∙ other))
]

-- Neither name continues the other.
abbrev pub Apart : String → List String → String → List String → Type 0
Apart k [] j js = k ≢ j
Apart k (p ∷ ps) j [] = k ≢ j
Apart k (p ∷ ps) j (q ∷ qs) = (k ≢ j) ⊎ Apart p ps q qs

abbrev pub ApartNames : String → String → Type 0
ApartNames m n = let (k, ks) = split_dots m in let (j, js) = split_dots n in Apart k ks j js

Apart-sym :
    (k : String) (ks : List String) (j : String) (js : List String)
    → Apart k ks j js
    → Apart j js k ks
Apart-sym k [] j [] h = λ e. h (sym e)
Apart-sym k [] j (q ∷ qs) h = λ e. h (sym e)
Apart-sym k (p ∷ ps) j [] h = λ e. h (sym e)
Apart-sym k (p ∷ ps) j (q ∷ qs) (inl h) = inl (λ e. h (sym e))
Apart-sym k (p ∷ ps) j (q ∷ qs) (inr h) = inr (Apart-sym p ps q qs h)

pub ApartNames-sym : (m n : String) → ApartNames m n → ApartNames n m
ApartNames-sym m n h =
    let (k, ks) = split_dots m in let (j, js) = split_dots n in Apart-sym k ks j js h

-- No part before the last holds a value that is not a dict.
abbrev pub Free : String → List String → Fields → Type 0
Free k [] d = Unit
Free k (p ∷ ps) d = elim (dict_at (get k d)) [ none ↦ ⊥ | some inner ↦ Free p ps inner ]

-- A nested assignment that does not raise assigns in the dict under its first part.
assign_inner :
    (k p : String) (ps : List String) (v : Json) (d d' : Fields)
    → assign k (p ∷ ps) v d ≡ some d'
    → (child inner : Fields) × (dict_at (get k d) ≡ some child)
      × (assign p ps v child ≡ some inner)
      × (put k (object inner) d ≡ d')
unfolding assign
assign_inner k p ps v d d' h = elim (Option-cases (dict_at (get k d))) [
  | inl blocked ↦ absurd (none-some d' (rw (blocked, assign) at h))
  | inr (child, here) ↦ elim (Option-cases (assign p ps v child)) [
    | inl raised ↦ absurd (none-some d' (rw raised at (rw (here, assign) at h)))
    | inr (inner, assigned) ↦ (
      child,
      inner,
      here,
      assigned,
      some-injective _ d' (rw assigned at (rw (here, assign) at h)),
    )
  ]
]

assign-Free :
    (k : String) (ks : List String) (v : Json) (d : Fields)
    → Free k ks d
    → (d' : Fields) × (assign k ks v d ≡ some d')
unfolding assign
assign-Free k [] v d h = (put k v d, refl)
assign-Free k (p ∷ ps) v d h = elim (Option-cases (dict_at (get k d))) [
  | inl blocked ↦ absurd (rw (blocked, Free) at h)
  | inr (child, here) ↦
      let (inner, assigned) = assign-Free p ps v child (rw (here, Free) at h) in
      (put k (object inner) d, rw (here, assign) (rw assigned refl))
]

lookup-assign :
    (k : String) (ks : List String) (v : Json) (d d' : Fields)
    → assign k ks v d ≡ some d'
    → lookup k ks d' ≡ some v
unfolding assign lookup
lookup-assign k [] v d d' h = rw (← some-injective _ d' h) (get-put_same k v d)
lookup-assign k (p ∷ ps) v d d' h =
    let (child, inner, here, assigned, made) = assign_inner k p ps v d d' h in
    rw (← made)
      (rw (get-put_same k (object inner) d, lookup) (lookup-assign p ps v child inner assigned))

lookup_end : (k : String) (ks : List String) → lookup k ks end ≡ none
unfolding lookup get
lookup_end k [] = refl
lookup_end k (p ∷ ps) = lookup_end p ps

Free-end : (k : String) (ks : List String) → Free k ks end
unfolding get
Free-end k [] = tt
Free-end k (p ∷ ps) = Free-end p ps

lookup-assign-Apart :
    (k : String) (ks : List String) (j : String) (js : List String) (v : Json) (d d' : Fields)
    → Apart k ks j js
    → assign k ks v d ≡ some d'
    → lookup j js d' ≡ lookup j js d
unfolding assign lookup
lookup-assign-Apart k [] j [] v d d' a h = rw (← some-injective _ d' h) (get-put_other j k v d a)
lookup-assign-Apart k [] j (q ∷ qs) v d d' a h =
    rw (← some-injective _ d' h) (rw (get-put_other j k v d a, lookup) refl)
lookup-assign-Apart k (p ∷ ps) j [] v d d' a h =
    let (child, inner, here, assigned, made) = assign_inner k p ps v d d' h in
    rw (← made) (get-put_other j k (object inner) d a)
lookup-assign-Apart k (p ∷ ps) j (q ∷ qs) v d d' a h =
    let (child, inner, here, assigned, made) = assign_inner k p ps v d d' h in
    elim (eq_or_not k j) [
      | inr other ↦ rw (← made) (rw (get-put_other j k (object inner) d other, lookup) refl)
      | inl same ↦
          let inside : Apart p ps q qs = elim a [
            | inl differ ↦ absurd (differ same)
            | inr deeper ↦ deeper
          ] in
          rw (← made, ← same)
            (rw (get-put_same k (object inner) d, here, lookup)
              (lookup-assign-Apart p ps q qs v child inner inside assigned))
    ]

assign-Free-Apart :
    (k : String) (ks : List String) (j : String) (js : List String) (v : Json) (d d' : Fields)
    → Apart k ks j js
    → assign k ks v d ≡ some d'
    → Free j js d
    → Free j js d'
unfolding assign
assign-Free-Apart k ks j [] v d d' a h f = tt
assign-Free-Apart k [] j (q ∷ qs) v d d' a h f =
    rw (← some-injective _ d' h) (rw (get-put_other j k v d a, Free) f)
assign-Free-Apart k (p ∷ ps) j (q ∷ qs) v d d' a h f =
    let (child, inner, here, assigned, made) = assign_inner k p ps v d d' h in
    elim (eq_or_not k j) [
      | inr other ↦ rw (← made) (rw (get-put_other j k (object inner) d other, Free) f)
      | inl same ↦
          let inside : Apart p ps q qs = elim a [
            | inl differ ↦ absurd (differ same)
            | inr deeper ↦ deeper
          ] in
          rw (← made, ← same)
            (rw (get-put_same k (object inner) d, Free)
              (assign-Free-Apart p ps q qs v child inner inside assigned
                (rw (here, Free) at (rw (← same) at f))))
    ]

-- The same on names.
abbrev pub FreeName : Fields → String → Type 0
FreeName d name = let (k, ks) = split_dots name in Free k ks d

pub FreeName-end : (name : String) → FreeName end name
FreeName-end name = let (k, ks) = split_dots name in Free-end k ks

pub assign_nested-FreeName :
    (d : Fields) (name : String) (v : Json)
    → FreeName d name
    → (d' : Fields) × (assign_nested d name v ≡ some d')
unfolding assign_nested
assign_nested-FreeName d name v h = let (k, ks) = split_dots name in assign-Free k ks v d h

pub lookup_nested-assign_nested :
    (d d' : Fields) (name : String) (v : Json)
    → assign_nested d name v ≡ some d'
    → lookup_nested d' name ≡ some v
unfolding assign_nested lookup_nested
lookup_nested-assign_nested d d' name v h =
    let (k, ks) = split_dots name in lookup-assign k ks v d d' h

pub lookup_nested-assign_nested_apart :
    (d d' : Fields) (m n : String) (v : Json)
    → ApartNames m n
    → assign_nested d m v ≡ some d'
    → lookup_nested d' n ≡ lookup_nested d n
unfolding assign_nested lookup_nested
lookup_nested-assign_nested_apart d d' m n v a h =
    let (k, ks) = split_dots m in
    let (j, js) = split_dots n in lookup-assign-Apart k ks j js v d d' a h

pub assign_nested-FreeName_apart :
    (d d' : Fields) (m n : String) (v : Json)
    → ApartNames m n
    → assign_nested d m v ≡ some d'
    → FreeName d n
    → FreeName d' n
unfolding assign_nested
assign_nested-FreeName_apart d d' m n v a h f =
    let (k, ks) = split_dots m in
    let (j, js) = split_dots n in assign-Free-Apart k ks j js v d d' a h f

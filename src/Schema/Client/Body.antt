-- ===== src/Schema/Client/Body.antt =====
-- What the body of a request holds.
use Prim.Native.String.{String}
use text.Mathlib.Text
use franka_deploy.Common.{
  ℕ, ◌+◌, ◌≤◌, ◌≡◌, refl, sym, ap, ◌∙◌, arith, Option, some, Option-cases, List, [], ◌∷◌, inl, inr,
  All, All-map, All-zip, All-intro, if-intro,
}
use franka_deploy.Schema.Spec.{RequestFieldSpec}
use franka_deploy.Schema.Json.{Json, Fields, end, assign_nested}
use franka_deploy.Schema.Json.Nested.{
  none-some, lookup_nested, ApartNames, FreeName, assign_nested-FreeName,
  lookup_nested-assign_nested, lookup_nested-assign_nested_apart, assign_nested-FreeName_apart,
  FreeName-end, ApartNames-sym,
}
use franka_deploy.Schema.Encode.{Raw, Arrays, build_field_value}
use franka_deploy.Schema.Sources.{SourceContext, Loaders, split_colon}
use franka_deploy.Schema.Client.{
  PolicyClient, Moment, resolve_session_source, raw_of, build_fields, build_body,
}

-- No name continues that of another field.
abbrev pub Separate : List RequestFieldSpec → Type 0
Separate [] = Unit
Separate (f ∷ fs) = All (λ g. ApartNames f.name g.name) fs × Separate fs

module _ {Array : Type 0} (np : Arrays Array) (loaders : Loaders Array) (ctx : SourceContext Array)
    (now : ℕ → Moment) where
  abbrev pub Keeps : PolicyClient → PolicyClient → Type 0
  Keeps c c' = (c.sequence ≤ c'.sequence) × (c'.spec ≡ c.spec) × (c'.session_id ≡ c.session_id)

  resolve_session_source-Keeps :
      (c : PolicyClient) (i : ℕ) (kind : String)
      → Keeps c (resolve_session_source np loaders c (now i) kind).0
  unfolding resolve_session_source
  resolve_session_source-Keeps c i kind = ground arith

  -- Reading a source uses at most one number, and keeps the session.
  raw_of-Keeps :
      (c : PolicyClient) (i : ℕ) (source : String)
      → Keeps c (raw_of np loaders ctx c (now i) source).0
  unfolding raw_of
  raw_of-Keeps c i source = elim (Option-cases (split_colon source)) [
    | inl whole ↦ rw whole (omega arith, refl, refl)
    | inr ((kind, detail), parts) ↦ rw parts (
        if-intro (λ (r : PolicyClient × Option (Raw Array)). Keeps c r.0) (Text.◌==◌ kind "session")
          (resolve_session_source-Keeps c i detail) (omega arith, refl, refl))
  ]

  -- A step of the loop that goes on.
  build_step :
      (i : ℕ) (c : PolicyClient) (payload out : Fields) (f : RequestFieldSpec)
      (fs : List RequestFieldSpec)
      → (build_fields np loaders ctx now i c payload (f ∷ fs)).1 ≡ some out
      → (raw : Raw Array) × (value : Json) × (next : Fields) × ((raw_of np loaders ctx c
            (now i)
            f.source).1
          ≡ some raw)
        × (build_field_value np loaders.value_plugin raw f ≡ some value)
        × (assign_nested payload f.name value ≡ some next)
        × (build_fields np loaders ctx now i c payload (f ∷ fs)
            ≡ build_fields np loaders ctx now
                (i + 1)
                (raw_of np loaders ctx c (now i) f.source).0
                next
                fs)
  unfolding build_fields
  build_step i c payload out f fs h =
      elim (Option-cases (raw_of np loaders ctx c (now i) f.source).1) [
        | inl r ↦ absurd (none-some out (rw (r, build_fields) at h))
        | inr (raw, r) ↦ elim (Option-cases (build_field_value np loaders.value_plugin raw f)) [
          | inl b ↦ absurd (none-some out (rw b at (rw (r, build_fields) at h)))
          | inr (value, b) ↦ elim (Option-cases (assign_nested payload f.name value)) [
            | inl a ↦ absurd (none-some out (rw a at (rw b at (rw (r, build_fields) at h))))
            | inr (next, a) ↦ (raw, value, next, r, b, a, rw (r, build_fields) (rw b (rw a refl)))
          ]
        ]
      ]

  build_fields-Keeps :
      (i : ℕ) (c : PolicyClient) (payload : Fields) (fs : List RequestFieldSpec)
      → Keeps c (build_fields np loaders ctx now i c payload fs).0
  unfolding build_fields
  build_fields-Keeps i c payload [] = (omega arith, refl, refl)
  build_fields-Keeps i c payload (f ∷ fs) =
      let c₁ = (raw_of np loaders ctx c (now i) f.source).0 in
      let here = raw_of-Keeps c i f.source in
      elim (Option-cases (raw_of np loaders ctx c (now i) f.source).1) [
        | inl r ↦ rw (r, build_fields) here
        | inr (raw, r) ↦ elim (Option-cases (build_field_value np loaders.value_plugin raw f)) [
          | inl b ↦ rw (r, build_fields) (rw b here)
          | inr (value, b) ↦ elim (Option-cases (assign_nested payload f.name value)) [
            | inl a ↦ rw (r, build_fields) (rw b (rw a here))
            | inr (next, a) ↦
                let later = build_fields-Keeps (i + 1) c₁ next fs in
                rw (r, build_fields)
                  (rw b (rw a (omega (arith, here.0, later.0), later.1 ∙ here.1, later.2 ∙ here.2)))
          ]
        ]
      ]

  pub build_body-Keeps :
      (c : PolicyClient) (fs : List RequestFieldSpec)
      → Keeps c (build_body np loaders ctx now c fs).0
  unfolding build_body
  build_body-Keeps c fs = build_fields-Keeps 0 c end fs

  -- What a later field does not name stays.
  build_fields-lookup_apart :
      (name : String) (i : ℕ) (c : PolicyClient) (payload out : Fields) (fs : List RequestFieldSpec)
      → All (λ g. ApartNames g.name name) fs
      → (build_fields np loaders ctx now i c payload fs).1 ≡ some out
      → lookup_nested out name ≡ lookup_nested payload name
  unfolding build_fields
  build_fields-lookup_apart name i c payload out [] a h =
      let same : payload ≡ out = cc in rw same refl
  build_fields-lookup_apart name i c payload out (f ∷ fs) a h =
      let (raw, value, next, r, b, assigned, rest) = build_step i c payload out f fs h in
      let later =
        build_fields-lookup_apart name (i + 1) _ next out fs a.1 (ap (λ p. p.1) (sym rest) ∙ h) in
      later ∙ lookup_nested-assign_nested_apart payload next f.name name value a.0 assigned

  -- The body holds the encoded value of a field's source under the field's name. The source was read
  -- while the client had the session `c`, and a number of the sequence between the two.
  pub record Carries (c c' : PolicyClient) (f : RequestFieldSpec) (out : Fields) : Type 0 where
    pub reader : PolicyClient
    pub index : ℕ
    pub raw : Raw Array
    pub value : Json
    pub resolved : (raw_of np loaders ctx reader (now index) f.source).1 ≡ some raw
    pub built : build_field_value np loaders.value_plugin raw f ≡ some value
    pub found : lookup_nested out f.name ≡ some value
    pub session : reader.session_id ≡ c.session_id
    pub first-le : c.sequence ≤ reader.sequence
    pub last-le : (raw_of np loaders ctx reader (now index) f.source).0.sequence ≤ c'.sequence

  -- A field that is carried from a later client on is carried from an earlier one.
  Carries-Keeps :
      (c c₁ c' : PolicyClient) (f : RequestFieldSpec) (out : Fields)
      → Keeps c c₁
      → Carries c₁ c' f out
      → Carries c c' f out
  Carries-Keeps c c₁ c' f out k h = record {
    reader = h.reader;
    index = h.index;
    raw = h.raw;
    value = h.value;
    resolved = h.resolved;
    built = h.built;
    found = h.found;
    session = h.session ∙ k.2;
    first-le = omega (arith, k.0, h.first-le);
    last-le = h.last-le;
  }

  build_fields-Carries :
      (i : ℕ) (c c' : PolicyClient) (payload out : Fields) (fs : List RequestFieldSpec)
      → Separate fs
      → (build_fields np loaders ctx now i c payload fs).0 ≡ c'
      → (build_fields np loaders ctx now i c payload fs).1 ≡ some out
      → All (λ f. Carries c c' f out) fs
  build_fields-Carries i c c' payload out [] a e h = tt
  build_fields-Carries i c c' payload out (f ∷ fs) (apart, separate) e h =
      let (raw, value, next, r, b, assigned, rest) = build_step i c payload out f fs h in
      let c₁ = (raw_of np loaders ctx c (now i) f.source).0 in
      let ends : (build_fields np loaders ctx now (i + 1) c₁ next fs).0 ≡ c' =
        ap (λ p. p.0) (sym rest) ∙ e in
      let goes_on = ap (λ p. p.1) (sym rest) ∙ h in
      (
        record {
          reader = c;
          index = i;
          raw = raw;
          value = value;
          resolved = r;
          built = b;
          found =
              build_fields-lookup_apart f.name (i + 1) c₁ next out fs
                (All-map (λ g. ApartNames f.name g.name) (λ g. ApartNames g.name f.name) fs
                  (λ g p. ApartNames-sym f.name g.name p) apart)
                goes_on
              ∙ lookup_nested-assign_nested payload next f.name value assigned;
          session = refl;
          first-le = omega arith;
          last-le = rw (← ends) (build_fields-Keeps (i + 1) c₁ next fs).0;
        },
        All-map (λ g. Carries c₁ c' g out) (λ g. Carries c c' g out) fs
            (λ g p. Carries-Keeps c c₁ c' g out (raw_of-Keeps c i f.source) p)
            (build_fields-Carries (i + 1) c₁ c' next out fs separate ends goes_on),
      )

  -- Its source and its encoder give a value, whatever the client's session is.
  abbrev pub HasValue : RequestFieldSpec → Type 0
  HasValue f =
      (c : PolicyClient) (i : ℕ)
      → (raw : Raw Array) × (value : Json) × ((raw_of np loaders ctx c (now i) f.source).1
          ≡ some raw)
        × (build_field_value np loaders.value_plugin raw f ≡ some value)

  build_fields-some :
      (i : ℕ) (c : PolicyClient) (payload : Fields) (fs : List RequestFieldSpec)
      → Separate fs
      → All (λ f. FreeName payload f.name) fs
      → All HasValue fs
      → (out : Fields) × ((build_fields np loaders ctx now i c payload fs).1 ≡ some out)
  unfolding build_fields
  build_fields-some i c payload [] a free h = (payload, refl)
  build_fields-some i c payload (f ∷ fs) (apart, separate) free h =
      let (raw, value, r, b) = h.0 c i in
      let (next, assigned) = assign_nested-FreeName payload f.name value free.0 in
      let later : All (λ g. FreeName next g.name) fs =
        All-zip (λ g. ApartNames f.name g.name) (λ g. FreeName payload g.name)
          (λ g. FreeName next g.name) fs
          (λ g p q. assign_nested-FreeName_apart payload next f.name g.name value p assigned q)
          apart free.1 in
      let (out, made) =
        build_fields-some (i + 1) (raw_of np loaders ctx c (now i) f.source).0 next fs separate
          later h.1 in
      (out, rw (r, build_fields) (rw b (rw assigned made)))

  pub build_body-Carries :
      (c : PolicyClient) (fs : List RequestFieldSpec) (out : Fields)
      → Separate fs
      → (build_body np loaders ctx now c fs).1 ≡ some out
      → All (λ f. Carries c (build_body np loaders ctx now c fs).0 f out) fs
  unfolding build_body
  build_body-Carries c fs out separate h =
      build_fields-Carries 0 c (build_fields np loaders ctx now 0 c end fs).0 end out fs separate
        refl h

  -- Where no name of a request continues another one and every field has a value, the body is built, and
  -- it holds each field's encoded value under the field's name, at whatever depth. The values were read in
  -- the client's session as it was, with numbers between the first and the last that the client used up.
  pub build_body_total :
      (c : PolicyClient) (fs : List RequestFieldSpec)
      → Separate fs
      → All HasValue fs
      → (out : Fields) × ((build_body np loaders ctx now c fs).1 ≡ some out)
        × All (λ f. Carries c (build_body np loaders ctx now c fs).0 f out) fs
  unfolding build_body
  build_body_total c fs separate values =
      let (out, made) =
        build_fields-some 0 c end fs separate (All-intro _ fs (λ f. FreeName-end f.name)) values in
      (out, made, build_body-Carries c fs out separate made)

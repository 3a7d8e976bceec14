-- ===== src/Schema/Client/Session.antt =====
-- The numbers that the requests of a session carry.
use Prim.Native.String.{String}
use mathlib.Core.Option.{some-injective}
use franka_deploy.Common.{
  ℕ, ◌+◌, ◌≤◌, ◌<◌, ◌≡◌, refl, sym, ap, ◌∙◌, arith, Option, none, some, Option-cases, List, [], ◌∷◌,
  pos, Float, inl, inr, get_elem?, All-get_elem?,
}
use franka_deploy.Schema.Spec.{RequestFieldSpec, hwc, none_encoding}
use franka_deploy.Schema.Json.{Json, int, Fields}
use franka_deploy.Schema.Json.Nested.{lookup_nested}
use franka_deploy.Schema.Encode.{
  plain, Arrays, build_field_value, before_transform, build_array_value, shaped, encoded,
}
use franka_deploy.Schema.Sources.{SourceContext, Loaders, split_colon}
use franka_deploy.Schema.Client.{
  PolicyClient, Moment, resolve_session_source, raw_of, build_body, predict,
}
use franka_deploy.Schema.Client.Body.{
  Separate, Keeps, Carries, build_body-Keeps, build_body-Carries,
}

-- A field that sends the number as it is.
pub record IsSequence (f : RequestFieldSpec) : Type 0 where
  pub source_parts : split_colon f.source ≡ some ("session", "sequence")
  pub no_dtype : f.dtype ≡ none
  pub no_shape : f.shape ≡ none
  pub no_resize : f.resize ≡ none
  pub as_hwc : f.layout ≡ hwc
  pub no_normalize : f.normalize ≡ none
  pub not_encoded : f.encoding ≡ none_encoding
  pub no_transform : f.transform_fn ≡ none

-- An array of one number is that number again in JSON.
abbrev pub KeepsNumbers : {Array : Type 0} → Arrays Array → Type 0
KeepsNumbers {Array} np =
    (n : ℕ)
    → (arr : Array) × (np.asarray (plain (int (pos n))) ≡ some arr) × (np.tolist arr ≡ int (pos n))

-- A prediction: its observation, clock and answer.
pub record Round (Array : Type 0) : Type 0 where
  pub ctx : SourceContext Array
  pub now : ℕ → Moment
  pub answer : Option Json
  pub elapsed_ms : Float

-- The bodies that are posted carry numbers under `name`, each larger than those before it.
abbrev pub Increasing : String → ℕ → List Fields → Type 0
Increasing name least [] = Unit
Increasing name least (body ∷ bodies) =
    (n : ℕ) × (least ≤ n)
    × (lookup_nested body name ≡ some (int (pos n)))
    × Increasing name (n + 1) bodies

module _ {Array : Type 0} (np : Arrays Array) (loaders : Loaders Array) where
  abbrev pub posted : Option Fields → List Fields → List Fields
  posted none bodies = bodies
  posted (some body) bodies = body ∷ bodies

  -- The bodies of predictions one after the other, also of those that raise after they are posted.
  unfoldable pub predicts : PolicyClient → List (Round Array) → List Fields
  predicts c [] = []
  predicts c (r ∷ rs) =
      let sent = predict np loaders c r.ctx r.now r.answer r.elapsed_ms in
      posted sent.body (predicts sent.client rs)

  predict_client :
      (c : PolicyClient) (r : Round Array)
      → let sent = predict np loaders c r.ctx r.now r.answer r.elapsed_ms in
        let built = build_body np loaders r.ctx r.now c c.spec.fields in
        (sent.body ≡ built.1)
        × (sent.client.sequence ≡ built.0.sequence)
        × (sent.client.spec ≡ built.0.spec)
  unfolding predict
  predict_client c r = ground arith

  build_number :
      (f : RequestFieldSpec) (n : ℕ)
      → KeepsNumbers np
      → IsSequence f
      → build_field_value np loaders.value_plugin (plain (int (pos n))) f ≡ some (int (pos n))
  unfolding build_field_value before_transform build_array_value shaped encoded
  build_number f n keeps is =
      let (arr, read, back) = keeps n in
      rw
        (
          read, is.no_resize, is.as_hwc, is.no_normalize, is.no_dtype, is.no_shape, is.not_encoded,
          is.no_transform,
        )
        (ap some back)

  -- A number of the sequence is read, and used up.
  raw_of_sequence :
      (ctx : SourceContext Array) (c : PolicyClient) (now : Moment) (source : String)
      → split_colon source ≡ some ("session", "sequence")
      → raw_of np loaders ctx c now source
        ≡ (record c { sequence = c.sequence + 1 }, some (plain (int (pos c.sequence))))
  unfolding raw_of resolve_session_source
  raw_of_sequence ctx c now source parts = rw parts refl

  -- A sequence field carries a number between the first and the last that its body used up.
  Carries-number :
      (r : Round Array) (c c' : PolicyClient) (f : RequestFieldSpec) (out : Fields)
      → KeepsNumbers np
      → IsSequence f
      → Carries np loaders r.ctx r.now c c' f out
      → (n : ℕ) × (c.sequence ≤ n)
        × (n < c'.sequence)
        × (lookup_nested out f.name ≡ some (int (pos n)))
  Carries-number r c c' f out keeps is h =
      let n = h.reader.sequence in
      let read = raw_of_sequence r.ctx h.reader (r.now h.index) f.source is.source_parts in
      let same : h.raw ≡ plain (int (pos n)) =
        some-injective h.raw (plain (int (pos n))) (sym h.resolved ∙ ap (λ p. p.1) read) in
      let carried : some h.value ≡ some (int (pos n)) =
        sym h.built
        ∙ ap (λ x. build_field_value np loaders.value_plugin x f) same
        ∙ build_number f n keeps is in
      let next : (raw_of np loaders r.ctx h.reader (r.now h.index) f.source).0.sequence ≡ n + 1 =
        ap (λ p. p.0.sequence) read in
      (n, h.first-le, omega (arith, h.last-le, next), h.found ∙ carried)

  predicts_step :
      (c : PolicyClient) (r : Round Array) (rs : List (Round Array)) (k : ℕ) (f : RequestFieldSpec)
      → KeepsNumbers np
      → IsSequence f
      → Separate c.spec.fields
      → get_elem? c.spec.fields k ≡ some f
      → (body : Fields)
      → let built = build_body np loaders r.ctx r.now c c.spec.fields in
        built.1 ≡ some body
        → (n : ℕ) × (c.sequence ≤ n)
          × (n < built.0.sequence)
          × (lookup_nested body f.name ≡ some (int (pos n)))
  predicts_step c r rs k f keeps is separate at body h =
      let fs = c.spec.fields in
      let c' = (build_body np loaders r.ctx r.now c fs).0 in
      Carries-number r c c' f body keeps is (
        All-get_elem? (λ g. Carries np loaders r.ctx r.now c c' g body) fs k f
          (build_body-Carries np loaders r.ctx r.now c fs body separate h) at)

  -- In a request whose names do not continue each other, the field that sends `session:sequence` as it is
  -- carries, in the bodies that one client posts for any predictions one after the other, numbers that
  -- strictly increase from the client's next one on: also past predictions that raise, whether before
  -- or after their body was posted. An array of a number turns back into that number.
  pub predicts-Increasing :
      (c : PolicyClient) (rs : List (Round Array)) (k : ℕ) (f : RequestFieldSpec)
      → KeepsNumbers np
      → IsSequence f
      → Separate c.spec.fields
      → get_elem? c.spec.fields k ≡ some f
      → (least : ℕ) → least ≤ c.sequence
      → Increasing f.name least (predicts c rs)
  unfolding predicts
  predicts-Increasing c [] k f keeps is separate at least low = tt
  predicts-Increasing c (r ∷ rs) k f keeps is separate at least low =
      let sent = predict np loaders c r.ctx r.now r.answer r.elapsed_ms in
      let built = build_body np loaders r.ctx r.now c c.spec.fields in
      let (same_body, same_sequence, same_spec) = predict_client c r in
      let kept : Keeps np loaders r.ctx r.now c built.0 =
        build_body-Keeps np loaders r.ctx r.now c c.spec.fields in
      let spec : sent.client.spec ≡ c.spec = same_spec ∙ kept.1 in
      let later = λ (lo : ℕ) (h : lo ≤ sent.client.sequence).
        predicts-Increasing sent.client rs k f keeps is (rw spec separate) (rw spec at) lo h in
      elim (Option-cases built.1) [
        | inl raised ↦
            rw (same_body ∙ raised, predicts)
              (later least (omega (arith, low, same_sequence, kept.0)))
        | inr (body, made) ↦
            let (n, first, last, found) = predicts_step c r rs k f keeps is separate at body made in
            rw (same_body ∙ made, predicts)
              (
                n,
                omega (arith, low, first),
                found,
                later (n + 1) (omega (arith, last, same_sequence)),
              )
      ]

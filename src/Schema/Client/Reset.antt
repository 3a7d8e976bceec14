-- ===== src/Schema/Client/Reset.antt =====
-- What a reset leaves of the session.
use Prim.Native.String.{String}
use franka_deploy.Common.{ℕ, ◌≡◌, ◌⊎◌, inl, inr, refl, ◌∙◌, arith, Option, none, some, Option-cases}
use franka_deploy.Schema.Json.{Json, Fields}
use franka_deploy.Schema.Encode.{Arrays}
use franka_deploy.Schema.Sources.{Loaders}
use franka_deploy.Schema.Client.{
  PolicyClient, Moment, Sent, build_body, empty_ctx, with_instruction, session_of, posted_reset,
  reset,
}
use franka_deploy.Schema.Client.Body.{build_body-Keeps}

-- A reset of `c` that returns: the numbers start over, in the session that the server names.
abbrev pub Returned : PolicyClient → Sent Json → Type 0
Returned c s =
    (result : Json) × (body : Fields) × (s.result ≡ some result)
    × (s.body ≡ some body)
    × (session_of result ≡ some s.client.session_id)
    × (s.client.sequence ≡ 0)

-- One that raises: the session is the old one, and the numbers start over if a body was posted.
abbrev pub Raised : PolicyClient → Sent Json → Type 0
Raised c s =
    (s.result ≡ none)
    × (s.client.session_id ≡ c.session_id)
    × ((s.body ≡ none) ⊎ (s.client.sequence ≡ 0))

posted_reset_cases :
    (c c' : PolicyClient) (body : Fields) (answer : Option Json)
    → c'.session_id ≡ c.session_id
    → Returned c (posted_reset c' body answer) ⊎ Raised c (posted_reset c' body answer)
posted_reset_cases c c' body none session = inr (refl, session, inr refl)
posted_reset_cases c c' body (some answer) session = elim (Option-cases (session_of answer)) [
  | inl bad ↦ rw (bad, posted_reset) (inr (refl, session, inr refl))
  | inr (id, good) ↦ rw (good, posted_reset) (inl (answer, body, refl, refl, good, refl))
]

posted_reset_spec :
    (c : PolicyClient) (body : Fields) (answer : Option Json)
    → (posted_reset c body answer).client.spec ≡ c.spec
posted_reset_spec c body answer = ground arith

module _ {Array : Type 0} (np : Arrays Array) (loaders : Loaders Array) where
  -- A reset that returns starts the numbers of the requests over, and takes the session that the server
  -- names, or none. One that raises keeps the session, and still starts its numbers over if it had
  -- posted its body.
  pub reset_cases :
      (c : PolicyClient) (now : ℕ → Moment) (instruction : Option String) (answer : Option Json)
      → let sent = reset np loaders c now instruction answer in
        (sent.client.spec ≡ c.spec) × (Returned c sent ⊎ Raised c sent)
  unfolding reset
  reset_cases c now instruction answer =
      let ctx = empty_ctx np loaders in
      let (c', built) = build_body np loaders ctx now c c.spec.reset_fields in
      let (_, spec, session) = build_body-Keeps np loaders ctx now c c.spec.reset_fields in
      elim (Option-cases built) [
        | inl fails ↦ rw (fails, reset) (spec, inr (refl, session, inl refl))
        | inr (body, made) ↦
            elim (Option-cases (with_instruction c.spec.instruction_field instruction body)) [
              | inl fails ↦ rw (made, reset) (rw fails (spec, inr (refl, session, inl refl)))
              | inr (body', merged) ↦
                  rw (made, reset)
                    (rw merged (
                      posted_reset_spec c' body' answer ∙ spec,
                      posted_reset_cases c c' body' answer session,
                    ))
            ]
      ]

-- ===== src/Common/Results.antt =====
-- Calls that may raise: a value or the exception.
use mathlib.Core.Bool.{Bool, true, false}
use mathlib.Core.Path.{◌≡◌, refl, ap}
use mathlib.Core.Logic.{◌⊎◌, inl, inr}
use mathlib.Core.Option.{Option, none, some}
use franka_deploy.Common.Tests.{if◌then◌else◌}

pub data Result {ℓ κ} (E : Type ℓ) (A : Type κ) : Type (ℓ ⊔ κ) where
  ok : A → Result E A
  err : E → Result E A

module _ {ℓ} {E : Type ℓ} where
  infixl 5 ◌>>=◌ ◌>>◌
  -- The first exception ends the calls that follow.
  abbrev pub ◌>>=◌ {κ ι} : {A : Type κ} {B : Type ι} → Result E A → (A → Result E B) → Result E B
  err raised >>= next = err raised
  ok value >>= next = next value

  abbrev pub ◌>>◌ {ι} : {B : Type ι} → Result E (Unit {0}) → Result E B → Result E B
  call >> next = call >>= (λ done. next)

  -- `raise e` unless the test holds.
  abbrev pub guard : Bool → E → Result E (Unit {0})
  guard false raised = err raised
  guard true raised = ok tt

  abbrev pub or_raise {κ} : {A : Type κ} → Option A → E → Result E A
  or_raise (some value) raised = ok value
  or_raise none raised = err raised

  pub Result-cases : (r : Result E (Unit {0})) → (r ≡ ok tt) ⊎ ((e : E) × (r ≡ err e))
  Result-cases (err raised) = inr (raised, refl)
  Result-cases (ok _) = inl refl

  module _ {κ} {A : Type κ} where
    pub Result-split : (r : Result E A) → ((a : A) × (r ≡ ok a)) ⊎ ((e : E) × (r ≡ err e))
    Result-split (err raised) = inr (raised, refl)
    Result-split (ok value) = inl (value, refl)

    pub ok-injective : (a b : A) → ◌≡◌ {A = Result E A} (ok a) (ok b) → a ≡ b
    ok-injective a b same = cc

    pub or_raise-ok : (o : Option A) (raised : E) (a : A) → or_raise o raised ≡ ok a → o ≡ some a
    or_raise-ok none raised a h = cc
    or_raise-ok (some b) raised a h = ap some (ok-injective b a h)

    -- What a successful sequence of two calls was made of.
    pub >>=-ok {ι} :
        {B : Type ι} {b : B} (r : Result E A) (next : A → Result E B)
        → (r >>= next) ≡ ok b
        → (a : A) × (r ≡ ok a) × (next a ≡ ok b)
    >>=-ok (err raised) next succeeds = cc
    >>=-ok (ok value) next succeeds = (value, refl, succeeds)

    -- What a call that returns went through.
    pub ok_of_if :
        (b : Bool) (r : Result E A) (raised : E) {a : A}
        → (if b then r else err raised) ≡ ok a
        → (b ≡ true) × (r ≡ ok a)
    ok_of_if true r raised e = (refl, e)
    ok_of_if false r raised e = cc

    pub ok_of_unless :
        (b : Bool) (r : Result E A) (raised : E) {a : A}
        → (if b then err raised else r) ≡ ok a
        → (b ≡ false) × (r ≡ ok a)
    ok_of_unless true r raised e = cc
    ok_of_unless false r raised e = (refl, e)

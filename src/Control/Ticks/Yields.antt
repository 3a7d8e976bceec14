-- ===== src/Control/Ticks/Yields.antt =====
-- Postconditions of a step of the policy thread.
use franka_deploy.Common.{◌≡◌, ◌≢◌, refl, Result, ok, err, ◌>>=◌}
use franka_deploy.Control.Ticks.{Fault}

-- What a step leaves: a value with the property, or a fault other than a given one.
abbrev pub Yields : Fault → {A : Type 0} → (A → Type 0) → Result Fault A → Type 0
Yields bad P (ok a) = P a
Yields bad P (err f) = f ≢ bad

pub Yields-intro :
    (bad : Fault) {A : Type 0} (P : A → Type 0) (m : Result Fault A)
    → ((a : A) → m ≡ ok a → P a)
    → ((f : Fault) → m ≡ err f → f ≢ bad)
    → Yields bad P m
Yields-intro bad P (ok a) good other = good a refl
Yields-intro bad P (err f) good other = other f refl

pub Yields->>= :
    (bad : Fault) {A B : Type 0} (P : A → Type 0) (Q : B → Type 0) (m : Result Fault A)
    (k : A → Result Fault B)
    → Yields bad P m
    → ((a : A) → P a → Yields bad Q (k a))
    → Yields bad Q (m >>= k)
Yields->>= bad P Q (ok a) k h rest = rest a h
Yields->>= bad P Q (err f) k h rest = h

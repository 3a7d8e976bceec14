-- ===== src/Schema/Options.antt =====
-- A chain of calls that may raise, where `none` stands for any exception.
use franka_deploy.Common.{Option, none, some}

infixl 5 ◌>>=◌
abbrev pub ◌>>=◌ : {A B : Type 0} → Option A → (A → Option B) → Option B
none >>= next = none
some a >>= next = next a

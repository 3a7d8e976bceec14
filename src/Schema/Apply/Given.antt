-- ===== src/Schema/Apply/Given.antt =====
-- Arrays of the right length, and the columns of a row.
use franka_deploy.Common.{
  ℕ, zero, suc, ◌+◌, ◌-◌, ◌<◌, ◌≤◌, ◌≡◌, refl, arith, Bool, Option, none, some, Option-cases, List,
  [], ◌∷◌, pos, sub_ℕ, Float, length, take, get_item, get_elem?_of_lt, inl, inr, ap, ◌∙◌,
}
use franka_deploy.Schema.Spec.{RotationRepr, quat, rot6d, axis_angle, other_rotation}
use franka_deploy.Schema.Detect.Formats.{columns_of}
use franka_deploy.Schema.Options.{◌>>=◌}
use franka_deploy.Schema.Apply.{
  ActionSpaceAdapter, make, rot_dim_of, exact_3, broadcast_3, exact_7, broadcast_7,
}

abbrev pub Given : {A : Type 0} → Option A → Type 0
Given o = elim o [ none ↦ ⊥ | some a ↦ Unit ]

pub not-Given : {A : Type 0} (o : Option A) → Given o → o ≡ none → ⊥
not-Given none h e = h
not-Given (some a) h e = cc

pub Given->>= :
    {A B : Type 0} (m : Option A) (k : A → Option B)
    → Given m
    → ((a : A) → Given (k a))
    → Given (m >>= k)
Given->>= none k h f = h
Given->>= (some a) k h f = f a

pub length-take : (n : ℕ) (xs : List Float) → n ≤ length xs → length (take n xs) ≡ n
length-take zero xs h = refl
length-take (suc n) [] h = absurd (omega arith)
length-take (suc n) (x ∷ xs) h = omega (arith, length-take n xs (omega arith))

pub exact_3-Given : (xs : List Float) → length xs ≡ 3 → Given (exact_3 xs)
exact_3-Given [] h = absurd (omega arith)
exact_3-Given (x ∷ []) h = absurd (omega arith)
exact_3-Given (x ∷ y ∷ []) h = absurd (omega arith)
exact_3-Given (x ∷ y ∷ z ∷ []) h = tt
exact_3-Given (x ∷ y ∷ z ∷ w ∷ xs) h = absurd (omega arith)

pub broadcast_3-Given : (xs : List Float) → length xs ≡ 3 → Given (broadcast_3 xs)
broadcast_3-Given [] h = absurd (omega arith)
broadcast_3-Given (x ∷ []) h = tt
broadcast_3-Given (x ∷ y ∷ xs) h = exact_3-Given (x ∷ y ∷ xs) h

pub exact_7-Given : (xs : List Float) → length xs ≡ 7 → Given (exact_7 xs)
exact_7-Given [] h = absurd (omega arith)
exact_7-Given (a ∷ []) h = absurd (omega arith)
exact_7-Given (a ∷ b ∷ []) h = absurd (omega arith)
exact_7-Given (a ∷ b ∷ c ∷ []) h = absurd (omega arith)
exact_7-Given (a ∷ b ∷ c ∷ d ∷ []) h = absurd (omega arith)
exact_7-Given (a ∷ b ∷ c ∷ d ∷ e ∷ []) h = absurd (omega arith)
exact_7-Given (a ∷ b ∷ c ∷ d ∷ e ∷ f ∷ []) h = absurd (omega arith)
exact_7-Given (a ∷ b ∷ c ∷ d ∷ e ∷ f ∷ g ∷ []) h = tt
exact_7-Given (a ∷ b ∷ c ∷ d ∷ e ∷ f ∷ g ∷ x ∷ xs) h = absurd (omega arith)

pub broadcast_7-Given : (xs : List Float) → length xs ≡ 7 → Given (broadcast_7 xs)
broadcast_7-Given [] h = absurd (omega arith)
broadcast_7-Given (x ∷ []) h = tt
broadcast_7-Given (x ∷ y ∷ xs) h = exact_7-Given (x ∷ y ∷ xs) h

pub get_item-Given :
    (xs : List Float) (n : ℕ) → 0 < n → n ≤ length xs → Given (get_item xs (sub_ℕ n 1))
get_item-Given xs n p h =
    let at : sub_ℕ n 1 ≡ pos (n - 1) = ground arith in
    let (x, found) = get_elem?_of_lt xs (n - 1) (omega arith) in rw at (rw found tt)

pub Given-some : {A : Type 0} (o : Option A) → Given o → (a : A) × (o ≡ some a)
Given-some none h = elim h [ ]
Given-some (some a) h = (a, refl)

pub make-rot_dim :
    (s : ActionSpaceAdapter)
    → make s.spec ≡ some s
    → rot_dim_of s.spec.rotation_repr ≡ some s.rot_dim
unfolding make
make-rot_dim s h = elim (Option-cases (rot_dim_of s.spec.rotation_repr)) [
  | inl unknown ↦ cc
  | inr (n, known) ↦
      let same : ◌≡◌ {A = Option ActionSpaceAdapter} (some (record { spec = s.spec; rot_dim = n }))
          (some s) =
        rw (known, make) at h in
      known
      ∙ ap (λ (o : Option ActionSpaceAdapter). elim o [ none ↦ none | some a ↦ some a.rot_dim ])
          same
]

-- The columns hold a position and the rotation, or seven joints.
pub columns-some :
    (r : RotationRepr) (n : ℕ) (has_gripper : Bool) (row : List Float)
    → rot_dim_of (some r) ≡ some n
    → columns_of (some r) has_gripper ≡ length row
    → (3 + n ≤ length row) × (6 ≤ length row)
unfolding rot_dim_of
columns-some quat n g row h w = ground arith
columns-some rot6d n g row h w = ground arith
columns-some axis_angle n g row h w = ground arith
columns-some (other_rotation r) n g row h w = cc

pub columns-none :
    (has_gripper : Bool) (row : List Float)
    → columns_of none has_gripper ≡ length row
    → 7 ≤ length row
columns-none g row w = ground arith

pub columns_pos :
    (r : Option RotationRepr) (n : ℕ) (has_gripper : Bool)
    → rot_dim_of r ≡ some n
    → 0 < columns_of r has_gripper
unfolding rot_dim_of
columns_pos none n g h = ground arith
columns_pos (some quat) n g h = ground arith
columns_pos (some rot6d) n g h = ground arith
columns_pos (some axis_angle) n g h = ground arith
columns_pos (some (other_rotation r)) n g h = cc

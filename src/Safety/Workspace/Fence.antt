-- ===== src/Safety/Workspace/Fence.antt =====
-- What the workspace check accepts.
use franka_deploy.Common.{
  suc, ◌<◌, ◌≤◌, ◌≡◌, refl, ◌↔◌, ◌⊎◌, inl, inr, arith, some, List, [], ◌∷◌, ◌++◌, ◌+ℤ◌, ◌-ℤ◌, ◌≤ℤ◌,
  ltb_ℤ, foldl, int_laws, Float, Vec, minimum, maximum, length, length-append, ok, Bool-cases,
  le→leb, ltb_ℤ→lt, ltb_ℤ→ge,
}
use franka_deploy.Safety.Workspace.{
  Axis, axis_x, axis_y, axis_z, WorkspaceBounds, add_point, enabled, least, greatest, bbox, check,
  check_box, box_of,
}

-- Some element has the property.
abbrev pub Some {ℓ} : {A : Type ℓ} → (A → Type 0) → List A → Type 0
Some P [] = ⊥
Some P (x ∷ xs) = P x ⊎ Some P xs

-- On an axis, a recorded point lies at least the margin below, and one at least the margin above.
abbrev pub Between : Float → List (Vec Axis) → Vec Axis → Axis → Type 0
Between margin points position a =
    Some (λ (p : Vec Axis). p a +ℤ margin ≤ℤ position a) points
    × Some (λ (p : Vec Axis). position a ≤ℤ p a -ℤ margin) points

minimum_iff :
    (m q margin b : Float)
    → (minimum m q +ℤ margin ≤ℤ b) ↔ ((m +ℤ margin ≤ℤ b) ⊎ (q +ℤ margin ≤ℤ b))
unfolding minimum
minimum_iff m q margin b = elim (Bool-cases (ltb_ℤ q m)) [
  | inl e ↦ rw e (inr, λ h. elim h [ inl l ↦ omega (int_laws, ltb_ℤ→lt q m e) | inr r ↦ r ])
  | inr e ↦ rw e (inl, λ h. elim h [ inl l ↦ l | inr r ↦ omega (int_laws, ltb_ℤ→ge q m e) ])
]

maximum_iff :
    (m q margin b : Float)
    → (b ≤ℤ maximum m q -ℤ margin) ↔ ((b ≤ℤ m -ℤ margin) ⊎ (b ≤ℤ q -ℤ margin))
unfolding maximum
maximum_iff m q margin b = elim (Bool-cases (ltb_ℤ m q)) [
  | inl e ↦ rw e (inr, λ h. elim h [ inl l ↦ omega (int_laws, ltb_ℤ→lt m q e) | inr r ↦ r ])
  | inr e ↦ rw e (inl, λ h. elim h [ inl l ↦ l | inr r ↦ omega (int_laws, ltb_ℤ→ge m q e) ])
]

regroup : {A B C M : Type 0} → (M ↔ (A ⊎ B)) → {X : Type 0} → (X ↔ (M ⊎ C)) → X ↔ (A ⊎ (B ⊎ C))
regroup mid out = (
  λ x. elim (out.0 x) [
    | inl m ↦ elim (mid.0 m) [ inl a ↦ inl a | inr b ↦ inr (inl b) ]
    | inr c ↦ inr (inr c)
  ],
  λ h. out.1 (elim h [
    | inl a ↦ inl (mid.1 (inl a))
    | inr r ↦ elim r [ inl b ↦ inl (mid.1 (inr b)) | inr c ↦ inr c ]
  ]),
)

only : {A : Type 0} → A ↔ (A ⊎ ⊥)
only = (inl, λ h. elim h [ inl a ↦ a | inr b ↦ absurd b ])

module _ (margin : Float) (position : Vec Axis) (a : Axis) where
  foldl-minimum_iff :
      (m : Float) (qs : List (Vec Axis))
      → (foldl (λ (m' : Float) (q : Vec Axis). minimum m' (q a)) m qs +ℤ margin ≤ℤ position a)
        ↔ ((m +ℤ margin ≤ℤ position a) ⊎ Some (λ (q : Vec Axis). q a +ℤ margin ≤ℤ position a) qs)
  foldl-minimum_iff m [] = only
  foldl-minimum_iff m (q ∷ qs) =
      regroup (minimum_iff m (q a) margin (position a)) (foldl-minimum_iff (minimum m (q a)) qs)

  foldl-maximum_iff :
      (m : Float) (qs : List (Vec Axis))
      → (position a ≤ℤ foldl (λ (m' : Float) (q : Vec Axis). maximum m' (q a)) m qs -ℤ margin)
        ↔ ((position a ≤ℤ m -ℤ margin) ⊎ Some (λ (q : Vec Axis). position a ≤ℤ q a -ℤ margin) qs)
  foldl-maximum_iff m [] = only
  foldl-maximum_iff m (q ∷ qs) =
      regroup (maximum_iff m (q a) margin (position a)) (foldl-maximum_iff (maximum m (q a)) qs)

check_box_inside :
    (lo hi position : Vec Axis)
    → check_box (some (lo, hi)) position ≡ ok tt
    → (a : Axis) → (lo a ≤ℤ position a) × (position a ≤ℤ hi a)
check_box_inside lo hi position h axis_x = ground arith
check_box_inside lo hi position h axis_y = ground arith
check_box_inside lo hi position h axis_z = ground arith

check_box_passes :
    (lo hi position : Vec Axis)
    → ((a : Axis) → (lo a ≤ℤ position a) × (position a ≤ℤ hi a))
    → check_box (some (lo, hi)) position ≡ ok tt
check_box_passes lo hi position h = ground (arith, h axis_x, h axis_y, h axis_z)

box_of_iff :
    (margin : Float) (p : Vec Axis) (ps : List (Vec Axis)) (position : Vec Axis)
    → (check_box (box_of margin (p ∷ ps)) position ≡ ok tt)
      ↔ ((a : Axis) → Between margin (p ∷ ps) position a)
box_of_iff margin p ps position = (
  λ h a.
      let (low, high) =
        check_box_inside (λ b. least p ps b +ℤ margin) (λ b. greatest p ps b -ℤ margin) position h
          a in
      (
        (foldl-minimum_iff margin position a (p a) ps).0 low,
        (foldl-maximum_iff margin position a (p a) ps).0 high,
      ),
  λ h.
      check_box_passes (λ b. least p ps b +ℤ margin) (λ b. greatest p ps b -ℤ margin) position
        λ a. (
          (foldl-minimum_iff margin position a (p a) ps).1 (h a).0,
          (foldl-maximum_iff margin position a (p a) ps).1 (h a).1,
        ),
)

-- With two points or more the check passes exactly when on every axis the position lies between two
-- recorded points, the margin away from both; with fewer points it always passes.
pub check_iff :
    (ws : WorkspaceBounds) (position : Vec Axis)
    → (1 < length ws.points
        → (check ws position ≡ ok tt) ↔ ((a : Axis) → Between ws.margin ws.points position a))
      × (length ws.points ≤ 1 → check ws position ≡ ok tt)
unfolding check bbox enabled
check_iff ws position = go ws.points
  where
    go :
        (points : List (Vec Axis))
        → let ws' : WorkspaceBounds = record { points = points; margin = ws.margin } in
          (1 < length points
            → (check ws' position ≡ ok tt) ↔ ((a : Axis) → Between ws.margin points position a))
          × (length points ≤ 1 → check ws' position ≡ ok tt)
    go [] = (λ h. absurd (omega arith), λ _. refl)
    go (p ∷ []) = (λ h. absurd (omega arith), λ _. refl)
    go (p ∷ q ∷ rest) = (
      λ _.
          rw (le→leb 2 (suc (suc (length rest))) (omega arith))
            (box_of_iff ws.margin p (q ∷ rest) position),
      λ h. absurd (omega arith),
    )

Some-append {ℓ} : {A : Type ℓ} (P : A → Type 0) (xs ys : List A) → Some P xs → Some P (xs ++ ys)
Some-append P [] ys h = absurd h
Some-append P (x ∷ xs) ys (inl h) = inl h
Some-append P (x ∷ xs) ys (inr h) = inr (Some-append P xs ys h)

-- A further point never shrinks a fence that is enforced.
pub check-add_point :
    (ws : WorkspaceBounds) (p position : Vec Axis)
    → 1 < length ws.points
    → check ws position ≡ ok tt
    → check (add_point ws p) position ≡ ok tt
unfolding add_point
check-add_point ws p position h e =
    let grown = length-append ws.points (p ∷ []) in
    ((check_iff (add_point ws p) position).0 (omega arith)).1 λ a.
      let (low, high) = ((check_iff ws position).0 h).0 e a in
      (Some-append _ ws.points (p ∷ []) low, Some-append _ ws.points (p ∷ []) high)

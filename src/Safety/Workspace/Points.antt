-- ===== src/Safety/Workspace/Points.antt =====
-- How the list of recorded points changes.
use franka_deploy.Common.{
  ℕ, zero, suc, ◌+◌, ◌-◌, ◌<◌, ◌≤◌, ◌≡◌, refl, arith, inl, inr, ◌⊎◌, none, some, List, [], ◌∷◌,
  ◌++◌, ℤ, pos, negsuc, ltb, Vec, length, length-append, ok, Bool-cases, lt→ltb,
}
use franka_deploy.Safety.Workspace.{
  Axis, WorkspaceBounds, add_point, delete_at, delete, remove_point, check,
}
use franka_deploy.Safety.Workspace.Fence.{check_iff}

module _ {A : Type 0} where
  delete_at_lem :
      (xs : List A) (i : ℕ)
      → ((length xs ≤ i) × (delete_at xs i ≡ none))
        ⊎ ((ys : List A) × (delete_at xs i ≡ some ys)
            × (length ys + 1 ≡ length xs)
            × (i < length xs))
  unfolding delete_at
  delete_at_lem [] i = inl (omega arith, refl)
  delete_at_lem (x ∷ xs) zero = inr (xs, refl, omega arith, omega arith)
  delete_at_lem (x ∷ xs) (suc i) = elim (delete_at_lem xs i) [
    | inl (h, e) ↦ inl (omega arith, rw e)
    | inr (ys, e, l, h) ↦ inr (x ∷ ys, rw e, omega arith, omega arith)
  ]

  delete_at-append : (xs : List A) (x : A) → delete_at (xs ++ x ∷ []) (length xs) ≡ some xs
  unfolding delete_at
  delete_at-append [] x = refl
  delete_at-append (y ∷ xs) x = rw (delete_at-append xs x)

-- The index names a point in Python's way, from the front or from the end.
abbrev pub Names : ℤ → ℕ → Type 0
Names (pos i) n = i < n
Names (negsuc i) n = i < n

delete_lem :
    {A : Type 0} (xs : List A) (index : ℤ)
    → ((delete xs index ≡ none) × ¬ (Names index (length xs)))
      ⊎ ((ys : List A) × (delete xs index ≡ some ys)
          × Names index (length xs)
          × (length ys + 1 ≡ length xs))
unfolding delete
delete_lem xs (pos i) = elim (delete_at_lem xs i) [
  | inl (h, e) ↦ inl (e, omega arith)
  | inr (ys, e, l, h) ↦ inr (ys, e, h, l)
]
delete_lem xs (negsuc i) = elim (Bool-cases (ltb i (length xs))) [
  | inr no_point ↦ inl (rw no_point, ground arith)
  | inl inside ↦ elim (delete_at_lem xs (length xs - 1 - i)) [
    | inl (h, e) ↦ absurd (ground arith)
    | inr (ys, e, l, h) ↦ inr (ys, rw inside e, ground arith, l)
  ]
]

-- An index that names no point raises; any other removes one point and keeps the margin, and with
-- fewer than two points left every position is accepted.
pub remove_point_lem :
    (ws : WorkspaceBounds) (index : ℤ)
    → ((remove_point ws index ≡ none) × ¬ (Names index (length ws.points)))
      ⊎ ((ws' : WorkspaceBounds) × (remove_point ws index ≡ some ws')
          × Names index (length ws.points)
          × (length ws'.points + 1 ≡ length ws.points)
          × (ws'.margin ≡ ws.margin)
          × (length ws.points ≤ 2 → (position : Vec Axis) → check ws' position ≡ ok tt))
unfolding remove_point
remove_point_lem ws index = elim (delete_lem ws.points index) [
  | inl (e, none_there) ↦ inl (rw (e, remove_point), none_there)
  | inr (ys, e, there, l) ↦
      let left : WorkspaceBounds = record ws { points = ys } in
      inr (
        left,
        rw (e, remove_point),
        there,
        l,
        refl,
        λ few position. (check_iff left position).1 (omega arith),
      )
]

delete-append : {A : Type 0} (xs : List A) (x : A) → delete (xs ++ x ∷ []) (negsuc 0) ≡ some xs
unfolding delete
delete-append xs x =
    let grown = length-append xs (x ∷ []) in
    let last : length (xs ++ x ∷ []) - 1 - 0 ≡ length xs = omega arith in
    let some_left = lt→ltb 0 (length (xs ++ x ∷ [])) (omega arith) in
    rw (some_left, last) (delete_at-append xs x)

-- Removing the last point undoes an `add_point`.
pub remove_point-add_point :
    (ws : WorkspaceBounds) (p : Vec Axis) → remove_point (add_point ws p) (negsuc 0) ≡ some ws
unfolding remove_point add_point
remove_point-add_point ws p = rw (delete-append ws.points p, remove_point)

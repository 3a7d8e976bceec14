-- ===== src/Safety/Workspace.antt =====
-- franka_deploy/safety/workspace_bounds.py: the Cartesian fence around recorded positions.
pub mod Fence
pub mod Points
use franka_deploy.Common.{
  ℕ, zero, suc, ◌+◌, ◌-◌, ◌≡◌, Bool, true, false, ◌||◌, Option, none, some, List, [], ◌∷◌, ◌++◌, ℤ,
  pos, negsuc, ◌+ℤ◌, ◌-ℤ◌, ltb, leb, ltb_ℤ, foldl, Float, Vec, minimum, maximum, if◌then◌else◌,
  length, Result, ok, err,
}

pub data Axis : Type 0 where
  axis_x axis_y axis_z : Axis

pub data WorkspaceExceeded : Type 0 where
  workspace_exceeded : WorkspaceExceeded

pub record WorkspaceBounds : Type 0 where
  pub points : List (Vec Axis)
  pub margin : Float

unfoldable pub add_point : WorkspaceBounds → Vec Axis → WorkspaceBounds
add_point ws position = record ws { points = ws.points ++ position ∷ [] }

-- `del xs[i]` with i from the front.
unfoldable pub delete_at {ℓ} : {A : Type ℓ} → List A → ℕ → Option (List A)
delete_at [] i = none
delete_at (x ∷ xs) zero = some xs
delete_at (x ∷ xs) (suc i) = elim (delete_at xs i) [ none ↦ none | some ys ↦ some (x ∷ ys) ]

-- Python counts a negative index from the end; `none` is the `IndexError`.
unfoldable pub delete {ℓ} : {A : Type ℓ} → List A → ℤ → Option (List A)
unfolding delete_at
delete xs (pos i) = delete_at xs i
delete xs (negsuc i) = if ltb i (length xs) then delete_at xs (length xs - 1 - i) else none

unfoldable pub remove_point : WorkspaceBounds → ℤ → Option WorkspaceBounds
unfolding delete
remove_point ws index = elim (delete ws.points index) [
  | none ↦ none
  | some ps ↦ some (record ws { points = ps })
]

unfoldable pub clear : WorkspaceBounds → WorkspaceBounds
clear ws = record ws { points = [] }

unfoldable pub enabled : WorkspaceBounds → Bool
enabled ws = leb 2 (length ws.points)

-- The least and the greatest entry of a column of points, from its first point on.
abbrev pub least : Vec Axis → List (Vec Axis) → Vec Axis
least p ps axis = foldl (λ (m : Float) (q : Vec Axis). minimum m (q axis)) (p axis) ps

abbrev pub greatest : Vec Axis → List (Vec Axis) → Vec Axis
greatest p ps axis = foldl (λ (m : Float) (q : Vec Axis). maximum m (q axis)) (p axis) ps

abbrev pub box_of : Float → List (Vec Axis) → Option (Vec Axis × Vec Axis)
box_of margin [] = none
box_of margin (p ∷ ps) =
    some (λ axis. least p ps axis +ℤ margin, λ axis. greatest p ps axis -ℤ margin)

unfoldable pub bbox : WorkspaceBounds → Option (Vec Axis × Vec Axis)
unfolding enabled
bbox ws = if enabled ws then box_of ws.margin ws.points else none

abbrev pub any_axis : (Axis → Bool) → Bool
any_axis p = p axis_x || p axis_y || p axis_z

abbrev pub check_box : Option (Vec Axis × Vec Axis) → Vec Axis → Result WorkspaceExceeded (Unit {0})
check_box none position = ok tt
check_box (some (lo, hi)) position =
    if any_axis (λ a. ltb_ℤ (position a) (lo a)) || any_axis (λ a. ltb_ℤ (hi a) (position a))
    then err workspace_exceeded
    else ok tt

unfoldable pub check : WorkspaceBounds → Vec Axis → Result WorkspaceExceeded (Unit {0})
unfolding bbox
check ws position = check_box (bbox ws) position

-- What the dashboard is shown.
pub record WorkspaceDict : Type 0 where
  pub points : List (Vec Axis)
  pub margin : Float
  pub enabled : Bool
  pub lo : Option (Vec Axis)
  pub hi : Option (Vec Axis)

unfoldable pub to_dict : WorkspaceBounds → WorkspaceDict
unfolding bbox enabled
to_dict ws = record {
  points = ws.points;
  margin = ws.margin;
  enabled = enabled ws;
  lo = elim (bbox ws) [ none ↦ none | some (lo, hi) ↦ some lo ];
  hi = elim (bbox ws) [ none ↦ none | some (lo, hi) ↦ some hi ];
}

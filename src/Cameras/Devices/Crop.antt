-- ===== src/Cameras/Devices/Crop.antt =====
-- The square that a frame is cropped to.
use franka_deploy.Common.{
  ℕ, zero, suc, ◌+◌, ◌-◌, ◌/◌, ◌<◌, ◌≤◌, min, ◌≡◌, refl, arith, ap, Option, none, some, List, [],
  ◌∷◌, map, length, take, drop, get_elem?, All, Option-cases, inl, inr, length-drop, length-map,
  ◌∙◌,
}
use mathlib.Core.Option
use franka_deploy.Cameras.Devices.{cropped, slice, width_of}

module _ {A : Type 0} where
  get_elem?-drop : (n i : ℕ) (xs : List A) → get_elem? (drop n xs) i ≡ get_elem? xs (n + i)
  get_elem?-drop zero i xs = ap (get_elem? xs) (omega arith)
  get_elem?-drop (suc n) i [] = refl
  get_elem?-drop (suc n) i (x ∷ xs) =
      let shifted : suc (n + i) ≡ suc n + i = omega arith in
      get_elem?-drop n i xs ∙ ap (get_elem? (x ∷ xs)) shifted

  get_elem?-take : (n i : ℕ) (xs : List A) → i < n → get_elem? (take n xs) i ≡ get_elem? xs i
  get_elem?-take zero i xs h = elim h [ ]
  get_elem?-take (suc n) i [] h = refl
  get_elem?-take (suc n) zero (x ∷ xs) h = refl
  get_elem?-take (suc n) (suc i) (x ∷ xs) h = get_elem?-take n i xs (omega arith)

  length-take : (n : ℕ) (xs : List A) → n ≤ length xs → length (take n xs) ≡ n
  length-take zero xs h = refl
  length-take (suc n) [] h = absurd (omega arith)
  length-take (suc n) (x ∷ xs) h = omega (arith, length-take n xs (omega arith))

  length-slice :
      (start len : ℕ) (xs : List A) → start + len ≤ length xs → length (slice start len xs) ≡ len
  length-slice start len xs h =
      length-take len (drop start xs) (omega (arith, length-drop start xs))

  get_elem?-slice :
      (start len i : ℕ) (xs : List A)
      → i < len
      → get_elem? (slice start len xs) i ≡ get_elem? xs (start + i)
  get_elem?-slice start len i xs h =
      get_elem?-take len i (drop start xs) h ∙ get_elem?-drop start i xs

module _ {A B : Type 0} (f : A → B) where
  get_elem?-map : (xs : List A) (i : ℕ) → get_elem? (map f xs) i ≡ Option.map f (get_elem? xs i)
  get_elem?-map [] i = refl
  get_elem?-map (x ∷ xs) zero = refl
  get_elem?-map (x ∷ xs) (suc i) = get_elem?-map xs i

abbrev pub Centred : ℕ → ℕ → Type 0
Centred before behind = (before ≤ behind) × (behind ≤ before + 1)

module _ {Pixel : Type 0} where
  -- A pixel by its row and its column.
  unfoldable pub pixel : List (List Pixel) → ℕ → ℕ → Option Pixel
  pixel img i j = elim (get_elem? img i) [ none ↦ none | some row ↦ get_elem? row j ]

  pixel-cropped :
      (img : List (List Pixel)) (i j : ℕ)
      → i < min (length img) (width_of img)
      → j < min (length img) (width_of img)
      → let s = min (length img) (width_of img) in
        pixel (cropped img) i j ≡ pixel img ((length img - s) / 2 + i) ((width_of img - s) / 2 + j)
  unfolding pixel cropped
  pixel-cropped img i j h k =
      let s = min (length img) (width_of img) in
      let y₀ = (length img - s) / 2 in
      let x₀ = (width_of img - s) / 2 in
      let found =
        get_elem?-map (slice x₀ s) (slice y₀ s img) i
        ∙ ap (Option.map (slice x₀ s)) (get_elem?-slice y₀ s i img h) in
      elim (Option-cases (get_elem? img (y₀ + i))) [
        | inl off ↦ rw (found, pixel) (rw (off, pixel) refl)
        | inr (row, on) ↦ rw (found, pixel) (rw (on, pixel) (get_elem?-slice x₀ s j row k))
      ]

  rows_sliced :
      (start len w : ℕ) (rows : List (List Pixel))
      → start + len ≤ w
      → All (λ row. length row ≡ w) rows
      → All (λ row. length row ≡ len) (map (slice start len) rows)
  rows_sliced start len w [] h all = tt
  rows_sliced start len w (row ∷ rows) h (same, all) =
      (length-slice start len row (rw same h), rows_sliced start len w rows h all)

  All-drop :
      (P : List Pixel → Type 0) (n : ℕ) (rows : List (List Pixel))
      → All P rows
      → All P (drop n rows)
  All-drop P zero rows h = h
  All-drop P (suc n) [] h = tt
  All-drop P (suc n) (row ∷ rows) h = All-drop P n rows h.1

  All-take :
      (P : List Pixel → Type 0) (n : ℕ) (rows : List (List Pixel))
      → All P rows
      → All P (take n rows)
  All-take P zero rows h = tt
  All-take P (suc n) [] h = tt
  All-take P (suc n) (row ∷ rows) h = (h.0, All-take P n rows h.1)

  -- The frame is cropped to a square with the shorter of its sides. The pixels are those of the frame
  -- around its centre: on each axis as many are cut off before the square as behind it, or one less.
  pub cropped_square :
      (img : List (List Pixel))
      → All (λ row. length row ≡ width_of img) img
      → let s = min (length img) (width_of img) in
        let y₀ = (length img - s) / 2 in
        let x₀ = (width_of img - s) / 2 in
        (length (cropped img) ≡ s)
        × All (λ row. length row ≡ s) (cropped img)
        × ((i j : ℕ) → i < s → j < s → pixel (cropped img) i j ≡ pixel img (y₀ + i) (x₀ + j))
        × Centred y₀ (length img - s - y₀)
        × Centred x₀ (width_of img - s - x₀)
  unfolding cropped
  cropped_square img full =
      let s = min (length img) (width_of img) in
      let y₀ = (length img - s) / 2 in
      let x₀ = (width_of img - s) / 2 in
      (
        length-map (slice x₀ s) (slice y₀ s img) ∙ length-slice y₀ s img (omega arith),
        rows_sliced x₀ s (width_of img) (slice y₀ s img) (omega arith)
            (All-take _ s (drop y₀ img) (All-drop _ y₀ img full)),
        pixel-cropped img,
        omega arith,
        omega arith,
      )

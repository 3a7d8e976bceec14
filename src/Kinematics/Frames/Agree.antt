-- ===== src/Kinematics/Frames/Agree.antt =====
-- The two forward kinematics agree, and the frames are those on the way.
use franka_deploy.Common.{
  ℕ, zero, suc, ◌+◌, ◌<◌, ◌≤◌, ◌≡◌, refl, sym, ◌∙◌, ap, arith, List, [], ◌∷◌, ◌++◌, foldl, map, ltb,
  ltb→lt, ◌-◌, if-split, take, length, Vec, Numpy,
}
use mathlib.Core.List.{append_assoc, append-nil}
use franka_deploy.Safety.Limits.{Joint}
use franka_deploy.Safety.Workspace.{Axis}
use franka_deploy.Kinematics.Trigonometry.{Trigonometry, Matrix4, eye_4, matmul_4}
use franka_deploy.Kinematics.Frames.{z_axis, origin, links, frames_from, fk, fk_with_frames}

module _ (np : Numpy) (trig : Trigonometry) (x_ee : Matrix4) where
  -- The transforms on the way along a chain.
  abbrev pub partial : Matrix4 → List Matrix4 → List Matrix4
  partial t [] = []
  partial t (l ∷ ls) = matmul_4 np t l ∷ partial (matmul_4 np t l) ls

  abbrev Loop : Type 0
  Loop = Matrix4 × List (Vec Axis) × List (Vec Axis)

  -- The transform of the loop is the product, whichever frames it keeps.
  frames_from-foldl :
      (i : ℕ) (t : Matrix4) (axes origins : List (Vec Axis)) (ls : List Matrix4)
      → (frames_from np trig x_ee i t axes origins ls).0 ≡ foldl (matmul_4 np) t ls
  unfolding frames_from
  frames_from-foldl i t axes origins [] = refl
  frames_from-foldl i t axes origins (l ∷ ls) =
      let next = matmul_4 np t l in
      if-split (λ (r : Loop). r.0 ≡ foldl (matmul_4 np) next ls) (ltb i 7)
        (frames_from np trig x_ee (i + 1) next (axes ++ z_axis next ∷ [])
          (origins ++ origin next ∷ []) ls)
        (frames_from np trig x_ee (i + 1) next axes origins ls)
        (λ joint.
          frames_from-foldl (i + 1) next (axes ++ z_axis next ∷ []) (origins ++ origin next ∷ [])
            ls)
        λ flange. frames_from-foldl (i + 1) next axes origins ls

  take-nil : (n : ℕ) → take {A = Matrix4} n [] ≡ []
  take-nil zero = refl
  take-nil (suc n) = refl

  -- The frames that are kept from the i-th link on.
  abbrev kept : ℕ → Matrix4 → List Matrix4 → List Matrix4
  kept i t ls = take (7 - i) (partial t ls)

  kept_joint :
      (i : ℕ) (t l : Matrix4) (ls : List Matrix4)
      → i < 7
      → kept i t (l ∷ ls) ≡ matmul_4 np t l ∷ kept (i + 1) (matmul_4 np t l) ls
  kept_joint i t l ls h = let more : 7 - i ≡ suc (7 - (i + 1)) = omega arith in rw more refl

  kept_flange : (i : ℕ) (t : Matrix4) (ls : List Matrix4) → 7 ≤ i → kept i t ls ≡ []
  kept_flange i t ls h = let none_left : 7 - i ≡ 0 = omega arith in rw none_left refl

  frames_from-kept :
      (i : ℕ) (t : Matrix4) (axes origins : List (Vec Axis)) (ls : List Matrix4)
      → ((frames_from np trig x_ee i t axes origins ls).1 ≡ axes ++ map z_axis (kept i t ls))
        × ((frames_from np trig x_ee i t axes origins ls).2 ≡ origins ++ map origin (kept i t ls))
  unfolding frames_from
  frames_from-kept i t axes origins [] =
      let none_left : kept i t [] ≡ [] = take-nil (7 - i) in
      rw none_left (sym (append-nil axes), sym (append-nil origins))
  frames_from-kept i t axes origins (l ∷ ls) =
      let next = matmul_4 np t l in
      let both = λ (r : Loop).
        (r.1 ≡ axes ++ map z_axis (kept i t (l ∷ ls)))
        × (r.2 ≡ origins ++ map origin (kept i t (l ∷ ls))) in
      if-split both (ltb i 7)
        (frames_from np trig x_ee (i + 1) next (axes ++ z_axis next ∷ [])
          (origins ++ origin next ∷ []) ls)
        (frames_from np trig x_ee (i + 1) next axes origins ls)
        (λ joint.
          let (a, o) =
            frames_from-kept (i + 1) next (axes ++ z_axis next ∷ []) (origins ++ origin next ∷ [])
              ls in
          let split = kept_joint i t l ls (ltb→lt i 7 joint) in
          (
            rw split (a ∙ append_assoc axes (z_axis next ∷ []) _),
            rw split (o ∙ append_assoc origins (origin next ∷ []) _),
          ))
        λ flange.
          let (a, o) = frames_from-kept (i + 1) next axes origins ls in
          let done : 7 ≤ i = ground arith in
          let same : kept (i + 1) next ls ≡ kept i t (l ∷ ls) =
            kept_flange (i + 1) next ls (omega arith) ∙ sym (kept_flange i t (l ∷ ls) done) in
          rw (← same) (a, o)

  -- The kinematics with frames returns the pose of the plain one. Its axes and origins, seven of each,
  -- are the third and the fourth columns of the transforms along the chain up to each of the seven joints.
  pub fk_with_frames-fk :
      (q : Vec Joint)
      → let on_the_way = take 7 (partial (eye_4 np) (links np trig q)) in
        let (t, axes, origins) = fk_with_frames np trig x_ee q in
        (t ≡ fk np trig x_ee q)
        × (axes ≡ map z_axis on_the_way)
        × (origins ≡ map origin on_the_way)
        × (length axes ≡ 7)
        × (length origins ≡ 7)
  unfolding fk_with_frames fk links
  fk_with_frames-fk q =
      let ls = links np trig q in
      let (a, o) = frames_from-kept 0 (eye_4 np) [] [] ls in
      (
        ap (λ t. matmul_4 np t x_ee) (frames_from-foldl 0 (eye_4 np) [] [] ls),
        a,
        o,
        rw a refl,
        rw o refl,
      )

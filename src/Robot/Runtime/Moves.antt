-- ===== src/Robot/Runtime/Moves.antt =====
-- What a blocking move returns.
use franka_deploy.Common.{
  ◌≡◌, ◌≢◌, refl, Bool, true, false, none, List, [], ◌∷◌, Float, Vec, ltb_ℤ→lt, ◌<ℤ◌, ◌≤ℤ◌, abs,
  ◌-ℤ◌, maximum, Numpy, Result, ok, err, if-split, arith,
}
use franka_deploy.Safety.Limits.{Joint, j1, j2, j3, j4, j5, j6, j7, max_joint}
use franka_deploy.Robot.Runtime.{
  RuntimeException, control_loop_dead, motion_disabled, Fr3Runtime, Turn, set_joint_target,
  close_to, StateDict, get_state, turns,
}
use franka_deploy.Robot.Runtime.Calls.{polled, await, then_await, movej}

maximum-ge : (a b : Float) → (a ≤ℤ maximum a b) × (b ≤ℤ maximum a b)
unfolding maximum
maximum-ge a b = ground arith

-- Every joint is below the maximum.
le-max_joint : (v : Vec Joint) (j : Joint) → v j ≤ℤ max_joint v
le-max_joint v j =
    let g = maximum-ge (v j6) (v j7) in
    let f = maximum-ge (v j5) (maximum (v j6) (v j7)) in
    let e = maximum-ge (v j4) (maximum (v j5) (maximum (v j6) (v j7))) in
    let d = maximum-ge (v j3) (maximum (v j4) (maximum (v j5) (maximum (v j6) (v j7)))) in
    let c =
      maximum-ge (v j2)
        (maximum (v j3) (maximum (v j4) (maximum (v j5) (maximum (v j6) (v j7))))) in
    let b =
      maximum-ge (v j1) (
        maximum (v j2)
          (maximum (v j3) (maximum (v j4) (maximum (v j5) (maximum (v j6) (v j7)))))) in
    elim j as (λ i. v i ≤ℤ max_joint v) [
      | j1 ↦ omega arith
      | j2 ↦ omega arith
      | j3 ↦ omega arith
      | j4 ↦ omega arith
      | j5 ↦ omega arith
      | j6 ↦ omega arith
      | j7 ↦ omega arith
    ]

-- What a result says of the runtime at the end.
abbrev pub Tells : Vec Joint → Float → Fr3Runtime × Result RuntimeException Bool → Type 0
Tells q tol (s, ok true) = (s.control_error ≡ none) × ((j : Joint) → abs (s.q j -ℤ q j) <ℤ tol)
Tells q tol (s, ok false) = Unit
Tells q tol (s, err control_loop_dead) = s.control_error ≢ none
Tells q tol (s, err e) = ⊥

module _ (np : Numpy) where
  close_to→lt :
      (u v : Vec Joint) (tol : Float)
      → close_to np u v tol ≡ true
      → (j : Joint) → abs (u j -ℤ v j) <ℤ tol
  close_to→lt u v tol e j =
      let most = ltb_ℤ→lt (max_joint (λ i. abs (u i -ℤ v i))) tol e in
      let one = le-max_joint (λ i. abs (u i -ℤ v i)) j in omega arith

  get_state-err :
      (s : Fr3Runtime) (e : RuntimeException)
      → get_state s ≡ err e
      → (e ≡ control_loop_dead) × (s.control_error ≢ none)
  unfolding get_state
  get_state-err s e h = ground arith

  get_state-ok :
      (s : Fr3Runtime) (st : StateDict)
      → get_state s ≡ ok st
      → (s.control_error ≡ none) × (s.q ≡ st.q)
  unfolding get_state
  get_state-ok s st h = ground arith

  polled-Tells :
      (s : Fr3Runtime) (q : Vec Joint) (tol : Float) (r : Result RuntimeException StateDict)
      (later : Fr3Runtime × Result RuntimeException Bool)
      → get_state s ≡ r
      → Tells q tol later
      → Tells q tol (polled np s q tol r later)
  polled-Tells s q tol (err e) later h k = let (same, dead) = get_state-err s e h in rw same dead
  polled-Tells s q tol (ok st) later h k =
      let (alive, measured) = get_state-ok s st h in
      if-split (Tells q tol) (close_to np st.q q tol) (s, ok true) later
        (λ near. (alive, rw measured (close_to→lt st.q q tol near))) λ far. k

  await-Tells :
      (s : Fr3Runtime) (q : Vec Joint) (tol : Float) (polls : List (List Turn))
      → Tells q tol (await np s q tol polls)
  unfolding await
  await-Tells s q tol [] = tt
  await-Tells s q tol (ts ∷ polls) =
      polled-Tells s q tol (get_state s) (await np (turns np s ts) q tol polls) refl
        (await-Tells (turns np s ts) q tol polls)

  -- A blocking move of a read-only runtime raises at once and changes nothing. Any other returns true only
  -- if the runtime is alive and every measured joint is closer to the target than the tolerance, raises
  -- only if the control loop is dead, and returns false otherwise.
  pub movej_cases :
      (s : Fr3Runtime) (q : Vec Joint) (tol : Float) (polls : List (List Turn))
      → (s.read_only ≡ true → movej np s q tol polls ≡ (s, err motion_disabled))
        × (s.read_only ≡ false → Tells q tol (movej np s q tol polls))
  unfolding movej set_joint_target
  movej_cases s q tol polls =
      let aimed = record s { target_q = q } in
      let call =
        λ (r : Fr3Runtime × Result RuntimeException (Unit {0})). then_await np r q tol polls in
      (
        λ on.
            if-split (λ r. call r ≡ (s, err motion_disabled)) s.read_only (s, err motion_disabled)
              (aimed, ok tt) (λ same. refl) λ off. absurd (cc),
        λ off.
            if-split (λ r. Tells q tol (call r)) s.read_only (s, err motion_disabled) (aimed, ok tt)
              (λ on. absurd (cc)) λ same. await-Tells aimed q tol polls,
      )

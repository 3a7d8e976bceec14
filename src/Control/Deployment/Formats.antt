-- ===== src/Control/Deployment/Formats.antt =====
-- A run on chunks of the confirmed format.
use franka_deploy.Common.{
  ℕ, ◌<◌, ◌≡◌, ◌≢◌, arith, Bool-cases, Option, none, some, Option-cases, List, [], ◌∷◌, pos, Float,
  Vec, Numpy, length, get_item, All, All-map, All-get_item, ok, err, Result-split, ok-injective,
  >>=-ok, ltb_ℤ, inl, inr,
}
use franka_deploy.Control.Config.{LoopConfig}
use franka_deploy.Safety.Limits.{Joint}
use franka_deploy.Safety.Workspace.{Axis, WorkspaceBounds}
use franka_deploy.Control.Ticks
use franka_deploy.Control.Ticks.{
  Row, Fault, adapter_error, index_error, robot_error, server_error, oscillation_tripped,
  workspace_fault, Tick, Progress, ThreadState, row_at, horizon_of, swap, fetched, lead, paced,
  execute, round_of, in_fence, fenced, RobotState, limited,
}
use franka_deploy.Control.Ticks.Schedule.{IsScheduled, HasRow, rounds-IsScheduled}
use franka_deploy.Control.Deployment.{all_joints, rounds}
use franka_deploy.Kinematics.{Pose}
use franka_deploy.Kinematics.Trigonometry.{Trigonometry, Matrix4}
use franka_deploy.Kinematics.Frames.{damped_step}
use franka_deploy.Schema.Apply.{ActionSpaceAdapter, make}
use franka_deploy.Schema.Apply.Given.{Given}
use franka_deploy.Schema.Apply.Rows.{row_to_joint_target-Given}
use franka_deploy.Schema.Apply.Deployed.{geometry-Works}
use franka_deploy.Schema.Detect.Formats.{Agrees, columns_of}
use franka_deploy.Control.Ticks.Yields.{Yields, Yields-intro, Yields->>=}

-- Every row has the columns of the format.
abbrev pub HasWidth : ℕ → List Row → Type 0
HasWidth dim chunk = All (λ row. length row ≡ dim) chunk

abbrev pub Predicts : ℕ → Option (List Row) → Type 0
Predicts dim none = Unit
Predicts dim (some chunk) = HasWidth dim chunk

-- The rows of the current chunk are those of the format.
abbrev Fits : ℕ → ThreadState → Type 0
Fits dim s = HasWidth dim s.progress.chunk

module _ (np : Numpy) (cfg : LoopConfig) (dim : ℕ) where
  fetched-HasWidth :
      (p : Progress) (t : Tick) {p' : Progress}
      → Predicts dim t.predicts
      → fetched np cfg p t ≡ ok p'
      → HasWidth dim p'.chunk
  unfolding fetched
  fetched-HasWidth p t h e = ground arith

  swap-HasWidth :
      (p : Progress) (t : Tick) {p' : Progress}
      → Predicts dim t.predicts
      → HasWidth dim p.chunk
      → swap np cfg p t ≡ ok p'
      → HasWidth dim p'.chunk
  unfolding swap
  swap-HasWidth p t {p'} h w e = elim (Bool-cases (ltb_ℤ p.idx (pos (horizon_of cfg p.chunk)))) [
    | inl inside ↦ let same : p ≡ p' = ok-injective p p' (rw inside at e) in rw (← same) w
    | inr over ↦
        let (q, got, made) = >>=-ok (fetched np cfg p t) _ (rw over at e) in
        rw (← ok-injective _ p' made) (fetched-HasWidth p t h got)
  ]

  lead-HasWidth :
      (p : Progress) (t : Tick) {p' : Progress}
      → HasWidth dim p.chunk
      → lead np cfg p t ≡ ok p'
      → HasWidth dim p'.chunk
  unfolding lead
  lead-HasWidth p t w e = ground arith

  fetched_other :
      (p : Progress) (t : Tick) (f : Fault) → fetched np cfg p t ≡ err f → f ≢ adapter_error
  unfolding fetched
  fetched_other p t f e = ground arith

  swap_other : (p : Progress) (t : Tick) (f : Fault) → swap np cfg p t ≡ err f → f ≢ adapter_error
  unfolding swap
  swap_other p t f e = ground (arith, fetched_other p t f)

  lead_other : (p : Progress) (t : Tick) (f : Fault) → lead np cfg p t ≡ err f → f ≢ adapter_error
  unfolding lead
  lead_other p t f e = ground arith

  module _ (joints : List Joint) (fk : Vec Joint → Vec Axis)
      (row_to_joint_target : Row → Vec Joint → Option (Vec Joint × Float))
      (workspace : WorkspaceBounds)
      (covers : (row : Row) (q : Vec Joint)
        → length row ≡ dim
        → (r : Vec Joint × Float) × (row_to_joint_target row q ≡ some r)) where
    -- On rows of the format the adapter does not raise, and the tick keeps the chunk.
    execute-Fits :
        (s : ThreadState) (t : Tick)
        → Fits dim s
        → Yields adapter_error
            (Fits dim)
            (execute np cfg joints fk row_to_joint_target workspace s t)
    unfolding execute row_at
    execute-Fits s t w = elim (Option-cases t.reads) [
      | inl lost ↦ rw lost (λ e. cc)
      | inr (st, read) ↦ elim (Option-cases (get_item s.progress.chunk s.progress.idx)) [
        | inl missing ↦ ground (arith, read, missing)
        | inr (row, found) ↦
            let wide = All-get_item _ s.progress.chunk s.progress.idx row w found in
            let (target, covered) = covers row st.q wide in ground (arith, read, found, covered)
      ]
    ]

    round_of-Fits :
        (s : ThreadState) (t : Tick)
        → Predicts dim t.predicts
        → Fits dim s
        → Yields adapter_error
            (Fits dim)
            (round_of np cfg joints fk row_to_joint_target workspace s t)
    unfolding round_of paced
    round_of-Fits s t h w =
        let P = λ (p : Progress). HasWidth dim p.chunk in
        Yields->>= adapter_error P (Fits dim) (swap np cfg s.progress t) _
          (Yields-intro adapter_error P _ (λ p e. swap-HasWidth s.progress t h w e)
            (swap_other s.progress t))
          λ p wide.
            Yields->>= adapter_error P (Fits dim) (lead np cfg p t) _
              (Yields-intro adapter_error P _ (λ q e. lead-HasWidth p t wide e) (lead_other p t))
              λ q led.
                Yields->>= adapter_error (Fits dim) (Fits dim) _ _
                  (execute-Fits (record s { progress = q }) t led) λ s' done. done

    rounds-Fits :
        (s : ThreadState) (ts : List Tick)
        → Fits dim s
        → All (λ t. Predicts dim t.predicts) ts
        → (Ticks.rounds np cfg joints fk row_to_joint_target workspace s ts).1 ≢ some adapter_error
    unfolding Ticks.rounds
    rounds-Fits s [] w h = λ e. cc
    rounds-Fits s (t ∷ ts) w h =
        let y = round_of-Fits s t h.0 w in
        elim (Result-split (round_of np cfg joints fk row_to_joint_target workspace s t)) [
          | inl (s', e) ↦ rw (e, Ticks.rounds) (rounds-Fits s' ts (rw e at y) h.1)
          | inr (f, e) ↦
              let other : f ≢ adapter_error = rw e at y in rw (e, Ticks.rounds) (λ same. other cc)
        ]

module _ (np : Numpy) (trig : Trigonometry) (x_ee : Matrix4) (cfg : LoopConfig)
    (adapter : ActionSpaceAdapter) (workspace : WorkspaceBounds) where
  -- With a confirmed format whose columns are those of its kind of space, its rotation and its gripper,
  -- and with chunks that have at least one row and only rows of that many columns, the policy thread on
  -- the kinematics of the arm ends neither in an exception of the adapter nor in an `IndexError`. The
  -- damped linear systems of the inverse kinematics have solutions, and the execution horizon is at least one.
  pub rounds_no_format_error :
      (s : ThreadState) (ts : List Tick)
      → make adapter.spec ≡ some adapter
      → Agrees adapter.spec.kind adapter.spec.rotation_repr
      → columns_of adapter.spec.rotation_repr adapter.spec.has_gripper ≡ adapter.spec.dim
      → ((target : Pose) (q : Vec Joint) → Given (damped_step np trig x_ee target q))
      → 0 < cfg.exec_horizon
      → IsScheduled s.progress
      → HasWidth adapter.spec.dim s.progress.chunk
      → All (λ t. HasRow t.predicts × Predicts adapter.spec.dim t.predicts) ts
      → let fault = (rounds np trig x_ee cfg adapter workspace s ts).1 in
        (fault ≢ some adapter_error) × (fault ≢ some index_error)
  unfolding rounds
  rounds_no_format_error s ts made agrees columns solvable exec sched wide served =
      let works = geometry-Works np trig x_ee solvable in
      let covers = λ (row : Row) (q : Vec Joint).
        row_to_joint_target-Given np _ _ works adapter row q made agrees columns in
      (
        rounds-Fits np cfg adapter.spec.dim all_joints _ _ workspace covers s ts wide
            (All-map _ _ ts (λ t h. h.1) served),
        (rounds-IsScheduled np cfg all_joints _ _ workspace s ts exec sched
            (All-map _ _ ts (λ t h. h.0) served)).1,
      )

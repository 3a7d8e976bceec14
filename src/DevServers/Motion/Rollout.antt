-- ===== src/DevServers/Motion/Rollout.antt =====
-- A policy thread that is served by the motion server.
use franka_deploy.Common.{
  ℕ, ◌<◌, ◌≡◌, refl, ◌≢◌, arith, true, Option, none, some, List, [], ◌∷◌, map, length,
  length-append, length-map, All, All-map, Float, Vec, Numpy,
}
use franka_deploy.Schema.Json.{Json}
use franka_deploy.Schema.Spec.{ActionSpaceSpec, joint_absolute}
use franka_deploy.Schema.Apply.{ActionSpaceAdapter, make}
use franka_deploy.Schema.Apply.Given.{Given}
use franka_deploy.Schema.Detect.Formats.{Agrees, columns_of}
use franka_deploy.Safety.Limits.{Joint}
use franka_deploy.Safety.Workspace.{WorkspaceBounds}
use franka_deploy.Kinematics.{Pose}
use franka_deploy.Kinematics.Trigonometry.{Trigonometry, Matrix4}
use franka_deploy.Kinematics.Frames.{damped_step}
use franka_deploy.Control.Config.{LoopConfig}
use franka_deploy.Control.Ticks.{Row, Tick, ThreadState, begun, adapter_error, index_error}
use franka_deploy.Control.Ticks.Schedule.{HasRow, begun-IsScheduled}
use franka_deploy.Control.Deployment.{rounds}
use franka_deploy.Control.Deployment.Formats.{HasWidth, Predicts, rounds_no_format_error}
use franka_deploy.DevServers.{range_from}
use franka_deploy.DevServers.Motion.Wiggle.{range_from-length}
use franka_deploy.DevServers.Motion.{row_at, chunk_at}

-- The format that is confirmed for this server: eight columns, the last one the gripper.
abbrev pub IsJointFormat : ActionSpaceSpec → Type 0
IsJointFormat spec =
    (spec.kind ≡ joint_absolute)
    × (spec.dim ≡ 8)
    × (spec.has_gripper ≡ true)
    × (spec.rotation_repr ≡ none)

module _ (np : Numpy) (trig : Trigonometry) (entry to_float : Json → Option Float)
    (amplitude period dt : Float) (chunk_len : ℕ) where
  -- A chunk of the server for six joints, the last joint and a gripper, at some time.
  abbrev pub Served : List Row → Type 0
  Served chunk =
      (q : List Float × Float × Float) × (t0 : Float) × (length q.0 ≡ 6)
      × (chunk ≡ chunk_at np trig entry to_float amplitude period dt chunk_len q t0)

  -- A prediction that fails, or such a chunk.
  abbrev pub Serves : Option (List Row) → Type 0
  Serves none = Unit
  Serves (some chunk) = Served chunk

  abbrev row : List Float × Float × Float → Float → ℕ → Row
  row = row_at np trig entry to_float amplitude period dt chunk_len

  rows-HasWidth :
      (q : List Float × Float × Float) (t0 : Float) (ns : List ℕ)
      → length q.0 ≡ 6
      → HasWidth 8 (map (row_at np trig entry to_float amplitude period dt chunk_len q t0) ns)
  rows-HasWidth (others, x7, gripper) t0 [] six = tt
  rows-HasWidth (others, x7, gripper) t0 (i ∷ ns) six = (
    omega (arith, six, length-append others (_ ∷ gripper ∷ [])),
    rows-HasWidth (others, x7, gripper) t0 ns six,
  )

  module _ (positive : 0 < chunk_len) where
    Served-fits : (chunk : List Row) → Served chunk → (0 < length chunk) × HasWidth 8 chunk
    unfolding chunk_at
    Served-fits chunk (q, t0, six, same) = rw same (
      omega (
        arith,
        length-map (row q t0) (range_from 0 chunk_len),
        range_from-length 0 chunk_len,
        positive,
      ),
      rows-HasWidth q t0 (range_from 0 chunk_len) six,
    )

    Serves-fits : (o : Option (List Row)) → Serves o → HasRow o × Predicts 8 o
    Serves-fits none h = (tt, tt)
    Serves-fits (some chunk) h = Served-fits chunk h

    begun_wide :
        (chunk : List Row) (now : Float) → HasWidth 8 chunk → HasWidth 8 (begun chunk now).chunk
    unfolding begun
    begun_wide chunk now wide = wide

    joint_Agrees :
        (spec : ActionSpaceSpec) → IsJointFormat spec → Agrees spec.kind spec.rotation_repr
    joint_Agrees spec (kind, dim, gripper, rotation) = rw kind rotation

    joint_columns :
        (spec : ActionSpaceSpec)
        → IsJointFormat spec
        → columns_of spec.rotation_repr spec.has_gripper ≡ spec.dim
    joint_columns spec (kind, dim, gripper, rotation) = rw (rotation, gripper, dim) refl

    -- A policy thread begins on a chunk of the motion server, and every later prediction is such a chunk or
    -- fails. With the format of eight joint columns confirmed it ends neither in an exception of the adapter
    -- nor in an `IndexError`. A chunk has a row, the execution horizon is at least one, and the damped linear
    -- systems of the inverse kinematics have solutions.
    pub rounds-Served :
        (x_ee : Matrix4) (cfg : LoopConfig) (adapter : ActionSpaceAdapter)
        (workspace : WorkspaceBounds) (s : ThreadState) (chunk : List Row) (now : Float)
        (ts : List Tick)
        → IsJointFormat adapter.spec
        → make adapter.spec ≡ some adapter
        → ((target : Pose) (q : Vec Joint) → Given (damped_step np trig x_ee target q))
        → 0 < cfg.exec_horizon
        → s.progress ≡ begun chunk now
        → Served chunk
        → All (λ t. Serves t.predicts) ts
        → let fault = (rounds np trig x_ee cfg adapter workspace s ts).1 in
          (fault ≢ some adapter_error) × (fault ≢ some index_error)
    rounds-Served x_ee cfg adapter workspace s chunk now ts format made solvable exec at_start first
          served =
        let (has_row, wide) = Served-fits chunk first in
        rounds_no_format_error np trig x_ee cfg adapter workspace s ts made
          (joint_Agrees adapter.spec format) (joint_columns adapter.spec format) solvable exec
          (rw at_start (begun-IsScheduled chunk now has_row))
          (rw (format.1, at_start) (begun_wide chunk now wide))
          (rw format.1 (All-map _ _ ts (λ t h. Serves-fits t.predicts h) served))

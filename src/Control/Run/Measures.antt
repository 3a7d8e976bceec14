-- ===== src/Control/Run/Measures.antt =====
-- What the telemetry says after each round.
use franka_deploy.Common.{
  ◌≡◌, refl, inl, inr, not, ◌&&◌, Option, none, some, List, [], ◌∷◌, ◌++◌, map, Float, Vec, Numpy,
  ok, ok-injective, Result-split, >>=-ok, guard, or_raise, or_raise-ok,
}
use franka_deploy.Control.Config.{LoopConfig}
use franka_deploy.Safety.Limits.{Joint}
use franka_deploy.Safety.Smoothing
use franka_deploy.Safety.Watchdog
use franka_deploy.Safety.Workspace.{Axis, WorkspaceBounds}
use franka_deploy.Control.Loop.{running}
use franka_deploy.Control.Ticks
use franka_deploy.Control.Ticks.{
  Row, Fault, robot_error, oscillation_tripped, index_error, adapter_error, RobotState, Tick,
  Progress, Commanded, ThreadState, swap, lead, execute, row_at, limited, fenced, paced, round_of,
}
use franka_deploy.Control.Run.{Telemetry, blank, Report, reported, told, rounds}

unfoldable pub last_of {ℓ} : {A : Type ℓ} → List A → Option A
last_of [] = none
last_of (x ∷ []) = some x
last_of (x ∷ y ∷ xs) = last_of (y ∷ xs)

last_of-append {ℓ} : {A : Type ℓ} (xs : List A) (x : A) → last_of (xs ++ x ∷ []) ≡ some x
unfolding last_of
last_of-append [] x = refl
last_of-append (y ∷ []) x = refl
last_of-append (y ∷ z ∷ xs) x = last_of-append (z ∷ xs) x

-- Before the first target the telemetry is blank; then it is about the measurement of the last one, and
-- the counters are those of the thread.
abbrev pub Reports : Option Commanded → Progress → Telemetry → Type 0
Reports none p tel = tel ≡ blank running none
Reports (some c) p tel =
    (tel.state ≡ running)
    × (tel.error ≡ none)
    × (tel.q ≡ some c.measured.q)
    × (tel.dq ≡ some c.measured.dq)
    × (tel.ee_pos ≡ some c.measured.ee_pos)
    × (tel.n_replans ≡ p.n_replans)
    × (tel.n_late ≡ p.n_late)

module _ (np : Numpy) (cfg : LoopConfig) (joints : List Joint) (fk : Vec Joint → Vec Axis)
    (row_to_joint_target : Row → Vec Joint → Option (Vec Joint × Float))
    (workspace : WorkspaceBounds) where
  -- A round that goes on has read a state and commanded a target for it.
  abbrev Measures : List Commanded → Tick → List Commanded → Type 0
  Measures before t after =
      (st : RobotState) × (target : Vec Joint) × (t.reads ≡ some st)
      × (after ≡ before ++ record { measured = st; target = target } ∷ [])

  execute-Measures :
      (s : ThreadState) (t : Tick) (s' : ThreadState)
      → execute np cfg joints fk row_to_joint_target workspace s t ≡ ok s'
      → Measures s.commanded t s'.commanded
  unfolding execute
  execute-Measures s t s' h =
      let (st, read, h₁) = >>=-ok (or_raise t.reads robot_error) _ h in
      let (_, _, h₂) =
        >>=-ok
          (guard (not (cfg.watchdog_enabled && (Watchdog.update np joints s.watchdog st.dq).1))
            oscillation_tripped)
          _ h₁ in
      let (row, _, h₃) =
        >>=-ok (or_raise (row_at s.progress.chunk s.progress.idx) index_error) _ h₂ in
      let (target8, _, h₄) = >>=-ok (or_raise (row_to_joint_target row st.q) adapter_error) _ h₃ in
      let smoothed = (Smoothing.step np s.smoother target8.0).1 in
      let q_tgt = limited np cfg smoothed st.q in
      let (_, _, h₅) =
        >>=-ok (fenced np cfg joints fk row_to_joint_target workspace st q_tgt) _ h₄ in
      let (_, _, h₆) = >>=-ok (guard t.accepts robot_error) _ h₅ in
      rw (← ok-injective _ s' h₆) (st, q_tgt, or_raise-ok t.reads robot_error st read, refl)

  round_of-Measures :
      (s : ThreadState) (t : Tick) (s' : ThreadState)
      → round_of np cfg joints fk row_to_joint_target workspace s t ≡ ok s'
      → Measures s.commanded t s'.commanded
  unfolding round_of
  round_of-Measures s t s' h =
      let (p, _, h₁) = >>=-ok (swap np cfg s.progress t) _ h in
      let (q, _, h₂) = >>=-ok (lead np cfg p t) _ h₁ in
      let at_q = record s { progress = q } in
      let (r, sent, h₃) =
        >>=-ok (execute np cfg joints fk row_to_joint_target workspace at_q t) _ h₂ in
      rw (← ok-injective _ s' h₃) (execute-Measures at_q t r sent)

  told-Reports :
      (s s' : ThreadState) (tel : Telemetry) (t : Tick) (r : Report)
      → Measures s.commanded t s'.commanded
      → Reports
          (last_of s'.commanded)
          s'.progress
          (told np cfg joints fk row_to_joint_target workspace t.reads tel s'.progress r)
  unfolding reported
  told-Reports s s' tel t r (st, target, read, sent) =
      rw sent
        (rw (last_of-append s.commanded _) (rw read (refl, refl, refl, refl, refl, refl, refl)))

  -- The telemetry does not change what the rounds do.
  pub rounds-Ticks :
      (s : ThreadState) (tel : Telemetry) (ts : List (Tick × Report))
      → let (s', tel', fault) = rounds np cfg joints fk row_to_joint_target workspace s tel ts in
        (Ticks.rounds np cfg joints fk row_to_joint_target workspace s (map (λ (t, r). t) ts)
          ≡ (s', fault))
        × (Reports (last_of s.commanded) s.progress tel
            → Reports (last_of s'.commanded) s'.progress tel')
  unfolding rounds Ticks.rounds
  rounds-Ticks s tel [] = (refl, λ h. h)
  rounds-Ticks s tel ((t, r) ∷ ts) =
      elim (Result-split (round_of np cfg joints fk row_to_joint_target workspace s t)) [
        | inl (s', e) ↦
            let tel' =
              told np cfg joints fk row_to_joint_target workspace t.reads tel s'.progress r in
            let (same, reports) = rounds-Ticks s' tel' ts in
            let now = told-Reports s s' tel t r (round_of-Measures s t s' e) in
            rw (e, rounds, Ticks.rounds) (same, λ h. reports now)
        | inr (f, e) ↦ rw (e, rounds, Ticks.rounds) (refl, λ h. h)
      ]

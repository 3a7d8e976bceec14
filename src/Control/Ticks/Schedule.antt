-- ===== src/Control/Ticks/Schedule.antt =====
-- The chunk scheduling: which row of which chunk a tick executes.
use franka_deploy.Common.{
  ℕ, ◌+◌, ◌<◌, ◌≤◌, ◌≡◌, ◌≢◌, arith, false, Option, none, some, List, [], ◌∷◌, ℤ, pos, negsuc, ◌≤ℤ◌,
  ◌<ℤ◌, ltb_ℤ, Float, Vec, Numpy, minimum, maximum, length, get_elem?_of_lt, ok, err, ok-injective,
  Result-split, >>=-ok, ltb_ℤ→lt, min, All, Bool-cases, +ℤ_parts, inl, inr,
}
use franka_deploy.Control.Ticks.Yields.{Yields, Yields-intro, Yields->>=}
use franka_deploy.Control.Config.{LoopConfig}
use franka_deploy.Safety.Limits.{Joint}
use franka_deploy.Safety.Workspace.{Axis, WorkspaceBounds}
use franka_deploy.Control.Ticks.{
  Row, Fault, index_error, Tick, Progress, ThreadState, begun, horizon_of, row_at, resume_at,
  fetched, swap, lead, paced, execute, round_of, rounds,
}

-- A chunk that the server sends has a row.
abbrev pub HasRow : Option (List Row) → Type 0
HasRow none = Unit
HasRow (some chunk) = 0 < length chunk

-- The current chunk has a row, the index is not negative, and late predictions are replans.
pub record IsScheduled (p : Progress) : Type 0 where
  pub has_row : 0 < length p.chunk
  pub idx_nonneg : pos 0 ≤ℤ p.idx
  pub late-lt-replans : p.n_late < p.n_replans

abbrev Inside : Progress → Type 0
Inside p = IsScheduled p × (p.idx <ℤ pos (length p.chunk))

abbrev Scheduled : ThreadState → Type 0
Scheduled s = IsScheduled s.progress

pub begun-IsScheduled :
    (chunk : List Row) (now : Float) → 0 < length chunk → IsScheduled (begun chunk now)
unfolding begun
begun-IsScheduled chunk now h = record {
  has_row = h;
  idx_nonneg = omega arith;
  late-lt-replans = omega arith;
}

row_at-some :
    (chunk : List Row) (i : ℤ)
    → pos 0 ≤ℤ i
    → i <ℤ pos (length chunk)
    → (row : Row) × (row_at chunk i ≡ some row)
unfolding row_at
row_at-some chunk (pos i) low high = get_elem?_of_lt chunk i (omega arith)
row_at-some chunk (negsuc i) low high = absurd (omega arith)

module _ (np : Numpy) (cfg : LoopConfig) where
  resume_at_bounds :
      (now t_obs : Float) (horizon : ℕ)
      → 0 < horizon
      → (pos 0 ≤ℤ resume_at np cfg now t_obs horizon)
        × (resume_at np cfg now t_obs horizon <ℤ pos horizon)
  unfolding resume_at minimum maximum
  resume_at_bounds now t_obs horizon h = ground arith

  -- A fetch that succeeds has a row, counts a late result at most once, and keeps the other counter.
  fetched-HasRow :
      (p : Progress) (t : Tick) {p' : Progress}
      → HasRow t.predicts
      → fetched np cfg p t ≡ ok p'
      → (0 < length p'.chunk)
        × (p'.n_late ≤ p.n_late + 1)
        × (p'.n_replans ≡ p.n_replans)
        × (p'.pending ≡ false)
  unfolding fetched
  fetched-HasRow p t h e = ground arith

  -- After the swap the index points into the horizon, and so into the chunk.
  swap-IsScheduled :
      (p : Progress) (t : Tick) {p' : Progress}
      → 0 < cfg.exec_horizon
      → HasRow t.predicts
      → IsScheduled p
      → swap np cfg p t ≡ ok p'
      → IsScheduled p' × (p'.idx <ℤ pos (length p'.chunk))
  unfolding swap horizon_of
  swap-IsScheduled p t {p'} exec h s e =
      elim (Bool-cases (ltb_ℤ p.idx (pos (min (length p.chunk) cfg.exec_horizon)))) [
        | inl inside ↦
            let same : p ≡ p' = ok-injective p p' (rw inside at e) in
            rw (← same) (
              s,
              omega (arith, ltb_ℤ→lt p.idx (pos (min (length p.chunk) cfg.exec_horizon)) inside),
            )
        | inr over ↦
            let (q, got, made) = >>=-ok (fetched np cfg p t) _ (rw over at e) in
            let (row, late, replans, _) = fetched-HasRow p t h got in
            let (low, high) =
              resume_at_bounds t.swapped_at q.t_obs (min (length q.chunk) cfg.exec_horizon)
                (omega arith) in
            rw (← ok-injective _ p' made) (
              record {
                has_row = row;
                idx_nonneg = low;
                late-lt-replans = omega (arith, s.late-lt-replans);
              },
              omega arith,
            )
      ]

  lead-IsScheduled :
      (p : Progress) (t : Tick) {p' : Progress}
      → IsScheduled p
      → p.idx <ℤ pos (length p.chunk)
      → lead np cfg p t ≡ ok p'
      → IsScheduled p' × (p'.idx <ℤ pos (length p'.chunk))
  unfolding lead
  lead-IsScheduled p t s h e = ground arith

  fetched_fault :
      (p : Progress) (t : Tick) (f : Fault) → fetched np cfg p t ≡ err f → f ≢ index_error
  unfolding fetched
  fetched_fault p t f e = ground arith

  swap_fault : (p : Progress) (t : Tick) (f : Fault) → swap np cfg p t ≡ err f → f ≢ index_error
  unfolding swap
  swap_fault p t f e = ground (arith, fetched_fault p t f)

  lead_fault : (p : Progress) (t : Tick) (f : Fault) → lead np cfg p t ≡ err f → f ≢ index_error
  unfolding lead
  lead_fault p t f e = ground arith

  paced-IsScheduled : (p : Progress) (t : Tick) → IsScheduled p → IsScheduled (paced np cfg p t)
  unfolding paced
  paced-IsScheduled p t s = record {
    has_row = s.has_row;
    idx_nonneg = s.idx_nonneg;
    late-lt-replans = s.late-lt-replans;
  }

  module _ (joints : List Joint) (fk : Vec Joint → Vec Axis)
      (row_to_joint_target : Row → Vec Joint → Option (Vec Joint × Float))
      (workspace : WorkspaceBounds) where
    -- On a scheduled index the tick finds its row, and goes on with the next index.
    execute_index :
        (s : ThreadState) (t : Tick)
        → IsScheduled s.progress
        → s.progress.idx <ℤ pos (length s.progress.chunk)
        → Yields index_error Scheduled (execute np cfg joints fk row_to_joint_target workspace s t)
    unfolding execute
    execute_index s t sch h =
        let (row, found) = row_at-some s.progress.chunk s.progress.idx sch.idx_nonneg h in
        ground (arith, found, +ℤ_parts s.progress.idx (pos 1))

    round_of-Yields :
        (s : ThreadState) (t : Tick)
        → 0 < cfg.exec_horizon
        → HasRow t.predicts
        → IsScheduled s.progress
        → Yields index_error Scheduled (round_of np cfg joints fk row_to_joint_target workspace s t)
    unfolding round_of
    round_of-Yields s t exec h sch =
        Yields->>= index_error Inside Scheduled (swap np cfg s.progress t) _
          (Yields-intro index_error Inside _ (λ p e. swap-IsScheduled s.progress t exec h sch e)
            (swap_fault s.progress t))
          λ p inside.
            Yields->>= index_error Inside Scheduled (lead np cfg p t) _
              (Yields-intro index_error Inside _ (λ q e. lead-IsScheduled p t inside.0 inside.1 e)
                (lead_fault p t))
              λ q (sched, high).
                Yields->>= index_error Scheduled Scheduled _ _
                  (execute_index (record s { progress = q }) t sched high)
                  λ s' done. paced-IsScheduled s'.progress t done

    -- With an execution horizon of at least one and chunks that are never empty, the policy thread finds
    -- a row at every tick: it never ends in an `IndexError`, the index stays at or above zero, and fewer
    -- predictions are late than chunks were taken.
    pub rounds-IsScheduled :
        (s : ThreadState) (ts : List Tick)
        → 0 < cfg.exec_horizon
        → IsScheduled s.progress
        → All (λ t. HasRow t.predicts) ts
        → IsScheduled (rounds np cfg joints fk row_to_joint_target workspace s ts).0.progress
          × ((rounds np cfg joints fk row_to_joint_target workspace s ts).1 ≢ some index_error)
    unfolding rounds
    rounds-IsScheduled s [] exec sch h = (sch, λ e. cc)
    rounds-IsScheduled s (t ∷ ts) exec sch h =
        let y = round_of-Yields s t exec h.0 sch in
        elim (Result-split (round_of np cfg joints fk row_to_joint_target workspace s t)) [
          | inl (s', e) ↦ rw (e, rounds) (rounds-IsScheduled s' ts exec (rw e at y) h.1)
          | inr (f, e) ↦
              let other : f ≢ index_error = rw e at y in rw (e, rounds) (sch, λ same. other cc)
        ]

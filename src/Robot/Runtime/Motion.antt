-- ===== src/Robot/Runtime/Motion.antt =====
-- What a runtime sends to the robot over any interleaving of its thread with the calls of its user.
use franka_deploy.Common.{
  ◌≡◌, refl, sym, Bool, true, false, List, [], ◌∷◌, ◌-ℤ◌, Vec, Numpy, IsNumpy, ◌within◌,
}
use franka_deploy.Safety.Limits.{Joint}
use franka_deploy.Robot.ReferenceFilter
use franka_deploy.Robot.ReferenceFilter.{JerkLimitedReferenceFilter}
use franka_deploy.Robot.ReferenceFilter.Bounds.{
  IsConfigured, IsBounded, step-IsBounded, run-IsBounded, reset-IsConfigured,
}
use franka_deploy.Robot.Runtime.{Phase, fresh, tracking, over, JointPositions, Fr3Runtime}

-- Newest first: two successive commands differ by at most the reach of a cycle, and only the last one
-- may be marked as finished.
abbrev pub IsSmooth : Vec Joint → List JointPositions → Type 0
IsSmooth reach [] = Unit
IsSmooth reach (w ∷ []) = Unit
IsSmooth reach (w ∷ v ∷ ws) =
    ((j : Joint) → (w.position j -ℤ v.position j) within reach j)
    × (v.motion_finished ≡ false)
    × IsSmooth reach (v ∷ ws)

-- A thread in its loop has sent the filter's position, and marked it only after a stop.
abbrev pub Heads : List JointPositions → Vec Joint → Bool → Type 0
Heads [] q_cmd stop_evt = ⊥
Heads (w ∷ ws) q_cmd stop_evt = (w.position ≡ q_cmd) × (w.motion_finished ≡ true → stop_evt ≡ true)

abbrev pub Ends : Phase → List JointPositions → Vec Joint → Bool → Type 0
Ends fresh written q_cmd stop_evt = written ≡ []
Ends tracking written q_cmd stop_evt = Heads written q_cmd stop_evt
Ends over written q_cmd stop_evt = Unit

push-IsSmooth :
    (reach : Vec Joint) (ws : List JointPositions) (q q' : Vec Joint) (finished : Bool)
    → Heads ws q false
    → IsSmooth reach ws
    → ((j : Joint) → (q' j -ℤ q j) within reach j)
    → IsSmooth reach (record { position = q'; motion_finished = finished } ∷ ws)
push-IsSmooth reach [] q q' finished h s step = tt
push-IsSmooth reach (w ∷ ws) q q' finished (same, marked) s step =
    (λ j. rw same (step j), unmarked w.motion_finished marked, s)
  where
    unmarked : (b : Bool) → (b ≡ true → false ≡ true) → b ≡ false
    unmarked true h = sym (h refl)
    unmarked false h = refl

stopped-Ends :
    (p : Phase) (ws : List JointPositions) (q : Vec Joint) (b : Bool)
    → Ends p ws q b
    → Ends p ws q true
stopped-Ends fresh ws q b h = h
stopped-Ends tracking [] q b h = h
stopped-Ends tracking (w ∷ ws) q b h = (h.0, λ _. refl)
stopped-Ends over ws q b h = tt

-- A filter after a reset is bounded.
reset-IsBounded :
    (np : Numpy) (laws : IsNumpy np) (f : JerkLimitedReferenceFilter Joint) (q0 : Vec Joint)
    → IsConfigured np laws f
    → IsBounded np laws (ReferenceFilter.reset np f q0)
reset-IsBounded np laws f q0 c = unfold ReferenceFilter.run in run-IsBounded np laws f q0 [] c

module _ (np : Numpy) (laws : IsNumpy np) (reach : Vec Joint) (mode : Bool) where
  pub record Tracks (f : JerkLimitedReferenceFilter Joint) (ws : List JointPositions)
      (read_only : Bool) (p : Phase) (stop_evt : Bool) : Type 0 where
    pub configured : IsConfigured np laws f
    pub bounded : IsBounded np laws f
    pub reaches : (j : Joint) → np.mul (f.v_max j) f.dt ≡ reach j
    pub smooth : IsSmooth reach ws
    pub ends : Ends p ws f.q_cmd stop_evt
    pub same_mode : read_only ≡ mode
    pub silent : read_only ≡ true → ws ≡ []

  abbrev pub IsTracked : Fr3Runtime → Type 0
  IsTracked s = Tracks s.filter s.written s.read_only s.phase s.stop_evt

  module _ (f : JerkLimitedReferenceFilter Joint) (ws : List JointPositions) (ro : Bool) (p : Phase)
      (b : Bool) (h : Tracks f ws ro p b) where
    pub Tracks-over : (b' : Bool) → Tracks f ws ro over b'
    Tracks-over b' = record {
      configured = h.configured;
      bounded = h.bounded;
      reaches = h.reaches;
      smooth = h.smooth;
      ends = tt;
      same_mode = h.same_mode;
      silent = h.silent;
    }

    pub Tracks-stopped : Tracks f ws ro p true
    Tracks-stopped = record {
      configured = h.configured;
      bounded = h.bounded;
      reaches = h.reaches;
      smooth = h.smooth;
      ends = stopped-Ends p ws f.q_cmd b h.ends;
      same_mode = h.same_mode;
      silent = h.silent;
    }

    pub Tracks-marked : (b' : Bool) → b ≡ false → Tracks f ws ro p b'
    Tracks-marked true off = Tracks-stopped
    Tracks-marked false off = rw off at h

    pub Tracks-reset :
        (q0 : Vec Joint)
        → ws ≡ []
        → ro ≡ false
        → (b' : Bool)
        → Tracks
            (ReferenceFilter.reset np f q0)
            (record { position = q0; motion_finished = false } ∷ ws)
            ro
            tracking
            b'
    unfolding ReferenceFilter.reset
    Tracks-reset q0 none_sent moving b' = record {
      configured = reset-IsConfigured np laws f q0 h.configured;
      bounded = reset-IsBounded np laws f q0 h.configured;
      reaches = h.reaches;
      smooth = rw none_sent tt;
      ends = (refl, λ e. cc);
      same_mode = h.same_mode;
      silent = λ e. cc;
    }

    pub Tracks-step :
        (target : Vec Joint)
        → Heads ws f.q_cmd false
        → ro ≡ false
        → (fin : Bool)
        → Tracks
            (ReferenceFilter.step np f target)
            (record { position = (ReferenceFilter.step np f target).q_cmd; motion_finished = fin }
              ∷ ws)
            ro
            tracking
            fin
    Tracks-step target heads moving fin =
        let (configured, bounded, moved) = step-IsBounded np laws f target h.configured h.bounded in
        record {
          configured = configured;
          bounded = bounded;
          reaches = unfold ReferenceFilter.step in h.reaches;
          smooth =
              push-IsSmooth reach ws f.q_cmd (ReferenceFilter.step np f target).q_cmd fin heads
                h.smooth λ j. rw (← h.reaches j) (moved j);
          ends = (refl, λ e. e);
          same_mode = h.same_mode;
          silent = λ e. cc;
        }

    -- A step whose command is not written.
    pub Tracks-lost :
        (target : Vec Joint) (b' : Bool) → Tracks (ReferenceFilter.step np f target) ws ro over b'
    Tracks-lost target b' =
        let (configured, bounded, moved) = step-IsBounded np laws f target h.configured h.bounded in
        record {
          configured = configured;
          bounded = bounded;
          reaches = unfold ReferenceFilter.step in h.reaches;
          smooth = h.smooth;
          ends = tt;
          same_mode = h.same_mode;
          silent = h.silent;
        }

    pub Tracks-unlatched :
        (q0 : Vec Joint) (b' : Bool) → Tracks (ReferenceFilter.reset np f q0) ws ro over b'
    unfolding ReferenceFilter.reset
    Tracks-unlatched q0 b' = record {
      configured = reset-IsConfigured np laws f q0 h.configured;
      bounded = reset-IsBounded np laws f q0 h.configured;
      reaches = h.reaches;
      smooth = h.smooth;
      ends = tt;
      same_mode = h.same_mode;
      silent = h.silent;
    }

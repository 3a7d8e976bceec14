-- ===== src/Safety/Watchdog/Debounce.antt =====
-- How many ticks the watchdog needs before it trips.
use franka_deploy.Common.{
  ℕ, suc, ◌+◌, ◌-◌, ◌<◌, ◌≤◌, ◌≡◌, refl, arith, false, List, [], ◌∷◌, ◌++◌, Vec, Numpy, length, All,
  length-append, length-drop, min,
}
use franka_deploy.Safety.Watchdog.{OscillationWatchdog, push, reset, update, answers}

module _ {A : Type 0} where
  pub length-push :
      (window : ℕ) (xs : List A) (x : A) → length (push window xs x) ≡ min (length xs + 1) window
  unfolding push
  length-push window xs x = omega (
    arith,
    length-drop (length (xs ++ x ∷ []) - window) (xs ++ x ∷ []),
    length-append xs (x ∷ []),
  )

module _ (np : Numpy) {D : Type 0} (dims : List D) where
  -- The window is as long as the ticks since the reset allow, and each tripped window counts once.
  record Counted (window trips seen : ℕ) (w : OscillationWatchdog D) : Type 0 where
    window_eq : w.window_size ≡ window
    trips_eq : w.trip_count_threshold ≡ trips
    filled : length w.history ≡ min seen window
    counted : w.consecutive_trips ≤ seen + 1 - window

  update-Counted :
      (window trips seen : ℕ) (w : OscillationWatchdog D) (dq : Vec D)
      → Counted window trips seen w
      → Counted window trips (suc seen) (update np dims w dq).0
        × (seen + 2 < window + trips → (update np dims w dq).1 ≡ false)
  unfolding update
  update-Counted window trips seen w dq c = ground (arith, length-push w.window_size w.history dq)

  answers-Counted :
      (window trips seen : ℕ) (w : OscillationWatchdog D) (dqs : List (Vec D))
      → Counted window trips seen w
      → seen + length dqs + 1 < window + trips
      → All (λ b. b ≡ false) (answers np dims w dqs)
  unfolding answers
  answers-Counted window trips seen w [] c h = tt
  answers-Counted window trips seen w (dq ∷ dqs) c h =
      let (next, silent) = update-Counted window trips seen w dq c in
      (
        silent (omega arith),
        answers-Counted window trips (suc seen) (update np dims w dq).0 dqs next (omega arith),
      )

  -- Whatever the velocities are, the watchdog does not trip in the first
  -- `window_size + trip_count_threshold - 2` ticks after a reset.
  pub answers-reset_early :
      (w : OscillationWatchdog D) (dqs : List (Vec D))
      → length dqs + 1 < w.window_size + w.trip_count_threshold
      → All (λ b. b ≡ false) (answers np dims (reset np dims w) dqs)
  unfolding reset
  answers-reset_early w dqs h =
      answers-Counted w.window_size w.trip_count_threshold 0 (reset np dims w) dqs
        (record { window_eq = refl; trips_eq = refl; filled = omega arith; counted = omega arith })
        (omega arith)

-- ===== src/Safety/Watchdog/Quiet.antt =====
-- The watchdog on motion that is not an oscillation.
use franka_deploy.Common.{
  ℕ, suc, ◌<◌, ◌≡◌, refl, arith, Bool, false, inl, inr, List, [], ◌∷◌, ltb, Float, Vec, nought, abs,
  ◌≤ℤ◌, Numpy, IsNumpy, length, drop, All, All-append, Bool-cases,
}
use franka_deploy.Safety.Watchdog.{
  OscillationWatchdog, any, sign_change, both_moving, count_pairs, push, reset, ratio, oscillates,
  update, answers,
}

-- How a joint behaves over a time: it rests inside the dead zone, or moves one way.
pub data Mode : Type 0 where
  resting forward backward : Mode

abbrev pub Follows : Float → Mode → Float → Type 0
Follows deadzone resting v = abs v ≤ℤ deadzone
Follows deadzone forward v = nought ≤ℤ v
Follows deadzone backward v = v ≤ℤ nought

Follows-sign_change :
    (deadzone : Float) (m : Mode) (u v : Float)
    → Follows deadzone m u
    → Follows deadzone m v
    → sign_change deadzone u v ≡ false
unfolding sign_change both_moving
Follows-sign_change deadzone resting u v p q = ground arith
Follows-sign_change deadzone forward u v p q = ground arith
Follows-sign_change deadzone backward u v p q = ground arith

module _ {A : Type 0} where
  All-drop : (P : A → Type 0) (n : ℕ) (xs : List A) → All P xs → All P (drop n xs)
  All-drop P ℕ.zero xs h = h
  All-drop P (suc n) [] h = h
  All-drop P (suc n) (x ∷ xs) h = All-drop P n xs h.1

  push-All : (P : A → Type 0) (n : ℕ) (xs : List A) (x : A) → All P xs → P x → All P (push n xs x)
  unfolding push
  push-All P n xs x h p = All-drop P _ _ (All-append P xs (x ∷ []) h (p, tt))

  count_pairs-eq-zero :
      (P : A → Type 0) (test : A → A → Bool)
      → ((x y : A) → P x → P y → test x y ≡ false)
      → (xs : List A) → All P xs
      → count_pairs test xs ≡ 0
  unfolding count_pairs
  count_pairs-eq-zero P test never [] h = refl
  count_pairs-eq-zero P test never (x ∷ []) h = refl
  count_pairs-eq-zero P test never (x ∷ y ∷ rest) h =
      ground (arith, never x y h.0 h.1.0, count_pairs-eq-zero P test never (y ∷ rest) h.1)

any-eq-false :
    {D : Type 0} (p : D → Bool) (ds : List D) → ((d : D) → p d ≡ false) → any p ds ≡ false
any-eq-false p [] h = refl
any-eq-false p (d ∷ ds) h = ground (arith, h d, any-eq-false p ds h)

module _ (np : Numpy) (laws : IsNumpy np) {D : Type 0} (dims : List D) (mode : D → Mode) where
  abbrev pub Calm : Float → Vec D → Type 0
  Calm deadzone v = (d : D) → Follows deadzone (mode d) (v d)

  ratio-Calm :
      (deadzone : Float) (h : List (Vec D)) (d : D)
      → All (Calm deadzone) h
      → ratio np dims deadzone h d ≡ nought
  unfolding ratio
  ratio-Calm deadzone h d c =
      let none_changes : count_pairs (λ (u v : Vec D). sign_change deadzone (u d) (v d)) h ≡ 0 =
        count_pairs-eq-zero (Calm deadzone) _
          (λ u v p q. Follows-sign_change deadzone (mode d) (u d) (v d) (p d) (q d)) h c in
      rw (none_changes, laws.of_ℕ-zero, laws.div-nought) (ground arith)

  oscillates-Calm :
      (w : OscillationWatchdog D) (h : List (Vec D))
      → nought ≤ℤ w.threshold
      → All (Calm w.velocity_deadzone) h
      → oscillates np dims w h ≡ false
  unfolding oscillates
  oscillates-Calm w h t c =
      any-eq-false _ dims λ d. rw (ratio-Calm w.velocity_deadzone h d c) (ground arith)

  record Rests (deadzone : Float) (w : OscillationWatchdog D) : Type 0 where
    threshold_nonneg : nought ≤ℤ w.threshold
    trips_pos : 0 < w.trip_count_threshold
    deadzone_eq : w.velocity_deadzone ≡ deadzone
    calm : All (Calm deadzone) w.history

  update-Rests :
      (deadzone : Float) (w : OscillationWatchdog D) (dq : Vec D)
      → Rests deadzone w
      → Calm deadzone dq
      → Rests deadzone (update np dims w dq).0 × ((update np dims w dq).1 ≡ false)
  unfolding update
  update-Rests deadzone w dq r c =
      let next = push-All (Calm deadzone) w.window_size w.history dq r.calm c in
      let quiet : oscillates np dims w (push w.window_size w.history dq) ≡ false =
        oscillates-Calm w _ r.threshold_nonneg (rw r.deadzone_eq next) in
      elim (Bool-cases (ltb (length (push w.window_size w.history dq)) w.window_size)) [
        | inl e ↦ rw e (
          record {
            threshold_nonneg = r.threshold_nonneg;
            trips_pos = r.trips_pos;
            deadzone_eq = r.deadzone_eq;
            calm = next;
          },
          refl,
        )
        | inr e ↦
            rw (e, quiet)
              (
                record {
                  threshold_nonneg = r.threshold_nonneg;
                  trips_pos = r.trips_pos;
                  deadzone_eq = r.deadzone_eq;
                  calm = next;
                },
                ground (arith, r.trips_pos),
              )
      ]

  answers-Rests :
      (deadzone : Float) (w : OscillationWatchdog D) (dqs : List (Vec D))
      → Rests deadzone w
      → All (Calm deadzone) dqs
      → All (λ b. b ≡ false) (answers np dims w dqs)
  unfolding answers
  answers-Rests deadzone w [] r c = tt
  answers-Rests deadzone w (dq ∷ dqs) r c =
      let (next, silent) = update-Rests deadzone w dq r c.0 in
      (silent, answers-Rests deadzone (update np dims w dq).0 dqs next c.1)

  -- After a reset the watchdog never trips on ticks in which each joint either stays in the dead zone
  -- or never changes direction, however long they go on.
  pub answers-reset_quiet :
      (w : OscillationWatchdog D) (dqs : List (Vec D))
      → nought ≤ℤ w.threshold
      → 0 < w.trip_count_threshold
      → All (Calm w.velocity_deadzone) dqs
      → All (λ b. b ≡ false) (answers np dims (reset np dims w) dqs)
  unfolding reset
  answers-reset_quiet w dqs t k c =
      answers-Rests w.velocity_deadzone (reset np dims w) dqs
        (record { threshold_nonneg = t; trips_pos = k; deadzone_eq = refl; calm = tt }) c

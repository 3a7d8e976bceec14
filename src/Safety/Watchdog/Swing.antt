-- ===== src/Safety/Watchdog/Swing.antt =====
-- How soon the watchdog trips on a joint that swings to and fro.
use mathlib.Core.List.{Memᴰ, append_assoc}
use franka_deploy.Common.{
  ℕ, zero, suc, ◌+◌, ◌-◌, ◌<◌, ◌≤◌, ◌≡◌, refl, sym, ap, arith, Bool, true, inl, inr, List, [], ◌∷◌,
  ◌++◌, ltb, leb, Float, Vec, ◌<ℤ◌, Numpy, IsNumpy, length, drop, Bool-cases, min, ◌∙◌,
}
use franka_deploy.Safety.Watchdog.{
  OscillationWatchdog, any, sign_change, both_moving, count_pairs, push, reset, ratio, oscillates,
  update, feed,
}
use franka_deploy.Safety.Watchdog.Debounce.{length-push}

module _ {A : Type 0} (test : A → A → Bool) where
  -- Every two adjacent elements pass the test.
  abbrev pub Alternates : List A → Type 0
  Alternates [] = Unit
  Alternates (x ∷ []) = Unit
  Alternates (x ∷ y ∷ rest) = (test x y ≡ true) × Alternates (y ∷ rest)

  Alternates-tail : (x : A) (xs : List A) → Alternates (x ∷ xs) → Alternates xs
  Alternates-tail x [] h = tt
  Alternates-tail x (y ∷ rest) h = h.1

  Alternates-drop : (n : ℕ) (xs ys : List A) → Alternates (xs ++ ys) → Alternates (drop n xs ++ ys)
  Alternates-drop zero xs ys h = h
  Alternates-drop (suc n) [] ys h = h
  Alternates-drop (suc n) (x ∷ xs) ys h = Alternates-drop n xs ys (Alternates-tail x (xs ++ ys) h)

  Alternates-push :
      (window : ℕ) (xs : List A) (x : A) (ys : List A)
      → Alternates (xs ++ x ∷ ys)
      → Alternates (push window xs x ++ ys)
  unfolding push
  Alternates-push window xs x ys h =
      Alternates-drop _ (xs ++ x ∷ []) ys (rw (append_assoc xs (x ∷ []) ys) h)

  Alternates-prefix : (xs ys : List A) → Alternates (xs ++ ys) → Alternates xs
  Alternates-prefix [] ys h = tt
  Alternates-prefix (x ∷ []) ys h = tt
  Alternates-prefix (x ∷ y ∷ rest) ys h = (h.0, Alternates-prefix (y ∷ rest) ys h.1)

  count_pairs-Alternates : (xs : List A) → Alternates xs → count_pairs test xs ≡ length xs - 1
  unfolding count_pairs
  count_pairs-Alternates [] h = refl
  count_pairs-Alternates (x ∷ []) h = refl
  count_pairs-Alternates (x ∷ y ∷ rest) h =
      ground (arith, h.0, count_pairs-Alternates (y ∷ rest) h.1)

  Alternates-mono :
      (weaker : A → A → Bool)
      → ((x y : A) → test x y ≡ true → weaker x y ≡ true)
      → (xs : List A) → Alternates xs
      → count_pairs weaker xs ≡ length xs - 1
  unfolding count_pairs
  Alternates-mono weaker w [] h = refl
  Alternates-mono weaker w (x ∷ []) h = refl
  Alternates-mono weaker w (x ∷ y ∷ rest) h =
      ground (arith, w x y h.0, Alternates-mono weaker w (y ∷ rest) h.1)

any_of_Memᴰ :
    {D : Type 0} (p : D → Bool) (d : D) (ds : List D) → Memᴰ d ds → p d ≡ true → any p ds ≡ true
any_of_Memᴰ p d ds (Memᴰ.head {x = x} e) h = rw (sym (ap p e), h)
any_of_Memᴰ p d ds (Memᴰ.tail {x = x} {xs = xs} m) h = ground (arith, any_of_Memᴰ p d xs m h)

sign_change-both_moving :
    (deadzone a b : Float) → sign_change deadzone a b ≡ true → both_moving deadzone a b ≡ true
unfolding sign_change
sign_change-both_moving deadzone a b h = ground arith

module _ (np : Numpy) (laws : IsNumpy np) {D : Type 0} (dims : List D) (d : D) where
  -- Adjacent samples of the joint are both outside the dead zone and of opposite sign.
  abbrev pub Swings : Float → List (Vec D) → Type 0
  Swings deadzone = Alternates (λ (u v : Vec D). sign_change deadzone (u d) (v d))

  ratio-Swings :
      (deadzone : Float) (h : List (Vec D))
      → Swings deadzone h
      → 1 < length h
      → ratio np dims deadzone h d ≡ np.lit 1 0
  unfolding ratio
  ratio-Swings deadzone h s l =
      let changes = count_pairs-Alternates _ h s in
      let moving =
        Alternates-mono _ (λ (u v : Vec D). both_moving deadzone (u d) (v d))
          (λ u v. sign_change-both_moving deadzone (u d) (v d)) h s in
      rw (changes, moving, laws.div_self (np.of_ℕ (length h - 1)) (laws.of_ℕ_pos _ (omega arith)))
        (ground arith)

  oscillates-Swings :
      (w : OscillationWatchdog D) (h : List (Vec D))
      → Memᴰ d dims
      → w.threshold <ℤ np.lit 1 0
      → Swings w.velocity_deadzone h
      → 1 < length h
      → oscillates np dims w h ≡ true
  unfolding oscillates
  oscillates-Swings w h m t s l =
      any_of_Memᴰ _ d dims m (rw (ratio-Swings w.velocity_deadzone h s l) (ground arith))

  -- The state after `seen` ticks since the reset, with the ticks still to come.
  record Swinging (window trips : ℕ) (deadzone : Float) (seen : ℕ) (w : OscillationWatchdog D)
      (dqs : List (Vec D)) : Type 0 where
    window_eq : w.window_size ≡ window
    trips_eq : w.trip_count_threshold ≡ trips
    deadzone_eq : w.velocity_deadzone ≡ deadzone
    below_one : w.threshold <ℤ np.lit 1 0
    filled : length w.history ≡ min seen window
    counted : w.consecutive_trips ≡ seen + 1 - window
    swings : Swings deadzone (w.history ++ dqs)

  module _ (window trips : ℕ) (deadzone : Float) (m : Memᴰ d dims) (wide : 1 < window)
      (some_trips : 0 < trips) where
    update-Swinging :
        (seen : ℕ) (w : OscillationWatchdog D) (dq : Vec D) (dqs : List (Vec D))
        → Swinging window trips deadzone seen w (dq ∷ dqs)
        → Swinging window trips deadzone (suc seen) (update np dims w dq).0 dqs
          × ((update np dims w dq).1 ≡ leb trips (seen + 2 - window))
    unfolding update
    update-Swinging seen w dq dqs s =
        let h = push w.window_size w.history dq in
        let after : Swings deadzone (h ++ dqs) =
          Alternates-push _ w.window_size w.history dq dqs s.swings in
        let size : length h ≡ min (suc seen) window =
          omega (arith, length-push w.window_size w.history dq, s.filled, s.window_eq) in
        let swung = Alternates-prefix _ h dqs after in
        elim (Bool-cases (ltb (length h) w.window_size)) [
          | inl e ↦
              let short : length h < window = ground (arith, s.window_eq) in
              rw e (
                record {
                  window_eq = s.window_eq;
                  trips_eq = s.trips_eq;
                  deadzone_eq = s.deadzone_eq;
                  below_one = s.below_one;
                  filled = size;
                  counted = omega (arith, s.counted);
                  swings = after;
                },
                ground arith,
              )
          | inr e ↦
              let full : window ≤ length h = ground (arith, s.window_eq) in
              let long : 1 < length h = omega arith in
              let trip : oscillates np dims w h ≡ true =
                oscillates-Swings w h m s.below_one (rw s.deadzone_eq swung) long in
              rw (e, trip)
                (
                  record {
                    window_eq = s.window_eq;
                    trips_eq = s.trips_eq;
                    deadzone_eq = s.deadzone_eq;
                    below_one = s.below_one;
                    filled = size;
                    counted = omega (arith, s.counted);
                    swings = after;
                  },
                  ground (arith, s.counted, s.trips_eq),
                )
        ]

    feed-Swinging :
        (seen : ℕ) (w : OscillationWatchdog D) (dqs : List (Vec D)) (last : Vec D)
        → Swinging window trips deadzone seen w (dqs ++ last ∷ [])
        → (update np dims (feed np dims w dqs) last).1 ≡ leb trips (seen + length dqs + 2 - window)
    unfolding feed
    feed-Swinging seen w [] last s = (update-Swinging seen w last [] s).1 ∙ ground arith
    feed-Swinging seen w (dq ∷ dqs) last s =
        feed-Swinging (suc seen) (update np dims w dq).0 dqs last
          (update-Swinging seen w dq (dqs ++ last ∷ []) s).0
        ∙ ground arith

  -- If a watched joint swings at every tick since the reset, the watchdog trips at a tick exactly when
  -- at least `window_size + trip_count_threshold - 1` ticks have been seen: a window longer than one,
  -- a trip count of at least one, and a threshold below one are given.
  pub update-reset_swing :
      (w : OscillationWatchdog D) (dqs : List (Vec D)) (last : Vec D)
      → Memᴰ d dims
      → 1 < w.window_size
      → 0 < w.trip_count_threshold
      → w.threshold <ℤ np.lit 1 0
      → Swings w.velocity_deadzone (dqs ++ last ∷ [])
      → (update np dims (feed np dims (reset np dims w) dqs) last).1
        ≡ leb (w.window_size + w.trip_count_threshold) (length dqs + 2)
  unfolding reset
  update-reset_swing w dqs last m wide k t s =
      feed-Swinging w.window_size w.trip_count_threshold w.velocity_deadzone m wide k 0
        (reset np dims w) dqs last
        (record {
          window_eq = refl;
          trips_eq = refl;
          deadzone_eq = refl;
          below_one = t;
          filled = omega arith;
          counted = omega arith;
          swings = s;
        })
      ∙ ground arith

-- ===== src/Safety/Watchdog.antt =====
-- franka_deploy/safety/watchdog.py: the watchdog on measured joint velocities.
pub mod Quiet
pub mod Debounce
pub mod Swing
use franka_deploy.Common.{
  ℕ, suc, ◌+◌, ◌-◌, ◌≡◌, Bool, true, false, ◌&&◌, ◌||◌, List, [], ◌∷◌, ◌++◌, ltb, leb, ltb_ℤ, Float,
  Vec, nought, abs, Numpy, if◌then◌else◌, length, drop,
}

-- The window holds one vector of velocities for each tick, the oldest first.
pub record OscillationWatchdog (D : Type 0) : Type 0 where
  pub window_size : ℕ
  pub threshold : Float
  pub trip_count_threshold : ℕ
  pub velocity_deadzone : Float
  pub history : List (Vec D)
  pub consecutive_trips : ℕ

-- `np.sign`, and the product of two signs.
pub data Sign : Type 0 where
  minus zero_sign plus : Sign

abbrev pub sign : Float → Sign
sign a = if ltb_ℤ a nought then minus else if ltb_ℤ nought a then plus else zero_sign

abbrev pub times : Sign → Sign → Sign
times minus minus = plus
times minus zero_sign = zero_sign
times minus plus = minus
times zero_sign _ = zero_sign
times plus b = b

abbrev pub is_minus : Sign → Bool
is_minus minus = true
is_minus _ = false

unfoldable pub both_moving : Float → Float → Float → Bool
both_moving deadzone a b = ltb_ℤ deadzone (abs a) && ltb_ℤ deadzone (abs b)

unfoldable pub sign_change : Float → Float → Float → Bool
sign_change deadzone a b = both_moving deadzone a b && is_minus (times (sign a) (sign b))

abbrev pub any : {D : Type 0} → (D → Bool) → List D → Bool
any p [] = false
any p (d ∷ ds) = p d || any p ds

-- How many adjacent samples pass the test.
unfoldable pub count_pairs {ℓ} : {A : Type ℓ} → (A → A → Bool) → List A → ℕ
count_pairs test [] = 0
count_pairs test (a ∷ []) = 0
count_pairs test (a ∷ b ∷ rest) = (if test a b then 1 else 0) + count_pairs test (b ∷ rest)

-- A deque with `maxlen = window`: an append drops what no longer fits from the front.
unfoldable pub push {ℓ} : {A : Type ℓ} → ℕ → List A → A → List A
push window history v = let grown = history ++ (v ∷ []) in drop (length grown - window) grown

module _ (np : Numpy) {D : Type 0} (dims : List D) where
  open np use {div, of_ℕ}

  unfoldable pub reset : OscillationWatchdog D → OscillationWatchdog D
  reset w = record w { history = []; consecutive_trips = 0 }

  unfoldable pub ratio : Float → List (Vec D) → D → Float
  ratio deadzone history d =
      let sign_changes = count_pairs (λ (u v : Vec D). sign_change deadzone (u d) (v d)) history in
      let valid_pairs = count_pairs (λ (u v : Vec D). both_moving deadzone (u d) (v d)) history in
      if ltb 0 valid_pairs then div (of_ℕ sign_changes) (of_ℕ valid_pairs) else nought

  unfoldable pub oscillates : OscillationWatchdog D → List (Vec D) → Bool
  oscillates w history = any (λ d. ltb_ℤ w.threshold (ratio w.velocity_deadzone history d)) dims

  -- The new state, and whether the watchdog trips.
  unfoldable pub update : OscillationWatchdog D → Vec D → OscillationWatchdog D × Bool
  update w dq =
      let history = push w.window_size w.history dq in
      let trips = if oscillates w history then w.consecutive_trips + 1 else 0 in
      if ltb (length history) w.window_size then (record w { history = history }, false) else (
        record w { history = history; consecutive_trips = trips },
        leb w.trip_count_threshold trips,
      )

  -- The state after a sequence of ticks, and the answer at each tick.
  unfoldable pub feed : OscillationWatchdog D → List (Vec D) → OscillationWatchdog D
  feed w [] = w
  feed w (dq ∷ dqs) = feed (update w dq).0 dqs

  unfoldable pub answers : OscillationWatchdog D → List (Vec D) → List Bool
  answers w [] = []
  answers w (dq ∷ dqs) = let (w', tripped) = update w dq in tripped ∷ answers w' dqs

-- ===== src/Robot/Gripper/Commands.antt =====
-- The order and the spacing of the gripper's commands.
use franka_deploy.Common.{
  ◌≡◌, refl, arith, Bool, true, false, not, Option, none, some, List, [], ◌∷◌, ◌-ℤ◌, ◌≤ℤ◌, ◌<ℤ◌,
  Float, if◌then◌else◌, Bool-cases, inl, inr, ◌⊎◌, ltb_ℤ→ge,
}
use franka_deploy.Robot.Gripper.{
  Command, grasp, move, GripperHysteresis, decide, dwells, commands, make,
}

abbrev pub Apart : Float → Option Float → Float → Type 0
Apart dwell none now = Unit
Apart dwell (some last) now = dwell ≤ℤ now -ℤ last

abbrev pub next_command : Bool → Command
next_command false = grasp
next_command true = move

-- The commands alternate, and each comes at least the dwell time after the one before.
abbrev pub IsPaced : Float → Option Float → Bool → List (Command × Float) → Type 0
IsPaced dwell last closed [] = Unit
IsPaced dwell last closed ((c, now) ∷ rest) =
    (c ≡ next_command closed) × Apart dwell last now × IsPaced dwell (some now) (not closed) rest

dwells-Apart :
    (now : Float) (last : Option Float) (dwell : Float)
    → dwells now last dwell ≡ false
    → Apart dwell last now
dwells-Apart now none dwell h = tt
dwells-Apart now (some last) dwell h = ltb_ℤ→ge (now -ℤ last) dwell h

-- Past the threshold that the state waits for.
abbrev pub Crosses : GripperHysteresis → Float → Type 0
Crosses g trigger = if g.closed then trigger ≤ℤ g.open_at else (g.close_at ≤ℤ trigger)

-- One decision holds the state, or sends the command that is due.
pub decide_cases :
    (g : GripperHysteresis) (trigger now : Float)
    → (decide g trigger now ≡ (g, none))
      ⊎ ((decide g trigger now ≡ (
        record g { closed = not g.closed; last_change_t = some now },
        some (next_command g.closed),
      ))
          × (dwells now g.last_change_t g.min_dwell_s ≡ false)
          × Crosses g trigger)
unfolding decide
decide_cases g trigger now = elim (Bool-cases g.closed) [
  | inl e ↦ rw e (ground arith)
  | inr e ↦ rw e (ground arith)
]

commands-IsPaced_from :
    (g : GripperHysteresis) (polls : List (Float × Float))
    → IsPaced g.min_dwell_s g.last_change_t g.closed (commands g polls)
unfolding commands
commands-IsPaced_from g [] = tt
commands-IsPaced_from g ((trigger, now) ∷ polls) = elim (decide_cases g trigger now) [
  | inl held ↦ rw held (commands-IsPaced_from g polls)
  | inr (sent, waited, _) ↦ rw sent (
    refl,
    dwells-Apart now g.last_change_t g.min_dwell_s waited,
    commands-IsPaced_from (record g { closed = not g.closed; last_change_t = some now }) polls,
  )
]

IsPaced-cong :
    {a a' : Float} {b b' : Option Float} {c c' : Bool} (xs : List (Command × Float))
    → a ≡ a'
    → b ≡ b'
    → c ≡ c'
    → IsPaced a b c xs
    → IsPaced a' b' c' xs
IsPaced-cong xs p q r h = rw (← p, ← q, ← r) h

make_lem :
    (close_at open_at dwell : Float) {g : GripperHysteresis}
    → make close_at open_at dwell ≡ some g
    → (g.open_at <ℤ g.close_at)
      × (g.closed ≡ false)
      × (g.last_change_t ≡ none)
      × (g.min_dwell_s ≡ dwell)
unfolding make
make_lem close_at open_at dwell e = ground arith

-- From a new hysteresis on, the commands alternate, a grasp first, and two in a row are at least the
-- dwell time apart, whatever the triggers and the times are.
pub commands-IsPaced :
    (close_at open_at dwell : Float) (polls : List (Float × Float)) {g : GripperHysteresis}
    → make close_at open_at dwell ≡ some g
    → IsPaced dwell none false (commands g polls)
commands-IsPaced close_at open_at dwell polls {g} e =
    let (_, fresh, never, dwell_eq) = make_lem close_at open_at dwell e in
    IsPaced-cong (commands g polls) dwell_eq never fresh (commands-IsPaced_from g polls)

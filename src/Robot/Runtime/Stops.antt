-- ===== src/Robot/Runtime/Stops.antt =====
-- A stop ends the thread for good.
use franka_deploy.Common.{
  ◌≡◌, refl, Bool, true, false, not, ◌&&◌, ◌||◌, Option, none, some, List, [], ◌∷◌, Float, Vec,
  nought, Numpy, Result, ok, err, if◌then◌else◌, inl, inr, if-split, ◌∙◌, ◌⊎◌,
}
use franka_deploy.Safety.Limits.{Joint}
use franka_deploy.Robot.Runtime.{
  RobotReading, RuntimeException, Phase, fresh, tracking, over, Fr3Runtime, Turn, is_none,
  set_joint_target, read_only_turn, start_reads, start_control, control_turn, is_stale, close_to,
  StateDict, get_state, turn_in, turn, turns,
}
use franka_deploy.Robot.Runtime.Calls.{polled, await, then_await, movej, slow_down, stop}
use franka_deploy.Robot.Runtime.Sessions.{
  Event, thread_turns, targets, moves, stops, happens, session,
}

-- The thread is over, or will be at its next turn.
abbrev Winding : Fr3Runtime → Type 0
Winding s = (s.phase ≡ over) ⊎ ((s.phase ≡ tracking) × (s.stop_evt ≡ true))

module _ (np : Numpy) where
  start_reads-Winding :
      (s : Fr3Runtime) (r : Option RobotReading) (writes : Bool)
      → s.stop_evt ≡ true
      → Winding (start_reads np s r writes)
  start_reads-Winding s none writes on = inl refl
  start_reads-Winding s (some m) writes on =
      if-split Winding (is_stale np m) _ _ (λ stale. inl refl)
        λ near. if-split Winding writes _ _ (λ wrote. inr (refl, on)) λ lost. inl refl

  start_control-Winding :
      (s : Fr3Runtime) (t : Turn) → s.stop_evt ≡ true → Winding (start_control np s t)
  unfolding start_control
  start_control-Winding s t on =
      if-split Winding t.starts _ _ (λ starts. start_reads-Winding s t.reads t.writes on)
        λ off. inl refl

  read_only_turn-over :
      (s : Fr3Runtime) (t : Turn) → s.stop_evt ≡ true → (read_only_turn s t).phase ≡ over
  unfolding read_only_turn
  read_only_turn-over s t on =
      if-split (λ (r : Fr3Runtime). r.phase ≡ over) s.stop_evt _ _ (λ same. refl) λ off. cc

  control_turn-over :
      (s : Fr3Runtime) (t : Turn) → s.stop_evt ≡ true → (control_turn np s t).phase ≡ over
  unfolding control_turn
  control_turn-over s t on =
      if-split (λ (r : Fr3Runtime). r.phase ≡ over) s.stop_evt _ _ (λ same. refl) λ off. cc

  turn_in-Winding :
      (p : Phase) (ro : Bool) (s : Fr3Runtime) (t : Turn)
      → s.phase ≡ p
      → s.stop_evt ≡ true
      → Winding (turn_in np p ro s t)
  turn_in-Winding over ro s t e on = inl e
  turn_in-Winding fresh true s t e on = inl (read_only_turn-over s t on)
  turn_in-Winding fresh false s t e on = start_control-Winding s t on
  turn_in-Winding tracking true s t e on = inl (read_only_turn-over s t on)
  turn_in-Winding tracking false s t e on = inl (control_turn-over s t on)

  turn_in-over :
      (p : Phase) (ro : Bool) (s : Fr3Runtime) (t : Turn)
      → s.phase ≡ p
      → Winding s
      → (turn_in np p ro s t).phase ≡ over
  turn_in-over over ro s t e w = e
  turn_in-over fresh ro s t e (inl h) = cc
  turn_in-over fresh ro s t e (inr h) = cc
  turn_in-over tracking ro s t e (inl h) = cc
  turn_in-over tracking true s t e (inr h) = read_only_turn-over s t h.1
  turn_in-over tracking false s t e (inr h) = control_turn-over s t h.1

  turn_in_ended :
      (p : Phase) (ro : Bool) (s : Fr3Runtime) (t : Turn) → p ≡ over → turn_in np p ro s t ≡ s
  turn_in_ended over ro s t e = refl
  turn_in_ended fresh ro s t e = cc
  turn_in_ended tracking ro s t e = cc

  turns_ended : (s : Fr3Runtime) (ts : List Turn) → s.phase ≡ over → turns np s ts ≡ s
  unfolding turns turn
  turns_ended s [] e = refl
  turns_ended s (t ∷ ts) e = rw (turn_in_ended s.phase s.read_only s t e) (turns_ended s ts e)

  two_turns-over :
      (s : Fr3Runtime) (t u : Turn) (ts : List Turn)
      → s.stop_evt ≡ true
      → (turns np s (t ∷ u ∷ ts)).phase ≡ over
  unfolding turns turn
  two_turns-over s t u ts on =
      let s' = turn_in np s.phase s.read_only s t in
      let winding : Winding s' = turn_in-Winding s.phase s.read_only s t refl on in
      let s'' = turn_in np s'.phase s'.read_only s' u in
      let ended : s''.phase ≡ over = turn_in-over s'.phase s'.read_only s' u refl winding in
      rw (turns_ended s'' ts ended) ended

  -- What an ended thread leaves as it is.
  abbrev Rests : Fr3Runtime → Fr3Runtime → Type 0
  Rests s r = (r.phase ≡ over) × (r.written ≡ s.written)

  set_joint_target-Rests :
      (s : Fr3Runtime) (q : Vec Joint) → s.phase ≡ over → Rests s (set_joint_target s q).0
  unfolding set_joint_target
  set_joint_target-Rests s q e =
      if-split (λ (r : Fr3Runtime × Result RuntimeException (Unit {0})). Rests s r.0) s.read_only _
        _ (λ on. (e, refl)) λ off. (e, refl)

  polled-Rests :
      (s : Fr3Runtime) (q : Vec Joint) (tol : Float) (r : Result RuntimeException StateDict)
      (later : Fr3Runtime × Result RuntimeException Bool)
      → s.phase ≡ over
      → Rests s later.0
      → Rests s (polled np s q tol r later).0
  polled-Rests s q tol (err raised) later e k = (e, refl)
  polled-Rests s q tol (ok st) later e k =
      if-split (λ (r : Fr3Runtime × Result RuntimeException Bool). Rests s r.0)
        (close_to np st.q q tol) (s, ok true) later (λ near. (e, refl)) λ far. k

  await-Rests :
      (s : Fr3Runtime) (q : Vec Joint) (tol : Float) (polls : List (List Turn))
      → s.phase ≡ over
      → Rests s (await np s q tol polls).0
  unfolding await
  await-Rests s q tol [] e = (e, refl)
  await-Rests s q tol (ts ∷ polls) e =
      polled-Rests s q tol (get_state s) _ e (rw (turns_ended s ts e) (await-Rests s q tol polls e))

  then_await-Rests :
      (s : Fr3Runtime) (call : Fr3Runtime × Result RuntimeException (Unit {0})) (q : Vec Joint)
      (tol : Float) (polls : List (List Turn))
      → Rests s call.0
      → Rests s (then_await np call q tol polls).0
  then_await-Rests s (r, err e) q tol polls h = h
  then_await-Rests s (r, ok done) q tol polls h =
      let rest = await-Rests r q tol polls h.0 in (rest.0, rest.1 ∙ h.1)

  slow_down-Rests :
      (s : Fr3Runtime) (tol : Float) (polls : List (List Turn))
      → s.phase ≡ over
      → Rests s (slow_down np s tol polls)
  unfolding slow_down
  slow_down-Rests s tol [] e = (e, refl)
  slow_down-Rests s tol (ts ∷ polls) e =
      if-split (Rests s) (not (is_none s.control_error) || close_to np s.dq (λ j. nought) tol) s
        (slow_down np (turns np s ts) tol polls) (λ slow. (e, refl))
        λ fast. rw (turns_ended s ts e) (slow_down-Rests s tol polls e)

  stop-Rests :
      (s : Fr3Runtime) (tol : Float) (polls : List (List Turn)) (last : List Turn)
      → s.phase ≡ over
      → Rests s (stop np s tol polls last)
  unfolding stop
  stop-Rests s tol polls last e =
      let frozen = slow_down np (record s { target_q = s.q }) tol polls in
      let moves = not s.read_only && is_none s.control_error in
      let slowed = if moves then frozen else s in
      let rest : Rests s slowed =
        if-split (Rests s) moves frozen s
          (λ on. slow_down-Rests (record s { target_q = s.q }) tol polls e) (λ off. (e, refl)) in
      rw (turns_ended (record slowed { stop_evt = true }) last rest.0) rest

  happens-Rests : (s : Fr3Runtime) (e : Event) → s.phase ≡ over → Rests s (happens np s e)
  unfolding happens movej
  happens-Rests s (thread_turns ts) h = rw (turns_ended s ts h) (h, refl)
  happens-Rests s (targets q) h = set_joint_target-Rests s q h
  happens-Rests s (moves q tol polls) h =
      then_await-Rests s (set_joint_target s q) q tol polls (set_joint_target-Rests s q h)
  happens-Rests s (stops tol polls last) h = stop-Rests s tol polls last h

  session-Rests : (s : Fr3Runtime) (es : List Event) → s.phase ≡ over → Rests s (session np s es)
  unfolding session
  session-Rests s [] h = (h, refl)
  session-Rests s (e ∷ es) h =
      let now = happens-Rests s e h in
      let later = session-Rests (happens np s e) es now.0 in (later.0, later.1 ∙ now.1)

  -- A stop whose join leaves the thread two turns ends it, in whatever state the stop finds the runtime
  -- and whatever those turns meet; and nothing is sent to the robot afterwards, whichever calls follow.
  pub session-stop :
      (s : Fr3Runtime) (tol : Float) (polls : List (List Turn)) (t u : Turn) (last : List Turn)
      (es : List Event)
      → let stopped = stop np s tol polls (t ∷ u ∷ last) in
        (stopped.phase ≡ over)
        × ((session np stopped es).phase ≡ over)
        × ((session np stopped es).written ≡ stopped.written)
  unfolding stop
  session-stop s tol polls t u last es =
      let moves = not s.read_only && is_none s.control_error in
      let slowed = if moves then slow_down np (record s { target_q = s.q }) tol polls else s in
      let ended = two_turns-over (record slowed { stop_evt = true }) t u last refl in
      let (still, same) = session-Rests (stop np s tol polls (t ∷ u ∷ last)) es ended in
      (ended, still, same)

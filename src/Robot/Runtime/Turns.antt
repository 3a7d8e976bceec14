-- ===== src/Robot/Runtime/Turns.antt =====
-- Every turn of the thread and every call keeps what is known of the sent commands.
use franka_deploy.Common.{
  ◌≡◌, refl, Bool, true, false, not, ◌&&◌, ◌||◌, Option, none, some, List, [], ◌∷◌, Float, Vec,
  nought, Numpy, IsNumpy, Result, ok, err, if◌then◌else◌, if-split,
}
use franka_deploy.Safety.Limits.{Joint}
use franka_deploy.Robot.ReferenceFilter
use franka_deploy.Robot.ReferenceFilter.{JerkLimitedReferenceFilter}
use franka_deploy.Robot.Runtime.{
  RobotReading, RuntimeException, Phase, fresh, tracking, over, Fr3Runtime, Turn, is_none,
  get_state, set_joint_target, read_only_reads, start_reads, control_reads, read_only_turn,
  close_to, is_stale, start_control, control_turn, turn_in, turn, turns, StateDict,
}
use franka_deploy.Robot.Runtime.Calls.{await, polled, then_await, movej, slow_down, stop}
use franka_deploy.Robot.Runtime.Motion.{
  IsTracked, Heads, Tracks-over, Tracks-stopped, Tracks-marked, Tracks-reset, Tracks-step,
  Tracks-lost, Tracks-unlatched,
}

module _ (np : Numpy) (laws : IsNumpy np) (reach : Vec Joint) (mode : Bool) where
  read_only_reads-IsTracked :
      (s : Fr3Runtime) (r : Option RobotReading)
      → IsTracked np laws reach mode s
      → IsTracked np laws reach mode (read_only_reads s r)
  read_only_reads-IsTracked s none h = Tracks-over np laws reach mode _ _ _ _ _ h s.stop_evt
  read_only_reads-IsTracked s (some m) h = h

  read_only_turn-IsTracked :
      (s : Fr3Runtime) (t : Turn)
      → IsTracked np laws reach mode s
      → IsTracked np laws reach mode (read_only_turn s t)
  unfolding read_only_turn
  read_only_turn-IsTracked s t h =
      if-split (IsTracked np laws reach mode) s.stop_evt _ _
        (λ on. Tracks-over np laws reach mode _ _ _ _ _ h s.stop_evt)
        λ off.
          read_only_reads-IsTracked (record s { stop_evt = t.stop_seen }) t.reads
            (Tracks-marked np laws reach mode _ _ _ _ _ h t.stop_seen off)

  -- A thread that has not begun, of a runtime that moves, has sent nothing.
  start_reads-IsTracked :
      (s : Fr3Runtime) (r : Option RobotReading) (writes : Bool)
      → s.written ≡ []
      → s.read_only ≡ false
      → IsTracked np laws reach mode s
      → IsTracked np laws reach mode (start_reads np s r writes)
  unfolding ReferenceFilter.reset
  start_reads-IsTracked s none writes e moving h =
      Tracks-over np laws reach mode _ _ _ _ _ h s.stop_evt
  start_reads-IsTracked s (some m) writes e moving h =
      if-split (IsTracked np laws reach mode) (is_stale np m) _ _
        (λ stale. Tracks-over np laws reach mode _ _ _ _ _ h s.stop_evt)
        λ near.
          if-split (IsTracked np laws reach mode) writes _ _
            (λ wrote. Tracks-reset np laws reach mode _ _ _ _ _ h m.q_d e moving s.stop_evt)
            λ lost. Tracks-unlatched np laws reach mode _ _ _ _ _ h m.q_d s.stop_evt

  start_control-IsTracked :
      (s : Fr3Runtime) (t : Turn)
      → s.written ≡ []
      → s.read_only ≡ false
      → IsTracked np laws reach mode s
      → IsTracked np laws reach mode (start_control np s t)
  unfolding start_control
  start_control-IsTracked s t e moving h =
      if-split (IsTracked np laws reach mode) t.starts _ _
        (λ on. start_reads-IsTracked s t.reads t.writes e moving h)
        λ off. Tracks-over np laws reach mode _ _ _ _ _ h s.stop_evt

  control_reads-IsTracked :
      (s : Fr3Runtime) (t : Turn) (r : Option RobotReading)
      → Heads s.written s.filter.q_cmd false
      → s.read_only ≡ false
      → s.phase ≡ tracking
      → IsTracked np laws reach mode s
      → IsTracked np laws reach mode (control_reads np s t r)
  control_reads-IsTracked s t none heads moving p h =
      Tracks-over np laws reach mode _ _ _ _ _ h s.stop_evt
  control_reads-IsTracked s t (some m) heads moving p h =
      if-split (IsTracked np laws reach mode) t.writes _ _
        (λ wrote.
          rw (← p) at
            (Tracks-step np laws reach mode _ _ _ _ _ h s.target_q heads moving t.stop_seen))
        λ lost. Tracks-lost np laws reach mode _ _ _ _ _ h s.target_q t.stop_seen

  control_turn-IsTracked :
      (s : Fr3Runtime) (t : Turn)
      → s.phase ≡ tracking
      → s.read_only ≡ false
      → IsTracked np laws reach mode s
      → IsTracked np laws reach mode (control_turn np s t)
  unfolding control_turn
  control_turn-IsTracked s t p moving h =
      if-split (IsTracked np laws reach mode) s.stop_evt _ _
        (λ on. Tracks-over np laws reach mode _ _ _ _ _ h s.stop_evt)
        λ off.
          let heads : Heads s.written s.filter.q_cmd false = rw (p, off) at (h.ends) in
          control_reads-IsTracked s t t.reads heads moving p h

  turn_in-IsTracked :
      (p : Phase) (ro : Bool) (s : Fr3Runtime) (t : Turn)
      → s.phase ≡ p
      → s.read_only ≡ ro
      → IsTracked np laws reach mode s
      → IsTracked np laws reach mode (turn_in np p ro s t)
  turn_in-IsTracked over ro s t e r h = h
  turn_in-IsTracked fresh true s t e r h = read_only_turn-IsTracked s t h
  turn_in-IsTracked fresh false s t e r h =
      let none_sent : s.written ≡ [] = rw e at (h.ends) in start_control-IsTracked s t none_sent r h
  turn_in-IsTracked tracking true s t e r h = read_only_turn-IsTracked s t h
  turn_in-IsTracked tracking false s t e r h = control_turn-IsTracked s t e r h

  pub turns-IsTracked :
      (s : Fr3Runtime) (ts : List Turn)
      → IsTracked np laws reach mode s
      → IsTracked np laws reach mode (turns np s ts)
  unfolding turns turn
  turns-IsTracked s [] h = h
  turns-IsTracked s (t ∷ ts) h =
      turns-IsTracked (turn np s t) ts (turn_in-IsTracked s.phase s.read_only s t refl refl h)

  slow_down-IsTracked :
      (s : Fr3Runtime) (tol : Float) (polls : List (List Turn))
      → IsTracked np laws reach mode s
      → IsTracked np laws reach mode (slow_down np s tol polls)
  unfolding slow_down
  slow_down-IsTracked s tol [] h = h
  slow_down-IsTracked s tol (ts ∷ polls) h =
      if-split (IsTracked np laws reach mode)
        (not (is_none s.control_error) || close_to np s.dq (λ j. nought) tol) _ _ (λ slow. h)
        λ fast. slow_down-IsTracked (turns np s ts) tol polls (turns-IsTracked s ts h)

  pub stop-IsTracked :
      (s : Fr3Runtime) (tol : Float) (polls : List (List Turn)) (last : List Turn)
      → IsTracked np laws reach mode s
      → IsTracked np laws reach mode (stop np s tol polls last)
  unfolding stop
  stop-IsTracked s tol polls last h =
      let frozen = slow_down np (record s { target_q = s.q }) tol polls in
      let slowed = if not s.read_only && is_none s.control_error then frozen else s in
      let tracked : IsTracked np laws reach mode slowed =
        if-split (IsTracked np laws reach mode) (not s.read_only && is_none s.control_error) frozen
          s (λ moves. slow_down-IsTracked (record s { target_q = s.q }) tol polls h) (λ still. h) in
      turns-IsTracked (record slowed { stop_evt = true }) last
        (Tracks-stopped np laws reach mode _ _ _ _ _ tracked)

  pub set_joint_target-IsTracked :
      (s : Fr3Runtime) (q : Vec Joint)
      → IsTracked np laws reach mode s
      → IsTracked np laws reach mode (set_joint_target s q).0
  unfolding set_joint_target
  set_joint_target-IsTracked s q h =
      if-split
        (λ (r : Fr3Runtime × Result RuntimeException (Unit {0})). IsTracked np laws reach mode r.0)
        s.read_only _ _ (λ on. h) λ off. h

  polled-IsTracked :
      (s : Fr3Runtime) (q : Vec Joint) (tol : Float) (r : Result RuntimeException StateDict)
      (later : Fr3Runtime × Result RuntimeException Bool)
      → IsTracked np laws reach mode s
      → IsTracked np laws reach mode later.0
      → IsTracked np laws reach mode (polled np s q tol r later).0
  polled-IsTracked s q tol (err e) later h k = h
  polled-IsTracked s q tol (ok st) later h k =
      if-split (λ (r : Fr3Runtime × Result RuntimeException Bool). IsTracked np laws reach mode r.0)
        (close_to np st.q q tol) _ _ (λ near. h) λ far. k

  await-IsTracked :
      (s : Fr3Runtime) (q : Vec Joint) (tol : Float) (polls : List (List Turn))
      → IsTracked np laws reach mode s
      → IsTracked np laws reach mode (await np s q tol polls).0
  unfolding await
  await-IsTracked s q tol [] h = h
  await-IsTracked s q tol (ts ∷ polls) h =
      polled-IsTracked s q tol (get_state s) _ h
        (await-IsTracked (turns np s ts) q tol polls (turns-IsTracked s ts h))

  then_await-IsTracked :
      (call : Fr3Runtime × Result RuntimeException (Unit {0})) (q : Vec Joint) (tol : Float)
      (polls : List (List Turn))
      → IsTracked np laws reach mode call.0
      → IsTracked np laws reach mode (then_await np call q tol polls).0
  then_await-IsTracked (s, err e) q tol polls h = h
  then_await-IsTracked (s, ok done) q tol polls h = await-IsTracked s q tol polls h

  pub movej-IsTracked :
      (s : Fr3Runtime) (q : Vec Joint) (tol : Float) (polls : List (List Turn))
      → IsTracked np laws reach mode s
      → IsTracked np laws reach mode (movej np s q tol polls).0
  unfolding movej
  movej-IsTracked s q tol polls h =
      then_await-IsTracked (set_joint_target s q) q tol polls (set_joint_target-IsTracked s q h)

-- ===== src/Robot/Node.antt =====
-- franka_deploy/robot/robot_node.py and zmq_client.py: the robot node, and the app's client of it.
-- The runtime that the node owns comes in as an interface.
pub mod Calls
use franka_deploy.Common.{Bool, true, false, Option, none, some, Result, ok, err, if◌then◌else◌}

-- `FR3Runtime`: opening one raises or gives a runtime; the other calls return, or raise, after they
-- have changed it.
pub record RuntimeCalls (R S Q : Type 0) : Type 0 where
  pub opens : Bool → Option R
  pub read_only : R → Bool
  pub get_state : R → Option S
  pub set_joint_target : R → Q → R × Bool
  pub stop : R → R × Bool

pub record RobotNode (R : Type 0) : Type 0 where
  pub runtime : Option R

pub data Request (Q : Type 0) : Type 0 where
  connect_request : Bool → Request Q
  get_state_request read_only_request stop_request disconnect_request other_request : Request Q
  set_joint_target_request : Q → Request Q

pub data Reply (S : Type 0) : Type 0 where
  read_only_reply : Bool → Reply S
  state_reply : S → Reply S
  none_reply error_reply : Reply S

module _ {R S Q : Type 0} (fr3 : RuntimeCalls R S Q) where
  abbrev pub Answer : Type 0
  Answer = RobotNode R × Reply S

  -- The new runtime replaces the old one only if it opens.
  abbrev pub opened : RobotNode R → Option R → Answer
  opened n none = (n, error_reply)
  opened n (some r) = (record { runtime = some r }, read_only_reply (fr3.read_only r))

  abbrev pub done : RobotNode R → Bool → Answer
  done n true = (n, none_reply)
  done n false = (n, error_reply)

  unfoldable pub node_stop : RobotNode R → Answer
  node_stop n = elim n.runtime [
    | none ↦ (n, none_reply)
    | some r ↦ done (record { runtime = some (fr3.stop r).0 }) (fr3.stop r).1
  ]

  abbrev pub reconnect : Answer → Bool → Answer
  reconnect (n, none_reply) read_only = opened n (fr3.opens read_only)
  reconnect (n, error_reply) read_only = (n, error_reply)
  reconnect (n, read_only_reply b) read_only = (n, error_reply)
  reconnect (n, state_reply s) read_only = (n, error_reply)

  abbrev pub forget : Answer → Answer
  forget (n, none_reply) = (record { runtime = none }, none_reply)
  forget (n, error_reply) = (n, error_reply)
  forget (n, read_only_reply b) = (n, error_reply)
  forget (n, state_reply s) = (n, error_reply)

  -- One turn of the loop of `serve`: every request is answered, an exception by `__error__`.
  unfoldable pub serve : RobotNode R → Request Q → Answer
  unfolding node_stop
  serve n (connect_request read_only) = reconnect (node_stop n) read_only
  serve n get_state_request = elim n.runtime [
    | none ↦ (n, error_reply)
    | some r ↦ elim (fr3.get_state r) [ none ↦ (n, error_reply) | some s ↦ (n, state_reply s) ]
  ]
  serve n read_only_request = elim n.runtime [
    | none ↦ (n, error_reply)
    | some r ↦ (n, read_only_reply (fr3.read_only r))
  ]
  serve n (set_joint_target_request q) = elim n.runtime [
    | none ↦ (n, error_reply)
    | some r ↦
        done (record { runtime = some (fr3.set_joint_target r q).0 }) (fr3.set_joint_target r q).1
  ]
  serve n stop_request = node_stop n
  serve n disconnect_request = forget (node_stop n)
  serve n other_request = (n, error_reply)

-- A call reaches the node and returns, or times out before or after the node has served it.
pub data Network : Type 0 where
  delivers loses_request loses_reply : Network

-- `awaiting` says that the REQ socket has sent and not received: it refuses the next send.
pub record ZmqRobotClient : Type 0 where
  pub read_only : Bool
  pub awaiting : Bool

unfoldable pub new_client : ZmqRobotClient
new_client = record { read_only = true; awaiting = false }

pub data RobotNodeError : Type 0 where
  no_response node_error socket_state : RobotNodeError

module _ {R S Q : Type 0} (fr3 : RuntimeCalls R S Q) where
  abbrev pub Called : Type 0
  Called = (ZmqRobotClient × RobotNode R) × Result RobotNodeError (Reply S)

  abbrev pub received : ZmqRobotClient → RobotNode R × Reply S → Called
  received c (n, error_reply) = ((c, n), err node_error)
  received c (n, none_reply) = ((c, n), ok none_reply)
  received c (n, read_only_reply b) = ((c, n), ok (read_only_reply b))
  received c (n, state_reply s) = ((c, n), ok (state_reply s))

  -- A socket that times out is closed, and another one is opened.
  abbrev pub on_network : ZmqRobotClient → RobotNode R → Request Q → Network → Called
  on_network c n req delivers = received (record c { awaiting = false }) (serve fr3 n req)
  on_network c n req loses_request = ((record c { awaiting = false }, n), err no_response)
  on_network c n req loses_reply =
      ((record c { awaiting = false }, (serve fr3 n req).0), err no_response)

  unfoldable pub call : ZmqRobotClient → RobotNode R → Request Q → Network → Called
  call c n req net =
      if c.awaiting
      then ((c, n), err socket_state)
      else on_network (record c { awaiting = true }) n req net

  abbrev pub connected : Called → Called
  connected ((c, n), ok (read_only_reply b)) =
      ((record c { read_only = b }, n), ok (read_only_reply b))
  connected ((c, n), ok none_reply) = ((c, n), ok none_reply)
  connected ((c, n), ok (state_reply s)) = ((c, n), ok (state_reply s))
  connected ((c, n), ok error_reply) = ((c, n), ok error_reply)
  connected ((c, n), err e) = ((c, n), err e)

  unfoldable pub client_connect : ZmqRobotClient → RobotNode R → Bool → Network → Called
  unfolding call
  client_connect c n read_only net = connected (call c n (connect_request read_only) net)

-- ===== src/Robot/Node/Calls.antt =====
-- The client's socket, and what it knows of the node.
use franka_deploy.Common.{◌≡◌, ◌≢◌, refl, Bool, true, false, Option, none, some, ok, err}
use franka_deploy.Robot.Node.{
  RuntimeCalls, RobotNode, Request, connect_request, Reply, read_only_reply, error_reply,
  none_reply, state_reply, opened, reconnect, Called, received, connected, on_network, Network,
  delivers, loses_request, loses_reply, ZmqRobotClient, socket_state, serve, node_stop, call,
  client_connect,
}

module _ {R S Q : Type 0} (fr3 : RuntimeCalls R S Q) where
  -- The answer to a connection: an error, or the mode of the runtime that the node has then.
  Knows : RobotNode R × Reply S → Type 0
  Knows (n, read_only_reply b) = (r : R) × (n.runtime ≡ some r) × (b ≡ fr3.read_only r)
  Knows (n, error_reply) = Unit
  Knows (n, none_reply) = ⊥
  Knows (n, state_reply s) = ⊥

  opened-Knows : (n : RobotNode R) (o : Option R) → Knows (opened fr3 n o)
  unfolding Knows
  opened-Knows n none = tt
  opened-Knows n (some r) = (r, refl, refl)

  reconnect-Knows :
      (a : RobotNode R × Reply S) (read_only : Bool) → Knows (reconnect fr3 a read_only)
  unfolding Knows
  reconnect-Knows (n, none_reply) read_only = opened-Knows n (fr3.opens read_only)
  reconnect-Knows (n, error_reply) read_only = tt
  reconnect-Knows (n, read_only_reply b) read_only = tt
  reconnect-Knows (n, state_reply s) read_only = tt

  serve-Knows :
      (n : RobotNode R) (read_only : Bool) → Knows (serve fr3 n (connect_request read_only))
  unfolding serve
  serve-Knows n read_only = reconnect-Knows (node_stop fr3 n) read_only

  -- What the client makes of an answer.
  Tells : Called fr3 → Type 0
  Tells ((c, n), result) =
      (c.awaiting ≡ false)
      × ((reply : Reply S)
          → result ≡ ok reply
          → (r : R) × (n.runtime ≡ some r) × (c.read_only ≡ fr3.read_only r))

  received-Tells :
      (c : ZmqRobotClient) (a : RobotNode R × Reply S)
      → c.awaiting ≡ false
      → Knows a
      → Tells (connected fr3 (received fr3 c a))
  unfolding Knows Tells
  received-Tells c (n, read_only_reply b) h k = (h, λ reply e. k)
  received-Tells c (n, error_reply) h k = (h, λ reply e. cc)
  received-Tells c (n, none_reply) h k = elim k [ ]
  received-Tells c (n, state_reply s) h k = elim k [ ]

  on_network-Tells :
      (c : ZmqRobotClient) (n : RobotNode R) (read_only : Bool) (net : Network)
      → Tells (connected fr3 (on_network fr3 c n (connect_request read_only) net))
  unfolding Tells
  on_network-Tells c n read_only delivers =
      received-Tells (record c { awaiting = false }) (serve fr3 n (connect_request read_only)) refl
        (serve-Knows n read_only)
  on_network-Tells c n read_only loses_request = (refl, λ reply e. cc)
  on_network-Tells c n read_only loses_reply = (refl, λ reply e. cc)

  -- A client whose socket is ready leaves it ready after a connection, whatever the network does. If the
  -- connection returns, then the node has a runtime, and the client's `read_only` is that of the runtime.
  pub client_connect_cases :
      (c : ZmqRobotClient) (n : RobotNode R) (read_only : Bool) (net : Network)
      → c.awaiting ≡ false
      → ((client_connect fr3 c n read_only net).0.0.awaiting ≡ false)
        × ((reply : Reply S)
            → (client_connect fr3 c n read_only net).1 ≡ ok reply
            → (r : R) × ((client_connect fr3 c n read_only net).0.1.runtime ≡ some r)
              × ((client_connect fr3 c n read_only net).0.0.read_only ≡ fr3.read_only r))
  unfolding client_connect call Tells
  client_connect_cases c n read_only net h =
      rw h (on_network-Tells (record c { awaiting = true }) n read_only net)

  received-ready :
      (c : ZmqRobotClient) (a : RobotNode R × Reply S)
      → c.awaiting ≡ false
      → ((received fr3 c a).0.0.awaiting ≡ false) × ((received fr3 c a).1 ≢ err socket_state)
  received-ready c (n, read_only_reply b) h = (h, λ e. cc)
  received-ready c (n, error_reply) h = (h, λ e. cc)
  received-ready c (n, none_reply) h = (h, λ e. cc)
  received-ready c (n, state_reply s) h = (h, λ e. cc)

  on_network-ready :
      (c : ZmqRobotClient) (n : RobotNode R) (req : Request Q) (net : Network)
      → ((on_network fr3 c n req net).0.0.awaiting ≡ false)
        × ((on_network fr3 c n req net).1 ≢ err socket_state)
  on_network-ready c n req delivers =
      received-ready (record c { awaiting = false }) (serve fr3 n req) refl
  on_network-ready c n req loses_request = (refl, λ e. cc)
  on_network-ready c n req loses_reply = (refl, λ e. cc)

  -- On a ready socket any call leaves the socket ready, also one that times out or that the node refuses,
  -- and is never refused by the socket itself.
  pub call_ready :
      (c : ZmqRobotClient) (n : RobotNode R) (req : Request Q) (net : Network)
      → c.awaiting ≡ false
      → ((call fr3 c n req net).0.0.awaiting ≡ false)
        × ((call fr3 c n req net).1 ≢ err socket_state)
  unfolding call
  call_ready c n req net h = rw h (on_network-ready (record c { awaiting = true }) n req net)

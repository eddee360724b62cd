-- ===== src/Examples/Protocol.antt =====
-- The endpoints of vmnetx/protocol.py on single messages, and one session.
use vmnetx.Prelude.{
  ℕ, ◌≡◌, ◌≢◌, ◌↔◌, refl, true, false, ◌&&◌, Option, some, List, [], ◌∷◌, if◌then◌else◌,
}
use vmnetx.Protocol.Forwarding
use vmnetx.Protocol.Forwarding.Closing.{AreClosing}
use vmnetx.Protocol.Forwarding.Ending.{run-ends}
use vmnetx.Protocol.Message
use vmnetx.Protocol.Message.{Message, MessageType, not_authenticated, transmit, emit}
use vmnetx.Protocol.Server
use vmnetx.Protocol.Server.{ServerEndpoint}
use vmnetx.Protocol.Client
use vmnetx.Protocol.Client.{ClientState, authenticating, running, attaching}
use vmnetx.Protocol.Guards.{
  IsPublic, All, dispatch-IsPublic, dispatch-not_authenticated, IsExpected, dispatch-IsExpected,
}
use vmnetx.Protocol.Session
use vmnetx.Protocol.Session.{Session, Reach, is_past_auth, never_unauthenticated}
use vmnetx.Protocol.Socket
use vmnetx.Protocol.Socket.{
  AsyncSocket, is_empty, RecvOutcome, SendOutcome, send_loop, try_send, send_close_timeout, recv,
  is_some,
}
use vmnetx.Protocol.Socket.Closing.{shutdown-closes}
use vmnetx.Protocol.Socket.Lifecycle
use vmnetx.Protocol.Socket.Lifecycle.{Event, run, IsValid, run-IsValid, new-IsValid}
use vmnetx.Protocol.Socket.Wire.{accepted, InOrder, run-InOrder}

abbrev stranger : ServerEndpoint
stranger = record { authenticated = false }

dispatch-IsPublic_example : All IsPublic (Server.dispatch stranger MessageType.start_vm []).effects
dispatch-IsPublic_example = dispatch-IsPublic stranger MessageType.start_vm [] refl

dispatch-not_authenticated_example :
    (((Server.dispatch stranger MessageType.ping []).raised ≡ some not_authenticated)
      ↔ ((true ≡ true) × (false ≡ false)))
    × ((Server.dispatch stranger MessageType.ping []).state ≡ stranger)
dispatch-not_authenticated_example = dispatch-not_authenticated stranger MessageType.ping []

ping_reply :
    (Server.dispatch (record { authenticated = true }) MessageType.ping []).effects
    ≡ transmit (record { mtype = MessageType.pong; fields = [] }) ∷ emit Server.ping ∷ []
unfolding Server.dispatch
ping_reply = refl

-- The state has changed although a field is missing.
bare_auth_ok : (Client.dispatch authenticating MessageType.auth_ok []).state ≡ running
unfolding Client.dispatch Message.field
bare_auth_ok = refl

dispatch-IsExpected_example :
    All (IsExpected running) (Client.dispatch running MessageType.vm_stopped []).effects
dispatch-IsExpected_example = dispatch-IsExpected running MessageType.vm_stopped []

abbrev hello : Session
hello = record {
  client = authenticating;
  server = stranger;
  to_server = Client.sent (Client.authenticate "id/code") ∷ [];
  to_client = [];
}

hello-Reach : Reach Session.start hello
unfolding Session.start Server.new Client.send
hello-Reach =
    Reach.next Reach.here (Session.client_sends Session.start (Client.authenticate "id/code") refl)

never_unauthenticated_example :
    (is_past_auth hello.client ≡ true → hello.server.authenticated ≡ true)
    × ((m : Message) (rest : List Message)
        → hello.to_server ≡ m ∷ rest
        → (Server.dispatch hello.server m.mtype m.fields).raised ≢ some not_authenticated)
never_unauthenticated_example = never_unauthenticated hello-Reach

-- Two bytes are queued, one is sent, and the socket is shut down.
abbrev history : List (Event ℕ)
history =
    Lifecycle.queued (7 ∷ 8 ∷ [])
    ∷ Lifecycle.writable (SendOutcome.sent 1 ∷ SendOutcome.would_block ∷ [])
    ∷ Lifecycle.shut_down
    ∷ []

run-IsValid_example : IsValid (run (Socket.new {C = ℕ}) history)
run-IsValid_example = run-IsValid history

run-InOrder_example : InOrder (accepted Socket.new history) (run (Socket.new {C = ℕ}) history)
run-InOrder_example = run-InOrder history

-- A socket that was given two bytes is shut down; one is sent before the system takes no more.
abbrev waiting : AsyncSocket ℕ
waiting = run Socket.new (Lifecycle.queued (7 ∷ 8 ∷ []) ∷ [])

abbrev blocked : List (Event ℕ)
blocked = Lifecycle.writable (SendOutcome.sent 1 ∷ SendOutcome.would_block ∷ []) ∷ []

shutdown-closes_example :
    ((run (Socket.shutdown waiting) blocked).is_open ≡ true
      → (is_empty (run (Socket.shutdown waiting) blocked).send_buf ≡ false)
        × ((run (Socket.shutdown waiting) blocked).close_timer ≡ true)
        × ((Lifecycle.step (run (Socket.shutdown waiting) blocked) Lifecycle.timed_out).is_open
            ≡ false)
        × ((outcomes : List SendOutcome)
            → (send_loop (run (Socket.shutdown waiting) blocked) outcomes).send_buf ≡ []
            → (Lifecycle.step
                (run (Socket.shutdown waiting) blocked)
                (Lifecycle.writable outcomes)).is_open
              ≡ false))
    × ((buf : List ℕ)
        → Socket.send (run (Socket.shutdown waiting) blocked) buf
          ≡ (run (Socket.shutdown waiting) blocked, some Socket.socket_closed))
    × ((cb : ℕ) (n : Option ℕ)
        → is_some (recv (run (Socket.shutdown waiting) blocked) cb n).1 ≡ true)
shutdown-closes_example =
    shutdown-closes waiting blocked (run-IsValid (Lifecycle.queued (7 ∷ 8 ∷ []) ∷ []))

-- A forwarded socket receives two bytes, which the other sends; then the other end closes the first.
abbrev viewed : List Forwarding.Event
viewed =
    Forwarding.reads Forwarding.ours (Socket.received (7 ∷ 8 ∷ []))
    ∷ Forwarding.writes Forwarding.theirs (SendOutcome.sent 2 ∷ [])
    ∷ Forwarding.reads Forwarding.ours (Socket.received [])
    ∷ []

viewed-wire : (Forwarding.run (Forwarding.start Socket.new) viewed).peer.wire ≡ 7 ∷ 8 ∷ []
unfolding Forwarding.run Forwarding.step Forwarding.readable Forwarding.changed Forwarding.shutdown
    Forwarding.shut_socket Forwarding.start Socket.new Socket.recv Socket.io_in Socket.send
    Socket.try_send Socket.send_loop Socket.after_callback Socket.update
viewed-wire = refl

run-ends_example :
    ((Forwarding.run (Forwarding.start Socket.new) viewed).closes ≡ (
      if (Forwarding.run (Forwarding.start Socket.new) viewed).asock.is_open
      then 0
      else if (Forwarding.run (Forwarding.start Socket.new) viewed).peer.is_open
      then 0
      else 1))
    × (((Forwarding.run (Forwarding.start Socket.new) viewed).asock.is_open
            && (Forwarding.run (Forwarding.start Socket.new) viewed).peer.is_open)
          ≡ false
        → AreClosing (Forwarding.run (Forwarding.start Socket.new) viewed))
unfolding Socket.new
run-ends_example = run-ends Socket.new viewed new-IsValid refl refl

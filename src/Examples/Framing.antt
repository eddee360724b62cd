-- ===== src/Examples/Framing.antt =====
-- `_Endpoint` of vmnetx/protocol.py on byte streams cut in pieces, at a server's connection.
use vmnetx.Protocol.Message
use vmnetx.Protocol.Message.{MessageType}
use vmnetx.Protocol.Server
use vmnetx.Protocol.Server.{ServerSend}
use vmnetx.Controller.{VmState}
use vmnetx.Server.Connection
use vmnetx.Server.Connection.{ServerConnection}
use vmnetx.Prelude.{
  ap, ◌∙◌, ◌==◌, Bool, if◌then◌else◌, ℕ, ◌≡◌, refl, true, false, List, [], ◌∷◌, arith,
}
use vmnetx.Prelude.Int.{◌-ℤ◌}
use vmnetx.Protocol.Socket
use vmnetx.Protocol.Socket.{SendOutcome}
use vmnetx.Protocol.Socket.Lifecycle
use vmnetx.Protocol.Socket.Lifecycle.{Event}
use vmnetx.Protocol.Socket.Wire
use vmnetx.Protocol.Transport.{sent-handled}
use vmnetx.Protocol.Framing
use vmnetx.Protocol.Framing.{Callback, recv_length, Endpoint, Handlers, feed_all, next_message}
use vmnetx.Protocol.Framing.Delivery.{Awaits, Reacts}
use vmnetx.Protocol.Framing.Stream.{
  Frame, fits, encode, concat, Admissible, Handled, one_handled, none_left,
}
use vmnetx.Protocol.Framing.Whole.{feed_all-process}
use vmnetx.Protocol.Framing.Stall.{zero_prefix, zero_length-stalls}

-- A body is one number, which stands for a message of the client.
abbrev type_of : List ℕ → MessageType
type_of (n ∷ []) = if n == 1 then MessageType.ping else MessageType.unknown "pang"
type_of _ = MessageType.unknown ""

-- The connection's part in what becomes of the endpoint: it shuts it down, or turns the protocol off.
abbrev settle : ServerConnection → Endpoint ServerConnection → Endpoint ServerConnection × Bool
settle c e = (
  if c.is_open
      then record e { state = c; protocol_disabled = c.protocol_disabled }
      else Framing.shut (record e { state = c }),
  false,
)

-- The handlers of a server's endpoint.
abbrev serving : Handlers ServerConnection
serving = record {
  handle = λ body e. settle (Connection.message VmState.stopped (type_of body) [] e.state) e;
  too_large = λ e. settle (Connection.send (ServerSend.send_error "Message too large") e.state) e;
}

settle-Reacts :
    (f : ServerConnection → ServerConnection) (s : ServerConnection)
    → (f s).is_open ≡ true
    → (f s).protocol_disabled ≡ false
    → Reacts (λ e. settle (f e.state) e) s (f s)
settle-Reacts f s o d = record {
  becomes = λ e r p.
      let q : f e.state ≡ f s = ap f p in
      let o' : (f e.state).is_open ≡ true = ap (λ c. c.is_open) q ∙ o in simp o' q;
  stays_ready = λ e r p.
      let q : f e.state ≡ f s = ap f p in
      let o' : (f e.state).is_open ≡ true = ap (λ c. c.is_open) q ∙ o in
      let d' : (f e.state).protocol_disabled ≡ false = ap (λ c. c.protocol_disabled) q ∙ d in
      simp o' (record {
        no_callback = r.no_callback;
        is_open = r.is_open;
        readable = r.readable;
        attached = r.attached;
        enabled = d';
        sends = r.sends;
      });
  quiet = λ e r p. refl;
}

-- A client of which the server knows the token already.
abbrev known : ServerConnection
known = record Connection.new { endp = record { authenticated = true }; controller = true }

abbrev pinged : ServerConnection
pinged = Connection.message VmState.stopped MessageType.ping [] known

abbrev puzzled : ServerConnection
puzzled = Connection.message VmState.stopped (MessageType.unknown "pang") [] pinged

-- After the constructor.
abbrev listening : Endpoint ServerConnection
listening =
    next_message
      (record { asock = Socket.new; attached = true; protocol_disabled = false; state = known })

listening-Awaits : Awaits recv_length [] 4 listening
unfolding next_message Socket.new Socket.recv
listening-Awaits = record {
  callback = refl;
  buffer = refl;
  remaining = refl;
  wanted = omega arith;
  is_open = refl;
  readable = refl;
  attached = refl;
  enabled = refl;
  sends = (refl, refl);
}

abbrev two_messages : List Frame
two_messages =
    fits (1 ∷ []) (omega arith) (omega arith) ∷ fits (9 ∷ []) (omega arith) (omega arith) ∷ []

abbrev pieces : List (List ℕ)
pieces = (0 ∷ 0 ∷ []) ∷ (0 ∷ 1 ∷ []) ∷ (1 ∷ []) ∷ (0 ∷ 0 ∷ 0 ∷ 1 ∷ []) ∷ (9 ∷ []) ∷ []

pieces-encode : concat pieces ≡ encode two_messages
unfolding Framing.frame
pieces-encode = refl

pieces-Admissible : Admissible serving listening pieces
unfolding feed_all Framing.feed Framing.call Framing.on_length Framing.unpack_length next_message
    Socket.new Socket.recv Socket.io_in Socket.after_callback ◌-ℤ◌ Framing.shut Connection.message
    Connection.handle_all Connection.handle Connection.send Connection.new Server.dispatch
    Server.new Server.send Server.sent Message.dispatch_base
pieces-Admissible = omega arith

two_messages-Handled : Handled serving two_messages known puzzled
unfolding Connection.message Connection.handle_all Connection.handle Connection.send Connection.new
    Server.dispatch Server.new Server.send Server.sent Message.dispatch_base
two_messages-Handled =
    one_handled
      (settle-Reacts (Connection.message VmState.stopped MessageType.ping []) known refl refl)
      (one_handled
        (settle-Reacts (Connection.message VmState.stopped (MessageType.unknown "pang") []) pinged
          refl refl)
        none_left)

feed_all-process_example :
    ((feed_all serving listening pieces).state ≡ puzzled)
    × Awaits recv_length [] 4 (feed_all serving listening pieces)
unfolding next_message
feed_all-process_example =
    feed_all-process serving two_messages pieces listening puzzled listening-Awaits pieces-encode
      pieces-Admissible two_messages-Handled

zero_length-stalls_example :
    ((feed_all serving listening (zero_prefix ∷ (0 ∷ 1 ∷ []) ∷ (9 ∷ []) ∷ [])).state
      ≡ listening.state)
    × ((feed_all serving listening (zero_prefix ∷ (0 ∷ 1 ∷ []) ∷ (9 ∷ []) ∷ [])).asock.recv_buf
        ≡ 0 ∷ 1 ∷ [])
zero_length-stalls_example =
    zero_length-stalls serving listening (0 ∷ 1 ∷ []) ((9 ∷ []) ∷ []) listening-Awaits (omega arith)

-- The two messages are given to a socket, which sends them in two parts.
abbrev sending : List (Event ℕ)
sending =
    Lifecycle.queued (Framing.frame (1 ∷ []))
    ∷ Lifecycle.queued (Framing.frame (9 ∷ []))
    ∷ Lifecycle.writable (SendOutcome.sent 3 ∷ SendOutcome.would_block ∷ [])
    ∷ Lifecycle.writable (SendOutcome.sent 7 ∷ [])
    ∷ []

sent-handled_example :
    ((feed_all serving listening pieces).state ≡ puzzled)
    × Awaits recv_length [] 4 (feed_all serving listening pieces)
unfolding next_message Framing.frame Lifecycle.run Lifecycle.step Wire.accepted Socket.new
    Socket.send Socket.try_send Socket.send_loop Socket.update
sent-handled_example =
    sent-handled serving sending two_messages pieces listening puzzled refl refl refl refl
      listening-Awaits pieces-Admissible two_messages-Handled

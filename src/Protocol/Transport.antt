-- ===== src/Protocol/Transport.antt =====
-- From the `send` of one `_AsyncSocket` of vmnetx/protocol.py to the messages that the `_Endpoint` at the
-- other end handles.
use vmnetx.Prelude.{ℕ, ◌≡◌, sym, ◌∙◌, false, List, [], ◌++◌, append-nil}
use vmnetx.Protocol.Socket
use vmnetx.Protocol.Socket.{AsyncSocket}
use vmnetx.Protocol.Socket.Lifecycle.{Event, run}
use vmnetx.Protocol.Socket.Wire.{accepted, InOrder, run-InOrder}
use vmnetx.Protocol.Framing.{recv_length, Endpoint, Handlers, feed_all}
use vmnetx.Protocol.Framing.Delivery.{Awaits}
use vmnetx.Protocol.Framing.Stream.{Frame, encode, concat, Admissible, Handled}
use vmnetx.Protocol.Framing.Whole.{feed_all-process}

module _ {C : Type 0} where
  -- Once the buffer is empty, everything is on the wire.
  wire-accepted :
      (bytes : List ℕ) (s : AsyncSocket C)
      → InOrder bytes s
      → s.send_closed ≡ false
      → s.send_buf ≡ []
      → s.wire ≡ bytes
  wire-accepted bytes s o c b =
      sym (append-nil s.wire) ∙ sym (o.whole ∙ (λ i. s.wire ++ (b i ++ o.none_lost c i)))

module _ {C State : Type 0} (h : Handlers State) where
  -- A socket was given the encoding of some frames to send, none of them empty, among any other calls and
  -- events, and has emptied its buffer without a failure. An endpoint that waits for a message reads what the
  -- socket has put on the wire, in pieces that are cut anywhere. Where its handlers, in the states reached,
  -- raise no exception, do not shut the endpoint down, do not turn the protocol off and do not read, it handles
  -- exactly the messages that are not too large, in their order and each once, answers and skips the
  -- others, and then waits for the next message.
  pub sent-handled :
      (es : List (Event C)) (frames : List Frame) (chunks : List (List ℕ)) (e : Endpoint State)
      (final : State)
      → accepted Socket.new es ≡ encode frames
      → (run (Socket.new {C = C}) es).send_closed ≡ false
      → (run (Socket.new {C = C}) es).send_buf ≡ []
      → concat chunks ≡ (run (Socket.new {C = C}) es).wire
      → Awaits recv_length [] 4 e
      → Admissible h e chunks
      → Handled h frames e.state final
      → ((feed_all h e chunks).state ≡ final) × Awaits recv_length [] 4 (feed_all h e chunks)
  sent-handled es frames chunks e final x c b w a k v =
      feed_all-process h frames chunks e final a
        (w ∙ wire-accepted (accepted Socket.new es) (run Socket.new es) (run-InOrder es) c b ∙ x) k
        v

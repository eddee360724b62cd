-- ===== src/Protocol/Framing.antt =====
-- `_Endpoint` of vmnetx/protocol.py above its socket: length-prefixed messages, the skipping of
-- oversized ones, and the switch that turns the protocol off.
pub mod Delivery
pub mod Stream
pub mod Whole
pub mod Stall
use vmnetx.Prelude.{
  ℕ, zero, ◌+◌, ◌-◌, ◌*◌, ◌/◌, ◌%◌, ◌^◌, min, Bool, true, false, not, ◌&&◌, Option, none, some,
  List, [], ◌∷◌, ◌++◌, ltb, if◌then◌else◌, length,
}
use vmnetx.Protocol.Socket.{AsyncSocket, RecvOutcome, io_in, after_callback, recv, shutdown}

-- The callbacks that an endpoint registers: `_recv_length`, `_recv`, and the λ of `_recv_overflow`
-- with what remains when it has been called.
pub data Callback : Type 0 where
  recv_length recv_body : Callback
  recv_overflow : ℕ → Callback

-- `State` is what a subclass adds.
pub record Endpoint (State : Type 0) : Type 0 where
  pub asock : AsyncSocket Callback
  pub attached : Bool  -- `_asock` is not None
  pub protocol_disabled : Bool
  pub state : State

abbrev pub max_message_size : ℕ
max_message_size = 2 ^ 20

abbrev pub length_size : ℕ
length_size = 4

-- `struct.unpack('!I', buf)[0]`; the buffer has four bytes.
unfoldable pub unpack_length : List ℕ → ℕ
unpack_length (a ∷ b ∷ c ∷ d ∷ []) = ((a * 256 + b) * 256 + c) * 256 + d
unpack_length _ = 0

-- `struct.pack('!I', n)` for a number below 2 ^ 32.
unfoldable pub pack_length : ℕ → List ℕ
pack_length n = n / 256 ^ 3 % 256 ∷ n / 256 ^ 2 % 256 ∷ n / 256 % 256 ∷ n % 256 ∷ []

-- What `_transmit` gives to the socket for a packed message.
unfoldable pub frame : List ℕ → List ℕ
unfolding pack_length
frame buf = pack_length (length buf) ++ buf

module _ {State : Type 0} where
  abbrev pub ask : Callback → ℕ → Endpoint State → Endpoint State
  ask cb n e = record e { asock = (recv e.asock cb (some n)).0 }

  unfoldable pub next_message : Endpoint State → Endpoint State
  next_message e =
      if e.attached && not e.protocol_disabled then ask recv_length length_size e else e

  unfoldable pub overflow : ℕ → Endpoint State → Endpoint State
  overflow remaining e =
      if ltb 0 remaining
      then ask (recv_overflow (remaining - min max_message_size remaining))
          (min max_message_size remaining) e
      else next_message e

  -- The setter of `protocol_disabled`.
  unfoldable pub set_protocol_disabled : Bool → Endpoint State → Endpoint State
  unfolding next_message
  set_protocol_disabled true e = record e { protocol_disabled = true }
  set_protocol_disabled false e =
      if e.protocol_disabled then next_message (record e { protocol_disabled = false }) else e

  -- `shutdown`, with no peer.
  unfoldable pub shut : Endpoint State → Endpoint State
  shut e = if e.attached then record e { attached = false; asock = shutdown e.asock } else e

-- The subclass: what `_recv` does with a body up to its `finally` (unpacking, dispatch, and the
-- error message for a `_MessageError`), and `send_error('Message too large')`; and whether they raise
-- an exception that is not caught there.
pub record Handlers (State : Type 0) : Type 0 where
  pub handle : List ℕ → Endpoint State → Endpoint State × Bool
  pub too_large : Endpoint State → Endpoint State × Bool

module _ {State : Type 0} where
  -- After an exception the rest of `_recv_length` is skipped.
  abbrev pub skip_on : ℕ → Endpoint State × Bool → Endpoint State × Bool
  skip_on count (e, true) = (e, true)
  skip_on count (e, false) = (overflow count e, false)

  -- `_next_message` stands in a `finally`.
  abbrev pub finally_next : Endpoint State × Bool → Endpoint State × Bool
  finally_next (e, raised) = (next_message e, raised)

  -- The end of `_io_ready`, which an exception of the callback skips.
  abbrev pub leave : Endpoint State × Bool → Endpoint State
  leave (e, true) = e
  leave (e, false) = record e { asock = after_callback e.asock }

module _ {State : Type 0} (h : Handlers State) where
  unfoldable pub on_length : ℕ → Endpoint State → Endpoint State × Bool
  on_length count e =
      if ltb max_message_size count
      then skip_on count (h.too_large e)
      else (ask recv_body count e, false)

  -- A callback with the bytes that it asked for.
  unfoldable pub call : Callback → List ℕ → Endpoint State → Endpoint State × Bool
  call recv_length buf e = on_length (unpack_length buf) e
  call recv_body buf e = finally_next (h.handle buf e)
  call (recv_overflow remaining) buf e = (overflow remaining e, false)

  abbrev pub deliver : Option (Callback × List ℕ) → Endpoint State → Endpoint State
  deliver none e = e
  deliver (some (cb, buf)) e = leave (call cb buf e)

  -- `_io_ready` with IO_IN, the callback included.
  unfoldable pub feed : Endpoint State → RecvOutcome → Endpoint State
  feed e o = let (a, due) = io_in e.asock o in deliver due (record e { asock = a })

  unfoldable pub feed_all : Endpoint State → List (List ℕ) → Endpoint State
  feed_all e [] = e
  feed_all e (chunk ∷ chunks) = feed_all (feed e (RecvOutcome.received chunk)) chunks

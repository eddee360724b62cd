-- ===== src/Protocol/Forwarding.antt =====
-- The forwarding of `_Endpoint` of vmnetx/protocol.py: after `start_forwarding`, what one of two sockets
-- receives is sent by the other, until one of them closes.
pub mod Counts
pub mod Closing
pub mod Ending
use vmnetx.Prelude.{
  ℕ, zero, suc, Bool, true, false, not, ◌&&◌, Option, none, some, List, [], ◌∷◌, ◌++◌,
  if◌then◌else◌,
}
use vmnetx.Protocol.Socket
use vmnetx.Protocol.Socket.{
  AsyncSocket, is_some, SocketError, RecvOutcome, received, io_in, after_callback, recv,
  SendOutcome, try_send, send_close_timeout,
}

-- The only callback, `_forward` from this socket to the other.
pub data Forward : Type 0 where
  forward : Forward

-- `_asock` and `_peer`.
pub data Side : Type 0 where
  ours theirs : Side

pub record Relay : Type 0 where
  pub asock : AsyncSocket Forward
  pub peer : AsyncSocket Forward
  pub attached : Bool  -- `_asock` and `_peer` are not None
  pub open_sockets : ℕ
  pub closes : ℕ  -- how often the endpoint has emitted 'close'
  pub got : List ℕ  -- the bytes that `asock` has received since the start
  pub peer_got : List ℕ

abbrev pub other : Side → Side
other ours = theirs
other theirs = ours

abbrev pub socket : Side → Relay → AsyncSocket Forward
socket ours r = r.asock
socket theirs r = r.peer

abbrev pub with_socket : Side → AsyncSocket Forward → Relay → Relay
with_socket ours a r = record r { asock = a }
with_socket theirs a r = record r { peer = a }

abbrev pub keep_got : Side → List ℕ → Relay → Relay
keep_got ours bytes r = record r { got = r.got ++ bytes }
keep_got theirs bytes r = record r { peer_got = r.peer_got ++ bytes }

-- The end of `_shutdown`: one socket less, and 'close' with the last. It never runs with no socket
-- left, where the count would go below 0.
abbrev pub lost_socket : ℕ → Relay → Relay
lost_socket zero r = r
lost_socket (suc zero) r = record r { open_sockets = 0; closes = suc r.closes }
lost_socket (suc (suc n)) r = record r { open_sockets = suc n }

-- The shutdown of one socket; its 'close' calls `_shutdown`, which finds `_asock` and `_peer` gone.
unfoldable pub shut_socket : Side → Relay → Relay
unfolding Socket.shutdown
shut_socket side r =
    let a = socket side r in
    let b = Socket.shutdown a in
    let r' = with_socket side b r in
    if a.is_open && not b.is_open then lost_socket r'.open_sockets r' else r'

-- `shutdown`.
unfoldable pub shutdown : Relay → Relay
unfolding shut_socket
shutdown r =
    if r.attached then shut_socket ours (shut_socket theirs (record r { attached = false })) else r

abbrev pub on_close : Relay → Relay
unfolding shutdown
on_close r = let r' = shutdown r in lost_socket r'.open_sockets r'

-- A socket is left in a new state; if it has closed, its 'close' calls `_shutdown`.
unfoldable pub changed : Side → AsyncSocket Forward → Relay → Relay
unfolding shutdown
changed side a r =
    let r' = with_socket side a r in
    if (socket side r).is_open && not a.is_open then on_close r' else r'

abbrev pub bytes_of : RecvOutcome → List ℕ
bytes_of (received bytes) = bytes
bytes_of _ = []

-- `_forward`; where `send` raises, nothing else is done, neither here nor in `_io_ready`.
abbrev pub forwarded : Side → AsyncSocket Forward × Option SocketError → Relay → Relay
forwarded side (d, some e) r = r
forwarded side (d, none) r =
    let r' = with_socket (other side) d r in
    with_socket side (after_callback (recv (socket side r') forward none).0) r'

abbrev pub delivered : Side → Option (Forward × List ℕ) → Relay → Relay
delivered side none r = r
delivered side (some (forward, buf)) r = forwarded side (Socket.send (socket (other side) r) buf) r

-- `_io_ready` of a socket that has something to read.
unfoldable pub readable : Side → RecvOutcome → Relay → Relay
unfolding changed io_in after_callback recv Socket.send
readable side o r =
    let (a, due) = io_in (socket side r) o in
    delivered side due (keep_got side (bytes_of o) (changed side a r))

-- `start_forwarding`, of an endpoint whose socket waits for nothing.
unfoldable pub start : AsyncSocket Forward → Relay
unfolding Socket.new recv
start a = record {
  asock = (recv a forward none).0;
  peer = (recv Socket.new forward none).0;
  attached = true;
  open_sockets = 2;
  closes = 0;
  got = [];
  peer_got = [];
}

pub data Event : Type 0 where
  reads : Side → RecvOutcome → Event
  writes : Side → List SendOutcome → Event
  times_out : Side → Event
  shuts_down : Event

-- The condition under which `_update` watches a socket for IO_IN.
abbrev pub waits : AsyncSocket Forward → Bool
waits a = a.is_open && (is_some a.recv_callback && not a.recv_closed)

unfoldable pub step : Relay → Event → Relay
unfolding readable changed try_send send_close_timeout
step r (reads side o) = if waits (socket side r) then readable side o r else r
step r (writes side outcomes) = changed side (try_send (socket side r) outcomes) r
step r (times_out side) =
    let a = socket side r in
    if a.close_timer && a.send_closing then changed side (send_close_timeout a) r else r
step r shuts_down = shutdown r

unfoldable pub run : Relay → List Event → Relay
run r [] = r
run r (e ∷ es) = run (step r e) es

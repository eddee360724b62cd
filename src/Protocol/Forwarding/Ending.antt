-- ===== src/Protocol/Forwarding/Ending.antt =====
-- When a forwarding `_Endpoint` of vmnetx/protocol.py emits 'close', and what happens to its two sockets.
use vmnetx.Prelude.{
  ℕ, ◌+◌, ◌≡◌, refl, sym, ap, ◌∙◌, Bool, true, false, not, ◌&&◌, Option, none, some, List, [], ◌∷◌,
  arith, if◌then◌else◌, Bool-cases, inl, inr,
}
use vmnetx.Protocol.Socket
use vmnetx.Protocol.Socket.{
  AsyncSocket, SocketError, is_some, RecvOutcome, again, failed, received, recv_outcome, io_in,
  io_in_cases, after_callback, recv, try_send, send_loop, SendOutcome, send_close_timeout,
}
use vmnetx.Protocol.Socket.Lifecycle.{
  IsValid, new-IsValid, io_in-IsValid, after_callback-IsValid, recv-IsValid, send-IsValid,
  send_close_timeout-IsValid, try_send-IsValid, send_loop_sides,
}
use vmnetx.Protocol.Forwarding.{
  Forward, forward, Side, ours, theirs, Relay, other, socket, with_socket, keep_got, bytes_of,
  changed, forwarded, delivered, readable, waits, start, Event, step, run,
}
use vmnetx.Protocol.Forwarding.Counts.{count_open, IsClosing, socket-IsValid}
use vmnetx.Protocol.Forwarding.Closing.{
  AreClosing, Inv, with_socket-socket, with_socket-Inv, changed-Inv, shutdown-Inv, keep_got-Inv,
}

-- What the calls of a read do to a socket that can still be read.
recv_open :
    (a : AsyncSocket Forward)
    → a.recv_closed ≡ false
    → ((recv a forward none).0.is_open ≡ a.is_open) × ((recv a forward none).0.recv_closed ≡ false)
unfolding recv
recv_open a h = ground arith

after_callback_open :
    (a : AsyncSocket Forward) → a.recv_closed ≡ false → (after_callback a).is_open ≡ a.is_open
unfolding after_callback
after_callback_open a h = ground arith

send_open :
    (a : AsyncSocket Forward) (buf : List ℕ)
    → ((Socket.send a buf).0.is_open ≡ a.is_open) × (IsClosing a → IsClosing (Socket.send a buf).0)
unfolding Socket.send
send_open a buf = ground arith

abbrev IsDue : AsyncSocket Forward → AsyncSocket Forward × Option (Forward × List ℕ) → Type 0
IsDue a p =
    (x : Forward × List ℕ)
    → p.1 ≡ some x
    → (p.0.is_open ≡ a.is_open) × (p.0.recv_closed ≡ a.recv_closed)

recv_outcome-IsDue : (a : AsyncSocket Forward) (o : RecvOutcome) → IsDue a (recv_outcome a o)
recv_outcome-IsDue a again x e = (refl, refl)
recv_outcome-IsDue a failed x e = absurd (ground arith)
recv_outcome-IsDue a (received []) x e = absurd (ground arith)
recv_outcome-IsDue a (received (b ∷ bs)) x e = ground arith

io_in-IsDue : (a : AsyncSocket Forward) (o : RecvOutcome) → IsDue a (io_in a o)
io_in-IsDue a o = io_in_cases (IsDue a) a o (λ x e. (refl, refl)) (recv_outcome-IsDue a o)

abbrev StaysClosing : AsyncSocket Forward → AsyncSocket Forward → Type 0
StaysClosing a b = (a.is_open ≡ false → b.is_open ≡ false) × (IsClosing a → IsClosing b)

recv_outcome-IsClosing :
    (a : AsyncSocket Forward) (o : RecvOutcome) → StaysClosing a (recv_outcome a o).0
unfolding Socket.shutdown
recv_outcome-IsClosing a again = ground arith
recv_outcome-IsClosing a failed = ground arith
recv_outcome-IsClosing a (received []) = ground arith
recv_outcome-IsClosing a (received (b ∷ bs)) = ground arith

io_in-IsClosing : (a : AsyncSocket Forward) (o : RecvOutcome) → StaysClosing a (io_in a o).0
io_in-IsClosing a o =
    io_in_cases (λ p. StaysClosing a p.0) a o (λ h. h, λ c. c) (recv_outcome-IsClosing a o)

forwarded-Inv :
    (side : Side) (buf : List ℕ) (r : Relay)
    → (socket side r).recv_closed ≡ false
    → Inv r
    → Inv (forwarded side (Socket.send (socket (other side) r) buf) r)
forwarded-Inv side buf r h i =
    go (Socket.send (socket (other side) r) buf)
      (send-IsValid (socket (other side) r) buf (socket-IsValid (other side) r i.mid))
      (send_open (socket (other side) r) buf).0 (send_open (socket (other side) r) buf).1
  where
    src_same :
        (side : Side) (d : AsyncSocket Forward) (r : Relay)
        → socket side (with_socket (other side) d r) ≡ socket side r
    src_same ours d r = refl
    src_same theirs d r = refl

    go :
        (p : AsyncSocket Forward × Option SocketError)
        → IsValid p.0
        → p.0.is_open ≡ (socket (other side) r).is_open
        → (IsClosing (socket (other side) r) → IsClosing p.0)
        → Inv (forwarded side p r)
    go (d, some e) v s c = i
    go (d, none) v s c =
        let r' = with_socket (other side) d r in
        let i' = with_socket-Inv (other side) d r v s c i in
        let h' : (socket side r').recv_closed ≡ false =
          ap (λ x. x.recv_closed) (src_same side d r) ∙ h in
        let b = (recv (socket side r') forward none).0 in
        let o = recv_open (socket side r') h' in
        with_socket-Inv side (after_callback b) r'
          (after_callback-IsValid b
            (recv-IsValid (socket side r') forward none (socket-IsValid side r' i'.mid)))
          (after_callback_open b o.1 ∙ o.0)
          (λ k. absurd (let e : true ≡ false = sym k.0 ∙ h' in ground arith)) i'

changed_same :
    (side : Side) (a : AsyncSocket Forward) (r : Relay)
    → a.is_open ≡ (socket side r).is_open
    → changed side a r ≡ with_socket side a r
unfolding changed
changed_same side a r e = elim (Bool-cases ((socket side r).is_open && not a.is_open)) [
  | inl k ↦ absurd (ground arith)
  | inr k ↦ simp k refl
]

keep_got-socket :
    (side : Side) (bytes : List ℕ) (r : Relay) → socket side (keep_got side bytes r) ≡ socket side r
keep_got-socket ours bytes r = refl
keep_got-socket theirs bytes r = refl

readable-Inv :
    (side : Side) (o : RecvOutcome) (r : Relay)
    → (socket side r).recv_closed ≡ false
    → Inv r
    → Inv (readable side o r)
unfolding readable
readable-Inv side o r h i =
    go (io_in (socket side r) o) (io_in-IsValid (socket side r) o (socket-IsValid side r i.mid))
      (io_in-IsClosing (socket side r) o) (io_in-IsDue (socket side r) o)
  where
    go :
        (p : AsyncSocket Forward × Option (Forward × List ℕ))
        → IsValid p.0
        → ((socket side r).is_open ≡ false → p.0.is_open ≡ false)
          × (IsClosing (socket side r) → IsClosing p.0)
        → ((x : Forward × List ℕ)
            → p.1 ≡ some x
            → (p.0.is_open ≡ (socket side r).is_open)
              × (p.0.recv_closed ≡ (socket side r).recv_closed))
        → Inv (delivered side p.1 (keep_got side (bytes_of o) (changed side p.0 r)))
    go (a, none) v c d =
        keep_got-Inv side (bytes_of o) (changed side a r) (changed-Inv side a r v c.0 c.1 i)
    go (a, some (forward, buf)) v c d =
        let same = d (forward, buf) refl in
        forwarded-Inv side buf (keep_got side (bytes_of o) (changed side a r))
          (ap (λ x. x.recv_closed)
              (keep_got-socket side (bytes_of o) (changed side a r)
                ∙ ap (socket side) (changed_same side a r same.0)
                ∙ (with_socket-socket side a r).0)
            ∙ same.1
            ∙ h)
          (keep_got-Inv side (bytes_of o) (changed side a r) (changed-Inv side a r v c.0 c.1 i))

-- Sending and the timer do not open a socket, nor undo its shutdown.
update-IsClosing :
    (a : AsyncSocket Forward)
    → (a.is_open ≡ false → (Socket.update a).is_open ≡ false)
      × (IsClosing a → IsClosing (Socket.update a))
unfolding Socket.update
update-IsClosing a = ground arith

send_loop_open :
    (a : AsyncSocket Forward) (outcomes : List SendOutcome)
    → (send_loop a outcomes).is_open ≡ a.is_open
unfolding send_loop
send_loop_open a [] = refl
send_loop_open a (SendOutcome.would_block ∷ outcomes) = refl
send_loop_open a (SendOutcome.broken ∷ outcomes) = ground arith
send_loop_open a (SendOutcome.sent count ∷ outcomes) =
    ground (arith, send_loop_open (Socket.take_out a count) outcomes)

if_Inv : (b : Bool) (r t : Relay) → (b ≡ true → Inv t) → Inv r → Inv (if b then t else r)
if_Inv true r t f i = f refl
if_Inv false r t f i = i

step-Inv : (r : Relay) (e : Event) → Inv r → Inv (step r e)
unfolding step try_send send_close_timeout
step-Inv r (Event.reads side o) i =
    if_Inv (waits (socket side r)) r _ (λ e. readable-Inv side o r (ground arith) i) i
step-Inv r (Event.writes side outcomes) i =
    let a = socket side r in
    let b = send_loop a outcomes in
    let sides = send_loop_sides a outcomes in
    changed-Inv side (try_send a outcomes) r
      (try_send-IsValid a outcomes (socket-IsValid side r i.mid))
      (λ h. (update-IsClosing b).0 (send_loop_open a outcomes ∙ h))
      (λ c. (update-IsClosing b).1 (sides.0 ∙ c.0, sides.1 ∙ c.1)) i
step-Inv r (Event.times_out side) i =
    let a = socket side r in
    if_Inv (a.close_timer && a.send_closing) r _
      (λ e.
        changed-Inv side (send_close_timeout a) r
          (send_close_timeout-IsValid a (ground arith) (socket-IsValid side r i.mid))
          (update-IsClosing (record a { send_buf = []; close_timer = false })).0
          (update-IsClosing (record a { send_buf = []; close_timer = false })).1 i)
      i
step-Inv r Event.shuts_down i = shutdown-Inv r i

run-Inv : (es : List Event) (r : Relay) → Inv r → Inv (run r es)
unfolding run
run-Inv [] r i = i
run-Inv (e ∷ es) r i = run-Inv es (step r e) (step-Inv r e i)

new_open : (Socket.new {C = Forward}).is_open ≡ true
unfolding Socket.new
new_open = refl

new_recv : (Socket.new {C = Forward}).recv_closed ≡ false
unfolding Socket.new
new_recv = refl

start-Inv :
    (a : AsyncSocket Forward) → IsValid a → a.is_open ≡ true → a.recv_closed ≡ false → Inv (start a)
unfolding start
start-Inv a v o h =
    let asock_open = (recv_open a h).0 ∙ o in
    let peer_open = (recv_open Socket.new new_recv).0 ∙ new_open in
    record {
      mid = record {
        asock_valid = recv-IsValid a forward none v;
        peer_valid = recv-IsValid Socket.new forward none new-IsValid;
        counts = record {
          counted = sym (λ i. 0 + (count_open (asock_open i) + count_open (peer_open i)));
          ended = refl;
        };
      };
      closing = λ e. absurd (ground arith);
      open_both = λ e. (asock_open, peer_open);
    }

-- A socket that is open and can be read is forwarded to another one. Whatever happens then, in any
-- order: the endpoint has emitted 'close' once if both sockets are closed, and never before; and once one
-- of them is closed, the other one is being shut down.
pub run-ends :
    (a : AsyncSocket Forward) (es : List Event)
    → IsValid a
    → a.is_open ≡ true
    → a.recv_closed ≡ false
    → let r = run (start a) es in
      (r.closes ≡ (if r.asock.is_open then 0 else if r.peer.is_open then 0 else 1))
      × ((r.asock.is_open && r.peer.is_open) ≡ false → AreClosing r)
run-ends a es v o h = ends (run (start a) es) (run-Inv es (start a) (start-Inv a v o h))
  where
    ends :
        (r : Relay)
        → Inv r
        → (r.closes ≡ (if r.asock.is_open then 0 else if r.peer.is_open then 0 else 1))
          × ((r.asock.is_open && r.peer.is_open) ≡ false → AreClosing r)
    ends r i = (
      let n = i.mid.counts.counted in let e = i.mid.counts.ended in ground arith,
      λ k. i.closing (let d = i.open_both in ground arith),
    )

-- ===== src/Protocol/Forwarding/Closing.antt =====
-- The end of a forwarding `_Endpoint` of vmnetx/protocol.py.
use vmnetx.Prelude.{
  ℕ, ◌≡◌, refl, sym, ◌∙◌, true, false, not, ◌&&◌, List, arith, Bool-cases, inl, inr, subst,
}
use vmnetx.Protocol.Socket
use vmnetx.Protocol.Socket.{
  AsyncSocket, SocketError, RecvOutcome, io_in, after_callback, recv, try_send, send_loop,
  send_close_timeout,
}
use vmnetx.Protocol.Socket.Lifecycle.{IsValid, shutdown_sides}
use vmnetx.Protocol.Forwarding
use vmnetx.Protocol.Forwarding.{
  Forward, Side, ours, theirs, Relay, other, socket, with_socket, keep_got, lost_socket,
  shut_socket, on_close, changed, forwarded, delivered, readable, start, Event, step, run,
}
use vmnetx.Protocol.Forwarding.Counts.{
  IsClosing, lost_socket-socket, Mid, lost_socket-Mid, with_socket-Counts_closed,
  with_socket-Counts_same, with_socket-Mid, stays_closed, both_of, shut_socket-Mid, detached-Mid,
  shutdown-Mid,
}

-- The two sockets are shut down together.
abbrev pub AreClosing : Relay → Type 0
AreClosing r = IsClosing r.asock × IsClosing r.peer

lost_socket-AreClosing : (n : ℕ) (r : Relay) → AreClosing r → AreClosing (lost_socket n r)
lost_socket-AreClosing n r c = (
  subst IsClosing (sym (lost_socket-socket n ours r).0) c.0,
  subst IsClosing (sym (lost_socket-socket n theirs r).0) c.1,
)

pub with_socket-socket :
    (side : Side) (a : AsyncSocket Forward) (r : Relay)
    → (socket side (with_socket side a r) ≡ a)
      × (socket (other side) (with_socket side a r) ≡ socket (other side) r)
      × ((with_socket side a r).attached ≡ r.attached)
with_socket-socket ours a r = (refl, refl, refl)
with_socket-socket theirs a r = (refl, refl, refl)

shut_socket-socket :
    (side : Side) (r : Relay)
    → (socket side (shut_socket side r) ≡ Socket.shutdown (socket side r))
      × (socket (other side) (shut_socket side r) ≡ socket (other side) r)
      × ((shut_socket side r).attached ≡ r.attached)
unfolding shut_socket
shut_socket-socket side r =
    let a = socket side r in
    let b = Socket.shutdown a in
    let r' = with_socket side b r in
    let facts = with_socket-socket side b r in
    elim (Bool-cases (a.is_open && not b.is_open)) [
      | inl e ↦ simp e (
        (lost_socket-socket r'.open_sockets side r').0 ∙ facts.0,
        (lost_socket-socket r'.open_sockets (other side) r').0 ∙ facts.1,
        (lost_socket-socket r'.open_sockets side r').1 ∙ facts.2,
      )
      | inr e ↦ simp e facts
    ]

shutdown-AreClosing :
    (k : ℕ) (r : Relay)
    → Mid k r
    → (r.attached ≡ false → AreClosing r)
    → AreClosing (Forwarding.shutdown r) × ((Forwarding.shutdown r).attached ≡ false)
unfolding Forwarding.shutdown
shutdown-AreClosing k r m h = elim (Bool-cases r.attached) [
  | inl e ↦
      let r1 = record r { attached = false } in
      let r2 = shut_socket theirs r1 in
      let m2 = shut_socket-Mid k theirs r1 (detached-Mid k r m) in
      let f = shut_socket-socket theirs r1 in
      let g = shut_socket-socket ours r2 in
      simp e (
        (
          subst IsClosing (sym g.0) (shutdown_sides r2.asock m2.asock_valid),
          subst IsClosing (sym (g.1 ∙ f.0)) (shutdown_sides r.peer m.peer_valid),
        ),
        g.2 ∙ f.2,
      )
  | inr e ↦ simp e (h e, refl)
]

pub record Inv (r : Relay) : Type 0 where
  pub mid : Mid 0 r
  pub closing : r.attached ≡ false → AreClosing r
  pub open_both : r.attached ≡ true → (r.asock.is_open ≡ true) × (r.peer.is_open ≡ true)

with_socket-AreClosing :
    (side : Side) (a : AsyncSocket Forward) (r : Relay)
    → (IsClosing (socket side r) → IsClosing a)
    → AreClosing r
    → AreClosing (with_socket side a r)
with_socket-AreClosing ours a r h c = (h c.0, c.1)
with_socket-AreClosing theirs a r h c = (c.0, h c.1)

-- A socket in a new state that is as open as the old one.
pub with_socket-Inv :
    (side : Side) (a : AsyncSocket Forward) (r : Relay)
    → IsValid a
    → a.is_open ≡ (socket side r).is_open
    → (IsClosing (socket side r) → IsClosing a)
    → Inv r
    → Inv (with_socket side a r)
with_socket-Inv side a r v e h i = record {
  mid = with_socket-Mid 0 side a r v i.mid (with_socket-Counts_same 0 side a r e i.mid.counts);
  closing =
      λ d. with_socket-AreClosing side a r h (i.closing (sym (with_socket-socket side a r).2 ∙ d));
  open_both = open_pair side a r e (λ d. i.open_both (sym (with_socket-socket side a r).2 ∙ d));
}
  where
    open_pair :
        (side : Side) (a : AsyncSocket Forward) (r : Relay)
        → a.is_open ≡ (socket side r).is_open
        → ((with_socket side a r).attached ≡ true
            → (r.asock.is_open ≡ true) × (r.peer.is_open ≡ true))
        → (with_socket side a r).attached ≡ true
        → ((with_socket side a r).asock.is_open ≡ true)
          × ((with_socket side a r).peer.is_open ≡ true)
    open_pair ours a r e f d = (e ∙ (f d).0, (f d).1)
    open_pair theirs a r e f d = ((f d).0, e ∙ (f d).1)

detached-Inv : (r : Relay) → Mid 0 r → AreClosing r → r.attached ≡ false → Inv r
detached-Inv r m c d = record { mid = m; closing = λ e. c; open_both = λ e. absurd (ground arith) }

pub changed-Inv :
    (side : Side) (a : AsyncSocket Forward) (r : Relay)
    → IsValid a
    → ((socket side r).is_open ≡ false → a.is_open ≡ false)
    → (IsClosing (socket side r) → IsClosing a)
    → Inv r
    → Inv (changed side a r)
unfolding changed
changed-Inv side a r v h c i = elim (Bool-cases ((socket side r).is_open && not a.is_open)) [
  | inl e ↦
      let o = both_of (socket side r).is_open a.is_open e in
      let r' = with_socket side a r in
      let n =
        with_socket-Mid 0 side a r v i.mid
          (with_socket-Counts_closed 0 side a r o.0 o.1 i.mid.counts) in
      let t = Forwarding.shutdown r' in
      let d = shutdown-AreClosing 1 r' n (λ e'.
        with_socket-AreClosing side a r c (i.closing (sym (with_socket-socket side a r).2 ∙ e'))) in
      simp e (
        detached-Inv (lost_socket t.open_sockets t) (lost_socket-Mid 0 t (shutdown-Mid 1 r' n))
          (lost_socket-AreClosing t.open_sockets t d.0)
          ((lost_socket-socket t.open_sockets side t).1 ∙ d.1))
  | inr e ↦
      simp e (with_socket-Inv side a r v (stays_closed (socket side r).is_open a.is_open h e) c i)
]

pub shutdown-Inv : (r : Relay) → Inv r → Inv (Forwarding.shutdown r)
shutdown-Inv r i =
    let d = shutdown-AreClosing 0 r i.mid i.closing in
    detached-Inv (Forwarding.shutdown r) (shutdown-Mid 0 r i.mid) d.0 d.1

pub keep_got-Inv : (side : Side) (bytes : List ℕ) (r : Relay) → Inv r → Inv (keep_got side bytes r)
keep_got-Inv ours bytes r i = record {
  mid = record {
    asock_valid = i.mid.asock_valid;
    peer_valid = i.mid.peer_valid;
    counts = record { counted = i.mid.counts.counted; ended = i.mid.counts.ended };
  };
  closing = i.closing;
  open_both = i.open_both;
}
keep_got-Inv theirs bytes r i = record {
  mid = record {
    asock_valid = i.mid.asock_valid;
    peer_valid = i.mid.peer_valid;
    counts = record { counted = i.mid.counts.counted; ended = i.mid.counts.ended };
  };
  closing = i.closing;
  open_both = i.open_both;
}

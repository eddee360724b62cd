-- ===== src/Protocol/Forwarding/Counts.antt =====
-- How many sockets of a forwarding `_Endpoint` of vmnetx/protocol.py are open.
use vmnetx.Prelude.{
  ℕ, zero, suc, ◌+◌, ◌≡◌, refl, sym, ◌∙◌, Bool, true, false, not, ◌&&◌, arith, if◌then◌else◌,
  Bool-cases, inl, inr, subst,
}
use vmnetx.Protocol.Socket
use vmnetx.Protocol.Socket.{
  AsyncSocket, SocketError, RecvOutcome, io_in, after_callback, recv, try_send, send_loop,
  send_close_timeout,
}
use vmnetx.Protocol.Socket.Lifecycle.{IsValid, shutdown-IsValid}
use vmnetx.Protocol.Forwarding
use vmnetx.Protocol.Forwarding.{
  Forward, Side, ours, theirs, Relay, other, socket, with_socket, keep_got, lost_socket,
  shut_socket, on_close, changed, forwarded, delivered, readable, start, Event, step, run,
}

abbrev pub count_open : Bool → ℕ
count_open b = if b then 1 else 0

-- A socket that is being shut down, or was.
abbrev pub IsClosing : AsyncSocket Forward → Type 0
IsClosing a = (a.recv_closed ≡ true) × (a.send_closing ≡ true)

abbrev pub count_ended : ℕ → ℕ
count_ended zero = 1
count_ended (suc n) = 0

-- The count of sockets is that of the open ones and of `k` whose 'close' is still being handled, and 'close'
-- was emitted when it got to 0.
pub record Counts (k : ℕ) (r : Relay) : Type 0 where
  pub counted : r.open_sockets ≡ k + (count_open r.asock.is_open + count_open r.peer.is_open)
  pub ended : r.closes ≡ count_ended r.open_sockets

pub lost_socket-Counts :
    (k : ℕ) (r : Relay) → Counts (suc k) r → Counts k (lost_socket r.open_sockets r)
lost_socket-Counts k r c = go r.open_sockets refl
  where
    go : (n : ℕ) → n ≡ r.open_sockets → Counts k (lost_socket n r)
    go zero e = absurd (omega (arith, c.counted, e))
    go (suc zero) e = ground (arith, c.counted, c.ended)
    go (suc (suc n)) e = ground (arith, c.counted, c.ended)

pub lost_socket-socket :
    (n : ℕ) (side : Side) (r : Relay)
    → (socket side (lost_socket n r) ≡ socket side r) × ((lost_socket n r).attached ≡ r.attached)
lost_socket-socket zero side r = (refl, refl)
lost_socket-socket (suc zero) ours r = (refl, refl)
lost_socket-socket (suc zero) theirs r = (refl, refl)
lost_socket-socket (suc (suc n)) ours r = (refl, refl)
lost_socket-socket (suc (suc n)) theirs r = (refl, refl)

-- Both sockets are valid, and the count is right but for `k` sockets.
pub record Mid (k : ℕ) (r : Relay) : Type 0 where
  pub asock_valid : IsValid r.asock
  pub peer_valid : IsValid r.peer
  pub counts : Counts k r

pub lost_socket-Mid : (k : ℕ) (r : Relay) → Mid (suc k) r → Mid k (lost_socket r.open_sockets r)
lost_socket-Mid k r m = record {
  asock_valid = subst IsValid (sym (lost_socket-socket r.open_sockets ours r).0) m.asock_valid;
  peer_valid = subst IsValid (sym (lost_socket-socket r.open_sockets theirs r).0) m.peer_valid;
  counts = lost_socket-Counts k r m.counts;
}

-- A socket that is replaced: it is one more whose 'close' is to be handled if it was open and is not.
pub with_socket-Counts_closed :
    (k : ℕ) (side : Side) (a : AsyncSocket Forward) (r : Relay)
    → (socket side r).is_open ≡ true
    → a.is_open ≡ false
    → Counts k r
    → Counts (suc k) (with_socket side a r)
with_socket-Counts_closed k ours a r h e c = record {
  counted = c.counted ∙ rw (h, e) (omega arith);
  ended = c.ended;
}
with_socket-Counts_closed k theirs a r h e c = record {
  counted = c.counted ∙ rw (h, e) (omega arith);
  ended = c.ended;
}

pub with_socket-Counts_same :
    (k : ℕ) (side : Side) (a : AsyncSocket Forward) (r : Relay)
    → a.is_open ≡ (socket side r).is_open
    → Counts k r
    → Counts k (with_socket side a r)
with_socket-Counts_same k ours a r e c = record { counted = c.counted ∙ rw e refl; ended = c.ended }
with_socket-Counts_same k theirs a r e c = record {
  counted = c.counted ∙ rw e refl;
  ended = c.ended;
}

pub with_socket-Mid :
    (k : ℕ) (side : Side) (a : AsyncSocket Forward) (r : Relay)
    → IsValid a
    → Mid k r
    → {j : ℕ} → Counts j (with_socket side a r)
    → Mid j (with_socket side a r)
with_socket-Mid k ours a r v m c = record { asock_valid = v; peer_valid = m.peer_valid; counts = c }
with_socket-Mid k theirs a r v m c = record {
  asock_valid = m.asock_valid;
  peer_valid = v;
  counts = c;
}

pub socket-IsValid : {k : ℕ} (side : Side) (r : Relay) → Mid k r → IsValid (socket side r)
socket-IsValid ours r m = m.asock_valid
socket-IsValid theirs r m = m.peer_valid

-- A closed socket stays closed.
pub stays_closed : (b c : Bool) → (b ≡ false → c ≡ false) → (b && not c) ≡ false → c ≡ b
stays_closed true true h e = refl
stays_closed true false h e = absurd (ground arith)
stays_closed false c h e = h refl

pub both_of : (b c : Bool) → (b && not c) ≡ true → (b ≡ true) × (c ≡ false)
both_of b c h = ground arith

pub shutdown_closed :
    (a : AsyncSocket Forward) → a.is_open ≡ false → (Socket.shutdown a).is_open ≡ false
unfolding Socket.shutdown
shutdown_closed a h = ground arith

pub shut_socket-Mid : (k : ℕ) (side : Side) (r : Relay) → Mid k r → Mid k (shut_socket side r)
unfolding shut_socket
shut_socket-Mid k side r m =
    let a = socket side r in
    let b = Socket.shutdown a in
    let v = shutdown-IsValid a (socket-IsValid side r m) in
    elim (Bool-cases (a.is_open && not b.is_open)) [
      | inl e ↦
          let o = both_of a.is_open b.is_open e in
          simp e (
            lost_socket-Mid k (with_socket side b r) (
              with_socket-Mid k side b r v m
                (with_socket-Counts_closed k side b r o.0 o.1 m.counts)))
      | inr e ↦ simp e (
          with_socket-Mid k side b r v m (
            with_socket-Counts_same k side b r
              (stays_closed a.is_open b.is_open (shutdown_closed a) e) m.counts))
    ]

pub detached-Mid : (k : ℕ) (r : Relay) → Mid k r → Mid k (record r { attached = false })
detached-Mid k r m = record {
  asock_valid = m.asock_valid;
  peer_valid = m.peer_valid;
  counts = record { counted = m.counts.counted; ended = m.counts.ended };
}

pub shutdown-Mid : (k : ℕ) (r : Relay) → Mid k r → Mid k (Forwarding.shutdown r)
unfolding Forwarding.shutdown
shutdown-Mid k r m = elim (Bool-cases r.attached) [
  | inl e ↦ simp e (shut_socket-Mid k ours _ (shut_socket-Mid k theirs _ (detached-Mid k r m)))
  | inr e ↦ simp e m
]

pub changed-Mid :
    (side : Side) (a : AsyncSocket Forward) (r : Relay)
    → IsValid a
    → ((socket side r).is_open ≡ false → a.is_open ≡ false)
    → Mid 0 r
    → Mid 0 (changed side a r)
unfolding changed
changed-Mid side a r v h m = elim (Bool-cases ((socket side r).is_open && not a.is_open)) [
  | inl e ↦
      let o = both_of (socket side r).is_open a.is_open e in
      let n =
        with_socket-Mid 0 side a r v m (with_socket-Counts_closed 0 side a r o.0 o.1 m.counts) in
      simp e (
        lost_socket-Mid 0 (Forwarding.shutdown (with_socket side a r))
          (shutdown-Mid 1 (with_socket side a r) n))
  | inr e ↦ simp e (
      with_socket-Mid 0 side a r v m (
        with_socket-Counts_same 0 side a r (stays_closed (socket side r).is_open a.is_open h e)
          m.counts))
]

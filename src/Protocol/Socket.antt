-- ===== src/Protocol/Socket.antt =====
-- `_AsyncSocket` of vmnetx/protocol.py: a socket whose reads call back when enough bytes are there
-- and whose writes are queued. The operating system's answers are arguments. A callback is a value
-- of type `C`; who owns the socket runs it (Framing) and then calls `after_callback`.
pub mod Lifecycle
pub mod Wire
pub mod Closing
use vmnetx.Prelude.{
  ℕ, zero, suc, ◌+◌, ◌-◌, Bool, true, false, not, ◌&&◌, ◌||◌, Option, none, some, List, [], ◌∷◌,
  ◌++◌, if◌then◌else◌, ltb, length, take, drop,
}
use vmnetx.Prelude.Int.{ℤ, pos, negsuc, ◌-ℤ◌}

abbrev pub default_recv_buf : ℕ
default_recv_buf = 65536

pub record AsyncSocket (C : Type 0) : Type 0 where
  pub is_open : Bool  -- `_sock` is not None
  pub recv_buf : List ℕ
  pub recv_remaining : Option ℤ  -- a Python int, which may go below 0
  pub recv_callback : Option C
  pub recv_closed : Bool
  pub send_buf : List ℕ
  pub close_timer : Bool  -- `_send_close_timeout_source` is not None
  pub send_closing : Bool
  pub send_closed : Bool
  pub watches_in : Bool  -- the conditions of `_source`
  pub watches_out : Bool
  pub wire : List ℕ  -- the bytes that the system has taken to send, oldest first
  pub closes : ℕ  -- how often 'close' has been emitted

pub data SocketError : Type 0 where
  socket_closed : SocketError  -- IOError('Socket closed')
  callback_registered : SocketError  -- ValueError('Callback already registered')

abbrev pub is_empty : {A : Type 0} → List A → Bool
is_empty [] = true
is_empty (x ∷ xs) = false

abbrev pub is_some : {A : Type 0} → Option A → Bool
is_some none = false
is_some (some a) = true

module _ {C : Type 0} where
  -- The first part of `_update`: the deferred SHUT_WR.
  abbrev pub close_send_side : AsyncSocket C → AsyncSocket C
  close_send_side s =
      if s.send_closing && not s.send_closed && is_empty s.send_buf
      then record s { send_closed = true; close_timer = false }
      else s

  -- The rest: the socket is closed when both sides are, and is watched otherwise.
  abbrev pub close_or_watch : AsyncSocket C → AsyncSocket C
  close_or_watch s =
      if s.send_closed && s.recv_closed
      then record s {
        is_open = false;
        watches_in = false;
        watches_out = false;
        closes = suc s.closes;
      }
      else record s {
        watches_in = is_some s.recv_callback && not s.recv_closed;
        watches_out = not (is_empty s.send_buf) && not s.send_closed;
      }

  unfoldable pub update : AsyncSocket C → AsyncSocket C
  update s = if s.is_open then close_or_watch (close_send_side s) else s

  unfoldable pub new : AsyncSocket C
  unfolding update
  new = update (record {
    is_open = true;
    recv_buf = [];
    recv_remaining = some (pos 0);
    recv_callback = none;
    recv_closed = false;
    send_buf = [];
    close_timer = false;
    send_closing = false;
    send_closed = false;
    watches_in = false;
    watches_out = false;
    wire = [];
    closes = 0;
  })

  unfoldable pub shutdown : AsyncSocket C → AsyncSocket C
  unfolding update
  shutdown s = update (record s {
    recv_closed = true;
    send_closing = true;
    close_timer = if not s.send_closed && not s.close_timer then true else s.close_timer;
  })

-- The outcome of `sock.recv(n)`: EAGAIN or EWOULDBLOCK, another error, or bytes; no bytes are EOF.
pub data RecvOutcome : Type 0 where
  again failed : RecvOutcome
  received : List ℕ → RecvOutcome

-- `_recv_remaining or DEFAULT_RECV_BUF`, the size given to `sock.recv`; for a negative one it raises
-- ValueError.
abbrev pub recv_limit : Option ℤ → ℤ
recv_limit none = pos default_recv_buf
recv_limit (some (pos zero)) = pos default_recv_buf
recv_limit (some n) = n

abbrev pub is_negative : Option ℤ → Bool
is_negative (some (negsuc n)) = true
is_negative _ = false

abbrev pub less_received : Option ℤ → ℕ → Option ℤ
less_received none n = none
less_received (some r) n = some (r -ℤ pos n)

-- `_recv_remaining is None or _recv_remaining == 0`
abbrev pub is_complete : Option ℤ → Bool
is_complete none = true
is_complete (some (pos zero)) = true
is_complete (some _) = false

module _ {C : Type 0} where
  -- The branch for bytes that are not EOF: the callback to run, if any, with its argument.
  abbrev pub take_in : AsyncSocket C → List ℕ → AsyncSocket C × Option (C × List ℕ)
  take_in s buf =
      let buf' = s.recv_buf ++ buf in
      let remaining = less_received s.recv_remaining (length buf) in
      if is_complete remaining
      then (
        record s { recv_buf = buf'; recv_remaining = remaining; recv_callback = none },
        elim s.recv_callback [ none ↦ none | some cb ↦ some (cb, buf') ],
      )
      else (record s { recv_buf = buf'; recv_remaining = remaining }, none)

  -- What the outcome of `sock.recv` comes to.
  abbrev pub recv_outcome : AsyncSocket C → RecvOutcome → AsyncSocket C × Option (C × List ℕ)
  recv_outcome s again = (s, none)
  recv_outcome s failed = (shutdown s, none)
  recv_outcome s (received []) = (shutdown s, none)
  recv_outcome s (received (x ∷ xs)) = take_in s (x ∷ xs)

  -- The first half of `_io_ready`, for IO_IN. The ValueError of a negative size is not caught: nothing
  -- is read, and nothing else is done.
  unfoldable pub io_in : AsyncSocket C → RecvOutcome → AsyncSocket C × Option (C × List ℕ)
  io_in s o = if is_negative s.recv_remaining then (s, none) else recv_outcome s o

  -- Either nothing is done, or what the outcome asks for.
  pub io_in_cases :
      (P : AsyncSocket C × Option (C × List ℕ) → Type 0) (s : AsyncSocket C) (o : RecvOutcome)
      → P (s, none)
      → P (recv_outcome s o)
      → P (io_in s o)
  unfolding io_in
  io_in_cases P s o p q =
      elim (is_negative s.recv_remaining) as (λ b. P (if b then (s, none) else recv_outcome s o)) [
        | true ↦ p
        | false ↦ q
      ]

  -- What `_io_ready` does when the callback has returned.
  unfoldable pub after_callback : AsyncSocket C → AsyncSocket C
  unfolding update
  after_callback s = update (record s { recv_buf = [] })

  unfoldable pub recv : AsyncSocket C → C → Option ℕ → AsyncSocket C × Option SocketError
  unfolding update
  recv s callback count =
      if is_some s.recv_callback
      then (s, some callback_registered)
      else if s.recv_closed
      then (s, some socket_closed)
      else (
        update (record s {
          recv_remaining = elim count [ none ↦ none | some n ↦ some (pos n) ];
          recv_callback = some callback;
        }),
        none,
      )

  unfoldable pub send : AsyncSocket C → List ℕ → AsyncSocket C × Option SocketError
  send s buf =
      if s.send_closing || s.send_closed
      then (s, some socket_closed)
      else (record s { send_buf = s.send_buf ++ buf }, none)

-- The outcome of `sock.send(buf)`: how many bytes were taken, EAGAIN, or another error.
pub data SendOutcome : Type 0 where
  sent : ℕ → SendOutcome
  would_block broken : SendOutcome

module _ {C : Type 0} where
  -- `count` bytes of the buffer are taken by the system.
  abbrev pub take_out : AsyncSocket C → ℕ → AsyncSocket C
  take_out s count = record s {
    wire = s.wire ++ take count s.send_buf;
    send_buf = drop count s.send_buf;
  }

  -- The loop of `_try_send`, over the system's answers; with no more answers it stops.
  unfoldable pub send_loop : AsyncSocket C → List SendOutcome → AsyncSocket C
  send_loop s [] = s
  send_loop s (sent count ∷ outcomes) =
      let rest = send_loop (take_out s count) outcomes in if is_empty s.send_buf then s else rest
  send_loop s (would_block ∷ outcomes) = s
  send_loop s (broken ∷ outcomes) =
      if is_empty s.send_buf then s else record s { send_closed = true; send_buf = [] }

  unfoldable pub try_send : AsyncSocket C → List SendOutcome → AsyncSocket C
  unfolding update send_loop
  try_send s outcomes = update (send_loop s outcomes)

  -- SHUTDOWN_TIMEOUT seconds after `shutdown`.
  unfoldable pub send_close_timeout : AsyncSocket C → AsyncSocket C
  unfolding update
  send_close_timeout s = update (record s { send_buf = []; close_timer = false })

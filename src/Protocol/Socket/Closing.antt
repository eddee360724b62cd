-- ===== src/Protocol/Socket/Closing.antt =====
-- How an `_AsyncSocket` of vmnetx/protocol.py closes after `shutdown`.
use vmnetx.Prelude.{
  ℕ, ◌≡◌, refl, ◌∙◌, Bool, true, false, ◌&&◌, Option, some, List, [], ◌∷◌, arith, if◌then◌else◌,
}
use vmnetx.Protocol.Socket.{
  AsyncSocket, SocketError, is_empty, is_some, update, shutdown, RecvOutcome, again, failed,
  received, recv_outcome, io_in_cases, after_callback, recv, send, SendOutcome, send_loop, try_send,
  send_close_timeout,
}
use vmnetx.Protocol.Socket.Lifecycle.{
  Event, readable, called_back, asked, queued, writable, timed_out, shut_down, step, run, IsValid,
  run-IsValid_from, shutdown-IsValid, shutdown_sides, send_loop_sides,
}

module _ {C : Type 0} where
  update-closes :
      (s : AsyncSocket C)
      → s.recv_closed ≡ true
      → s.send_closing ≡ true
      → s.send_buf ≡ []
      → (update s).is_open ≡ false
  unfolding update
  update-closes s h k e = ground arith

  drained-closes :
      (s : AsyncSocket C) (outcomes : List SendOutcome)
      → s.recv_closed ≡ true
      → s.send_closing ≡ true
      → (send_loop s outcomes).send_buf ≡ []
      → (try_send s outcomes).is_open ≡ false
  unfolding try_send
  drained-closes s outcomes h k e =
      let f = send_loop_sides s outcomes in
      update-closes (send_loop s outcomes) (f.0 ∙ h) (f.1 ∙ k) e

  timeout-closes :
      (s : AsyncSocket C)
      → s.recv_closed ≡ true
      → s.send_closing ≡ true
      → (send_close_timeout s).is_open ≡ false
  unfolding send_close_timeout
  timeout-closes s h k = ground arith

  send_closing-refuses :
      (s : AsyncSocket C) (buf : List ℕ)
      → s.send_closing ≡ true
      → send s buf ≡ (s, some SocketError.socket_closed)
  unfolding send
  send_closing-refuses s buf h = ground arith

  recv_closed-refuses :
      (s : AsyncSocket C) (cb : C) (n : Option ℕ)
      → s.recv_closed ≡ true
      → is_some (recv s cb n).1 ≡ true
  unfolding recv
  recv_closed-refuses s cb n h = ground arith

  -- A socket that was shut down.
  abbrev pub IsShut : AsyncSocket C → Type 0
  IsShut s = (s.recv_closed ≡ true) × (s.send_closing ≡ true)

  update-IsShut : (s : AsyncSocket C) → IsShut s → IsShut (update s)
  unfolding update
  update-IsShut s h = ground arith

  recv_outcome-IsShut :
      (s : AsyncSocket C) (o : RecvOutcome) → IsShut s → IsShut (recv_outcome s o).0
  recv_outcome-IsShut s again h = h
  recv_outcome-IsShut s failed h = unfold shutdown in update-IsShut _ (refl, refl)
  recv_outcome-IsShut s (received []) h = unfold shutdown in update-IsShut _ (refl, refl)
  recv_outcome-IsShut s (received (x ∷ xs)) h = ground arith

  if_IsShut : (b : Bool) (s t : AsyncSocket C) → IsShut s → IsShut t → IsShut (if b then t else s)
  if_IsShut true s t h k = k
  if_IsShut false s t h k = h

  step-IsShut : (s : AsyncSocket C) (e : Event C) → IsShut s → IsShut (step s e)
  unfolding step after_callback recv send try_send send_close_timeout shutdown
  step-IsShut s (readable o) h = io_in_cases (λ p. IsShut p.0) s o h (recv_outcome-IsShut s o h)
  step-IsShut s called_back h = update-IsShut _ h
  step-IsShut s (asked cb n) h = ground arith
  step-IsShut s (queued buf) h = ground arith
  step-IsShut s (writable outcomes) h =
      let f = send_loop_sides s outcomes in
      update-IsShut (send_loop s outcomes) (f.0 ∙ h.0, f.1 ∙ h.1)
  step-IsShut s timed_out h =
      if_IsShut (s.close_timer && s.send_closing) s (send_close_timeout s) h
        (update-IsShut (record s { send_buf = []; close_timer = false }) h)
  step-IsShut s shut_down h = update-IsShut _ (refl, refl)

  run-IsShut : (es : List (Event C)) (s : AsyncSocket C) → IsShut s → IsShut (run s es)
  unfolding run
  run-IsShut [] s h = h
  run-IsShut (e ∷ es) s h = run-IsShut es (step s e) (step-IsShut s e h)

  -- A socket that was shut down and is still open has bytes to send and the timer running; it closes
  -- when they are sent, or when the timer fires.
  open_closes :
      (t : AsyncSocket C)
      → IsValid t
      → IsShut t
      → t.is_open ≡ true
      → (is_empty t.send_buf ≡ false)
        × (t.close_timer ≡ true)
        × ((step t timed_out).is_open ≡ false)
        × ((outcomes : List SendOutcome)
            → (send_loop t outcomes).send_buf ≡ []
            → (step t (writable outcomes)).is_open ≡ false)
  unfolding step
  open_closes t v h o =
      let sending : t.send_closed ≡ false = let k = v.open_side o in ground arith in
      let p = v.pending h.1 sending in
      let due : (t.close_timer && t.send_closing) ≡ true = λ i. p.1 i && h.1 i in
      (
        p.0,
        p.1,
        simp due (timeout-closes t h.0 h.1),
        λ outcomes e. drained-closes t outcomes h.0 h.1 e,
      )

  -- After `shutdown`, and whatever calls and events follow: as long as the socket is open there are
  -- bytes to send and the timer runs; the socket closes when a round of sending empties the buffer, and
  -- when the timer fires; and it refuses more bytes and more reads.
  pub shutdown-closes :
      (s : AsyncSocket C) (es : List (Event C))
      → IsValid s
      → let t = run (shutdown s) es in
        (t.is_open ≡ true
          → (is_empty t.send_buf ≡ false)
            × (t.close_timer ≡ true)
            × ((step t timed_out).is_open ≡ false)
            × ((outcomes : List SendOutcome)
                → (send_loop t outcomes).send_buf ≡ []
                → (step t (writable outcomes)).is_open ≡ false))
        × ((buf : List ℕ) → send t buf ≡ (t, some SocketError.socket_closed))
        × ((cb : C) (n : Option ℕ) → is_some (recv t cb n).1 ≡ true)
  shutdown-closes s es v =
      let t = run (shutdown s) es in
      let h = run-IsShut es (shutdown s) (shutdown_sides s v) in
      (
        open_closes t (run-IsValid_from (shutdown s) es (shutdown-IsValid s v)) h,
        λ buf. send_closing-refuses t buf h.1,
        λ cb n. recv_closed-refuses t cb n h.0,
      )

-- ===== src/Protocol/Socket/Lifecycle.antt =====
-- The life of an `_AsyncSocket` of vmnetx/protocol.py: when it closes, and what becomes of the bytes
-- given to it.
use vmnetx.Prelude.{
  ℕ, ◌≡◌, refl, sym, true, false, ◌&&◌, Option, List, [], ◌∷◌, subst, arith, inl, inr, Bool-cases,
  if◌then◌else◌,
}
use vmnetx.Protocol.Socket.{
  AsyncSocket, is_empty, update, new, shutdown, RecvOutcome, again, failed, received, recv_outcome,
  io_in, io_in_cases, after_callback, recv, send, SendOutcome, sent, would_block, broken, take_out,
  send_loop, try_send, send_close_timeout,
}

-- What holds of a socket between two events of the main loop.
pub record IsValid {C : Type 0} (s : AsyncSocket C) : Type 0 where
  pub open_once : s.is_open ≡ true → s.closes ≡ 0
  pub closed_once : s.is_open ≡ false → s.closes ≡ 1
  pub closed_sides : s.is_open ≡ false → (s.recv_closed ≡ true) × (s.send_closed ≡ true)
  pub open_side : s.is_open ≡ true → (s.recv_closed && s.send_closed) ≡ false
  pub closed_empty : s.send_closed ≡ true → s.send_buf ≡ []
  pub recv_closing : s.recv_closed ≡ true → s.send_closing ≡ true
  pub pending :
      s.send_closing ≡ true
      → s.send_closed ≡ false
      → (is_empty s.send_buf ≡ false) × (s.close_timer ≡ true)

-- The same before `_update` has run.
record IsNearlyValid {C : Type 0} (s : AsyncSocket C) : Type 0 where
  open_once : s.is_open ≡ true → s.closes ≡ 0
  closed_once : s.is_open ≡ false → s.closes ≡ 1
  closed_sides : s.is_open ≡ false → (s.recv_closed ≡ true) × (s.send_closed ≡ true)
  closed_empty : s.send_closed ≡ true → s.send_buf ≡ []
  recv_closing : s.recv_closed ≡ true → s.send_closing ≡ true
  pending :
      s.send_closing ≡ true
      → s.send_closed ≡ false
      → is_empty s.send_buf ≡ false
      → s.close_timer ≡ true

module _ {C : Type 0} where
  update-IsValid : (s : AsyncSocket C) → IsNearlyValid s → IsValid (update s)
  unfolding update
  update-IsValid s v = ground arith

  pub new-IsValid : IsValid (new {C = C})
  unfolding new
  new-IsValid = ground arith

  pub shutdown-IsValid : (s : AsyncSocket C) → IsValid s → IsValid (shutdown s)
  unfolding shutdown
  shutdown-IsValid s v = ground arith

  recv_outcome-IsValid :
      (s : AsyncSocket C) (o : RecvOutcome) → IsValid s → IsValid (recv_outcome s o).0
  recv_outcome-IsValid s again v = v
  recv_outcome-IsValid s failed v = shutdown-IsValid s v
  recv_outcome-IsValid s (received []) v = shutdown-IsValid s v
  recv_outcome-IsValid s (received (x ∷ xs)) v = ground arith

  pub io_in-IsValid : (s : AsyncSocket C) (o : RecvOutcome) → IsValid s → IsValid (io_in s o).0
  io_in-IsValid s o v = io_in_cases (λ p. IsValid p.0) s o v (recv_outcome-IsValid s o v)

  pub after_callback-IsValid : (s : AsyncSocket C) → IsValid s → IsValid (after_callback s)
  unfolding after_callback
  after_callback-IsValid s v = ground arith

  pub recv-IsValid :
      (s : AsyncSocket C) (cb : C) (n : Option ℕ) → IsValid s → IsValid (recv s cb n).0
  unfolding recv
  recv-IsValid s cb n v = ground arith

  pub send-IsValid : (s : AsyncSocket C) (buf : List ℕ) → IsValid s → IsValid (send s buf).0
  unfolding send
  send-IsValid s buf v = ground arith

  pub send_close_timeout-IsValid :
      (s : AsyncSocket C) → s.send_closing ≡ true → IsValid s → IsValid (send_close_timeout s)
  unfolding send_close_timeout
  send_close_timeout-IsValid s h v = ground arith

  nearly : (s : AsyncSocket C) → IsValid s → IsNearlyValid s
  nearly s v = ground arith

  send_one-IsNearlyValid :
      (s : AsyncSocket C) (count : ℕ)
      → IsNearlyValid s
      → is_empty s.send_buf ≡ false
      → IsNearlyValid (take_out s count)
  send_one-IsNearlyValid s count v h = ground arith

  send_loop-IsNearlyValid :
      (s : AsyncSocket C) (outcomes : List SendOutcome)
      → IsNearlyValid s
      → IsNearlyValid (send_loop s outcomes)
  unfolding send_loop
  send_loop-IsNearlyValid s [] v = v
  send_loop-IsNearlyValid s (would_block ∷ outcomes) v = v
  send_loop-IsNearlyValid s (broken ∷ outcomes) v = ground arith
  send_loop-IsNearlyValid s (sent count ∷ outcomes) v = elim (Bool-cases (is_empty s.send_buf)) [
    | inl e ↦ subst (λ b. IsNearlyValid (if b then s else rest)) (sym e) v
    | inr e ↦
        subst (λ b. IsNearlyValid (if b then s else rest)) (sym e)
          (send_loop-IsNearlyValid (take_out s count) outcomes (send_one-IsNearlyValid s count v e))
  ]
    where
      rest : AsyncSocket C
      rest = send_loop (take_out s count) outcomes

  pub try_send-IsValid :
      (s : AsyncSocket C) (outcomes : List SendOutcome) → IsValid s → IsValid (try_send s outcomes)
  unfolding try_send
  try_send-IsValid s outcomes v =
      update-IsValid (send_loop s outcomes) (send_loop-IsNearlyValid s outcomes (nearly s v))

-- What can happen to a socket: calls of its methods, and events of the main loop. A callback that is
-- due is run by later events.
pub data Event (C : Type 0) : Type 0 where
  readable : RecvOutcome → Event C
  called_back : Event C
  asked : C → Option ℕ → Event C
  queued : List ℕ → Event C
  writable : List SendOutcome → Event C
  timed_out : Event C
  shut_down : Event C

module _ {C : Type 0} where
  -- The timer fires only if it is set.
  unfoldable pub step : AsyncSocket C → Event C → AsyncSocket C
  step s (readable o) = (io_in s o).0
  step s called_back = after_callback s
  step s (asked cb n) = (recv s cb n).0
  step s (queued buf) = (send s buf).0
  step s (writable outcomes) = try_send s outcomes
  step s timed_out = if s.close_timer && s.send_closing then send_close_timeout s else s
  step s shut_down = shutdown s

  unfoldable pub run : AsyncSocket C → List (Event C) → AsyncSocket C
  run s [] = s
  run s (e ∷ es) = run (step s e) es

  pub step-IsValid : (s : AsyncSocket C) (e : Event C) → IsValid s → IsValid (step s e)
  unfolding step
  step-IsValid s (readable o) v = io_in-IsValid s o v
  step-IsValid s called_back v = after_callback-IsValid s v
  step-IsValid s (asked cb n) v = recv-IsValid s cb n v
  step-IsValid s (queued buf) v = send-IsValid s buf v
  step-IsValid s (writable outcomes) v = try_send-IsValid s outcomes v
  step-IsValid s timed_out v = elim (Bool-cases (s.close_timer && s.send_closing)) [
    | inl e ↦
        subst (λ b. IsValid (if b then send_close_timeout s else s)) (sym e)
          (send_close_timeout-IsValid s (ground arith) v)
    | inr e ↦ subst (λ b. IsValid (if b then send_close_timeout s else s)) (sym e) v
  ]
  step-IsValid s shut_down v = shutdown-IsValid s v

  pub run-IsValid_from : (s : AsyncSocket C) (es : List (Event C)) → IsValid s → IsValid (run s es)
  unfolding run
  run-IsValid_from s [] v = v
  run-IsValid_from s (e ∷ es) v = run-IsValid_from (step s e) es (step-IsValid s e v)

  -- After any calls and events: the socket is closed exactly when both sides are, 'close' has then
  -- been emitted once and never before, and a side that waits to close has bytes to send and a timer.
  pub run-IsValid : (es : List (Event C)) → IsValid (run (new {C = C}) es)
  run-IsValid es = run-IsValid_from new es new-IsValid

  pub shutdown_sides :
      (s : AsyncSocket C)
      → IsValid s
      → ((shutdown s).recv_closed ≡ true) × ((shutdown s).send_closing ≡ true)
  unfolding shutdown
  shutdown_sides s v = ground arith

  pub send_loop_sides :
      (s : AsyncSocket C) (outcomes : List SendOutcome)
      → ((send_loop s outcomes).recv_closed ≡ s.recv_closed)
        × ((send_loop s outcomes).send_closing ≡ s.send_closing)
  unfolding send_loop
  send_loop_sides s [] = (refl, refl)
  send_loop_sides s (would_block ∷ outcomes) = (refl, refl)
  send_loop_sides s (broken ∷ outcomes) = ground arith
  send_loop_sides s (sent count ∷ outcomes) =
      ground (arith, send_loop_sides (take_out s count) outcomes)

-- ===== src/Protocol/Socket/Wire.antt =====
-- What an `_AsyncSocket` of vmnetx/protocol.py does with the bytes given to `send`.
use vmnetx.Prelude.{
  ℕ, ◌≡◌, refl, sym, ap, ◌∙◌, Bool, true, false, ◌||◌, Option, none, some, List, [], ◌∷◌, ◌++◌,
  append_assoc, append-nil, subst, arith, inl, inr, Bool-cases, if◌then◌else◌, take, drop,
  take-append-drop, ◌&&◌,
}
use mathlib.Core.Bool.{false≢true}
use vmnetx.Protocol.Socket.{
  SocketError, socket_closed, AsyncSocket, is_empty, update, new, shutdown, RecvOutcome,
  recv_outcome, io_in, io_in_cases, again, failed, received, after_callback, recv, send,
  SendOutcome, sent, would_block, broken, take_out, send_loop, try_send, send_close_timeout,
}
use vmnetx.Protocol.Socket.Lifecycle.{
  Event, readable, called_back, asked, queued, writable, timed_out, shut_down, step, run, IsValid,
  new-IsValid, step-IsValid,
}

module _ {C : Type 0} where
  -- The bytes that `send` has accepted during these events, oldest first.
  abbrev pub accepted_by : AsyncSocket C → Event C → List ℕ
  accepted_by s (queued buf) = if s.send_closing || s.send_closed then [] else buf
  accepted_by s _ = []

  unfoldable pub accepted : AsyncSocket C → List (Event C) → List ℕ
  accepted s [] = []
  accepted s (e ∷ es) = accepted_by s e ++ accepted (step s e) es

  -- Where the accepted bytes stand: on the wire, behind these in the buffer, and behind those lost;
  -- nothing is lost while the send side is open.
  pub record InOrder (bytes : List ℕ) (s : AsyncSocket C) : Type 0 where
    pub lost : List ℕ
    pub whole : bytes ≡ s.wire ++ (s.send_buf ++ lost)
    pub none_lost : s.send_closed ≡ false → lost ≡ []

  -- Most operations leave the bytes where they are.
  abbrev Keeps : AsyncSocket C → AsyncSocket C → Type 0
  Keeps s t =
      (t.wire ≡ s.wire)
      × (t.send_buf ≡ s.send_buf)
      × (t.send_closed ≡ false → s.send_closed ≡ false)

  InOrder-Keeps :
      (bytes : List ℕ) (s t : AsyncSocket C) → Keeps s t → InOrder bytes s → InOrder (bytes ++ []) t
  InOrder-Keeps bytes s t k o = record {
    lost = o.lost;
    whole = append-nil bytes ∙ o.whole ∙ (λ i. sym k.0 i ++ (sym k.1 i ++ o.lost));
    none_lost = λ h. o.none_lost (k.2 h);
  }

  update-Keeps : (s : AsyncSocket C) → Keeps s (update s)
  unfolding update
  update-Keeps s = ground arith

  shutdown-Keeps : (s : AsyncSocket C) → Keeps s (shutdown s)
  unfolding shutdown
  shutdown-Keeps s = ground arith

  recv_outcome-Keeps : (s : AsyncSocket C) (o : RecvOutcome) → Keeps s (recv_outcome s o).0
  recv_outcome-Keeps s again = ground arith
  recv_outcome-Keeps s failed = shutdown-Keeps s
  recv_outcome-Keeps s (received []) = shutdown-Keeps s
  recv_outcome-Keeps s (received (x ∷ xs)) = ground arith

  io_in-Keeps : (s : AsyncSocket C) (o : RecvOutcome) → Keeps s (io_in s o).0
  io_in-Keeps s o = io_in_cases (λ p. Keeps s p.0) s o (refl, refl, λ h. h) (recv_outcome-Keeps s o)

  after_callback-Keeps : (s : AsyncSocket C) → Keeps s (after_callback s)
  unfolding after_callback
  after_callback-Keeps s = ground arith

  recv-Keeps : (s : AsyncSocket C) (cb : C) (n : Option ℕ) → Keeps s (recv s cb n).0
  unfolding recv
  recv-Keeps s cb n = ground arith

  send-InOrder :
      (bytes buf : List ℕ) (s : AsyncSocket C)
      → InOrder bytes s
      → InOrder (bytes ++ accepted_by s (queued buf)) (send s buf).0
  unfolding send
  send-InOrder bytes buf s o = elim (Bool-cases (s.send_closing || s.send_closed)) [
    | inl e ↦
        subst (λ b. InOrder (bytes ++ (if b then [] else buf)) (sent_if b).0) (sym e)
          (InOrder-Keeps bytes s s (refl, refl, λ h. h) o)
    | inr e ↦
        subst (λ b. InOrder (bytes ++ (if b then [] else buf)) (sent_if b).0) (sym e)
          (let gone : o.lost ≡ [] = o.none_lost (ground arith) in
            record {
              lost = [];
              whole =
                  ap (λ l. l ++ buf) (o.whole ∙ ap (λ l. s.wire ++ (s.send_buf ++ l)) gone)
                  ∙ append_assoc s.wire (s.send_buf ++ []) buf
                  ∙ ap (λ l. s.wire ++ l)
                      (append_assoc s.send_buf [] buf ∙ sym (append-nil (s.send_buf ++ buf)));
              none_lost = λ h. refl;
            })
  ]
    where
      sent_if : Bool → AsyncSocket C × Option SocketError
      sent_if b =
          if b then (s, some socket_closed) else (record s { send_buf = s.send_buf ++ buf }, none)

  take_out-InOrder :
      (bytes : List ℕ) (s : AsyncSocket C) (count : ℕ)
      → InOrder bytes s
      → InOrder bytes (take_out s count)
  take_out-InOrder bytes s count o = record {
    lost = o.lost;
    whole =
        o.whole
        ∙ ap (λ l. s.wire ++ (l ++ o.lost)) (sym (take-append-drop count s.send_buf))
        ∙ ap (λ l. s.wire ++ l)
            (append_assoc (take count s.send_buf) (drop count s.send_buf) o.lost)
        ∙ sym (append_assoc s.wire (take count s.send_buf) (drop count s.send_buf ++ o.lost));
    none_lost = o.none_lost;
  }

  send_loop-InOrder :
      (bytes : List ℕ) (s : AsyncSocket C) (outcomes : List SendOutcome)
      → InOrder bytes s
      → InOrder bytes (send_loop s outcomes)
  unfolding send_loop
  send_loop-InOrder bytes s [] o = o
  send_loop-InOrder bytes s (would_block ∷ outcomes) o = o
  send_loop-InOrder bytes s (broken ∷ outcomes) o = elim (Bool-cases (is_empty s.send_buf)) [
    | inl e ↦
        subst (λ b. InOrder bytes (if b then s else record s { send_closed = true; send_buf = [] }))
          (sym e) o
    | inr e ↦
        subst (λ b. InOrder bytes (if b then s else record s { send_closed = true; send_buf = [] }))
          (sym e) (record { lost = s.send_buf ++ o.lost; whole = o.whole; none_lost = λ h. cc })
  ]
  send_loop-InOrder bytes s (sent count ∷ outcomes) o = elim (Bool-cases (is_empty s.send_buf)) [
    | inl e ↦
        subst (λ b. InOrder bytes (if b then s else send_loop (take_out s count) outcomes)) (sym e)
          o
    | inr e ↦
        subst (λ b. InOrder bytes (if b then s else send_loop (take_out s count) outcomes)) (sym e)
          (send_loop-InOrder bytes (take_out s count) outcomes (take_out-InOrder bytes s count o))
  ]

  timeout_facts :
      (s : AsyncSocket C)
      → IsValid s
      → s.send_closing ≡ true
      → ((send_close_timeout s).wire ≡ s.wire)
        × ((send_close_timeout s).send_buf ≡ [])
        × ((send_close_timeout s).send_closed ≡ true)
  unfolding send_close_timeout
  timeout_facts s v h = ground arith

  timeout_InOrder :
      (bytes : List ℕ) (s : AsyncSocket C)
      → IsValid s
      → s.send_closing ≡ true
      → InOrder bytes s
      → InOrder (bytes ++ []) (send_close_timeout s)
  timeout_InOrder bytes s v h o =
      let f = timeout_facts s v h in
      record {
        lost = s.send_buf ++ o.lost;
        whole =
            append-nil bytes ∙ o.whole ∙ (λ i. sym f.0 i ++ (sym f.1 i ++ (s.send_buf ++ o.lost)));
        none_lost = λ k. absurd (false≢true (sym k ∙ f.2));
      }

  step-InOrder :
      (bytes : List ℕ) (s : AsyncSocket C) (e : Event C)
      → IsValid s
      → InOrder bytes s
      → InOrder (bytes ++ accepted_by s e) (step s e)
  unfolding step
  step-InOrder bytes s (readable x) v o = InOrder-Keeps bytes s _ (io_in-Keeps s x) o
  step-InOrder bytes s called_back v o = InOrder-Keeps bytes s _ (after_callback-Keeps s) o
  step-InOrder bytes s (asked cb n) v o = InOrder-Keeps bytes s _ (recv-Keeps s cb n) o
  step-InOrder bytes s (queued buf) v o = send-InOrder bytes buf s o
  step-InOrder bytes s (writable outcomes) v o =
      unfold try_send in
      InOrder-Keeps bytes (send_loop s outcomes) _ (update-Keeps (send_loop s outcomes))
        (send_loop-InOrder bytes s outcomes o)
  step-InOrder bytes s timed_out v o = elim (Bool-cases (s.close_timer && s.send_closing)) [
    | inl e ↦
        subst (λ b. InOrder (bytes ++ []) (if b then send_close_timeout s else s)) (sym e)
          (timeout_InOrder bytes s v (ground arith) o)
    | inr e ↦
        subst (λ b. InOrder (bytes ++ []) (if b then send_close_timeout s else s)) (sym e)
          (InOrder-Keeps bytes s s (refl, refl, λ h. h) o)
  ]
  step-InOrder bytes s shut_down v o = InOrder-Keeps bytes s _ (shutdown-Keeps s) o

  run-InOrder_from :
      (bytes : List ℕ) (s : AsyncSocket C) (es : List (Event C))
      → IsValid s
      → InOrder bytes s
      → InOrder (bytes ++ accepted s es) (run s es)
  unfolding run accepted
  run-InOrder_from bytes s [] v o = InOrder-Keeps bytes s s (refl, refl, λ h. h) o
  run-InOrder_from bytes s (e ∷ es) v o =
      subst (λ l. InOrder l (run (step s e) es))
        (append_assoc bytes (accepted_by s e) (accepted (step s e) es))
        (run-InOrder_from (bytes ++ accepted_by s e) (step s e) es (step-IsValid s e v)
          (step-InOrder bytes s e v o))

  -- After any calls and events, what has gone over the wire, followed by what waits in the buffer,
  -- is a prefix of the bytes that `send` has accepted, in their order; and it is all of them while
  -- the send side is open, so bytes are lost only by a broken connection or the close timeout.
  pub run-InOrder : (es : List (Event C)) → InOrder (accepted new es) (run (new {C = C}) es)
  run-InOrder es =
      run-InOrder_from [] new es new-IsValid
        (unfold new in record { lost = []; whole = refl; none_lost = λ h. refl })

-- ===== src/Protocol/Framing/Stall.antt =====
-- A message of length zero on an `_Endpoint` of vmnetx/protocol.py.
use vmnetx.Prelude.{ℕ, ◌<◌, ◌≡◌, refl, ap, ◌∙◌, true, List, [], ◌∷◌, arith, length}
use vmnetx.Prelude.Int.{◌-ℤ◌}
use vmnetx.Protocol.Socket.{RecvOutcome, received, is_negative, io_in, recv, after_callback}
use vmnetx.Protocol.Framing.{
  recv_length, recv_body, Endpoint, Handlers, call, on_length, unpack_length, ask, feed, feed_all,
}
use vmnetx.Protocol.Framing.Delivery.{Awaits, IsReady, finish, taken, taken-IsReady, whole_chunk}

abbrev pub zero_prefix : List ℕ
zero_prefix = 0 ∷ 0 ∷ 0 ∷ 0 ∷ []

module _ {State : Type 0} (h : Handlers State) where
  -- What is left to receive is less than zero, and some bytes are kept.
  record IsStalled (kept : List ℕ) (e : Endpoint State) : Type 0 where
    negative : is_negative e.asock.recv_remaining ≡ true
    buffer : e.asock.recv_buf ≡ kept

  feed-IsStalled :
      (kept : List ℕ) (e : Endpoint State) (o : RecvOutcome) → IsStalled kept e → feed h e o ≡ e
  unfolding feed io_in
  feed-IsStalled kept e o s = rw s.negative refl

  feed_all-IsStalled :
      (kept : List ℕ) (e : Endpoint State) (chunks : List (List ℕ))
      → IsStalled kept e
      → feed_all h e chunks ≡ e
  unfolding feed_all
  feed_all-IsStalled kept e [] s = refl
  feed_all-IsStalled kept e (c ∷ cs) s =
      ap (λ x. feed_all h x cs) (feed-IsStalled kept e (received c) s)
      ∙ feed_all-IsStalled kept e cs s

  -- The first bytes after the request for none.
  feed-ask-IsStalled :
      (e : Endpoint State) (c : List ℕ)
      → IsReady e
      → 0 < length c
      → IsStalled c (feed h (finish (ask recv_body 0 e)) (received c))
        × ((feed h (finish (ask recv_body 0 e)) (received c)).state ≡ e.state)
  unfolding feed io_in recv after_callback ◌-ℤ◌
  feed-ask-IsStalled e [] r p = elim p [ ]
  feed-ask-IsStalled e (x ∷ c) r p =
      (record { negative = ground arith; buffer = ground arith }, ground arith)

  -- After a length prefix of zero, the endpoint asks for no bytes, and takes the next ones that come without
  -- handling them; from then on it neither reads nor handles anything, whatever the peer sends.
  pub zero_length-stalls :
      (e : Endpoint State) (c : List ℕ) (chunks : List (List ℕ))
      → Awaits recv_length [] 4 e
      → 0 < length c
      → let t = feed_all h e (zero_prefix ∷ c ∷ chunks) in
        (t.state ≡ e.state) × (t.asock.recv_buf ≡ c)
  unfolding feed_all call on_length unpack_length
  zero_length-stalls e c chunks a n =
      let t = taken e zero_prefix in
      let u = finish (ask recv_body 0 t) in
      let v = feed h u (received c) in
      let s = feed-ask-IsStalled t c (taken-IsReady recv_length [] zero_prefix 4 e a) n in
      let all : feed_all h e (zero_prefix ∷ c ∷ chunks) ≡ v =
        ap (λ x. feed_all h x (c ∷ chunks)) (whole_chunk h recv_length [] zero_prefix 4 e a refl)
        ∙ feed_all-IsStalled c v chunks s.0 in
      (ap (λ x. x.state) all ∙ s.1, ap (λ x. x.asock.recv_buf) all ∙ s.0.buffer)

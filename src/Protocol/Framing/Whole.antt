-- ===== src/Protocol/Framing/Whole.antt =====
-- The delivery of messages by an `_Endpoint` of vmnetx/protocol.py, and where it stops.
use vmnetx.Prelude.{
  ℕ, ◌+◌, ◌≤◌, ◌<◌, ◌≡◌, refl, sym, ap, ◌∙◌, subst, List, [], ◌∷◌, ◌++◌, append_assoc, append-nil,
  arith, inl, inr, Bool-cases, ltb, drop, length-drop, length, length-append,
}
use vmnetx.Prelude.Int.{pos_part}
use vmnetx.Protocol.Socket.{received, recv_limit}
use vmnetx.Protocol.Framing.{
  Callback, recv_length, Endpoint, Handlers, frame, pack_length, leave, call, feed, feed_all,
}
use vmnetx.Protocol.Framing.Delivery.{Awaits, IsReady, taken, taken-IsReady, whole_chunk}
use vmnetx.Protocol.Framing.Stream.{
  Frame, fits, oversized, encode, concat, Admissible, Handled, none_left, Expects, at_length,
  at_body, at_overflow, Stands, part_Stands, length_Stands, body_Stands, overflow-Stands,
}

append_rest :
    {A : Type 0} (xs ys zs ws : List A)
    → xs ++ ys ≡ zs ++ ws
    → length xs ≤ length zs
    → ys ≡ drop (length xs) zs ++ ws
append_rest [] ys zs ws e l = e
append_rest (x ∷ xs) ys [] ws e l = absurd (omega arith)
append_rest (x ∷ xs) ys (z ∷ zs) ws e l =
    let t : xs ++ ys ≡ zs ++ ws = ground arith in append_rest xs ys zs ws t (omega arith)

length-frame : (body rest : List ℕ) → 4 ≤ length (frame body ++ rest)
unfolding frame pack_length
length-frame body rest = omega arith

limit-Awaits :
    {State : Type 0} (cb : Callback) (got : List ℕ) (need : ℕ) (e : Endpoint State)
    → Awaits cb got need e
    → pos_part (recv_limit e.asock.recv_remaining) ≡ need
limit-Awaits cb got need e a = ground arith

module _ {State : Type 0} (h : Handlers State) where
  called_Stands :
      {cb : Callback} {got future : List ℕ} {need : ℕ} {final : State} (c : List ℕ)
      (e : Endpoint State)
      → Expects h cb got need (c ++ future) e.state final
      → length c ≡ need
      → IsReady e
      → Stands h (leave (call h cb (got ++ c) e)) future final
  called_Stands {got = got} {future = future} {final = final} c e (at_length fs x l v) k r =
      length_Stands h fs (got ++ c) future e final r (append_assoc got c future ∙ x)
        (omega (arith, length-append got c)) v
  called_Stands {got = got} {future = future} {final = final} c e (at_body body fs {t = t} x l w v)
        k r =
      body_Stands h body fs (got ++ c) future e t final r (append_assoc got c future ∙ x)
        (omega (arith, length-append got c)) w v
  called_Stands {got = got} {future = future} {final = final} c e
        (at_overflow junk fs {left = left} x l v) k r =
      let m : length (got ++ c) + left ≡ length junk = omega (arith, length-append got c) in
      unfold call in
      overflow-Stands h (drop (length (got ++ c)) junk) fs future left e final r
        (append_rest (got ++ c) future junk (encode fs) (append_assoc got c future ∙ x)
          (omega arith))
        (omega (arith, length-drop (length (got ++ c)) junk)) v

  feed-Stands :
      (c future : List ℕ) (e : Endpoint State) (final : State)
      → Stands h e (c ++ future) final
      → 0 < length c
      → length c ≤ pos_part (recv_limit e.asock.recv_remaining)
      → Stands h (feed h e (received c)) future final
  feed-Stands c future e final s p k =
      let fits_in : length c ≤ s.need = omega (arith, limit-Awaits s.cb s.got s.need e s.awaits) in
      elim (Bool-cases (ltb (length c) s.need)) [
        | inl b ↦
            part_Stands h s.cb s.got c future s.need e final s.awaits s.expects p (ground arith)
        | inr b ↦
            let full : length c ≡ s.need = ground arith in
            subst (λ t. Stands h t future final)
              (sym (whole_chunk h s.cb s.got c s.need e s.awaits full))
              (called_Stands c (taken e (s.got ++ c)) s.expects full
                (taken-IsReady s.cb s.got (s.got ++ c) s.need e s.awaits))
      ]

  ended :
      {cb : Callback} {got : List ℕ} {need : ℕ} (s final : State)
      → Expects h cb got need [] s final
      → 0 < need
      → (s ≡ final) × (cb ≡ recv_length) × (got ≡ []) × (need ≡ 4)
  ended {got = got} s final (at_length [] x l none_left) n =
      (refl, refl, sym (append-nil got) ∙ x, omega (arith, l, length-append got [], ap length x))
  ended {got = got} s final (at_length (fits body _ _ ∷ fs) x l v) n =
      absurd (omega (arith, length-append got [], ap length x, length-frame body (encode fs)))
  ended {got = got} s final (at_length (oversized body _ _ ∷ fs) x l v) n =
      absurd (omega (arith, length-append got [], ap length x, length-frame body (encode fs)))
  ended {got = got} s final (at_body body fs x l w v) n =
      absurd (omega (arith, length-append got [], ap length x, length-append body (encode fs)))
  ended {got = got} s final (at_overflow junk fs x l v) n =
      absurd (omega (arith, length-append got [], ap length x, length-append junk (encode fs)))

  feed_all-Stands :
      (chunks : List (List ℕ)) (e : Endpoint State) (final : State)
      → Stands h e (concat chunks) final
      → Admissible h e chunks
      → Stands h (feed_all h e chunks) [] final
  unfolding feed_all
  feed_all-Stands [] e final s a = s
  feed_all-Stands (c ∷ cs) e final s a =
      feed_all-Stands cs (feed h e (received c)) final (feed-Stands c (concat cs) e final s a.0 a.1)
        a.2

  -- An endpoint that waits for a message is fed the encoding of some frames, none of them empty, in pieces
  -- that are cut anywhere. Where the subclass's handlers, in the states reached, raise no exception, do not
  -- shut the endpoint down, do not turn the protocol off and do not read, it handles exactly the messages
  -- that are not too large, in their order and each once, answers each one that is too large and skips
  -- all of it, and then waits for the next message.
  pub feed_all-process :
      (frames : List Frame) (chunks : List (List ℕ)) (e : Endpoint State) (final : State)
      → Awaits recv_length [] 4 e
      → concat chunks ≡ encode frames
      → Admissible h e chunks
      → Handled h frames e.state final
      → ((feed_all h e chunks).state ≡ final) × Awaits recv_length [] 4 (feed_all h e chunks)
  feed_all-process frames chunks e final a x k v =
      let s =
        feed_all-Stands chunks e final
          (record {
            cb = recv_length;
            got = [];
            need = 4;
            awaits = a;
            expects = at_length frames x (omega arith) v;
          })
          k in
      let d = ended (feed_all h e chunks).state final s.expects s.awaits.wanted in
      (
        d.0,
        subst (λ n. Awaits recv_length [] n (feed_all h e chunks)) d.3
            (subst (λ g. Awaits recv_length g s.need (feed_all h e chunks)) d.2
              (subst (λ cb. Awaits cb s.got s.need (feed_all h e chunks)) d.1 s.awaits)),
      )

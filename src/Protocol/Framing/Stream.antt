-- ===== src/Protocol/Framing/Stream.antt =====
-- A whole stream of messages through an `_Endpoint` of vmnetx/protocol.py, in pieces of any size.
use vmnetx.Prelude.{
  ℕ, ◌+◌, ◌-◌, ◌^◌, ◌≤◌, ◌<◌, min, ◌≡◌, refl, sym, ap, ◌∙◌, subst, Bool, true, false, List, [], ◌∷◌,
  ◌++◌, append_assoc, arith, inl, inr, Bool-cases, ltb, if◌then◌else◌, length, length-append,
}
use vmnetx.Prelude.Int.{pos_part}
use vmnetx.Protocol.Socket.{received, recv_limit}
use vmnetx.Protocol.Framing.{
  Callback, recv_length, recv_body, recv_overflow, Endpoint, max_message_size, unpack_length,
  pack_length, frame, ask, next_message, overflow, Handlers, skip_on, finally_next, leave,
  on_length, call, feed,
}
use vmnetx.Protocol.Framing.Delivery.{
  unpack_length-pack_length, length-pack_length, append_cut, Awaits, part-Awaits, IsReady, Reacts,
  finish, ask-Awaits, next_message-Awaits,
}

-- A message on the wire: one that is read, or one that is too large and skipped.
pub data Frame : Type 0 where
  fits : (body : List ℕ) → 0 < length body → length body ≤ max_message_size → Frame
  oversized : (body : List ℕ) → max_message_size < length body → length body < 2 ^ 32 → Frame

abbrev pub encode : List Frame → List ℕ
encode [] = []
encode (fits body _ _ ∷ fs) = frame body ++ encode fs
encode (oversized body _ _ ∷ fs) = frame body ++ encode fs

abbrev pub concat : List (List ℕ) → List ℕ
concat [] = []
concat (c ∷ cs) = c ++ concat cs

module _ {State : Type 0} (h : Handlers State) where
  -- Each piece holds at least one byte and at most as many as `sock.recv` was asked for.
  abbrev pub Admissible : Endpoint State → List (List ℕ) → Type 0
  Admissible e [] = Unit
  Admissible e (c ∷ cs) =
      (0 < length c)
      × (length c ≤ pos_part (recv_limit e.asock.recv_remaining))
      × Admissible (feed h e (received c)) cs

module _ {State : Type 0} (h : Handlers State) where
  -- The messages, in their order, take the subclass from one state to another: each that fits is handled
  -- once, and each that is too large is answered, by handlers that react in the state reached.
  pub data Handled : List Frame → State → State → Type 0 where
    none_left : {s : State} → Handled [] s s
    one_handled :
        {body : List ℕ} {p : 0 < length body} {k : length body ≤ max_message_size} {fs : List Frame}
        {s t u : State}
        → Reacts (h.handle body) s t
        → Handled fs t u
        → Handled (fits body p k ∷ fs) s u
    one_skipped :
        {body : List ℕ} {p : max_message_size < length body} {k : length body < 2 ^ 32}
        {fs : List Frame} {s t u : State}
        → Reacts h.too_large s t
        → Handled fs t u
        → Handled (oversized body p k ∷ fs) s u

  -- What the bytes to come are, for each callback that is waited for, and what they will do.
  pub data Expects : Callback → List ℕ → ℕ → List ℕ → State → State → Type 0 where
    at_length :
        (fs : List Frame) {got future : List ℕ} {need : ℕ} {s u : State}
        → got ++ future ≡ encode fs
        → length got + need ≡ 4
        → Handled fs s u
        → Expects recv_length got need future s u
    at_body :
        (body : List ℕ) (fs : List Frame) {got future : List ℕ} {need : ℕ} {s t u : State}
        → got ++ future ≡ body ++ encode fs
        → length got + need ≡ length body
        → Reacts (h.handle body) s t
        → Handled fs t u
        → Expects recv_body got need future s u
    at_overflow :
        (junk : List ℕ) (fs : List Frame) {got future : List ℕ} {need left : ℕ} {s u : State}
        → got ++ future ≡ junk ++ encode fs
        → length got + need + left ≡ length junk
        → Handled fs s u
        → Expects (recv_overflow left) got need future s u

  -- An endpoint and the bytes to come.
  pub record Stands (e : Endpoint State) (future : List ℕ) (final : State) : Type 0 where
    pub cb : Callback
    pub got : List ℕ
    pub need : ℕ
    pub awaits : Awaits cb got need e
    pub expects : Expects cb got need future e.state final

  -- A piece that does not complete what is waited for.
  part_Expects :
      {cb : Callback} {got future : List ℕ} {need : ℕ} {s u : State} (c : List ℕ)
      → Expects cb got need (c ++ future) s u
      → length c ≤ need
      → Expects cb (got ++ c) (need - length c) future s u
  part_Expects {got = got} {future = future} c (at_length fs e l v) k =
      at_length fs (append_assoc got c future ∙ e) (omega (arith, length-append got c)) v
  part_Expects {got = got} {future = future} c (at_body body fs e l r v) k =
      at_body body fs (append_assoc got c future ∙ e) (omega (arith, length-append got c)) r v
  part_Expects {got = got} {future = future} c (at_overflow junk fs e l v) k =
      at_overflow junk fs (append_assoc got c future ∙ e) (omega (arith, length-append got c)) v

  pub part_Stands :
      (cb : Callback) (got c future : List ℕ) (need : ℕ) (e : Endpoint State) (final : State)
      → Awaits cb got need e
      → Expects cb got need (c ++ future) e.state final
      → 0 < length c
      → length c < need
      → Stands (feed h e (received c)) future final
  part_Stands cb got c future need e final a x p k =
      let r = part-Awaits h cb got c need e a p k in
      record {
        cb = cb;
        got = got ++ c;
        need = need - length c;
        awaits = r.0;
        expects =
            subst (λ s. Expects cb (got ++ c) (need - length c) future s final) (sym r.1)
              (part_Expects c x (omega arith));
      }

  -- `_next_message`, when the bytes to come begin a message.
  next_Stands :
      (fs : List Frame) (future : List ℕ) (e : Endpoint State) (final : State)
      → IsReady e
      → future ≡ encode fs
      → Handled fs e.state final
      → Stands (finish (next_message e)) future final
  next_Stands fs future e final r x v =
      let a = next_message-Awaits e r in
      record {
        cb = recv_length;
        got = [];
        need = 4;
        awaits = a.0;
        expects = at_length fs x (omega arith) (subst (λ s. Handled fs s final) (sym a.1) v);
      }

  overflow_more :
      (n : ℕ) (e : Endpoint State)
      → 0 < n
      → overflow n e ≡ ask (recv_overflow (n - min max_message_size n)) (min max_message_size n) e
  unfolding overflow
  overflow_more n e p =
      let b : ltb 0 n ≡ true = ground arith in
      ap
        (λ t.
          if t
          then ask (recv_overflow (n - min max_message_size n)) (min max_message_size n) e
          else next_message e)
        b

  overflow_end : (n : ℕ) (e : Endpoint State) → n ≡ 0 → overflow n e ≡ next_message e
  unfolding overflow
  overflow_end n e p =
      let b : ltb 0 n ≡ false = ground arith in
      ap
        (λ t.
          if t
          then ask (recv_overflow (n - min max_message_size n)) (min max_message_size n) e
          else next_message e)
        b

  no_bytes : (xs ys : List ℕ) → length xs ≡ 0 → xs ++ ys ≡ ys
  no_bytes [] ys p = refl
  no_bytes (x ∷ xs) ys p = absurd (omega arith)

  pub overflow-Stands :
      (junk : List ℕ) (fs : List Frame) (future : List ℕ) (n : ℕ) (e : Endpoint State)
      (final : State)
      → IsReady e
      → future ≡ junk ++ encode fs
      → n ≡ length junk
      → Handled fs e.state final
      → Stands (finish (overflow n e)) future final
  overflow-Stands junk fs future n e final r x l v = elim (Bool-cases (ltb 0 n)) [
    | inl b ↦
        let a =
          ask-Awaits (recv_overflow (n - min max_message_size n)) (min max_message_size n) e r
            (ground arith) in
        subst (λ t. Stands (finish t) future final) (sym (overflow_more n e (ground arith)))
          (record {
            cb = recv_overflow (n - min max_message_size n);
            got = [];
            need = min max_message_size n;
            awaits = a.0;
            expects =
                at_overflow junk fs x (omega arith) (subst (λ s. Handled fs s final) (sym a.1) v);
          })
    | inr b ↦
        subst (λ t. Stands (finish t) future final) (sym (overflow_end n e (ground arith)))
          (next_Stands fs future e final r (x ∙ no_bytes junk (encode fs) (ground arith)) v)
  ]

  on_length_fits :
      (count n : ℕ) (e : Endpoint State)
      → count ≡ n
      → n ≤ max_message_size
      → on_length h count e ≡ (ask recv_body n e, false)
  unfolding on_length
  on_length_fits count n e p k =
      let b : ltb max_message_size n ≡ false = ground arith in rw (p, b) refl

  on_length_oversized :
      (count n : ℕ) (e : Endpoint State)
      → count ≡ n
      → max_message_size < n
      → on_length h count e ≡ skip_on n (h.too_large e)
  unfolding on_length
  on_length_oversized count n e p k =
      let b : ltb max_message_size n ≡ true = ground arith in rw (p, b) refl

  -- The four bytes of a prefix, cut off a stream.
  cut_prefix :
      (buf future body rest : List ℕ)
      → buf ++ future ≡ frame body ++ rest
      → length buf ≡ 4
      → length body < 2 ^ 32
      → (unpack_length buf ≡ length body) × (future ≡ body ++ rest)
  unfolding frame
  cut_prefix buf future body rest x l k =
      let c =
        append_cut buf future (pack_length (length body)) (body ++ rest)
          (x ∙ append_assoc (pack_length (length body)) body rest)
          (l ∙ sym (length-pack_length (length body))) in
      (ap unpack_length c.0 ∙ unpack_length-pack_length (length body) k, c.1)

  -- A handler that raised nothing.
  quiet_pair : (p : Endpoint State × Bool) → p.1 ≡ false → p ≡ (p.0, false)
  quiet_pair p e = ap (λ b. (p.0, b)) e

  pub length_Stands :
      (fs : List Frame) (buf future : List ℕ) (e : Endpoint State) (final : State)
      → IsReady e
      → buf ++ future ≡ encode fs
      → length buf ≡ 4
      → Handled fs e.state final
      → Stands (leave (call h recv_length buf e)) future final
  unfolding call
  length_Stands [] buf future e final r x l v =
      absurd (omega (arith, length-append buf future, ap length x))
  length_Stands (fits body p k ∷ fs) buf future e final r x l (one_handled w v) =
      let c = cut_prefix buf future body (encode fs) x l (omega arith) in
      let a = ask-Awaits recv_body (length body) e r p in
      subst (λ t. Stands (leave t) future final)
        (sym (on_length_fits (unpack_length buf) (length body) e c.0 k))
        (record {
          cb = recv_body;
          got = [];
          need = length body;
          awaits = a.0;
          expects =
              subst (λ s. Expects recv_body [] (length body) future s final) (sym a.1)
                (at_body body fs c.1 (omega arith) w v);
        })
  length_Stands (oversized body p k ∷ fs) buf future e final r x l (one_skipped w v) =
      let c = cut_prefix buf future body (encode fs) x l k in
      let skipped = h.too_large e in
      subst (λ t. Stands (leave t) future final)
        (sym (
          on_length_oversized (unpack_length buf) (length body) e c.0 p
          ∙ ap (skip_on (length body)) (quiet_pair skipped (w.quiet e r refl))))
        (overflow-Stands body fs future (length body) skipped.0 final (w.stays_ready e r refl) c.1
          refl (subst (λ s. Handled fs s final) (sym (w.becomes e r refl)) v))

  pub body_Stands :
      (body : List ℕ) (fs : List Frame) (buf future : List ℕ) (e : Endpoint State) (t final : State)
      → IsReady e
      → buf ++ future ≡ body ++ encode fs
      → length buf ≡ length body
      → Reacts (h.handle body) e.state t
      → Handled fs t final
      → Stands (leave (call h recv_body buf e)) future final
  unfolding call
  body_Stands body fs buf future e t final r x l w v =
      let c = append_cut buf future body (encode fs) x l in
      let done = h.handle body e in
      subst (λ y. Stands (leave (finally_next y)) future final)
        (sym (ap (λ b. h.handle b e) c.0 ∙ quiet_pair done (w.quiet e r refl)))
        (next_Stands fs future done.0 final (w.stays_ready e r refl) c.1
          (subst (λ s. Handled fs s final) (sym (w.becomes e r refl)) v))

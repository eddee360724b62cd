-- ===== src/Protocol/Framing/Delivery.antt =====
-- What an `_Endpoint` of vmnetx/protocol.py makes of a byte stream that arrives in pieces.
use vmnetx.Prelude.{
  ℕ, ◌-◌, ◌^◌, ◌<◌, ◌≡◌, refl, ap, true, false, Option, none, some, List, [], ◌∷◌, ◌++◌, Bool,
  arith, length,
}
use vmnetx.Prelude.Int.{pos, ◌-ℤ◌}
use vmnetx.Protocol.Socket.{AsyncSocket, received, io_in, after_callback, recv}
use vmnetx.Protocol.Framing.{
  Callback, recv_length, Endpoint, unpack_length, pack_length, ask, next_message, Handlers, call,
  leave, deliver, feed,
}

-- A number below 2 ^ 32 survives the length prefix.
pub unpack_length-pack_length : (n : ℕ) → n < 2 ^ 32 → unpack_length (pack_length n) ≡ n
unfolding unpack_length pack_length
unpack_length-pack_length n h = omega arith

pub length-pack_length : (n : ℕ) → length (pack_length n) ≡ 4
unfolding pack_length
length-pack_length n = refl

-- Two ways to cut a list at one place.
pub append_cut :
    {A : Type 0} (xs ys zs ws : List A)
    → xs ++ ys ≡ zs ++ ws
    → length xs ≡ length zs
    → (xs ≡ zs) × (ys ≡ ws)
append_cut [] ys [] ws e l = (refl, e)
append_cut [] ys (z ∷ zs) ws e l = absurd (omega arith)
append_cut (x ∷ xs) ys [] ws e l = absurd (omega arith)
append_cut (x ∷ xs) ys (z ∷ zs) ws e l =
    let h : x ≡ z = ground arith in
    let t : xs ++ ys ≡ zs ++ ws = ground arith in
    let r = append_cut xs ys zs ws t (omega arith) in (λ i. h i ∷ r.0 i, r.1)

module _ {State : Type 0} where
  -- The endpoint waits for `need` more bytes, behind `got`, to run a callback.
  pub record Awaits (cb : Callback) (got : List ℕ) (need : ℕ) (e : Endpoint State) : Type 0 where
    pub callback : e.asock.recv_callback ≡ some cb
    pub buffer : e.asock.recv_buf ≡ got
    pub remaining : e.asock.recv_remaining ≡ some (pos need)
    pub wanted : 0 < need
    pub is_open : e.asock.is_open ≡ true
    pub readable : e.asock.recv_closed ≡ false
    pub attached : e.attached ≡ true
    pub enabled : e.protocol_disabled ≡ false
    pub sends : (e.asock.send_closing ≡ false) × (e.asock.send_closed ≡ false)

  -- The system returns at least one byte, and at most the limit, of which here is more.
  pub part-Awaits :
      (h : Handlers State) (cb : Callback) (got c : List ℕ) (need : ℕ) (e : Endpoint State)
      → Awaits cb got need e
      → 0 < length c
      → length c < need
      → Awaits cb (got ++ c) (need - length c) (feed h e (received c))
        × ((feed h e (received c)).state ≡ e.state)
  unfolding feed io_in ◌-ℤ◌
  part-Awaits h cb got [] need e a p q = elim p [ ]
  part-Awaits h cb got (x ∷ c) need e a p q = ground arith

  -- The socket is open, nothing is being waited for, and the protocol is on: as a callback finds it.
  pub record IsReady (e : Endpoint State) : Type 0 where
    pub no_callback : e.asock.recv_callback ≡ none
    pub is_open : e.asock.is_open ≡ true
    pub readable : e.asock.recv_closed ≡ false
    pub attached : e.attached ≡ true
    pub enabled : e.protocol_disabled ≡ false
    pub sends : (e.asock.send_closing ≡ false) × (e.asock.send_closed ≡ false)

  -- A handler that, on an endpoint that is ready and in a state `s`, raises no exception, leaves the
  -- endpoint ready, so that it neither reads, nor shuts it down, nor turns the protocol off, and makes
  -- the subclass's state `s'`.
  pub record Reacts (run : Endpoint State → Endpoint State × Bool) (s s' : State) : Type 0 where
    pub becomes : (e : Endpoint State) → IsReady e → e.state ≡ s → (run e).0.state ≡ s'
    pub stays_ready : (e : Endpoint State) → IsReady e → e.state ≡ s → IsReady (run e).0
    pub quiet : (e : Endpoint State) → IsReady e → e.state ≡ s → (run e).1 ≡ false

  abbrev pub finish : Endpoint State → Endpoint State
  finish e = record e { asock = after_callback e.asock }

  -- The endpoint as the callback finds it.
  abbrev pub taken : Endpoint State → List ℕ → Endpoint State
  taken e buf = record e {
    asock = record e.asock { recv_buf = buf; recv_remaining = some (pos 0); recv_callback = none };
  }

  pub taken-IsReady :
      (cb : Callback) (got buf : List ℕ) (need : ℕ) (e : Endpoint State)
      → Awaits cb got need e
      → IsReady (taken e buf)
  taken-IsReady cb got buf need e a = ground arith

  io_in_whole :
      (cb : Callback) (got c : List ℕ) (need : ℕ) (e : Endpoint State)
      → Awaits cb got need e
      → length c ≡ need
      → io_in e.asock (received c) ≡ ((taken e (got ++ c)).asock, some (cb, got ++ c))
  unfolding io_in ◌-ℤ◌
  io_in_whole cb got [] need e a q = absurd (omega (arith, a.wanted))
  io_in_whole cb got (x ∷ c) need e a q = ground arith

  pub whole_chunk :
      (h : Handlers State) (cb : Callback) (got c : List ℕ) (need : ℕ) (e : Endpoint State)
      → Awaits cb got need e
      → length c ≡ need
      → feed h e (received c) ≡ leave (call h cb (got ++ c) (taken e (got ++ c)))
  unfolding feed
  whole_chunk h cb got c need e a q =
      ap
        (λ (p : AsyncSocket Callback × Option (Callback × List ℕ)).
          deliver h p.1 (record e { asock = p.0 }))
        (io_in_whole cb got c need e a q)

  pub ask-Awaits :
      (cb : Callback) (n : ℕ) (e : Endpoint State)
      → IsReady e
      → 0 < n
      → Awaits cb [] n (finish (ask cb n e)) × ((finish (ask cb n e)).state ≡ e.state)
  unfolding recv after_callback
  ask-Awaits cb n e r p = ground arith

  pub next_message-Awaits :
      (e : Endpoint State)
      → IsReady e
      → Awaits recv_length [] 4 (finish (next_message e))
        × ((finish (next_message e)).state ≡ e.state)
  unfolding next_message recv after_callback
  next_message-Awaits e r = ground arith

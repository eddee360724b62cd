-- ===== src/Protocol/Pinger.antt =====
-- `_Pinger` of vmnetx/protocol.py: a client that hears nothing for too long gives the connection up.
use vmnetx.Prelude.{
  ℕ, zero, suc, ◌≤◌, ◌≡◌, Bool, true, false, List, [], ◌∷◌, arith, ltb, if◌then◌else◌,
}

pub record Pinger : Type 0 where
  pub ping_count : ℕ
  pub ping_pending : ℕ
  pub is_running : Bool  -- `_source` is not None, and 'pong' is connected
  pub pings : ℕ  -- what `send_ping` has sent
  pub shutdowns : ℕ  -- the calls of the endpoint's `shutdown`

unfoldable pub new : ℕ → Pinger
new count = record {
  ping_count = count;
  ping_pending = 0;
  is_running = true;
  pings = 0;
  shutdowns = 0;
}

unfoldable pub stop : Pinger → Pinger
stop s = record s { is_running = false }

-- `_timer`, while the source is there; `sends` is false where `send_ping` raises an IOError.
unfoldable pub timer : Bool → Pinger → Pinger
unfolding stop
timer sends s =
    if s.is_running
    then if ltb s.ping_pending s.ping_count
      then if sends
        then record s { ping_pending = suc s.ping_pending; pings = suc s.pings }
        else stop s
      else record (stop s) { shutdowns = suc s.shutdowns }
    else s

-- `_pong`, while the signal is connected.
unfoldable pub pong : Pinger → Pinger
pong s = if s.is_running then record s { ping_pending = 0 } else s

pub data Event : Type 0 where
  ticks : Bool → Event
  answers stops : Event

unfoldable pub step : Pinger → Event → Pinger
unfolding timer pong stop
step s (ticks sends) = timer sends s
step s answers = pong s
step s stops = stop s

unfoldable pub run : Pinger → List Event → Pinger
unfolding step
run s [] = s
run s (e ∷ es) = run (step s e) es

-- `n` turns of the timer, with nothing heard between them.
unfoldable pub silence : ℕ → Pinger → Pinger
unfolding timer
silence zero s = s
silence (suc n) s = silence n (timer true s)

abbrev pub IsValid : Pinger → Type 0
IsValid s =
    (s.ping_pending ≤ s.ping_count) × (s.shutdowns ≤ 1) × (s.is_running ≡ true → s.shutdowns ≡ 0)

step-IsValid : (s : Pinger) (e : Event) → IsValid s → IsValid (step s e)
unfolding step timer pong stop
step-IsValid s (ticks sends) v = ground arith
step-IsValid s answers v = ground arith
step-IsValid s stops v = ground arith

run-IsValid_from : (es : List Event) (s : Pinger) → IsValid s → IsValid (run s es)
unfolding run
run-IsValid_from [] s v = v
run-IsValid_from (e ∷ es) s v = run-IsValid_from es (step s e) (step-IsValid s e v)

-- Whatever happens, in any order: no more pings wait for an answer than the pinger was given, and it
-- shuts the endpoint down at most once.
pub pinger-bounds :
    (count : ℕ) (es : List Event)
    → ((run (new count) es).ping_pending ≤ (run (new count) es).ping_count)
      × ((run (new count) es).shutdowns ≤ 1)
unfolding new
pinger-bounds count es = let v = run-IsValid_from es (new count) (ground arith) in (v.0, v.1)

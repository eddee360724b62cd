-- ===== src/Examples/Pinger.antt =====
-- `_Pinger` of vmnetx/protocol.py with four pings, of which two wait for an answer.
use vmnetx.Prelude.{true, false, List, [], ◌∷◌}
use vmnetx.Protocol.Pinger.{Pinger, Event, ticks, answers}

abbrev pinger : Pinger
pinger = record { ping_count = 4; ping_pending = 2; is_running = true; pings = 9; shutdowns = 0 }

abbrev events : List Event
events = ticks true ∷ answers ∷ ticks true ∷ ticks true ∷ ticks false ∷ []

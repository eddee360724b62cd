-- ===== src/Controller/Remote/Events.antt =====
-- Everything that can happen to a `RemoteController` of vmnetx/controller/remote.py, in any order, and what
-- is counted of it.
use Prim.Native.String.{String}
use vmnetx.Prelude.{
  ℕ, suc, ◌+◌, Bool, true, false, Option, none, some, List, [], ◌∷◌, if◌then◌else◌,
}
use vmnetx.Util.Backoff
use vmnetx.Protocol.Message.{Value, MessageType}
use vmnetx.Controller.{Signal, fatal_error}
use vmnetx.Controller.MainLoop.{MainLoop}
use vmnetx.Controller.Remote.{RemoteController, start_vm, stop_vm}
use vmnetx.Controller.Remote.Connect.{
  begin_initialize, end_initialize, attempt_connection, connected,
}
use vmnetx.Controller.Remote.Handlers.{
  has_endp, closed, reconnection_failed, message, begin_shutdown, end_shutdown, turn,
}

pub data Event : Type 0 where
  initializes initialized attempts : Event
  connects : Bool → Event
  hears : MessageType → List (String × Value) → Event
  closes expires starts stops shuts_down ends turns : Event

abbrev pub or_same : Option RemoteController → RemoteController → RemoteController
or_same none s = s
or_same (some s') s = s'

-- `initialize` is called once.
abbrev pub initialize_once : Option MainLoop → RemoteController → RemoteController
initialize_once none s = or_same (begin_initialize s) s
initialize_once (some l) s = s

module _ (scaled : Value → ℕ) (token : String) where
  unfoldable pub step : RemoteController → Event → RemoteController
  unfolding begin_initialize
  step s Event.initializes = initialize_once s.loop s
  step s Event.initialized = end_initialize s
  step s Event.attempts = attempt_connection s
  step s (Event.connects sock) = connected sock token s
  step s (Event.hears t fields) = message scaled t fields s
  step s Event.closes = closed s
  step s Event.expires = reconnection_failed s
  step s Event.starts = start_vm s
  step s Event.stops = stop_vm s
  step s Event.shuts_down = begin_shutdown s
  step s Event.ends = end_shutdown s
  step s Event.turns = turn s

  unfoldable pub run_events : RemoteController → List Event → RemoteController
  run_events s [] = s
  run_events s (e ∷ es) = run_events (step s e) es

abbrev pub is_fatal : Signal → Bool
is_fatal fatal_error = true
is_fatal _ = false

abbrev pub count_fatal : List Signal → ℕ
count_fatal [] = 0
count_fatal (x ∷ xs) = if is_fatal x then suc (count_fatal xs) else count_fatal xs

abbrev pub timer_count : Option Backoff.Timer → ℕ
timer_count none = 0
timer_count (some t) = 1

-- How many connections there are, being waited for, being made, or made.
abbrev pub active : RemoteController → ℕ
active s =
    timer_count s.backoff.timer
    + ((if s.connecting then 1 else 0) + (if has_endp s.endp then 1 else 0))

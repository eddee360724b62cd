-- ===== src/Controller/Remote/Handlers.antt =====
-- What `RemoteController` of vmnetx/controller/remote.py does with the signals of its endpoint, and at
-- its end.
use Prim.Native.String.{String}
use text.Mathlib.Text.{◌==◌ as str_eq}
use vmnetx.Prelude.{
  ℕ, Bool, true, false, not, ◌&&◌, ◌||◌, Option, none, some, List, [], ◌∷◌, ◌==◌, if◌then◌else◌,
}
use vmnetx.Util.Backoff
use vmnetx.Util.Backoff.{BackoffTimer, default_schedule}
use vmnetx.Protocol.Message
use vmnetx.Protocol.Message.{Value, Message, MessageType, Effect, transmit, emit}
use vmnetx.Protocol.Client
use vmnetx.Protocol.Client.{ClientState, ClientSignal, ClientSend}
use vmnetx.Controller.{
  VmState, stopped, starting, running, stopping, destroyed, Signal, fatal_error, network_disconnect,
  network_reconnect,
}
use vmnetx.Controller.MainLoop
use vmnetx.Controller.MainLoop.{
  MainLoop, Failure, connection_failed, authentication_failed, protocol_error, connection_closed,
}
use vmnetx.Controller.Remote.{
  Phase, init, run, stop, Connection, RemoteController, signal, fail_loop, quit_loop, retry,
  shut_endp, want_state, notify_stable_state,
}

-- `_auth_failed` and `_error`.
abbrev pub refuse : Phase → Failure → RemoteController → RemoteController
refuse init e s = shut_endp (record s { loop = fail_loop e s.loop })
refuse run e s = shut_endp (signal fatal_error s)
refuse stop e s = s

abbrev pub is_string : String → Value → Bool
is_string name (Message.string s) = str_eq s name
is_string name _ = false

abbrev pub reported_state : Value → VmState
reported_state v =
    if is_string "starting" v
    then starting
    else if is_string "running" v
    then running
    else if is_string "stopping" v
    then stopping
    else stopped

-- `value or None`.
abbrev pub or_none : Value → Option Value
or_none Message.null = none
or_none (Message.boolean false) = none
or_none (Message.number n) = if n == 0 then none else some (Message.number n)
or_none (Message.string s) = if str_eq s "" then none else some (Message.string s)
or_none v = some v

-- `_auth_ok`.
abbrev pub auth_ok_in : Phase → Value → Value → Value → RemoteController → RemoteController
auth_ok_in init name rate high s = record s {
  vm_name = some name;
  max_mouse_rate = or_none rate;
  disconnected_timeout = or_none high;
  loop = quit_loop s.loop;
}
auth_ok_in run name rate high s =
    notify_stable_state
      (signal network_reconnect (record s { timeout_source = false; timeout_armed = false }))
auth_ok_in stop name rate high s = s

abbrev pub is_stopping : Phase → Bool
is_stopping stop = true
is_stopping _ = false

abbrev pub auth_ok : Value → Value → Value → Value → RemoteController → RemoteController
auth_ok state name rate high s =
    if is_stopping s.phase
    then s
    else auth_ok_in s.phase name rate high
        (record s { state = reported_state state; pinging = true })

-- The signals that are passed on in PHASE_RUN only.
abbrev pub running_only : Phase → RemoteController → RemoteController → RemoteController
running_only run s' s = s'
running_only _ s' s = s

abbrev pub truth : Value → Bool
truth v = elim (or_none v) [ none ↦ false | some _ ↦ true ]

abbrev pub is_there : Option Value → Bool
is_there none = false
is_there (some _) = true

abbrev pub has_endp : Option Connection → Bool
has_endp none = false
has_endp (some _) = true

abbrev pub closed_in : Phase → RemoteController → RemoteController
closed_in init s = record s { loop = fail_loop connection_closed s.loop }
closed_in run s =
    let arms = not s.timeout_source && is_there s.disconnected_timeout in
    retry (
      signal network_disconnect (record s {
        timeout_source = s.timeout_source || arms;
        timeout_armed = s.timeout_armed || arms;
      }))
closed_in stop s = record s { loop = quit_loop s.loop }

-- `_shutdown`, when the endpoint emits 'close'; it has stopped its pinger.
unfoldable pub closed : RemoteController → RemoteController
unfolding Backoff.attempt MainLoop.fail MainLoop.quit
closed s =
    if has_endp s.endp then closed_in s.phase (record s { endp = none; pinging = false }) else s

-- `_reconnection_failed`, when the source calls it; it then is gone, but its field is not reset.
unfoldable pub reconnection_failed : RemoteController → RemoteController
unfolding Backoff.reset
reconnection_failed s =
    if s.timeout_armed
    then shut_endp
        (record (signal fatal_error s) { timeout_armed = false; backoff = Backoff.reset s.backoff })
    else s

module _ (scaled : Value → ℕ) where
  -- `int(fraction * 10000)` is `scaled`.
  abbrev pub handle : ClientSignal → RemoteController → RemoteController
  handle (ClientSignal.auth_ok state name rate low high) s = auth_ok state name rate high s
  handle (ClientSignal.auth_failed e) s = refuse s.phase authentication_failed s
  handle ClientSignal.attaching_viewer s = s
  handle (ClientSignal.startup_progress v) s =
      running_only s.phase (signal (Signal.startup_progress (scaled v) 10000) s) s
  handle ClientSignal.startup_rejected_memory s =
      running_only s.phase (signal Signal.startup_rejected_memory s) s
  handle (ClientSignal.startup_failed v) s = running_only s.phase (signal Signal.startup_failed s) s
  handle (ClientSignal.vm_started v) s =
      running_only s.phase (signal (Signal.vm_started (truth v)) (record s { state = running })) s
  handle ClientSignal.vm_stopped s =
      running_only s.phase (signal Signal.vm_stopped (record s { state = stopped })) s
  handle ClientSignal.vm_destroyed s = running_only s.phase (shut_endp (signal fatal_error s)) s
  handle ClientSignal.pong s = s
  handle (ClientSignal.error v) s = refuse s.phase protocol_error s

  abbrev pub handle_all : List (Effect ClientSignal) → RemoteController → RemoteController
  handle_all [] s = s
  handle_all (transmit m ∷ effects) s = handle_all effects (record s { sent = m ∷ s.sent })
  handle_all (emit x ∷ effects) s = handle_all effects (handle x s)

  abbrev pub message_on :
      Option Connection → MessageType → List (String × Value) → RemoteController → RemoteController
  message_on none t fields s = s
  message_on (some c) t fields s =
      if c.is_shut
      then s
      else let d = Client.dispatch c.client t fields in
        handle_all d.effects (record s { endp = some (record c { client = d.state }) })

  -- A message from the server.
  unfoldable pub message : MessageType → List (String × Value) → RemoteController → RemoteController
  unfolding Client.dispatch MainLoop.fail MainLoop.quit
  message t fields s = message_on s.endp t fields s

-- `shutdown` up to the nested main loop, which it runs if there is an endpoint.
unfoldable pub begin_shutdown : RemoteController → RemoteController
unfolding want_state MainLoop.new
begin_shutdown s =
    if has_endp s.endp
    then shut_endp (want_state destroyed (record s { phase = stop; loop = some MainLoop.new }))
    else record s { state = destroyed }

abbrev pub end_shutdown_in : Phase → Option MainLoop → RemoteController → RemoteController
end_shutdown_in stop (some l) s =
    if l.finished then record s { loop = none; state = destroyed } else s
end_shutdown_in _ _ s = s

-- The rest of `shutdown`, once the nested main loop is left.
unfoldable pub end_shutdown : RemoteController → RemoteController
end_shutdown s = end_shutdown_in s.phase s.loop s

-- The main loop emits what was queued first.
abbrev pub emit_queued : List Signal → RemoteController → RemoteController
emit_queued [] s = s
emit_queued (x ∷ xs) s = signal x (record s { queued = xs })

unfoldable pub turn : RemoteController → RemoteController
turn s = emit_queued s.queued s

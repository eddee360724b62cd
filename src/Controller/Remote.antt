-- ===== src/Controller/Remote.antt =====
-- `RemoteController` of vmnetx/controller/remote.py: it holds one connection to the server, connects
-- again when that is lost, and follows the state of the virtual machine. The connection's own state
-- is that of `ClientEndpoint`, the timer between attempts is `BackoffTimer`.
pub mod Connect
pub mod Handlers
pub mod Events
pub mod Invariant
pub mod Connections
use Prim.Native.String.{String}
use text.Mathlib.Text.{◌==◌ as str_eq}
use vmnetx.Prelude.{
  ℕ, Bool, true, false, not, ◌&&◌, ◌||◌, Option, none, some, List, [], ◌∷◌, ◌++◌, ◌==◌,
  if◌then◌else◌,
}
use vmnetx.Util.Backoff
use vmnetx.Util.Backoff.{BackoffTimer, default_schedule}
use vmnetx.Protocol.Message
use vmnetx.Protocol.Message.{Value, Message, MessageType, Effect, transmit, emit}
use vmnetx.Protocol.Client
use vmnetx.Protocol.Client.{ClientState, ClientSignal, ClientSend}
use vmnetx.Controller.{
  VmState, uninitialized, stopped, starting, running, stopping, destroyed, same_vm_state, Signal,
  fatal_error, network_disconnect, network_reconnect, ensure_state,
}
use vmnetx.Controller.MainLoop
use vmnetx.Controller.MainLoop.{
  MainLoop, Failure, connection_failed, authentication_failed, protocol_error, connection_closed,
}

pub data Phase : Type 0 where
  init run stop : Phase

-- `_endp`; once it is shut down it neither sends nor handles messages, and its 'close' will come.
pub record Connection : Type 0 where
  pub client : ClientState
  pub is_shut : Bool

pub record RemoteController : Type 0 where
  pub phase : Phase
  pub state : VmState
  pub endp : Option Connection
  pub connecting : Bool  -- a call of `_connect_socket` has not called `_connected` yet
  pub backoff : BackoffTimer
  pub loop : Option MainLoop
  pub vm_name : Option Value
  pub max_mouse_rate : Option Value
  pub disconnected_timeout : Option Value
  pub timeout_source : Bool  -- `_disconnected_timeout_source` is not None
  pub timeout_armed : Bool  -- the source will call `_reconnection_failed`
  pub pinging : Bool
  pub signals : List Signal  -- emitted, the newest first
  pub queued : List Signal  -- to be emitted by `gobject.idle_add`
  pub sent : List Message  -- the newest first

unfoldable pub new : RemoteController
unfolding Backoff.new
new = record {
  phase = init;
  state = uninitialized;
  endp = none;
  connecting = false;
  backoff = Backoff.new default_schedule;
  loop = none;
  vm_name = none;
  max_mouse_rate = none;
  disconnected_timeout = none;
  timeout_source = false;
  timeout_armed = false;
  pinging = false;
  signals = [];
  queued = [];
  sent = [];
}

abbrev pub signal : Signal → RemoteController → RemoteController
signal x s = record s { signals = x ∷ s.signals }

-- `_loop.fail` and `_loop.quit`.
abbrev pub fail_loop : Failure → Option MainLoop → Option MainLoop
unfolding MainLoop.fail
fail_loop e none = none
fail_loop e (some l) = some (MainLoop.fail e l)

abbrev pub quit_loop : Option MainLoop → Option MainLoop
unfolding MainLoop.quit
quit_loop none = none
quit_loop (some l) = some (MainLoop.quit l)

-- `_backoff.attempt()`; it does not raise, since the schedule is not empty.
abbrev pub started_timer : BackoffTimer → Option BackoffTimer → BackoffTimer
started_timer b none = b
started_timer b (some b') = b'

abbrev pub retry : RemoteController → RemoteController
unfolding Backoff.attempt
retry s = record s { backoff = started_timer s.backoff (Backoff.attempt s.backoff) }

-- `_endp.shutdown()`.
abbrev pub shut : Option Connection → Option Connection
shut none = none
shut (some c) = some (record c { is_shut = true })

abbrev pub shut_endp : RemoteController → RemoteController
shut_endp s = record s { endp = shut s.endp }

-- One of the `send_` methods of `_endp`: the new connection and message, or none for the
-- EndpointStateError or the IOError.
abbrev pub sendable : Connection → ClientSend → Option (ClientState × Message)
unfolding Client.send
sendable c m = if c.is_shut then none else Client.send c.client m

abbrev pub after_send : RemoteController → Option (ClientState × Message) → RemoteController
after_send s none = s
after_send s (some (client, m)) = record s {
  endp = some (record { client = client; is_shut = false });
  sent = m ∷ s.sent;
}

-- The bodies of the three tests of `_want_state`.
abbrev pub command : VmState → VmState → Option (VmState × ClientSend)
command running stopped = some (starting, ClientSend.start_vm)
command stopped starting = some (stopping, ClientSend.stop_vm)
command stopped running = some (stopping, ClientSend.stop_vm)
command destroyed destroyed = none
command destroyed _ = some (destroyed, ClientSend.destroy_vm)
command _ _ = none

abbrev pub issue : Connection → Option (VmState × ClientSend) → RemoteController → RemoteController
issue c none s = s
issue c (some (state, m)) s = after_send (record s { state = state }) (sendable c m)

abbrev pub want_state_on : Option Connection → VmState → RemoteController → RemoteController
want_state_on none wanted s = s
want_state_on (some c) wanted s = issue c (command wanted s.state) s

unfoldable pub want_state : VmState → RemoteController → RemoteController
unfolding Client.send
want_state wanted s = want_state_on s.endp wanted s

unfoldable pub start_vm : RemoteController → RemoteController
unfolding want_state
start_vm s = want_state running s

unfoldable pub stop_vm : RemoteController → RemoteController
unfolding want_state
stop_vm s = want_state stopped s

-- `_notify_stable_state`.
abbrev pub stable_signal : VmState → List Signal
stable_signal stopped = Signal.vm_stopped ∷ []
stable_signal running = Signal.vm_started false ∷ []
stable_signal _ = []

abbrev pub notify_stable_state : RemoteController → RemoteController
notify_stable_state s = record s { queued = s.queued ++ stable_signal s.state }

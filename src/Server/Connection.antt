-- ===== src/Server/Connection.antt =====
-- `_ServerConnection` of vmnetx/server/__init__.py: it stands between the endpoint of one client and the
-- controller of the instance that the client was authenticated for.
pub mod Forwarding
use Prim.Native.String.{String}
use vmnetx.Prelude.{
  ℕ, Bool, true, false, not, ◌&&◌, Option, none, some, List, [], ◌∷◌, if◌then◌else◌,
}
use vmnetx.Protocol.Message
use vmnetx.Protocol.Message.{
  Value, Message, MessageType, MessageError, Dispatched, invalid_message, message_too_large,
  not_authenticated, unknown_message_type, invalid_state, missing_field,
}
use vmnetx.Protocol.Server
use vmnetx.Protocol.Server.{ServerEndpoint, ServerSignal, ServerSend}
use vmnetx.Controller.{VmState, stopped, starting, running, stopping, same_vm_state}

-- What is asked of others: the signals, and the calls of the controller.
pub data Request : Type 0 where
  need_controller : Value → Request
  ping close destroy_instance start_vm stop_vm connect_viewer disconnects : Request

-- Constants of the connection: the limits of the timeout, and the machine's name and mouse rate.
pub record Facts : Type 0 where
  pub timeout_min : Value
  pub timeout_max : Value
  pub vm_name : String
  pub max_mouse_rate : Value

pub record ServerConnection : Type 0 where
  pub endp : ServerEndpoint
  pub is_open : Bool  -- the endpoint has a socket
  pub protocol_disabled : Bool
  pub controller : Bool  -- `_controller` is not None
  pub subscribed : Bool  -- `_controller_sources` is not empty
  pub attaching : Bool  -- the controller will call `done`
  pub forwarding : Bool
  pub sent : List Message  -- the newest first
  pub requests : List Request  -- the newest first

unfoldable pub new : ServerConnection
unfolding Server.new
new = record {
  endp = Server.new;
  is_open = true;
  protocol_disabled = false;
  controller = false;
  subscribed = false;
  attaching = false;
  forwarding = false;
  sent = [];
  requests = [];
}

abbrev pub request : Request → ServerConnection → ServerConnection
request r s = record s { requests = r ∷ s.requests }

-- A `send_` method; with no socket it raises the IOError.
unfoldable pub send : ServerSend → ServerConnection → ServerConnection
unfolding Server.send Server.sent
send m s =
    let s' = record s { endp = Server.send s.endp m } in
    if s.is_open then record s' { sent = Server.sent m ∷ s.sent } else s'

-- `shutdown`; the endpoint's 'close' follows.
unfoldable pub shutdown : ServerConnection → ServerConnection
shutdown s = record s { is_open = false }

unfoldable pub destroy : ServerConnection → ServerConnection
unfolding send shutdown
destroy s =
    if s.controller && not s.protocol_disabled
    then shutdown (send ServerSend.vm_destroyed s)
    else shutdown s

unfoldable pub fail_controller : ServerConnection → ServerConnection
unfolding send
fail_controller s = send (ServerSend.auth_failed (Message.string "Authentication failed")) s

abbrev pub state_name : VmState → String
state_name stopped = "stopped"
state_name starting = "starting"
state_name running = "running"
state_name stopping = "stopping"
state_name _ = "unknown"

-- `set_controller`, for a controller in a state.
unfoldable pub set_controller : Facts → VmState → ServerConnection → ServerConnection
unfolding send
set_controller f vm s =
    if s.controller
    then send (ServerSend.send_error "Already authenticated") s
    else send
        (ServerSend.auth_ok (state_name vm) f.vm_name f.max_mouse_rate f.timeout_min f.timeout_max)
        (record s { controller = true; subscribed = true })

-- The `_client_` methods; `vm` is the state of the controller.
unfoldable pub handle : VmState → ServerSignal → ServerConnection → ServerConnection
unfolding send shutdown
handle vm (ServerSignal.authenticate token) s =
    if s.controller
    then send (ServerSend.send_error "Already authenticated") s
    else request (need_controller token) s
handle vm ServerSignal.attach_viewer s =
    request connect_viewer (record s { protocol_disabled = true; attaching = true })
handle vm ServerSignal.start_vm s =
    if same_vm_state vm stopped
    then request start_vm s
    else send (ServerSend.send_error "Can't start VM unless it is stopped") s
handle vm ServerSignal.stop_vm s = request stop_vm s
handle vm ServerSignal.destroy_vm s = request destroy_instance s
handle vm ServerSignal.ping s = request ping s
handle vm (ServerSignal.error message) s = shutdown s

unfoldable pub handle_all :
    VmState → List (Message.Effect ServerSignal) → ServerConnection → ServerConnection
unfolding handle
handle_all vm [] s = s
handle_all vm (Message.transmit m ∷ effects) s =
    handle_all vm effects (record s { sent = m ∷ s.sent })
handle_all vm (Message.emit x ∷ effects) s = handle_all vm effects (handle vm x s)

-- The texts of `_MessageError`, without the names at the end of the one for a missing field.
abbrev pub error_text : MessageError → String
error_text invalid_message = "Invalid message"
error_text message_too_large = "Message too large"
error_text not_authenticated = "Not authenticated"
error_text unknown_message_type = "Unknown message type"
error_text invalid_state = "Invalid state"
error_text missing_field = "Missing field in message"

-- `send_error(str(e))` in `_recv`, for a message that could not be dispatched.
abbrev pub answer_error : Option MessageError → ServerConnection → ServerConnection
answer_error none s = s
answer_error (some e) s = send (ServerSend.send_error (error_text e)) s

abbrev pub dispatched :
    VmState → Dispatched ServerEndpoint ServerSignal → ServerConnection → ServerConnection
dispatched vm d s = answer_error d.raised (handle_all vm d.effects s)

-- A message from the client that `_recv` could unpack.
unfoldable pub message :
    VmState → MessageType → List (String × Value) → ServerConnection → ServerConnection
unfolding Server.dispatch handle_all send
message vm t fields s =
    if s.is_open
    then if s.protocol_disabled then s else dispatched vm (Server.dispatch s.endp t fields) s
    else s

-- `_disconnect_controller`.
abbrev pub disconnect_controller : ServerConnection → ServerConnection
disconnect_controller s = request disconnects (record s { subscribed = false })

-- `done` of `_client_attach_viewer`, with a socket or an error; where `send_attaching_viewer` raises,
-- nothing else is done.
unfoldable pub attached : Bool → ServerConnection → ServerConnection
unfolding send
attached false s =
    send (ServerSend.send_error "Couldn't connect viewer")
      (record s { attaching = false; protocol_disabled = false })
attached true s =
    if s.is_open
    then record (disconnect_controller (send ServerSend.attaching_viewer s)) {
      attaching = false;
      forwarding = true;
    }
    else record s { attaching = false }

-- `_client_shutdown`, when the endpoint emits 'close'.
unfoldable pub closed : ServerConnection → ServerConnection
closed s = request close (disconnect_controller (record s { is_open = false }))

-- The `_ctrl_` methods, which the controller's signals call while they are connected.
pub data ControllerSignal : Type 0 where
  startup_progress : Value → ControllerSignal
  startup_failed : String → ControllerSignal
  vm_started : Bool → ControllerSignal
  startup_rejected_memory vm_stopped : ControllerSignal

abbrev pub forwarded : ControllerSignal → ServerSend
forwarded (startup_progress fraction) = ServerSend.startup_progress fraction
forwarded (startup_failed e) = ServerSend.startup_failed e
forwarded (vm_started check) = ServerSend.vm_started check
forwarded startup_rejected_memory = ServerSend.startup_rejected_memory
forwarded vm_stopped = ServerSend.vm_stopped

unfoldable pub controller_signal : ControllerSignal → ServerConnection → ServerConnection
unfolding send
controller_signal x s = if s.subscribed then send (forwarded x) s else s

-- Everything that can happen to a connection.
pub data Event : Type 0 where
  hears : VmState → MessageType → List (String × Value) → Event
  gets_controller : Facts → VmState → Event
  attaches : Bool → Event
  signals : ControllerSignal → Event
  fails destroys shuts_down closes : Event

unfoldable pub step : ServerConnection → Event → ServerConnection
step s (hears vm t fields) = message vm t fields s
step s (gets_controller f vm) = set_controller f vm s
step s (attaches sock) = if s.attaching then attached sock s else s
step s (signals x) = controller_signal x s
step s fails = fail_controller s
step s destroys = destroy s
step s shuts_down = shutdown s
step s closes = closed s

unfoldable pub run : ServerConnection → List Event → ServerConnection
run s [] = s
run s (e ∷ es) = run (step s e) es

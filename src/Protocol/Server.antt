-- ===== src/Protocol/Server.antt =====
-- `ServerEndpoint` of vmnetx/protocol.py: what a client may ask for before and after it has been
-- authenticated. The state is the flag `_authenticated`; the handlers of the signals are in the
-- modules of the server.
use Prim.Native.String.{String}
use vmnetx.Prelude.{Bool, true, false, List, [], ◌∷◌, if◌then◌else◌}
use vmnetx.Protocol.Message
use vmnetx.Protocol.Message.{
  Value, MessageType, Message, field, MessageError, not_authenticated, Effect, transmit, emit,
  Dispatched, done, fail, emit_field, dispatch_base,
}

pub data ServerSignal : Type 0 where
  authenticate : Value → ServerSignal
  attach_viewer start_vm stop_vm destroy_vm ping : ServerSignal
  error : Value → ServerSignal

pub record ServerEndpoint : Type 0 where
  pub authenticated : Bool

unfoldable pub new : ServerEndpoint
new = record { authenticated = false }

abbrev pub Outcome : Type 0
Outcome = Dispatched ServerEndpoint ServerSignal

-- `self._need_auth()` before the rest.
abbrev pub need_auth : ServerEndpoint → List (Effect ServerSignal) → Outcome
need_auth s effects = if s.authenticated then done s effects else fail s not_authenticated

unfoldable pub dispatch : ServerEndpoint → MessageType → List (String × Value) → Outcome
unfolding dispatch_base
dispatch s MessageType.authenticate fields = emit_field s authenticate (field "token" fields)
dispatch s MessageType.attach_viewer fields = need_auth s (emit attach_viewer ∷ [])
dispatch s MessageType.start_vm fields = need_auth s (emit start_vm ∷ [])
dispatch s MessageType.stop_vm fields = need_auth s (emit stop_vm ∷ [])
dispatch s MessageType.destroy_vm fields = need_auth s (emit destroy_vm ∷ [])
dispatch s MessageType.ping fields =
    need_auth s (transmit (record { mtype = MessageType.pong; fields = [] }) ∷ emit ping ∷ [])
dispatch s t fields = dispatch_base error s t fields

-- The `send_` methods, with their arguments.
pub data ServerSend : Type 0 where
  auth_ok : String → String → Value → Value → Value → ServerSend
  auth_failed : Value → ServerSend
  attaching_viewer : ServerSend
  startup_progress : Value → ServerSend
  startup_rejected_memory : ServerSend
  startup_failed : String → ServerSend
  vm_started : Bool → ServerSend
  vm_stopped vm_destroyed : ServerSend
  send_error : String → ServerSend

abbrev message : MessageType → List (String × Value) → Message
message t fields = record { mtype = t; fields = fields }

-- The message of each `send_` method.
unfoldable pub sent : ServerSend → Message
sent (auth_ok state name rate low high) = message MessageType.auth_ok (
    ("state", Message.string state)
    ∷ ("name", Message.string name)
    ∷ ("limit_mouse_rate", rate)
    ∷ ("server_timeout_min", low)
    ∷ ("server_timeout_max", high)
    ∷ [])
sent (auth_failed e) = message MessageType.auth_failed (("error", e) ∷ [])
sent attaching_viewer = message MessageType.attaching_viewer []
sent (startup_progress fraction) =
    message MessageType.startup_progress (("fraction", fraction) ∷ [])
sent startup_rejected_memory = message MessageType.startup_rejected_memory []
sent (startup_failed reason) =
    message MessageType.startup_failed (("message", Message.string reason) ∷ [])
sent (vm_started check) =
    message MessageType.vm_started (("check_display", Message.boolean check) ∷ [])
sent vm_stopped = message MessageType.vm_stopped []
sent vm_destroyed = message MessageType.vm_destroyed []
sent (send_error reason) = message MessageType.error (("message", Message.string reason) ∷ [])

abbrev is_auth_ok : ServerSend → Bool
is_auth_ok (auth_ok _ _ _ _ _) = true
is_auth_ok _ = false

-- A `send_` method: only `send_auth_ok` changes the endpoint's own state, and does so before it
-- transmits.
unfoldable pub send : ServerEndpoint → ServerSend → ServerEndpoint
send s m = if is_auth_ok m then record s { authenticated = true } else s

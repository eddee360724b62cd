-- ===== src/Protocol/Client.antt =====
-- `ClientEndpoint` of vmnetx/protocol.py: its state, what each incoming message does in each state,
-- and when it may send.
use Prim.Native.String.{String}
use text.Mathlib.Text.{◌==◌ as str_eq}
use vmnetx.Prelude.{Bool, true, false, Option, none, some, List, [], ◌∷◌, if◌then◌else◌}
use vmnetx.Protocol.Message
use vmnetx.Protocol.Message.{
  Value, MessageType, Message, field, MessageError, invalid_state, missing_field, Effect, transmit,
  emit, Dispatched, done, fail, emit_field, dispatch_base,
}

pub data ClientState : Type 0 where
  unauthenticated authenticating running attaching viewer : ClientState

pub data ClientSignal : Type 0 where
  auth_ok : Value → Value → Value → Value → Value → ClientSignal
  auth_failed : Value → ClientSignal
  attaching_viewer : ClientSignal
  startup_progress : Value → ClientSignal
  startup_rejected_memory : ClientSignal
  startup_failed : Value → ClientSignal
  vm_started : Value → ClientSignal
  vm_stopped vm_destroyed pong : ClientSignal
  error : Value → ClientSignal

abbrev pub same_state : ClientState → ClientState → Bool
same_state unauthenticated unauthenticated = true
same_state authenticating authenticating = true
same_state running running = true
same_state attaching attaching = true
same_state viewer viewer = true
same_state _ _ = false

abbrev pub Outcome : Type 0
Outcome = Dispatched ClientState ClientSignal

-- `self._need_dispatch_state(needed)` before the rest.
abbrev pub need_state : ClientState → ClientState → Outcome → Outcome
need_state needed s rest = if same_state s needed then rest else fail s invalid_state

-- `msg.get(key) or 0`
abbrev pub or_zero : Option Value → Value
or_zero none = Message.number 0
or_zero (some Message.null) = Message.number 0
or_zero (some (Message.boolean false)) = Message.number 0
or_zero (some (Message.boolean true)) = Message.boolean true
or_zero (some (Message.number n)) = Message.number n
or_zero (some (Message.string s)) = if str_eq s "" then Message.number 0 else Message.string s

-- The signal of 'auth-ok'; the two entries that must be there are looked up after the state has
-- been set.
abbrev pub emit_auth_ok : List (String × Value) → Option Value → Option Value → Outcome
emit_auth_ok fields (some state) (some name) = done running (
    emit (
      auth_ok state name (or_zero (field "limit_mouse_rate" fields))
        (or_zero (field "server_timeout_min" fields)) (or_zero (field "server_timeout_max" fields)))
    ∷ [])
emit_auth_ok fields _ _ = fail running missing_field

-- 'vm-stopped' and 'vm-destroyed', which are ignored on a viewer connection that is being set up.
abbrev pub vm_ended : ClientState → ClientSignal → Outcome
vm_ended attaching signal = done attaching []
vm_ended s signal = need_state running s (done s (emit signal ∷ []))

unfoldable pub dispatch : ClientState → MessageType → List (String × Value) → Outcome
unfolding dispatch_base
dispatch s MessageType.auth_ok fields =
    need_state authenticating s (emit_auth_ok fields (field "state" fields) (field "name" fields))
dispatch s MessageType.auth_failed fields =
    need_state authenticating s (emit_field unauthenticated auth_failed (field "error" fields))
dispatch s MessageType.attaching_viewer fields =
    need_state attaching s (done viewer (emit attaching_viewer ∷ []))
dispatch s MessageType.startup_progress fields =
    need_state running s (emit_field s startup_progress (field "fraction" fields))
dispatch s MessageType.startup_rejected_memory fields =
    need_state running s (done s (emit startup_rejected_memory ∷ []))
dispatch s MessageType.startup_failed fields =
    need_state running s (emit_field s startup_failed (field "message" fields))
dispatch s MessageType.vm_started fields =
    need_state running s (emit_field s vm_started (field "check_display" fields))
dispatch s MessageType.vm_stopped fields = vm_ended s vm_stopped
dispatch s MessageType.vm_destroyed fields = vm_ended s vm_destroyed
dispatch s MessageType.pong fields = done s (emit pong ∷ [])
dispatch s t fields = dispatch_base error s t fields

-- The `send_` methods, with their arguments.
pub data ClientSend : Type 0 where
  authenticate : String → ClientSend
  attach_viewer start_vm stop_vm destroy_vm ping : ClientSend

-- The state that the decorator of each method asks for.
abbrev pub send_state : ClientSend → ClientState
send_state (authenticate _) = unauthenticated
send_state _ = running

unfoldable pub sent : ClientSend → Message
sent (authenticate token) = record {
  mtype = MessageType.authenticate;
  fields = ("token", Message.string token) ∷ [];
}
sent attach_viewer = record { mtype = MessageType.attach_viewer; fields = [] }
sent start_vm = record { mtype = MessageType.start_vm; fields = [] }
sent stop_vm = record { mtype = MessageType.stop_vm; fields = [] }
sent destroy_vm = record { mtype = MessageType.destroy_vm; fields = [] }
sent ping = record { mtype = MessageType.ping; fields = [] }

abbrev pub state_after : ClientState → ClientSend → ClientState
state_after s (authenticate _) = authenticating
state_after s attach_viewer = attaching
state_after s _ = s

-- A `send_` method of an endpoint that has its socket: the new state and the message, or none for the
-- EndpointStateError, which leaves the endpoint as it was.
unfoldable pub send : ClientState → ClientSend → Option (ClientState × Message)
send s m = if same_state s (send_state m) then some (state_after s m, sent m) else none

-- The same without the socket: once the state is set, `_transmit` raises IOError. None is the
-- EndpointStateError.
unfoldable pub send_closed : ClientState → ClientSend → Option ClientState
send_closed s m = if same_state s (send_state m) then some (state_after s m) else none

-- ===== src/Protocol/Message.antt =====
-- The messages of vmnetx/protocol.py, and what all endpoints do with one.
use Prim.Native.String.{String}
use text.Mathlib.Text.{◌==◌ as str_eq}
use vmnetx.Prelude.{ℕ, Bool, Option, none, some, List, [], ◌∷◌, if◌then◌else◌}

-- The values that MessagePack carries, as far as the program sends them.
pub data Value : Type 0 where
  null : Value
  boolean : Bool → Value
  number : ℕ → Value
  string : String → Value

-- The message types: every string that some `_dispatch` compares the type with, and the others.
pub data MessageType : Type 0 where
  authenticate attach_viewer start_vm stop_vm destroy_vm ping : MessageType
  auth_ok auth_failed attaching_viewer startup_progress startup_rejected_memory : MessageType
  startup_failed vm_started vm_stopped vm_destroyed pong : MessageType
  error : MessageType
  unknown : String → MessageType

-- The string of a type on the wire.
unfoldable pub type_name : MessageType → String
type_name authenticate = "authenticate"
type_name attach_viewer = "attach-viewer"
type_name start_vm = "start-vm"
type_name stop_vm = "stop-vm"
type_name destroy_vm = "destroy-vm"
type_name ping = "ping"
type_name auth_ok = "auth-ok"
type_name auth_failed = "auth-failed"
type_name attaching_viewer = "attaching-viewer"
type_name startup_progress = "startup-progress"
type_name startup_rejected_memory = "startup-rejected-memory"
type_name startup_failed = "startup-failed"
type_name vm_started = "vm-started"
type_name vm_stopped = "vm-stopped"
type_name vm_destroyed = "vm-destroyed"
type_name pong = "pong"
type_name error = "error"
type_name (unknown name) = name

-- A message without its '_' entry, which holds the type.
pub record Message : Type 0 where
  pub mtype : MessageType
  pub fields : List (String × Value)

-- `msg[key]`; none is the KeyError.
unfoldable pub field : String → List (String × Value) → Option Value
field key [] = none
field key ((name, value) ∷ fields) = if str_eq name key then some value else field key fields

-- The texts of `_MessageError`, which go back to the peer.
pub data MessageError : Type 0 where
  invalid_message : MessageError
  message_too_large : MessageError
  not_authenticated : MessageError
  unknown_message_type : MessageError
  invalid_state : MessageError
  missing_field : MessageError

-- What a `_dispatch` has done when it returns or raises: the endpoint's new state, its effects in
-- order, and the error that it raised.
pub data Effect (Signal : Type 0) : Type 0 where
  transmit : Message → Effect Signal
  emit : Signal → Effect Signal

pub record Dispatched (State Signal : Type 0) : Type 0 where
  pub state : State
  pub effects : List (Effect Signal)
  pub raised : Option MessageError

module _ {State Signal : Type 0} where
  abbrev pub done : State → List (Effect Signal) → Dispatched State Signal
  done s effects = record { state = s; effects = effects; raised = none }

  abbrev pub fail : State → MessageError → Dispatched State Signal
  fail s e = record { state = s; effects = []; raised = some e }

  -- `self.emit(signal, msg[key])`: with no such key nothing is emitted.
  abbrev pub emit_field : State → (Value → Signal) → Option Value → Dispatched State Signal
  emit_field s signal none = fail s missing_field
  emit_field s signal (some value) = done s (emit (signal value) ∷ [])

  -- `_Endpoint._dispatch`
  unfoldable pub dispatch_base :
      (Value → Signal) → State → MessageType → List (String × Value) → Dispatched State Signal
  dispatch_base error_signal s error fields = emit_field s error_signal (field "message" fields)
  dispatch_base error_signal s _ fields = fail s unknown_message_type

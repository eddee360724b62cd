-- ===== src/Controller.antt =====
-- `Controller` of vmnetx/controller/__init__.py: the states and the signals that the controllers of a
-- virtual machine share. Chunks is the state of the disk's chunks; Remote drives a machine on a
-- server, Local one on this computer.
pub mod Chunks
pub mod MainLoop
pub mod Remote
pub mod Viewer
pub mod Local
pub mod Virtevent
use vmnetx.Prelude.{ℕ, Bool, true, false, Option, none, some, if◌then◌else◌}

pub data VmState : Type 0 where
  uninitialized stopped starting running stopping destroyed : VmState

abbrev pub same_vm_state : VmState → VmState → Bool
same_vm_state uninitialized uninitialized = true
same_vm_state stopped stopped = true
same_vm_state starting starting = true
same_vm_state running running = true
same_vm_state stopping stopping = true
same_vm_state destroyed destroyed = true
same_vm_state _ _ = false

-- The signals of `__gsignals__`; a text that is shown to the user is left out.
pub data Signal : Type 0 where
  startup_progress : ℕ → ℕ → Signal
  startup_rejected_memory startup_failed vm_stopped : Signal
  vm_started : Bool → Signal
  network_disconnect network_reconnect fatal_error : Signal

-- `_ensure_state(needed)`, the decorator; none is the MachineStateError.
abbrev pub ensure_state : {A : Type 0} → VmState → VmState → A → Option A
ensure_state needed state r = if same_vm_state state needed then some r else none

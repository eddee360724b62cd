-- ===== src/Examples/Connection.antt =====
-- `_ServerConnection` of vmnetx/server/__init__.py: a client that is refused, and one whose viewer is attached.
use vmnetx.Prelude.{◌≡◌, ◌⊎◌, refl, true, false, List, [], ◌∷◌}
use vmnetx.Protocol.Message
use vmnetx.Protocol.Message.{MessageType}
use vmnetx.Protocol.Server
use vmnetx.Controller.{VmState}
use vmnetx.Server.Connection
use vmnetx.Server.Connection.{Facts, ServerConnection, Event, step, run}
use vmnetx.Server.Connection.Forwarding.{all_refusals, Refuses, refusals_lem, forwarding-sent}

abbrev refused : List Event
refused =
    Event.hears VmState.stopped MessageType.start_vm []
    ∷ Event.hears VmState.stopped MessageType.authenticate (("token", Message.string "wrong") ∷ [])
    ∷ Event.fails
    ∷ []

refusals_lem_example :
    ((run Connection.new refused).endp.authenticated ≡ false)
    × (all_refusals (run Connection.new refused).sent ≡ true)
unfolding run step Connection.new Connection.message Connection.handle_all Connection.handle
    Connection.send Connection.set_controller Connection.attached Connection.fail_controller
    Server.dispatch Server.new Server.send Server.sent Message.field
refusals_lem_example = refusals_lem refused refl

abbrev facts : Facts
facts = record {
  timeout_min = Message.number 30;
  timeout_max = Message.number 60;
  vm_name = "machine";
  max_mouse_rate = Message.number 0;
}

abbrev attached : List Event
attached =
    Event.hears VmState.stopped MessageType.authenticate (("token", Message.string "right") ∷ [])
    ∷ Event.gets_controller facts VmState.running
    ∷ Event.hears VmState.running MessageType.attach_viewer []
    ∷ Event.attaches true
    ∷ []

forwarding-sent_example :
    ((step (run Connection.new attached) Event.fails).sent ≡ (run Connection.new attached).sent)
    ⊎ Refuses Event.fails
        (run Connection.new attached).sent
        (step (run Connection.new attached) Event.fails).sent
unfolding run step Connection.new Connection.message Connection.handle_all Connection.handle
    Connection.send Connection.set_controller Connection.attached Connection.fail_controller
    Server.dispatch Server.new Server.send Server.sent Message.field
forwarding-sent_example = forwarding-sent attached Event.fails refl

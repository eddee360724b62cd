-- ===== src/Examples/Remote.antt =====
-- vmnetx/controller/remote.py: a controller that connects, is disconnected and shut down, and a viewer.
use vmnetx.Prelude.{ℕ, ◌≤◌, ◌≡◌, refl, true, some, List, [], ◌∷◌, length, if◌then◌else◌}
use vmnetx.Util.Backoff
use vmnetx.Protocol.Message
use vmnetx.Protocol.Message.{Value, MessageType}
use vmnetx.Controller.{VmState}
use vmnetx.Controller.Remote
use vmnetx.Controller.Remote.{RemoteController, run}
use vmnetx.Controller.Remote.Events.{Event, run_events, count_fatal, active}
use vmnetx.Controller.Remote.Connections.{active_lem, shutdown_disconnected, welcome}
use vmnetx.Controller.Viewer
use vmnetx.Controller.Viewer.Answers.{answers_lem}

abbrev scaled : Value → ℕ
scaled (Message.number n) = n
scaled _ = 0

abbrev history : List Event
history =
    Event.initializes
    ∷ Event.attempts
    ∷ Event.connects true
    ∷ Event.hears MessageType.auth_ok (welcome (Message.string "machine"))
    ∷ Event.initialized
    ∷ Event.turns
    ∷ Event.closes
    ∷ []

abbrev disconnected : RemoteController
disconnected = run_events scaled "token" Remote.new history

active_lem_example :
    (active disconnected ≤ 1)
    × (disconnected.phase ≡ run → count_fatal disconnected.signals ≡ 0 → active disconnected ≡ 1)
active_lem_example = active_lem scaled "token" history

abbrev waiting : RemoteController
waiting = record Remote.new {
  phase = run;
  state = VmState.running;
  backoff = record {
    schedule = Backoff.default_schedule;
    schedule_index = some 1;
    timer = some (Backoff.timeout 1000);
  };
}

shutdown_disconnected_example :
    ((run_events scaled "token" waiting (Event.shuts_down ∷ [])).state ≡ VmState.destroyed)
    × ((run_events scaled "token" (run_events scaled "token" waiting (Event.shuts_down ∷ [])) (
          Event.attempts
          ∷ Event.connects true
          ∷ Event.hears MessageType.auth_ok (welcome (Message.string "machine"))
          ∷ [])).state
        ≡ VmState.running)
unfolding Remote.new
shutdown_disconnected_example =
    shutdown_disconnected scaled "token" waiting (Backoff.timeout 1000) (Message.string "machine")
      refl refl refl

abbrev replies : List Viewer.Event
replies =
    Viewer.hears MessageType.auth_ok (welcome (Message.string "machine"))
    ∷ Viewer.hears MessageType.attaching_viewer []
    ∷ []

answers_lem_example :
    (length (Viewer.run (Viewer.new "token") replies).answers
      ≡ (if (Viewer.run (Viewer.new "token") replies).callback then 0 else 1))
    × ((Viewer.run (Viewer.new "token") replies).forwarding ≡ true
        → (Viewer.run (Viewer.new "token") replies).answers ≡ Viewer.sock ∷ [])
    × (length (Viewer.step (Viewer.run (Viewer.new "token") replies) Viewer.closes).answers ≡ 1)
answers_lem_example = answers_lem "token" replies

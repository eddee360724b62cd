-- ===== src/Controller/Remote/Connections.antt =====
-- The connection of `RemoteController` of vmnetx/controller/remote.py over any sequence of events.
use Prim.Native.String.{String}
use vmnetx.Prelude.{ℕ, ◌≤◌, ◌≡◌, refl, true, none, some, List, [], ◌∷◌}
use vmnetx.Util.Backoff
use vmnetx.Protocol.Message
use vmnetx.Protocol.Message.{Value, MessageType}
use vmnetx.Protocol.Client
use vmnetx.Controller.{VmState}
use vmnetx.Controller.Remote
use vmnetx.Controller.Remote.{RemoteController, run}
use vmnetx.Controller.Remote.Connect
use vmnetx.Controller.Remote.Handlers
use vmnetx.Controller.Remote.Events.{Event, step, run_events, count_fatal, active}
use vmnetx.Controller.Remote.Invariant.{run_events-Inv, new-Inv}

-- The server's message that a client is authenticated, for a machine that runs.
abbrev pub welcome : Value → List (String × Value)
welcome name = ("state", Message.string "running") ∷ ("name", name) ∷ []

module _ (scaled : Value → ℕ) (token : String) where
  -- Whatever happens, in any order: there is never more than one connection, counting the one that
  -- is being made and the one that the timer will make; and once `initialize` has returned, and
  -- until a fatal error is signalled or `shutdown` is called on a connection, there is exactly one,
  -- so the controller never stays disconnected without a further attempt.
  pub active_lem :
      (es : List Event)
      → (active (run_events scaled token Remote.new es) ≤ 1)
        × ((run_events scaled token Remote.new es).phase ≡ run
            → count_fatal (run_events scaled token Remote.new es).signals ≡ 0
            → active (run_events scaled token Remote.new es) ≡ 1)
  active_lem es =
      let v = run_events-Inv scaled token es Remote.new new-Inv in (v.exclusive, v.alive)

  -- A controller that is shut down while it waits to connect again does connect again: the next
  -- attempt goes ahead, and the server's answer sets the state to running.
  pub shutdown_disconnected :
      (s : RemoteController) (t : Backoff.Timer) (name : Value)
      → s.phase ≡ run
      → s.endp ≡ none
      → s.backoff.timer ≡ some t
      → let s' = run_events scaled token s (Event.shuts_down ∷ []) in
        let s'' = run_events scaled token s' (
          Event.attempts
          ∷ Event.connects true
          ∷ Event.hears MessageType.auth_ok (welcome name)
          ∷ []) in
        (s'.state ≡ VmState.destroyed) × (s''.state ≡ VmState.running)
  unfolding run_events step Handlers.begin_shutdown Connect.attempt_connection Connect.connected
      Handlers.message Backoff.fire Backoff.reset Client.send Client.dispatch Message.field
  shutdown_disconnected s t name p e k = rw e (rw p (rw k (refl, refl)))

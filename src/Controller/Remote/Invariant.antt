-- ===== src/Controller/Remote/Invariant.antt =====
-- What holds of a `RemoteController` of vmnetx/controller/remote.py between the events.
use Prim.Native.String.{String}
use vmnetx.Prelude.{
  ℕ, zero, suc, ◌≤◌, ◌≡◌, ◌≢◌, refl, Bool, true, false, ◌&&◌, Option, none, some, List, [], ◌∷◌,
  arith, if◌then◌else◌, get_elem?,
}
use vmnetx.Util.Backoff
use vmnetx.Util.Backoff.{BackoffTimer, default_schedule}
use vmnetx.Protocol.Message
use vmnetx.Protocol.Message.{Value, Message, MessageType, Effect, transmit, emit}
use vmnetx.Protocol.Client
use vmnetx.Protocol.Client.{ClientState, ClientSignal, ClientSend}
use vmnetx.Controller.{VmState, uninitialized}
use vmnetx.Controller.MainLoop
use vmnetx.Controller.MainLoop.{MainLoop, Failure}
use vmnetx.Controller.Remote
use vmnetx.Controller.Remote.{
  Phase, init, run, stop, Connection, RemoteController, started_timer, want_state, issue, command,
  sendable, after_send,
}
use vmnetx.Controller.Remote.Connect.{
  begin_initialize, end_initialize, attempt_connection, connected,
}
use vmnetx.Controller.Remote.Handlers.{
  has_endp, closed, reconnection_failed, message, message_on, handle, handle_all, begin_shutdown,
  end_shutdown, turn,
}
use vmnetx.Controller.Remote.Events.{
  Event, or_same, initialize_once, step, run_events, count_fatal, timer_count, active,
}

abbrev pub index_or_zero : Option ℕ → ℕ
index_or_zero none = 0
index_or_zero (some i) = i

-- A timer with the default schedule, at a position in it.
pub record IsReady (b : BackoffTimer) : Type 0 where
  pub schedule_is : b.schedule ≡ default_schedule
  pub within : index_or_zero b.schedule_index ≤ 3

get_elem?-default_schedule : (i : ℕ) → i ≤ 3 → (ms : ℕ) × (get_elem? default_schedule i ≡ some ms)
get_elem?-default_schedule zero h = (1000, refl)
get_elem?-default_schedule (suc zero) h = (2000, refl)
get_elem?-default_schedule (suc (suc zero)) h = (5000, refl)
get_elem?-default_schedule (suc (suc (suc zero))) h = (10000, refl)
get_elem?-default_schedule (suc (suc (suc (suc i)))) h = absurd (omega arith)

-- `attempt` never fails, and leaves a timer.
attempt-IsReady :
    (b : BackoffTimer)
    → IsReady b
    → (timer_count (started_timer b (Backoff.attempt b)).timer ≡ 1)
      × IsReady (started_timer b (Backoff.attempt b))
unfolding Backoff.attempt
attempt-IsReady b v =
    ground (arith, get_elem?-default_schedule (index_or_zero b.schedule_index) v.within)

abbrev pub no_error : Option Failure → Bool
no_error none = true
no_error (some _) = false

abbrev pub loop_ready : Option MainLoop → Bool
loop_ready none = false
loop_ready (some l) = l.finished && no_error l.error

pub record Inv (s : RemoteController) : Type 0 where
  pub backoff_is : IsReady s.backoff
  pub exclusive : active s ≤ 1
  pub alive : s.phase ≡ run → count_fatal s.signals ≡ 0 → active s ≡ 1
  pub ready : s.phase ≡ init → loop_ready s.loop ≡ true → has_endp s.endp ≡ true
  pub named : s.phase ≡ init → loop_ready s.loop ≡ true → s.state ≢ uninitialized
  pub fresh : s.loop ≡ none → s.state ≡ uninitialized → (active s ≡ 0) × (s.phase ≡ init)

closed-Inv : (s : RemoteController) → Inv s → Inv (closed s)
unfolding closed MainLoop.fail MainLoop.quit
closed-Inv s v = ground (arith, attempt-IsReady s.backoff v.backoff_is)

reconnection_failed-Inv : (s : RemoteController) → Inv s → Inv (reconnection_failed s)
unfolding reconnection_failed Backoff.reset
reconnection_failed-Inv s v = ground arith

connected-Inv :
    (sock : Bool) (token : String) (s : RemoteController) → Inv s → Inv (connected sock token s)
unfolding connected Backoff.reset Client.send MainLoop.fail MainLoop.quit
connected-Inv sock token s v = ground (arith, attempt-IsReady s.backoff v.backoff_is)

attempt_connection-Inv : (s : RemoteController) → Inv s → Inv (attempt_connection s)
unfolding attempt_connection Backoff.fire
attempt_connection-Inv s v = ground arith

end_initialize-Inv : (s : RemoteController) → Inv s → Inv (end_initialize s)
unfolding end_initialize
end_initialize-Inv s v = ground arith

begin_initialize-Inv :
    (s : RemoteController) → s.loop ≡ none → Inv s → Inv (or_same (begin_initialize s) s)
unfolding begin_initialize MainLoop.new
begin_initialize-Inv s e v = ground (arith, attempt-IsReady s.backoff v.backoff_is)

initialize_once-Inv :
    (l : Option MainLoop) (s : RemoteController) → s.loop ≡ l → Inv s → Inv (initialize_once l s)
initialize_once-Inv none s e v = begin_initialize-Inv s e v
initialize_once-Inv (some l) s e v = v

want_state-Inv : (wanted : VmState) (s : RemoteController) → Inv s → Inv (want_state wanted s)
unfolding want_state Client.send
want_state-Inv wanted s v = ground arith

turn-Inv : (s : RemoteController) → Inv s → Inv (turn s)
unfolding turn
turn-Inv s v = ground arith

end_shutdown-Inv : (s : RemoteController) → Inv s → Inv (end_shutdown s)
unfolding end_shutdown
end_shutdown-Inv s v = ground arith

begin_shutdown-Inv : (s : RemoteController) → Inv s → Inv (begin_shutdown s)
unfolding begin_shutdown want_state MainLoop.new Client.send
begin_shutdown-Inv s v = ground arith

module _ (scaled : Value → ℕ) where
  handle-Inv :
      (x : ClientSignal) (s : RemoteController)
      → has_endp s.endp ≡ true
      → Inv s
      → Inv (handle scaled x s) × (has_endp (handle scaled x s).endp ≡ true)
  unfolding MainLoop.fail MainLoop.quit
  handle-Inv (ClientSignal.auth_ok state name rate low high) s h v = ground arith
  handle-Inv (ClientSignal.auth_failed e) s h v = ground arith
  handle-Inv ClientSignal.attaching_viewer s h v = (v, h)
  handle-Inv (ClientSignal.startup_progress x) s h v = ground arith
  handle-Inv ClientSignal.startup_rejected_memory s h v = ground arith
  handle-Inv (ClientSignal.startup_failed x) s h v = ground arith
  handle-Inv (ClientSignal.vm_started x) s h v = ground arith
  handle-Inv ClientSignal.vm_stopped s h v = ground arith
  handle-Inv ClientSignal.vm_destroyed s h v = ground arith
  handle-Inv ClientSignal.pong s h v = (v, h)
  handle-Inv (ClientSignal.error x) s h v = ground arith

  handle_all-Inv :
      (effects : List (Effect ClientSignal)) (s : RemoteController)
      → has_endp s.endp ≡ true
      → Inv s
      → Inv (handle_all scaled effects s)
  handle_all-Inv [] s h v = v
  handle_all-Inv (transmit m ∷ effects) s h v =
      handle_all-Inv effects (record s { sent = m ∷ s.sent }) h (ground arith)
  handle_all-Inv (emit x ∷ effects) s h v =
      let p = handle-Inv x s h v in handle_all-Inv effects (handle scaled x s) p.1 p.0

  message_on-Inv :
      (c : Option Connection) (t : MessageType) (fields : List (String × Value))
      (s : RemoteController)
      → s.endp ≡ c
      → Inv s
      → Inv (message_on scaled c t fields s)
  message_on-Inv none t fields s e v = v
  message_on-Inv (some c) t fields s e v = go c.is_shut
    where
      d : Message.Dispatched ClientState ClientSignal
      d = Client.dispatch c.client t fields

      s' : RemoteController
      s' = record s { endp = some (record c { client = d.state }) }

      go : (b : Bool) → Inv (if b then s else handle_all scaled d.effects s')
      go true = v
      go false = handle_all-Inv d.effects s' refl (ground arith)

  message-Inv :
      (t : MessageType) (fields : List (String × Value)) (s : RemoteController)
      → Inv s
      → Inv (message scaled t fields s)
  unfolding message
  message-Inv t fields s v = message_on-Inv s.endp t fields s refl v

  module _ (token : String) where
    step-Inv : (s : RemoteController) (e : Event) → Inv s → Inv (step scaled token s e)
    unfolding step Remote.start_vm Remote.stop_vm
    step-Inv s Event.initializes v = initialize_once-Inv s.loop s refl v
    step-Inv s Event.initialized v = end_initialize-Inv s v
    step-Inv s Event.attempts v = attempt_connection-Inv s v
    step-Inv s (Event.connects sock) v = connected-Inv sock token s v
    step-Inv s (Event.hears t fields) v = message-Inv t fields s v
    step-Inv s Event.closes v = closed-Inv s v
    step-Inv s Event.expires v = reconnection_failed-Inv s v
    step-Inv s Event.starts v = want_state-Inv VmState.running s v
    step-Inv s Event.stops v = want_state-Inv VmState.stopped s v
    step-Inv s Event.shuts_down v = begin_shutdown-Inv s v
    step-Inv s Event.ends v = end_shutdown-Inv s v
    step-Inv s Event.turns v = turn-Inv s v

    pub run_events-Inv :
        (es : List Event) (s : RemoteController) → Inv s → Inv (run_events scaled token s es)
    unfolding run_events
    run_events-Inv [] s v = v
    run_events-Inv (e ∷ es) s v = run_events-Inv es (step scaled token s e) (step-Inv s e v)

pub new-Inv : Inv Remote.new
unfolding Remote.new Backoff.new
new-Inv = ground arith

-- ===== src/Controller/Local.antt =====
-- `LocalController` of vmnetx/controller/local/__init__.py after `initialize`: starting and stopping the
-- virtual machine, where the calls of libvirt block in threads of their own, and libvirt reports
-- that the machine is gone by events. libvirt is the flag `domain`, that the machine exists, and the
-- number of reports that are on their way.
pub mod Events
pub mod Announce
use vmnetx.Prelude.{
  ℕ, zero, suc, Bool, true, false, not, ◌&&◌, ◌||◌, Option, none, some, List, [], ◌∷◌, ◌++◌,
  if◌then◌else◌,
}
use vmnetx.Controller.{
  VmState, stopped, starting, running, stopping, destroyed, same_vm_state, Signal, ensure_state,
}

-- Where a frame of `_startup` is: before its first line; in `restoreFlags` or `createXML`, with the
-- value of `have_memory`; past these calls, which have returned or raised; before the assignment of
-- False to `_have_memory`, or of STOPPED with the signals that it will queue; at the calls of
-- `idle_add`, with the signals still to queue and whether it then retries; or at its `finally`.
pub data Position : Type 0 where
  spawned drops_memory at_finally : Position
  calling returned raised : Bool → Position
  stops_with : List Signal → Position
  queues : Bool → List Signal → Position

-- A thread of `_startup`, with the number of the outer frames of retries, which have only their `finally`
-- left.
pub record Startup : Type 0 where
  pub position : Position
  pub frames : ℕ

pub record LocalController : Type 0 where
  pub state : VmState
  pub have_memory : Bool
  pub chunks : ℕ  -- of the memory image
  pub viewer_address : Bool  -- is not None
  pub startups : List Startup  -- the threads that have not ended
  pub startup_running : Bool
  pub stop_threads : ℕ  -- in `_stop_vm`
  pub connected : Bool  -- `_conn` is not None
  pub signals : List Signal  -- emitted, the newest first
  pub queued : List Signal  -- to be emitted by `gobject.idle_add`
  pub domain : Bool
  pub reports : ℕ

-- As `initialize` leaves it.
unfoldable pub initialized : Bool → ℕ → LocalController
initialized have_memory chunks = record {
  state = stopped;
  have_memory = have_memory;
  chunks = chunks;
  viewer_address = false;
  startups = [];
  startup_running = false;
  stop_threads = 0;
  connected = true;
  signals = [];
  queued = Signal.vm_stopped ∷ [];
  domain = false;
  reports = 0;
}

abbrev pub signal : Signal → LocalController → LocalController
signal x s = record s { signals = x ∷ s.signals }

abbrev pub queue : List Signal → LocalController → LocalController
queue xs s = record s { queued = s.queued ++ xs }

-- `start_vm`; none is the MachineStateError.
unfoldable pub start_vm : LocalController → Option LocalController
start_vm s =
    let s' = record s {
      state = starting;
      startup_running = true;
      startups = s.startups ++ record { position = spawned; frames = 0 } ∷ [];
    } in
    ensure_state stopped s.state
      (if s.have_memory then signal (Signal.startup_progress 0 s.chunks) s' else s')

-- `stop_vm`.
unfoldable pub stop_vm : LocalController → LocalController
stop_vm s =
    if same_vm_state s.state starting || same_vm_state s.state running
    then record s {
      state = stopping;
      viewer_address = false;
      have_memory = false;
      stop_threads = suc s.stop_threads;
    }
    else s

-- The machine ends, which libvirt reports.
abbrev pub end_domain : LocalController → LocalController
end_domain s = if s.domain then record s { domain = false; reports = suc s.reports } else s

-- A thread of `_stop_vm` has made its call.
abbrev pub stopped_by : ℕ → LocalController → LocalController
stopped_by zero s = s
stopped_by (suc n) s = end_domain (record s { stop_threads = n })

unfoldable pub run_stop : LocalController → LocalController
run_stop s = stopped_by s.stop_threads s

-- `_lifecycle_event` with VIR_DOMAIN_EVENT_STOPPED, of the machine's name.
unfoldable pub lifecycle_event : LocalController → LocalController
lifecycle_event s =
    if not (same_vm_state s.state stopped)
    then if not s.startup_running
      then signal Signal.vm_stopped (record s { state = stopped })
      else s
    else s

abbrev pub deliver : ℕ → LocalController → LocalController
unfolding lifecycle_event
deliver zero s = s
deliver (suc n) s = lifecycle_event (record s { reports = n })

unfoldable pub report : LocalController → LocalController
unfolding lifecycle_event
report s = if s.connected then deliver s.reports s else s

abbrev pub at : Startup → Position → List Startup
at t p = record t { position = p } ∷ []

-- After a `finally` the next outer frame is at its own.
abbrev pub leave_frame : ℕ → List Startup
leave_frame zero = []
leave_frame (suc n) = record { position = at_finally; frames = n } ∷ []

-- The calls of `idle_add` one by one; then the retry, in a frame of its own, or the `finally`.
abbrev pub queue_step :
    Bool → List Signal → Startup → LocalController → LocalController × List Startup
queue_step retries (x ∷ xs) t s = (queue (x ∷ []) s, at t (queues retries xs))
queue_step true [] t s = (s, record { position = spawned; frames = suc t.frames } ∷ [])
queue_step false [] t s = (s, at t at_finally)

-- A thread goes on to the next access of the controller, as far as other threads can tell; `outcome` is
-- what a call of libvirt comes to.
abbrev pub startup_step :
    Bool → Position → Startup → LocalController → LocalController × List Startup
startup_step outcome spawned t s = (s, at t (calling s.have_memory))
startup_step true (calling memory) t s =
    if s.connected
    then (record s { domain = true; viewer_address = true }, at t (returned memory))
    else (s, at t (raised memory))
startup_step false (calling memory) t s = (s, at t (raised memory))
startup_step outcome (returned memory) t s =
    (record s { state = running }, at t (queues false (Signal.vm_started memory ∷ [])))
startup_step outcome (raised memory) t s =
    if same_vm_state s.state stopping
    then (s, at t (stops_with (Signal.vm_stopped ∷ [])))
    else if memory
    then (s, at t drops_memory)
    else (s, at t (stops_with (Signal.startup_failed ∷ Signal.vm_stopped ∷ [])))
startup_step outcome drops_memory t s =
    (record s { have_memory = false }, at t (queues true (Signal.startup_rejected_memory ∷ [])))
startup_step outcome (stops_with xs) t s = (record s { state = stopped }, at t (queues false xs))
startup_step outcome (queues retries xs) t s = queue_step retries xs t s
startup_step outcome at_finally t s = (record s { startup_running = false }, leave_frame t.frames)

-- The thread that goes on is one of those that have not ended.
unfoldable pub advance : Bool → ℕ → List Startup → LocalController → LocalController × List Startup
advance outcome i [] s = (s, [])
advance outcome zero (t ∷ ts) s =
    let (s', us) = startup_step outcome t.position t s in (s', us ++ ts)
advance outcome (suc i) (t ∷ ts) s = let (s', us) = advance outcome i ts s in (s', t ∷ us)

unfoldable pub run_startup : Bool → ℕ → LocalController → LocalController
unfolding advance
run_startup outcome i s =
    let (s', ts) = advance outcome i s.startups s in record s' { startups = ts }

-- `_load_progress`.
unfoldable pub load_progress : ℕ → ℕ → LocalController → LocalController
load_progress count total s =
    if s.have_memory && same_vm_state s.state starting
    then signal (Signal.startup_progress count total) s
    else s

-- `connect_viewer`, up to `_connect_socket`; none is the error that the callback gets.
unfoldable pub connect_viewer : LocalController → Option Bool
connect_viewer s = if same_vm_state s.state running then some s.viewer_address else none

-- `shutdown`, which joins the thread of `_stop_vm`.
abbrev pub join : ℕ → LocalController → LocalController
join zero s = s
join (suc n) s = join n (end_domain (record s { stop_threads = n }))

unfoldable pub shutdown : LocalController → LocalController
unfolding stop_vm
shutdown s =
    let s' = stop_vm s in record (join s'.stop_threads s') { connected = false; state = destroyed }

abbrev pub emit_queued : List Signal → LocalController → LocalController
emit_queued [] s = s
emit_queued (x ∷ xs) s = signal x (record s { queued = xs })

unfoldable pub turn : LocalController → LocalController
turn s = emit_queued s.queued s

-- ===== src/Controller/Local/Events.antt =====
-- Everything that can happen to a `LocalController` of vmnetx/controller/local/__init__.py, in any order.
use vmnetx.Prelude.{
  ℕ, zero, suc, ◌+◌, Bool, true, false, Option, none, some, List, [], ◌∷◌, if◌then◌else◌,
}
use vmnetx.Controller.{Signal}
use vmnetx.Controller.Local.{
  Position, stops_with, queues, Startup, LocalController, start_vm, stop_vm, end_domain, run_stop,
  report, run_startup, load_progress, shutdown, turn,
}

pub data Event : Type 0 where
  starts stops stop_ends reports shuts_down powers_off turns : Event
  startup_goes_on : ℕ → Bool → Event  -- which of the threads
  loads : ℕ → ℕ → Event

abbrev pub or_same : Option LocalController → LocalController → LocalController
or_same none s = s
or_same (some s') s = s'

unfoldable pub step : LocalController → Event → LocalController
step s starts = or_same (start_vm s) s
step s stops = stop_vm s
step s stop_ends = run_stop s
step s reports = report s
step s shuts_down = shutdown s
step s powers_off = end_domain s
step s turns = turn s
step s (startup_goes_on i outcome) = run_startup outcome i s
step s (loads count total) = load_progress count total s

unfoldable pub run : LocalController → List Event → LocalController
run s [] = s
run s (e ∷ es) = run (step s e) es

abbrev pub is_vm_stopped : Signal → Bool
is_vm_stopped Signal.vm_stopped = true
is_vm_stopped _ = false

unfoldable pub count_stopped : List Signal → ℕ
count_stopped [] = 0
count_stopped (x ∷ xs) = if is_vm_stopped x then suc (count_stopped xs) else count_stopped xs

abbrev pub sets_stopped : Position → Bool
sets_stopped (stops_with xs) = true
sets_stopped _ = false

-- The thread that goes on is about to make the state STOPPED.
abbrev pub stops_next : ℕ → List Startup → Bool
stops_next i [] = false
stops_next zero (t ∷ ts) = sets_stopped t.position
stops_next (suc i) (t ∷ ts) = stops_next i ts

abbrev pub thread_stops : Event → List Startup → Bool
thread_stops (startup_goes_on i outcome) ts = stops_next i ts
thread_stops _ ts = false

-- What a thread is still to queue, once it has made the state STOPPED.
abbrev pub owed_at : Position → ℕ
owed_at (queues retries xs) = count_stopped xs
owed_at _ = 0

unfoldable pub owed : List Startup → ℕ
unfolding count_stopped
owed [] = 0
owed (t ∷ ts) = owed_at t.position + owed ts

-- How often 'vm-stopped' was emitted, or is queued, or is about to be queued by a thread.
abbrev pub announced : LocalController → ℕ
announced s = count_stopped s.signals + count_stopped s.queued + owed s.startups

-- ===== src/Examples/Local.antt =====
-- vmnetx/controller/local/: a machine that is started and stopped, and the sources for libvirt.
use vmnetx.Prelude.{◌≡◌, true, false, List, [], ◌∷◌}
use vmnetx.Prelude.Dict.{find}
use vmnetx.Prelude.Int.{pos}
use vmnetx.Controller.{starting}
use vmnetx.Controller.Local
use vmnetx.Controller.Local.{LocalController, returned}
use vmnetx.Controller.Local.Events.{Event, run}
use vmnetx.Controller.Virtevent
use vmnetx.Controller.Virtevent.{Events}
use vmnetx.Controller.Virtevent.Requests
use vmnetx.Controller.Virtevent.Requests.{
  Call, adds_handle, updates_handle, removes_handle, adds_timeout, ask_all, empty, wanted_watch,
  wanted_timer, watches_of, timers_of,
}
use vmnetx.Controller.Virtevent.Refinement.{run_refines}

-- A start that fails, up to the announcement.
abbrev history : List Event
history =
    Event.turns
    ∷ Event.starts
    ∷ Event.startup_goes_on 0 true
    ∷ Event.startup_goes_on 0 false
    ∷ Event.startup_goes_on 0 true
    ∷ []

abbrev failing : LocalController
failing = run (Local.initialized false 0) history

abbrev booted : LocalController
booted = record (Local.initialized false 0) {
  state = starting;
  startups = record { position = returned false; frames = 0 } ∷ [];
  startup_running = true;
  domain = true;
}

abbrev after_stop : LocalController
after_stop =
    run booted (Event.stops ∷ Event.stop_ends ∷ Event.reports ∷ Event.startup_goes_on 0 true ∷ [])

abbrev reading : Events
reading = record { readable = true; writable = false; failing = false; hangup = false }

abbrev calls : List Call
calls =
    adds_handle 5 Virtevent.no_events true
    ∷ updates_handle 1 reading
    ∷ adds_timeout (pos 250) false
    ∷ adds_handle 6 reading false
    ∷ removes_handle 3
    ∷ []

run_refines_example :
    (watches_of (find 1 (Requests.run Virtevent.new calls).io_handles)
      ≡ wanted_watch ((ask_all empty calls).handles 1))
    × (timers_of (find 1 (Requests.run Virtevent.new calls).timeout_handles)
        ≡ wanted_timer ((ask_all empty calls).timeouts 1))
    × ((Requests.run Virtevent.new calls).left_watches ≡ [])
    × ((Requests.run Virtevent.new calls).left_timers ≡ [])
run_refines_example = run_refines calls 1

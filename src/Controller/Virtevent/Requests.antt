-- ===== src/Controller/Virtevent/Requests.antt =====
-- What libvirt asks of vmnetx/controller/local/virtevent.py, as a table of what is to be watched.
use vmnetx.Prelude.{ℕ, suc, Bool, Option, none, some, List, [], ◌∷◌, if◌then◌else◌, ◌==◌}
use vmnetx.Prelude.Int.{ℤ, pos, negsuc}
use vmnetx.Controller.Virtevent.{
  Events, Watch, any_event, condition_of, EventHandle, TimeoutHandle, LibvirtEventImpl, add_handle,
  update_handle, remove_handle, add_timeout, update_timeout, remove_timeout,
}

-- The calls of libvirt.
pub data Call : Type 0 where
  adds_handle : ℕ → Events → Bool → Call
  updates_handle : ℕ → Events → Call
  removes_handle : ℕ → Call
  adds_timeout : ℤ → Bool → Call
  updates_timeout : ℕ → ℤ → Call
  removes_timeout : ℕ → Call

unfoldable pub step : LibvirtEventImpl → Call → LibvirtEventImpl
step s (adds_handle fd events has_free) = add_handle fd events has_free s
step s (updates_handle id events) = update_handle id events s
step s (removes_handle id) = remove_handle id s
step s (adds_timeout interval has_free) = add_timeout interval has_free s
step s (updates_timeout id interval) = update_timeout id interval s
step s (removes_timeout id) = remove_timeout id s

unfoldable pub run : LibvirtEventImpl → List Call → LibvirtEventImpl
run s [] = s
run s (c ∷ cs) = run (step s c) cs

-- What the caller asked for: a descriptor with events, or an interval, for each identifier.
pub record Table : Type 0 where
  pub next_id : ℕ
  pub handles : ℕ → Option (ℕ × Events)
  pub timeouts : ℕ → Option ℤ

abbrev pub empty : Table
empty = record { next_id = 1; handles = λ j. none; timeouts = λ j. none }

abbrev pub with_events : Events → Option (ℕ × Events) → Option (ℕ × Events)
with_events e none = none
with_events e (some (fd, old)) = some (fd, e)

abbrev pub with_interval : ℤ → Option ℤ → Option ℤ
with_interval n none = none
with_interval n (some old) = some n

abbrev pub put : {V : Type 0} → ℕ → Option V → (ℕ → Option V) → ℕ → Option V
put k v f j = if j == k then v else f j

abbrev pub ask : Table → Call → Table
ask t (adds_handle fd events has_free) = record t {
  next_id = suc t.next_id;
  handles = put t.next_id (some (fd, events)) t.handles;
}
ask t (updates_handle id events) = record t {
  handles = put id (with_events events (t.handles id)) t.handles;
}
ask t (removes_handle id) = record t { handles = put id none t.handles }
ask t (adds_timeout interval has_free) = record t {
  next_id = suc t.next_id;
  timeouts = put t.next_id (some interval) t.timeouts;
}
ask t (updates_timeout id interval) = record t {
  timeouts = put id (with_interval interval (t.timeouts id)) t.timeouts;
}
ask t (removes_timeout id) = record t { timeouts = put id none t.timeouts }

abbrev pub ask_all : Table → List Call → Table
ask_all t [] = t
ask_all t (c ∷ cs) = ask_all (ask t c) cs

-- The sources that the main loop should have.
abbrev pub wanted_watch : Option (ℕ × Events) → List Watch
wanted_watch none = []
wanted_watch (some (fd, e)) =
    if any_event e then record { fd = fd; condition = condition_of e } ∷ [] else []

abbrev pub wanted_timer : Option ℤ → List ℕ
wanted_timer none = []
wanted_timer (some (pos n)) = n ∷ []
wanted_timer (some (negsuc n)) = []

-- All the sources that it has for a handle.
abbrev pub watches_of : Option EventHandle → List Watch
watches_of none = []
watches_of (some h) = h.sources

abbrev pub timers_of : Option TimeoutHandle → List ℕ
timers_of none = []
timers_of (some h) = h.sources

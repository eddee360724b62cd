-- ===== src/Controller/Virtevent.antt =====
-- `LibvirtEventImpl` of vmnetx/controller/local/virtevent.py: the file descriptors and timers that libvirt
-- asks to watch, as sources of the GLib main loop. The lock makes each call one step.
pub mod Requests
pub mod Refinement
use vmnetx.Prelude.{
  ℕ, suc, Bool, true, false, ◌&&◌, ◌||◌, Option, none, some, List, [], ◌∷◌, ◌++◌, if◌then◌else◌,
  ◌==◌,
}
use vmnetx.Prelude.Dict.{find, delete, adjust}
use vmnetx.Prelude.Int.{ℤ, pos, negsuc}

-- The bits of libvirt's events, and of GLib's conditions.
pub record Events : Type 0 where
  pub readable : Bool
  pub writable : Bool
  pub failing : Bool
  pub hangup : Bool

pub record Condition : Type 0 where
  pub io_in : Bool
  pub io_out : Bool
  pub io_err : Bool
  pub io_hup : Bool

abbrev pub no_events : Events
no_events = record { readable = false; writable = false; failing = false; hangup = false }

abbrev pub same_bit : Bool → Bool → Bool
same_bit true true = true
same_bit false false = true
same_bit _ _ = false

abbrev pub same_events : Events → Events → Bool
same_events a b =
    (same_bit a.readable b.readable && same_bit a.writable b.writable)
    && (same_bit a.failing b.failing && same_bit a.hangup b.hangup)

-- `if events:`
abbrev pub any_event : Events → Bool
any_event e = (e.readable || e.writable) || (e.failing || e.hangup)

-- A call of `io_add_watch` that is not undone.
pub record Watch : Type 0 where
  pub fd : ℕ
  pub condition : Condition

abbrev pub condition_of : Events → Condition
condition_of e = record { io_in = e.readable; io_out = e.writable; io_err = false; io_hup = false }

pub record EventHandle : Type 0 where
  pub fd : ℕ
  pub has_free : Bool  -- `_free_func` is not None
  pub sources : List Watch  -- its calls of `io_add_watch` that are not undone; the newest is `_source`
  pub events : Events

unfoldable pub new_handle : ℕ → Bool → EventHandle
new_handle fd has_free = record { fd = fd; has_free = has_free; sources = []; events = no_events }

-- `glib.source_remove(self._source)`.
abbrev pub remove_source : {A : Type 0} → List A → List A
remove_source [] = []
remove_source (x ∷ xs) = xs

-- `_EventHandle.set_events`: the old source is removed, and a new one made.
unfoldable pub set_events : Events → EventHandle → EventHandle
set_events events h =
    if same_events events h.events
    then h
    else let removed = if any_event h.events then remove_source h.sources else h.sources in
      let sources =
        if any_event events
        then record { fd = h.fd; condition = condition_of events } ∷ removed
        else removed in
      record h { sources = sources; events = events }

-- `_EventHandle.close`, up to the queueing of `_destroy`.
unfoldable pub close_handle : EventHandle → EventHandle
unfolding set_events
close_handle h = set_events no_events h

-- The events that `_event_callback` reports to libvirt.
unfoldable pub event_callback : Condition → Events
event_callback c = record {
  readable = c.io_in;
  writable = c.io_out;
  failing = c.io_err;
  hangup = c.io_hup;
}

pub record TimeoutHandle : Type 0 where
  pub has_free : Bool
  pub sources : List ℕ  -- its calls of `timeout_add` that are not undone; the newest is `_source`
  pub interval : ℤ

unfoldable pub new_timeout : Bool → TimeoutHandle
new_timeout has_free = record { has_free = has_free; sources = []; interval = negsuc 0 }

abbrev pub same_interval : ℤ → ℤ → Bool
same_interval (pos a) (pos b) = a == b
same_interval (negsuc a) (negsuc b) = a == b
same_interval _ _ = false

-- The sources with one for the new interval, and what is left of them when the old one is given up.
abbrev pub start : ℤ → List ℕ → List ℕ
start (pos n) old = n ∷ old
start (negsuc n) old = old

abbrev pub give_up : ℤ → List ℕ → List ℕ
give_up (pos n) old = remove_source old
give_up (negsuc n) old = old

-- `_TimeoutHandle.set_interval`.
unfoldable pub set_interval : ℤ → TimeoutHandle → TimeoutHandle
set_interval interval h =
    if same_interval interval h.interval
    then h
    else record h { sources = start interval (give_up h.interval h.sources); interval = interval }

-- `_TimeoutHandle.close`, up to the queueing of `_destroy`.
unfoldable pub close_timeout : TimeoutHandle → TimeoutHandle
unfolding set_interval
close_timeout h = set_interval (negsuc 0) h

pub record LibvirtEventImpl : Type 0 where
  pub next_id : ℕ
  pub io_handles : List (ℕ × EventHandle)
  pub timeout_handles : List (ℕ × TimeoutHandle)
  pub freeing : List ℕ  -- handles whose `_destroy` is queued
  pub left_watches : List Watch  -- sources of removed handles that are still in the main loop
  pub left_timers : List ℕ

unfoldable pub new : LibvirtEventImpl
new = record {
  next_id = 1;
  io_handles = [];
  timeout_handles = [];
  freeing = [];
  left_watches = [];
  left_timers = [];
}

unfoldable pub add_handle : ℕ → Events → Bool → LibvirtEventImpl → LibvirtEventImpl
unfolding set_events new_handle
add_handle fd events has_free s = record s {
  next_id = suc s.next_id;
  io_handles = (s.next_id, set_events events (new_handle fd has_free)) ∷ s.io_handles;
}

unfoldable pub update_handle : ℕ → Events → LibvirtEventImpl → LibvirtEventImpl
unfolding set_events
update_handle id events s = record s { io_handles = adjust id (set_events events) s.io_handles }

-- `close` queues the call of the function that frees the data.
abbrev pub freed_handle : ℕ → Option EventHandle → List ℕ
freed_handle id none = []
freed_handle id (some h) = if h.has_free then id ∷ [] else []

abbrev pub freed_timeout : ℕ → Option TimeoutHandle → List ℕ
freed_timeout id none = []
freed_timeout id (some h) = if h.has_free then id ∷ [] else []

abbrev pub left_watch : Option EventHandle → List Watch → List Watch
left_watch none ws = ws
left_watch (some h) ws = (close_handle h).sources ++ ws

abbrev pub left_timer : Option TimeoutHandle → List ℕ → List ℕ
left_timer none ts = ts
left_timer (some h) ts = (close_timeout h).sources ++ ts

abbrev pub queue : List ℕ → List ℕ → List ℕ
queue [] ids = ids
queue (id ∷ more) ids = id ∷ queue more ids

unfoldable pub remove_handle : ℕ → LibvirtEventImpl → LibvirtEventImpl
unfolding close_handle
remove_handle id s = record s {
  io_handles = delete id s.io_handles;
  freeing = queue (freed_handle id (find id s.io_handles)) s.freeing;
  left_watches = left_watch (find id s.io_handles) s.left_watches;
}

unfoldable pub add_timeout : ℤ → Bool → LibvirtEventImpl → LibvirtEventImpl
unfolding set_interval new_timeout
add_timeout interval has_free s = record s {
  next_id = suc s.next_id;
  timeout_handles = (s.next_id, set_interval interval (new_timeout has_free)) ∷ s.timeout_handles;
}

unfoldable pub update_timeout : ℕ → ℤ → LibvirtEventImpl → LibvirtEventImpl
unfolding set_interval
update_timeout id interval s = record s {
  timeout_handles = adjust id (set_interval interval) s.timeout_handles;
}

unfoldable pub remove_timeout : ℕ → LibvirtEventImpl → LibvirtEventImpl
unfolding close_timeout
remove_timeout id s = record s {
  timeout_handles = delete id s.timeout_handles;
  freeing = queue (freed_timeout id (find id s.timeout_handles)) s.freeing;
  left_timers = left_timer (find id s.timeout_handles) s.left_timers;
}

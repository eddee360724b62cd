-- ===== src/Controller/Virtevent/Refinement.antt =====
-- `LibvirtEventImpl` of vmnetx/controller/local/virtevent.py implements a table of what is to be watched.
use vmnetx.Prelude.{
  ℕ, suc, ◌≡◌, refl, sym, ap, ◌∙◌, subst, Bool, Option, none, some, List, [], ◌∷◌, if◌then◌else◌,
  ◌==◌, arith, Bool-cases, inl, inr,
}
use vmnetx.Prelude.Dict.{find, map_option, find-delete, find-adjust}
use vmnetx.Prelude.Int.{ℤ}
use vmnetx.Controller.Virtevent
use vmnetx.Controller.Virtevent.{
  Events, Watch, any_event, condition_of, EventHandle, TimeoutHandle, set_events, set_interval,
  LibvirtEventImpl, close_handle, close_timeout, left_watch, left_timer, add_handle, update_handle,
  remove_handle, add_timeout, update_timeout, remove_timeout,
}
use vmnetx.Controller.Virtevent.Requests.{
  Call, adds_handle, updates_handle, removes_handle, adds_timeout, updates_timeout, removes_timeout,
  step, run, Table, empty, with_events, with_interval, put, ask, ask_all, wanted_watch,
  wanted_timer, watches_of, timers_of,
}

-- A handle stands for an entry: the same descriptor and events, and the source that they want.
abbrev StandsFor : Option EventHandle → Option (ℕ × Events) → Type 0
StandsFor none o = o ≡ none
StandsFor (some h) o =
    (o ≡ some (h.fd, h.events)) × (h.sources ≡ wanted_watch (some (h.fd, h.events)))

abbrev TimerFor : Option TimeoutHandle → Option ℤ → Type 0
TimerFor none o = o ≡ none
TimerFor (some h) o = (o ≡ some h.interval) × (h.sources ≡ wanted_timer (some h.interval))

record Refines (s : LibvirtEventImpl) (t : Table) : Type 0 where
  same_id : s.next_id ≡ t.next_id
  handles_are : (j : ℕ) → StandsFor (find j s.io_handles) (t.handles j)
  no_watches : s.left_watches ≡ []
  no_timers : s.left_timers ≡ []
  timeouts_are : (j : ℕ) → TimerFor (find j s.timeout_handles) (t.timeouts j)

set_events-StandsFor :
    (e : Events) (h : Option EventHandle) (o : Option (ℕ × Events))
    → StandsFor h o
    → StandsFor (map_option (set_events e) h) (with_events e o)
unfolding set_events
set_events-StandsFor e none o v = ground arith
set_events-StandsFor e (some h) o v = ground arith

set_interval-TimerFor :
    (n : ℤ) (h : Option TimeoutHandle) (o : Option ℤ)
    → TimerFor h o
    → TimerFor (map_option (set_interval n) h) (with_interval n o)
unfolding set_interval
set_interval-TimerFor n none o v = ground arith
set_interval-TimerFor n (some h) o v = ground arith

close-none :
    (h : Option EventHandle) (o : Option (ℕ × Events)) → StandsFor h o → left_watch h [] ≡ []
unfolding close_handle
close-none none o v = refl
close-none (some h) o v = ground arith

close_timeout-none : (h : Option TimeoutHandle) (o : Option ℤ) → TimerFor h o → left_timer h [] ≡ []
unfolding close_timeout
close_timeout-none none o v = refl
close_timeout-none (some h) o v = ground arith

-- The entries of a table that is changed at one place.
put-StandsFor :
    (k j : ℕ) (h : Option EventHandle) (o : Option (ℕ × Events)) (g : Option EventHandle)
    (f : ℕ → Option (ℕ × Events))
    → (j ≡ k → StandsFor h o)
    → StandsFor g (f j)
    → StandsFor (if j == k then h else g) (put k o f j)
put-StandsFor k j h o g f p q = elim (Bool-cases (j == k)) [
  | inl e ↦ rw e (p (ground arith))
  | inr e ↦ rw e q
]

put-TimerFor :
    (k j : ℕ) (h : Option TimeoutHandle) (o : Option ℤ) (g : Option TimeoutHandle)
    (f : ℕ → Option ℤ)
    → (j ≡ k → TimerFor h o)
    → TimerFor g (f j)
    → TimerFor (if j == k then h else g) (put k o f j)
put-TimerFor k j h o g f p q = elim (Bool-cases (j == k)) [
  | inl e ↦ rw e (p (ground arith))
  | inr e ↦ rw e q
]

new_handle-StandsFor :
    (fd : ℕ) (e : Events) (has_free : Bool)
    → StandsFor (some (set_events e (Virtevent.new_handle fd has_free))) (some (fd, e))
unfolding set_events Virtevent.new_handle
new_handle-StandsFor fd e has_free = ground arith

new_timeout-TimerFor :
    (n : ℤ) (has_free : Bool)
    → TimerFor (some (set_interval n (Virtevent.new_timeout has_free))) (some n)
unfolding set_interval Virtevent.new_timeout
new_timeout-TimerFor n has_free = ground arith

step-Refines :
    (s : LibvirtEventImpl) (t : Table) (c : Call) → Refines s t → Refines (step s c) (ask t c)
unfolding step add_handle update_handle remove_handle add_timeout update_timeout remove_timeout
step-Refines s t (adds_handle fd e has_free) v = record {
  same_id = ap suc v.same_id;
  handles_are = λ j.
      subst
        (λ k.
          StandsFor
            (if j == s.next_id
              then some (set_events e (Virtevent.new_handle fd has_free))
              else find j s.io_handles)
            (put k (some (fd, e)) t.handles j))
        v.same_id
        (put-StandsFor s.next_id j _ (some (fd, e)) (find j s.io_handles) t.handles
          (λ q. new_handle-StandsFor fd e has_free) (v.handles_are j));
  no_watches = v.no_watches;
  no_timers = v.no_timers;
  timeouts_are = v.timeouts_are;
}
step-Refines s t (updates_handle id e) v = record {
  same_id = v.same_id;
  handles_are = λ j. rw (find-adjust j id (set_events e) s.io_handles) (
      put-StandsFor id j _ _ (find j s.io_handles) t.handles
        (λ q.
          set_events-StandsFor e (find j s.io_handles) (t.handles id)
            (subst (λ k. StandsFor (find j s.io_handles) (t.handles k)) q (v.handles_are j)))
        (v.handles_are j));
  no_watches = v.no_watches;
  no_timers = v.no_timers;
  timeouts_are = v.timeouts_are;
}
step-Refines s t (removes_handle id) v = record {
  same_id = v.same_id;
  handles_are = λ j.
      rw (find-delete j id s.io_handles) (
        put-StandsFor id j none none (find j s.io_handles) t.handles (λ q. refl) (v.handles_are j));
  no_watches =
      rw v.no_watches (close-none (find id s.io_handles) (t.handles id) (v.handles_are id));
  no_timers = v.no_timers;
  timeouts_are = v.timeouts_are;
}
step-Refines s t (adds_timeout n has_free) v = record {
  same_id = ap suc v.same_id;
  handles_are = v.handles_are;
  no_watches = v.no_watches;
  no_timers = v.no_timers;
  timeouts_are = λ j.
      subst
        (λ k.
          TimerFor
            (if j == s.next_id
              then some (set_interval n (Virtevent.new_timeout has_free))
              else find j s.timeout_handles)
            (put k (some n) t.timeouts j))
        v.same_id
        (put-TimerFor s.next_id j _ (some n) (find j s.timeout_handles) t.timeouts
          (λ q. new_timeout-TimerFor n has_free) (v.timeouts_are j));
}
step-Refines s t (updates_timeout id n) v = record {
  same_id = v.same_id;
  handles_are = v.handles_are;
  no_watches = v.no_watches;
  no_timers = v.no_timers;
  timeouts_are = λ j. rw (find-adjust j id (set_interval n) s.timeout_handles) (
      put-TimerFor id j _ _ (find j s.timeout_handles) t.timeouts
        (λ q.
          set_interval-TimerFor n (find j s.timeout_handles) (t.timeouts id)
            (subst (λ k. TimerFor (find j s.timeout_handles) (t.timeouts k)) q (v.timeouts_are j)))
        (v.timeouts_are j));
}
step-Refines s t (removes_timeout id) v = record {
  same_id = v.same_id;
  handles_are = v.handles_are;
  no_watches = v.no_watches;
  no_timers =
      rw v.no_timers
        (close_timeout-none (find id s.timeout_handles) (t.timeouts id) (v.timeouts_are id));
  timeouts_are = λ j. rw (find-delete j id s.timeout_handles) (
      put-TimerFor id j none none (find j s.timeout_handles) t.timeouts (λ q. refl)
        (v.timeouts_are j));
}

run-Refines :
    (cs : List Call) (s : LibvirtEventImpl) (t : Table)
    → Refines s t
    → Refines (run s cs) (ask_all t cs)
unfolding run
run-Refines [] s t v = v
run-Refines (c ∷ cs) s t v = run-Refines cs (step s c) (ask t c) (step-Refines s t c v)

new-Refines : Refines Virtevent.new empty
unfolding Virtevent.new
new-Refines = record {
  same_id = refl;
  handles_are = λ j. refl;
  no_watches = refl;
  no_timers = refl;
  timeouts_are = λ j. refl;
}

watches_of_wanted :
    (h : Option EventHandle) (o : Option (ℕ × Events))
    → StandsFor h o
    → watches_of h ≡ wanted_watch o
watches_of_wanted none o v = ground arith
watches_of_wanted (some h) o v = v.1 ∙ ap wanted_watch (sym v.0)

timers_of_wanted :
    (h : Option TimeoutHandle) (o : Option ℤ) → TimerFor h o → timers_of h ≡ wanted_timer o
timers_of_wanted none o v = ground arith
timers_of_wanted (some h) o v = v.1 ∙ ap wanted_timer (sym v.0)

-- After any calls of libvirt, the main loop has, for each identifier, exactly the sources that the
-- last calls about it asked for: one watch of its descriptor for its events, if it has any, and one
-- timer with its interval, if that is not negative, and no other; and of removed handles it has none.
pub run_refines :
    (cs : List Call) (j : ℕ)
    → (watches_of (find j (run Virtevent.new cs).io_handles)
        ≡ wanted_watch ((ask_all empty cs).handles j))
      × (timers_of (find j (run Virtevent.new cs).timeout_handles)
          ≡ wanted_timer ((ask_all empty cs).timeouts j))
      × ((run Virtevent.new cs).left_watches ≡ [])
      × ((run Virtevent.new cs).left_timers ≡ [])
run_refines cs j =
    let v = run-Refines cs Virtevent.new empty new-Refines in
    (
      watches_of_wanted _ _ (v.handles_are j),
      timers_of_wanted _ _ (v.timeouts_are j),
      v.no_watches,
      v.no_timers,
    )

-- ===== src/Controller/Local/Announce.antt =====
-- What a `LocalController` of vmnetx/controller/local/__init__.py tells its listeners.
use vmnetx.Prelude.{
  ℕ, suc, ◌+◌, ◌≡◌, ◌⊎◌, Bool, true, false, not, ◌&&◌, List, [], ◌∷◌, if◌then◌else◌,
}
use vmnetx.Controller.{VmState, stopped, same_vm_state}
use vmnetx.Controller.Local
use vmnetx.Controller.Local.{Position, stops_with, Startup, LocalController}
use vmnetx.Controller.Local.Events.{count_stopped, owed}

abbrev pub none_left : List Startup → Bool
none_left [] = true
none_left (t ∷ ts) = false

-- A thread that will make the state STOPPED will queue one 'vm-stopped'.
abbrev pub IsOne : Position → Type 0
IsOne (stops_with xs) = count_stopped xs ≡ 1
IsOne _ = Unit

abbrev pub AllOnes : List Startup → Type 0
AllOnes [] = Unit
AllOnes (t ∷ ts) = IsOne t.position × AllOnes ts

-- The flag is not left up by threads that have ended.
pub record Inv (s : LocalController) : Type 0 where
  pub ones : AllOnes s.startups
  pub flag : none_left s.startups ≡ true → s.startup_running ≡ false

-- A step to STOPPED from another state.
abbrev pub stops_now : VmState → VmState → ℕ
stops_now old new = if not (same_vm_state old stopped) && same_vm_state new stopped then 1 else 0

-- `join` runs the threads of `_stop_vm` only.
pub record Joined (s t : LocalController) : Type 0 where
  pub same_startups : t.startups ≡ s.startups
  pub same_flag : t.startup_running ≡ s.startup_running
  pub same_signals : t.signals ≡ s.signals
  pub same_queued : t.queued ≡ s.queued

-- What a controller with these threads has announced.
abbrev total : LocalController → List Startup → ℕ
total s ts = count_stopped s.signals + count_stopped s.queued + owed ts

-- 'vm-stopped' is announced as often as the state becomes STOPPED, or once more by a thread that finds it
-- STOPPED already, where `again` says that a thread makes it STOPPED.
abbrev Announces : Bool → LocalController → List Startup → LocalController → List Startup → Type 0
Announces again s ts t us =
    (total t us ≡ total s ts + stops_now s.state t.state)
    ⊎ ((again ≡ true) × (s.state ≡ stopped) × (t.state ≡ stopped) × (total t us ≡ suc (total s ts)))

-- One event: the invariant is kept, and the announcements are right.
abbrev Good : Bool → LocalController → LocalController → Type 0
Good again s t = Inv t × Announces again s s.startups t t.startups

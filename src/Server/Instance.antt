-- ===== src/Server/Instance.antt =====
-- `_WorkerThreadFuture` and `_Instance` of vmnetx/server/__init__.py: one virtual machine, the
-- connections to it, and the threads that start and stop its controller. Connections and
-- controllers are numbers. The calls that `glib.idle_add` has queued, the threads that run, and what
-- was done to other objects are part of the state.
pub mod Events
pub mod Lifecycle
pub mod Ending
use vmnetx.Prelude.{
  ℕ, zero, suc, Bool, true, false, not, ◌&&◌, Option, none, some, List, [], ◌∷◌, ◌++◌, map, ◌==◌,
  if◌then◌else◌,
}

-- `_done`, with `_result` (a controller) or `_exception`.
pub data Outcome : Type 0 where
  pending : Outcome
  result : ℕ → Outcome
  exception : Outcome

-- A future of `_get_controller_worker`: the callbacks are for connections.
pub record WorkerThreadFuture : Type 0 where
  pub outcome : Outcome
  pub callbacks : List ℕ

-- A queued call of `_get_controller_result`, or of `_controller_shutdown_finished`.
pub data Idle : Type 0 where
  controller_result : ℕ → Outcome → Idle
  shutdown_finished : Idle

-- What is done to connections, threads and the listener of 'destroy'.
pub data Effect : Type 0 where
  start_worker destroy : Effect
  set_controller : ℕ → ℕ → Effect
  fail_controller destroy_conn start_shutdown : ℕ → Effect

pub record Instance : Type 0 where
  pub controller_future : Option WorkerThreadFuture
  pub controller : Option ℕ
  pub conns : List ℕ
  pub valid : Bool
  pub destroyed : Bool
  pub last_seen : ℕ
  pub idle : List Idle
  pub closing : ℕ  -- threads in `controller.shutdown` whose callback is `_controller_shutdown_finished`
  pub effects : List Effect  -- the newest first

unfoldable pub new : ℕ → Instance
new now = record {
  controller_future = none;
  controller = none;
  conns = [];
  valid = true;
  destroyed = false;
  last_seen = now;
  idle = [];
  closing = 0;
  effects = [];
}

abbrev pub log : Effect → Instance → Instance
log e s = record s { effects = e ∷ s.effects }

-- `set.add` and `set.remove`; the order is of no meaning.
unfoldable pub contains : ℕ → List ℕ → Bool
contains c [] = false
contains c (d ∷ ds) = if c == d then true else contains c ds

unfoldable pub remove : ℕ → List ℕ → List ℕ
remove c [] = []
remove c (d ∷ ds) = let rest = remove c ds in if c == d then rest else d ∷ rest

unfoldable pub add : ℕ → List ℕ → List ℕ
unfolding contains
add c conns = if contains c conns then conns else c ∷ conns

-- `get(partial(self._get_controller_result, conn))`.
abbrev pub get_when : Outcome → WorkerThreadFuture → ℕ → Instance → Instance
get_when pending f conn s = record s {
  controller_future = some (record f { callbacks = f.callbacks ++ conn ∷ [] });
}
get_when o f conn s = record s {
  controller_future = some f;
  idle = s.idle ++ controller_result conn o ∷ [];
}

unfoldable pub get : WorkerThreadFuture → ℕ → Instance → Instance
get f conn s = get_when f.outcome f conn s

-- `_run` of the future, when `_get_controller_worker` returns or raises.
abbrev pub fire_when : Outcome → Outcome → WorkerThreadFuture → Instance → Instance
fire_when pending o f s = record s {
  controller_future = some (record { outcome = o; callbacks = [] });
  idle = s.idle ++ map (λ conn. controller_result conn o) f.callbacks;
}
fire_when _ o f s = s

abbrev pub fire_all : Outcome → Option WorkerThreadFuture → Instance → Instance
fire_all o none s = s
fire_all o (some f) s = fire_when f.outcome o f s

unfoldable pub run_worker : Outcome → Instance → Instance
run_worker pending s = s
run_worker o s = fire_all o s.controller_future s

-- The last part of `add_connection`.
abbrev pub want_controller : Option ℕ → Option WorkerThreadFuture → ℕ → Instance → Instance
want_controller (some c) f conn s = log (set_controller conn c) s
want_controller none none conn s =
    get (record { outcome = pending; callbacks = [] }) conn (log start_worker s)
want_controller none (some f) conn s = get f conn s

-- `add_connection(conn)` at the time `now`; none is the ValueError.
unfoldable pub add_connection : ℕ → ℕ → Instance → Option Instance
unfolding get
add_connection conn now s =
    if not s.valid
    then none
    else some (
        want_controller s.controller s.controller_future conn
          (record s { last_seen = now; conns = add conn s.conns }))

abbrev pub store_controller : Option ℕ → ℕ → Option ℕ
store_controller none c = some c
store_controller (some old) c = some old

-- `_get_controller_result`.
unfoldable pub get_controller_result : ℕ → Outcome → Instance → Instance
get_controller_result conn (result c) s =
    if s.destroyed
    then log (start_shutdown c) s
    else log (set_controller conn c) (record s { controller = store_controller s.controller c })
get_controller_result conn _ s = log (fail_controller conn) s

abbrev pub is_empty : List ℕ → Bool
is_empty [] = true
is_empty _ = false

abbrev pub close_controller : Option ℕ → Instance → Instance
close_controller (some c) s =
    log (start_shutdown c) (record s { controller = none; closing = suc s.closing })
close_controller none s = log destroy s

-- `_try_destroy`.
unfoldable pub try_destroy : Instance → Instance
try_destroy s =
    if not s.valid && is_empty s.conns && not s.destroyed
    then close_controller s.controller (record s { destroyed = true })
    else s

-- `_close`; a KeyError leaves the state as it was.
unfoldable pub close : ℕ → Instance → Instance
close conn s =
    if contains conn s.conns then try_destroy (record s { conns = remove conn s.conns }) else s

-- `_update_last_seen`, at the time `now`.
unfoldable pub update_last_seen : ℕ → Instance → Instance
update_last_seen now s = record s { last_seen = now }

-- The loop of `shutdown`; the connections of `closes` close in their `destroy`.
unfoldable pub destroy_all : (ℕ → Bool) → List ℕ → Instance → Instance
destroy_all closes [] s = s
destroy_all closes (c ∷ cs) s =
    destroy_all closes cs
      (if closes c then close c (log (destroy_conn c) s) else log (destroy_conn c) s)

unfoldable pub shutdown : (ℕ → Bool) → Instance → Instance
shutdown closes s =
    if s.valid then try_destroy (destroy_all closes s.conns (record s { valid = false })) else s

-- The main loop calls what was queued first.
unfoldable pub run_idle : Instance → Instance
run_idle s = run_call s.idle
  where
    run_call : List Idle → Instance
    run_call [] = s
    run_call (controller_result conn o ∷ calls) =
        get_controller_result conn o (record s { idle = calls })
    run_call (shutdown_finished ∷ calls) = log destroy (record s { idle = calls })

-- A thread in `controller.shutdown` returns or raises.
unfoldable pub run_shutdown : Instance → Instance
run_shutdown s = returned s.closing
  where
    returned : ℕ → Instance
    returned zero = s
    returned (suc n) = record s { closing = n; idle = s.idle ++ shutdown_finished ∷ [] }

-- The status, where the controller's own state is a parameter.
pub data Status : Type 0 where
  terminating initializing unstarted : Status
  of_controller : ℕ → Status

unfoldable pub status : Instance → Status
status s = named s.controller s.controller_future
  where
    named : Option ℕ → Option WorkerThreadFuture → Status
    named (some c) f = of_controller c
    named none f = if s.destroyed then terminating else started f
      where
        started : Option WorkerThreadFuture → Status
        started (some _) = initializing
        started none = unstarted

-- ===== src/Server/Instance/Ending.antt =====
-- How an `_Instance` of vmnetx/server/__init__.py ends.
use vmnetx.Prelude.{
  ℕ, ◌≤◌, ◌≡◌, refl, Bool, true, false, Option, none, some, List, [], ◌∷◌, arith, if◌then◌else◌,
}
use vmnetx.Server.Instance
use vmnetx.Server.Instance.{
  Instance, Idle, log, try_destroy, close, destroy_all, shutdown, contains, remove, add_connection,
  Outcome, pending, result, exception, get_when, fire_all, want_controller, WorkerThreadFuture,
}
use vmnetx.Server.Instance.Events.{Event, step, run, destroys, shutdowns, waiting, finishing}
use vmnetx.Server.Instance.Lifecycle.{is_made, run-Inv, new-Inv}

-- Whatever happens, in any order: 'destroy' is emitted at most once, and then the instance refuses
-- connections, has none left, and has let go of its controller.
pub destroys-le :
    (now : ℕ) (es : List Event)
    → let s = run (Instance.new now) es in
      (destroys s ≤ 1)
      × (destroys s ≡ 1
          → (s.destroyed ≡ true) × (s.valid ≡ false) × (s.conns ≡ []) × (s.controller ≡ none))
destroys-le now es = let v = run-Inv es (Instance.new now) (new-Inv now) in ground arith

-- Whatever has happened, in any order: once the instance is destroyed and no call is queued and no
-- shutdown of its controller is running, 'destroy' has been emitted, and a controller that was made
-- has been shut down.
pub shutdowns-le :
    (now : ℕ) (es : List Event)
    → (run (Instance.new now) es).destroyed ≡ true
    → (run (Instance.new now) es).idle ≡ []
    → (run (Instance.new now) es).closing ≡ 0
    → (destroys (run (Instance.new now) es) ≡ 1)
      × (is_made (run (Instance.new now) es).controller_future ≡ true
          → 1 ≤ shutdowns (run (Instance.new now) es))
unfolding waiting finishing
shutdowns-le now es h e k = let v = run-Inv es (Instance.new now) (new-Inv now) in ground (arith, e)

-- An instance that is shut down, with no connection left, is destroyed.
abbrev pub IsSettled : Instance → Type 0
IsSettled s = s.valid ≡ false → s.conns ≡ [] → s.destroyed ≡ true

try_destroy-IsSettled : (s : Instance) → IsSettled (try_destroy s)
unfolding try_destroy
try_destroy-IsSettled s = ground arith

if_IsSettled :
    (b : Bool) (s t : Instance)
    → (b ≡ true → IsSettled s)
    → (b ≡ false → IsSettled t)
    → IsSettled (if b then s else t)
if_IsSettled true s t f g = f refl
if_IsSettled false s t f g = g refl

fire_all-IsSettled :
    (o : Outcome) (f : Option WorkerThreadFuture) (s : Instance)
    → IsSettled s
    → IsSettled (fire_all o f s)
fire_all-IsSettled o none s v = v
fire_all-IsSettled o (some f) s v = ground arith

step-IsSettled : (s : Instance) (e : Event) → IsSettled s → IsSettled (step s e)
unfolding step Instance.update_last_seen close shutdown Instance.run_shutdown Instance.run_idle
    Instance.run_worker Instance.get_controller_result add_connection Instance.get
step-IsSettled s (Event.pings now) v = v
step-IsSettled s (Event.connects conn now) v = ground arith
step-IsSettled s (Event.closed conn) v =
    if_IsSettled (contains conn s.conns) _ s (λ h. try_destroy-IsSettled _) (λ h. v)
step-IsSettled s (Event.worker_ends pending) v = v
step-IsSettled s (Event.worker_ends (result c)) v =
    fire_all-IsSettled (result c) s.controller_future s v
step-IsSettled s (Event.worker_ends exception) v =
    fire_all-IsSettled exception s.controller_future s v
step-IsSettled s Event.shutdown_ends v = ground arith
step-IsSettled s Event.turns v = ground arith
step-IsSettled s (Event.shuts_down closes) v =
    if_IsSettled s.valid _ s (λ h. try_destroy-IsSettled _) (λ h. v)

run-IsSettled_from : (es : List Event) (s : Instance) → IsSettled s → IsSettled (run s es)
unfolding run
run-IsSettled_from [] s v = v
run-IsSettled_from (e ∷ es) s v = run-IsSettled_from es (step s e) (step-IsSettled s e v)

run-IsSettled : (now : ℕ) (es : List Event) → IsSettled (run (Instance.new now) es)
unfolding Instance.new
run-IsSettled now es = run-IsSettled_from es (Instance.new now) (ground arith)

-- Whatever has happened, in any order: an instance that is shut down and has no connection left is
-- destroyed, so its end waits for nothing but the connections that are still open.
pub run-destroyed :
    (now : ℕ) (es : List Event)
    → (run (Instance.new now) es).valid ≡ false
    → (run (Instance.new now) es).conns ≡ []
    → (run (Instance.new now) es).destroyed ≡ true
run-destroyed now es = run-IsSettled now es

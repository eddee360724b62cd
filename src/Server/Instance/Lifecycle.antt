-- ===== src/Server/Instance/Lifecycle.antt =====
-- `_Instance` of vmnetx/server/__init__.py over any sequence of events: what is announced at most
-- once, and that no controller is left running.
use vmnetx.Prelude.{
  ℕ, suc, ◌+◌, ◌≤◌, ◌≡◌, ◌≢◌, refl, ap, ◌⊎◌, inl, inr, Bool, true, false, not, Option, none, some,
  List, [], ◌∷◌, ◌++◌, map, length, arith, if◌then◌else◌, Bool-cases,
}
use vmnetx.Server.Instance
use vmnetx.Server.Instance.{
  Outcome, pending, result, exception, WorkerThreadFuture, Idle, controller_result,
  shutdown_finished, Effect, start_shutdown, destroy, Instance, log, add_connection, run_worker,
  contains, remove, destroy_conn, get_controller_result, try_destroy, close, destroy_all, shutdown,
  run_idle, run_shutdown, update_last_seen, get, want_controller, get_when, fire_all,
}
use vmnetx.Server.Instance.Events.{
  Event, pings, connects, closed, worker_ends, shutdown_ends, turns, shuts_down, or_same, step, run,
  destroys, shutdowns, waiting, finishing, waiting-append, finishing-append, waiting-result,
  waiting-exception, finishing-result,
}

-- What the future has brought so far.
pub data Phase : Type 0 where
  not_started started made failed : Phase

abbrev pub phase_of : Outcome → Phase
phase_of pending = started
phase_of (result c) = made
phase_of exception = failed

abbrev pub phase : Option WorkerThreadFuture → Phase
phase none = not_started
phase (some f) = phase_of f.outcome

abbrev pub callback_count : Option WorkerThreadFuture → ℕ
callback_count none = 0
callback_count (some f) = length f.callbacks

abbrev pub is_some : Option ℕ → Bool
is_some none = false
is_some (some _) = true

abbrev pub is_made : Option WorkerThreadFuture → Bool
is_made f = elim (phase f) [ made ↦ true | _ ↦ false ]

-- What holds between the events: what a destroyed instance is, that its end is announced once and
-- after the controller's, and that a controller which was made is kept, on its way, or shut down.
pub record Inv (s : Instance) : Type 0 where
  pub destroyed_is : s.destroyed ≡ true → (s.valid ≡ false) × (s.conns ≡ []) × (s.controller ≡ none)
  pub once : destroys s + finishing s.idle + s.closing ≡ (if s.destroyed then 1 else 0)
  pub callbacks : phase s.controller_future ≡ started → 1 ≤ callback_count s.controller_future
  pub not_made :
      is_made s.controller_future ≡ false
      → (s.controller ≡ none) × (waiting s.idle ≡ 0) × (shutdowns s ≡ 0)
  pub kept : s.destroyed ≡ false → (shutdowns s ≡ 0)
  pub made_kept :
      is_made s.controller_future ≡ true
      → s.destroyed ≡ false
      → (is_some s.controller ≡ true) ⊎ (1 ≤ waiting s.idle)
  pub made_shut :
      is_made s.controller_future ≡ true → s.destroyed ≡ true → 1 ≤ shutdowns s + waiting s.idle

try_destroy-Inv : (s : Instance) → Inv s → Inv (try_destroy s)
unfolding try_destroy
try_destroy-Inv s v = ground arith

if_Inv :
    (b : Bool) (s t : Instance)
    → (b ≡ true → Inv s)
    → (b ≡ false → Inv t)
    → Inv (if b then s else t)
if_Inv true s t f g = f refl
if_Inv false s t f g = g refl

remove-Inv :
    (c : ℕ) (s : Instance)
    → contains c s.conns ≡ true
    → Inv s
    → Inv (record s { conns = remove c s.conns })
unfolding contains remove
remove-Inv c s h v = ground arith

close-Inv : (c : ℕ) (s : Instance) → Inv s → Inv (close c s)
unfolding close
close-Inv c s v =
    if_Inv (contains c s.conns) _ s
      (λ h. try_destroy-Inv (record s { conns = remove c s.conns }) (remove-Inv c s h v)) (λ h. v)

log_destroy_conn-Inv : (c : ℕ) (s : Instance) → Inv s → Inv (log (destroy_conn c) s)
log_destroy_conn-Inv c s v = ground arith

destroy_all-Inv :
    (closes : ℕ → Bool) (cs : List ℕ) (s : Instance) → Inv s → Inv (destroy_all closes cs s)
unfolding destroy_all
destroy_all-Inv closes [] s v = v
destroy_all-Inv closes (c ∷ cs) s v = elim (Bool-cases (closes c)) [
  | inl k ↦ rw k (destroy_all-Inv closes cs _ (close-Inv c _ (log_destroy_conn-Inv c s v)))
  | inr k ↦ rw k (destroy_all-Inv closes cs _ (log_destroy_conn-Inv c s v))
]

shutdown-Inv : (closes : ℕ → Bool) (s : Instance) → Inv s → Inv (shutdown closes s)
unfolding shutdown
shutdown-Inv closes s v =
    if_Inv s.valid _ s
      (λ h.
        try_destroy-Inv _
          (destroy_all-Inv closes s.conns (record s { valid = false }) (ground arith)))
      (λ h. v)

run_shutdown-Inv : (s : Instance) → Inv s → Inv (run_shutdown s)
unfolding run_shutdown waiting finishing
run_shutdown-Inv s v = ground (
  arith,
  waiting-append s.idle (shutdown_finished ∷ []),
  finishing-append s.idle (shutdown_finished ∷ []),
)

run_idle-Inv : (s : Instance) → Inv s → Inv (run_idle s)
unfolding run_idle waiting finishing get_controller_result
run_idle-Inv s v = ground arith

length_snoc : (x : ℕ) (xs : List ℕ) → length (xs ++ x ∷ []) ≡ suc (length xs)
length_snoc x [] = refl
length_snoc x (y ∷ xs) = ap suc (length_snoc x xs)

fire_all-Inv :
    (o : Outcome) (f : Option WorkerThreadFuture) (s : Instance)
    → o ≢ pending
    → s.controller_future ≡ f
    → Inv s
    → Inv (fire_all o f s)
fire_all-Inv o none s h e v = v
fire_all-Inv pending (some f) s h e v = absurd (h refl)
fire_all-Inv (result c) (some f) s h e v = ground (
  arith,
  e,
  waiting-append s.idle (map (λ conn. controller_result conn (result c)) f.callbacks),
  finishing-append s.idle (map (λ conn. controller_result conn (result c)) f.callbacks),
  waiting-result c f.callbacks,
  finishing-result (result c) f.callbacks,
)
fire_all-Inv exception (some f) s h e v = ground (
  arith,
  e,
  waiting-append s.idle (map (λ conn. controller_result conn exception) f.callbacks),
  finishing-append s.idle (map (λ conn. controller_result conn exception) f.callbacks),
  waiting-exception f.callbacks,
  finishing-result exception f.callbacks,
)

run_worker-Inv : (o : Outcome) (s : Instance) → Inv s → Inv (run_worker o s)
unfolding run_worker
run_worker-Inv pending s v = v
run_worker-Inv (result c) s v = fire_all-Inv (result c) s.controller_future s (ground arith) refl v
run_worker-Inv exception s v = fire_all-Inv exception s.controller_future s (ground arith) refl v

get-Inv :
    (o : Outcome) (f : WorkerThreadFuture) (conn : ℕ) (s : Instance)
    → s.controller_future ≡ some f
    → f.outcome ≡ o
    → s.destroyed ≡ false
    → Inv s
    → Inv (get_when o f conn s)
unfolding waiting finishing
get-Inv o f conn s e k d v = ground (
  arith,
  e,
  k,
  waiting-append s.idle (controller_result conn o ∷ []),
  finishing-append s.idle (controller_result conn o ∷ []),
  length_snoc conn f.callbacks,
)

want_controller-Inv :
    (c : Option ℕ) (f : Option WorkerThreadFuture) (conn : ℕ) (s : Instance)
    → s.controller ≡ c
    → s.controller_future ≡ f
    → s.destroyed ≡ false
    → Inv s
    → Inv (want_controller c f conn s)
unfolding get
want_controller-Inv (some c) f conn s e k d v = ground arith
want_controller-Inv none none conn s e k d v = ground arith
want_controller-Inv none (some f) conn s e k d v = get-Inv f.outcome f conn s k refl d v

add_connection-Inv :
    (conn now : ℕ) (s : Instance) → Inv s → Inv (or_same (add_connection conn now s) s)
unfolding add_connection
add_connection-Inv conn now s v = go s.valid refl
  where
    s' : Instance
    s' = record s { last_seen = now; conns = Instance.add conn s.conns }

    open_Inv : s.valid ≡ true → (s.destroyed ≡ false) × Inv s'
    open_Inv h = ground arith

    go :
        (b : Bool)
        → s.valid ≡ b
        → Inv (
            or_same
              (if not b
                then none
                else some (want_controller s.controller s.controller_future conn s'))
              s)
    go true h =
        want_controller-Inv s.controller s.controller_future conn s' refl refl (open_Inv h).0
          (open_Inv h).1
    go false h = v

step-Inv : (s : Instance) (e : Event) → Inv s → Inv (step s e)
unfolding step update_last_seen
step-Inv s (pings now) v = ground arith
step-Inv s (connects conn now) v = add_connection-Inv conn now s v
step-Inv s (closed conn) v = close-Inv conn s v
step-Inv s (worker_ends o) v = run_worker-Inv o s v
step-Inv s shutdown_ends v = run_shutdown-Inv s v
step-Inv s turns v = run_idle-Inv s v
step-Inv s (shuts_down closes) v = shutdown-Inv closes s v

pub run-Inv : (es : List Event) (s : Instance) → Inv s → Inv (run s es)
unfolding run
run-Inv [] s v = v
run-Inv (e ∷ es) s v = run-Inv es (step s e) (step-Inv s e v)

pub new-Inv : (now : ℕ) → Inv (Instance.new now)
unfolding Instance.new waiting finishing
new-Inv now = ground arith

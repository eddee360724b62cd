-- ===== src/Server/Instance/Events.antt =====
-- Everything that can happen to an `_Instance` of vmnetx/server/__init__.py, and what is counted of it.
use vmnetx.Prelude.{
  ℕ, suc, ◌+◌, ◌≡◌, refl, ap, Bool, true, false, Option, none, some, List, [], ◌∷◌, ◌++◌, map,
  length, arith, if◌then◌else◌,
}
use vmnetx.Server.Instance.{
  Outcome, pending, result, exception, Idle, controller_result, shutdown_finished, Effect,
  start_shutdown, destroy, Instance, add_connection, run_worker, close, shutdown, run_idle,
  run_shutdown, update_last_seen,
}

-- Everything that can happen to an instance, in any order.
pub data Event : Type 0 where
  pings : ℕ → Event
  connects : ℕ → ℕ → Event
  closed : ℕ → Event
  worker_ends : Outcome → Event
  shutdown_ends turns : Event
  shuts_down : (ℕ → Bool) → Event

abbrev pub or_same : Option Instance → Instance → Instance
or_same none s = s
or_same (some s') s = s'

unfoldable pub step : Instance → Event → Instance
step s (pings now) = update_last_seen now s
step s (connects conn now) = or_same (add_connection conn now s) s
step s (closed conn) = close conn s
step s (worker_ends o) = run_worker o s
step s shutdown_ends = run_shutdown s
step s turns = run_idle s
step s (shuts_down now) = shutdown now s

unfoldable pub run : Instance → List Event → Instance
run s [] = s
run s (e ∷ es) = run (step s e) es

abbrev pub count_effects : (Effect → Bool) → List Effect → ℕ
count_effects p [] = 0
count_effects p (e ∷ es) = if p e then suc (count_effects p es) else count_effects p es

abbrev pub is_destroy : Effect → Bool
is_destroy destroy = true
is_destroy _ = false

abbrev pub is_shutdown : Effect → Bool
is_shutdown (start_shutdown c) = true
is_shutdown _ = false

-- How often 'destroy' was emitted, and how often the shutdown of a controller was started.
abbrev pub destroys : Instance → ℕ
destroys s = count_effects is_destroy s.effects

abbrev pub shutdowns : Instance → ℕ
shutdowns s = count_effects is_shutdown s.effects

-- The queued calls that bring a controller, and those that follow its shutdown.
unfoldable pub waiting : List Idle → ℕ
waiting [] = 0
waiting (controller_result c (result _) ∷ calls) = suc (waiting calls)
waiting (_ ∷ calls) = waiting calls

unfoldable pub finishing : List Idle → ℕ
finishing [] = 0
finishing (shutdown_finished ∷ calls) = suc (finishing calls)
finishing (_ ∷ calls) = finishing calls

pub waiting-append : (xs ys : List Idle) → waiting (xs ++ ys) ≡ waiting xs + waiting ys
unfolding waiting
waiting-append [] ys = omega arith
waiting-append (controller_result c (result _) ∷ xs) ys = omega (arith, waiting-append xs ys)
waiting-append (controller_result c pending ∷ xs) ys = waiting-append xs ys
waiting-append (controller_result c exception ∷ xs) ys = waiting-append xs ys
waiting-append (shutdown_finished ∷ xs) ys = waiting-append xs ys

pub finishing-append : (xs ys : List Idle) → finishing (xs ++ ys) ≡ finishing xs + finishing ys
unfolding finishing
finishing-append [] ys = omega arith
finishing-append (shutdown_finished ∷ xs) ys = omega (arith, finishing-append xs ys)
finishing-append (controller_result c o ∷ xs) ys = finishing-append xs ys

pub waiting-result :
    (c : ℕ) (cbs : List ℕ)
    → waiting (map (λ conn. controller_result conn (result c)) cbs) ≡ length cbs
unfolding waiting
waiting-result c [] = refl
waiting-result c (x ∷ cbs) = ap suc (waiting-result c cbs)

pub waiting-exception :
    (cbs : List ℕ) → waiting (map (λ conn. controller_result conn exception) cbs) ≡ 0
unfolding waiting
waiting-exception [] = refl
waiting-exception (x ∷ cbs) = waiting-exception cbs

pub finishing-result :
    (o : Outcome) (cbs : List ℕ) → finishing (map (λ conn. controller_result conn o) cbs) ≡ 0
unfolding finishing
finishing-result o [] = refl
finishing-result o (x ∷ cbs) = finishing-result o cbs

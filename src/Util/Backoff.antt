-- ===== src/Util/Backoff.antt =====
-- `BackoffTimer` of vmnetx/util.py, which spaces out reconnection attempts.
use vmnetx.Prelude.{
  ℕ, zero, suc, ◌+◌, ◌-◌, ◌<◌, min, ◌≡◌, refl, Option, none, some, List, [], ◌∷◌, arith, length,
  get_elem?, get_or,
}

-- A GLib source that will call `_attempt`: from `idle_add`, or from `timeout_add` in milliseconds.
pub data Timer : Type 0 where
  idle : Timer
  timeout : ℕ → Timer

pub record BackoffTimer : Type 0 where
  pub schedule : List ℕ  -- in ms
  pub schedule_index : Option ℕ
  pub timer : Option Timer

-- The default argument of the constructor.
abbrev pub default_schedule : List ℕ
default_schedule = 1000 ∷ 2000 ∷ 5000 ∷ 10000 ∷ []

unfoldable pub new : List ℕ → BackoffTimer
new schedule = record { schedule = schedule; schedule_index = none; timer = none }

-- The `else` branch of `attempt`, at the entry `_schedule[index]`; none is the IndexError.
abbrev set_timeout : BackoffTimer → ℕ → Option ℕ → Option BackoffTimer
set_timeout b index none = none
set_timeout b index (some ms) = some (record b {
  schedule_index = some (min (index + 1) (length b.schedule - 1));
  timer = some (timeout ms);
})

abbrev schedule_next : BackoffTimer → Option ℕ → Option BackoffTimer
schedule_next b none = some (record b { schedule_index = some 0; timer = some idle })
schedule_next b (some index) = set_timeout b index (get_elem? b.schedule index)

-- Nothing happens while a timer is set.
unfoldable pub attempt : BackoffTimer → Option BackoffTimer
attempt b = elim b.timer [ some t ↦ some b | none ↦ schedule_next b b.schedule_index ]

-- `_attempt`, the callback of the timer; the 'attempt' signal that it emits is the call's effect.
unfoldable pub fire : BackoffTimer → BackoffTimer
fire b = record b { timer = none }

unfoldable pub reset : BackoffTimer → BackoffTimer
reset b = record b { schedule_index = none; timer = none }

-- Calls of `attempt`, each one followed by its timer's callback.
unfoldable pub rounds : ℕ → BackoffTimer → Option BackoffTimer
rounds zero b = some b
rounds (suc n) b = elim (attempt b) [ none ↦ none | some b' ↦ rounds n (fire b') ]

get_elem?-get_or {ℓ} :
    {A : Type ℓ} (xs : List A) (i : ℕ) (d : A)
    → i < length xs
    → get_elem? xs i ≡ some (get_or xs i d)
get_elem?-get_or [] i d h = elim h [ ]
get_elem?-get_or (x ∷ xs) zero d h = refl
get_elem?-get_or (x ∷ xs) (suc i) d h = get_elem?-get_or xs i d (omega arith)

-- An idle timer at a position within the schedule: how it looks when a round begins.
abbrev waiting : List ℕ → ℕ → BackoffTimer
waiting schedule i = record { schedule = schedule; schedule_index = some i; timer = none }

attempt-waiting :
    (schedule : List ℕ) (i : ℕ)
    → i < length schedule
    → attempt (waiting schedule i)
      ≡ some (record {
        schedule = schedule;
        schedule_index = some (min (i + 1) (length schedule - 1));
        timer = some (timeout (get_or schedule i 0));
      })
unfolding attempt
attempt-waiting schedule i h = rw (get_elem?-get_or schedule i 0 h) refl

rounds-waiting :
    (n : ℕ) (schedule : List ℕ) (i : ℕ)
    → i < length schedule
    → rounds n (waiting schedule i) ≡ some (waiting schedule (min (i + n) (length schedule - 1)))
unfolding rounds fire attempt
rounds-waiting zero schedule i h =
    let e : i ≡ min (i + 0) (length schedule - 1) = omega arith in rw (← e) refl
rounds-waiting (suc n) schedule i h =
    let e : min (min (i + 1) (length schedule - 1) + n) (length schedule - 1)
        ≡ min (i + suc n) (length schedule - 1) =
      omega arith in
    rw (attempt-waiting schedule i h)
      (rw (← e) (rounds-waiting n schedule (min (i + 1) (length schedule - 1)) (omega arith)))

abbrev timer_of : Option BackoffTimer → Option Timer
timer_of none = none
timer_of (some b) = b.timer

-- `attempt` after `rounds`, from a timer that has been reset.
abbrev pub nth_timer : ℕ → List ℕ → Option Timer
nth_timer n schedule =
    timer_of (elim (rounds n (new schedule)) [ none ↦ none | some b ↦ attempt b ])

-- The first attempt after a reset is immediate.
pub nth_timer-zero : (schedule : List ℕ) → nth_timer 0 schedule ≡ some idle
unfolding rounds attempt new
nth_timer-zero schedule = refl

-- With a schedule that is not empty, the attempt after n + 1 others waits for the entry at n, and
-- for the last entry once n is past the end; it does not raise.
pub nth_timer-suc :
    (n : ℕ) (schedule : List ℕ)
    → 0 < length schedule
    → nth_timer (suc n) schedule ≡ some (timeout (get_or schedule (min n (length schedule - 1)) 0))
nth_timer-suc n schedule h =
    rw
      (let e : rounds (suc n) (new schedule) ≡ rounds n (waiting schedule 0) =
          unfold rounds attempt new fire in refl in
        e)
      (rw (rounds-waiting n schedule 0 h) (
        rw (attempt-waiting schedule (min (0 + n) (length schedule - 1)) (omega arith))
          (let e : 0 + n ≡ n = omega arith in rw e refl)))

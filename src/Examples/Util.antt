-- ===== src/Examples/Util.antt =====
-- vmnetx/util.py on small inputs.
use vmnetx.Prelude.{ℕ, ◌≡◌, refl, some, List, [], ◌∷◌}
use vmnetx.Util.Ranges.{consolidate, emit, expand_all, expand_all-consolidate}
use vmnetx.Util.Backoff
use vmnetx.Util.Backoff.{timeout, default_schedule, nth_timer, nth_timer-suc}

abbrev numbers : List ℕ
numbers = 3 ∷ 4 ∷ 5 ∷ 9 ∷ 1 ∷ 2 ∷ []

consolidate-numbers : consolidate numbers ≡ (3, 5) ∷ (9, 9) ∷ (1, 2) ∷ []
unfolding consolidate emit
consolidate-numbers = refl

expand_all-consolidate_example : expand_all (consolidate numbers) ≡ numbers
expand_all-consolidate_example = expand_all-consolidate numbers

third_timer : nth_timer 3 default_schedule ≡ some (timeout 5000)
unfolding Backoff.rounds Backoff.attempt Backoff.fire Backoff.new
third_timer = refl

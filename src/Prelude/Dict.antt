-- ===== src/Prelude/Dict.antt =====
-- Dictionaries with numbers as keys, as association lists.
use Prim.Native.Nat.{ℕ}
use mathlib.Core.Path.{◌≡◌}
use mathlib.Core.Option.{Option, none, some}
use mathlib.Core.List.{List, [], ◌∷◌}
use native.Mathlib.Omega.{arith}
use vmnetx.Prelude.Tests.{◌==◌, if◌then◌else◌}

module _ {V : Type 0} where
  abbrev pub find : ℕ → List (ℕ × V) → Option V
  find k [] = none
  find k ((j, v) ∷ d) = let rest = find k d in if k == j then some v else rest

  -- `d.pop(k, None)`, without what it returns.
  abbrev pub delete : ℕ → List (ℕ × V) → List (ℕ × V)
  delete k [] = []
  delete k ((j, v) ∷ d) = let rest = delete k d in if k == j then rest else (j, v) ∷ rest

  abbrev pub map_option : (V → V) → Option V → Option V
  map_option f none = none
  map_option f (some v) = some (f v)

  -- A change to the value that stands at `k`, if there is one.
  abbrev pub adjust : ℕ → (V → V) → List (ℕ × V) → List (ℕ × V)
  adjust k f [] = []
  adjust k f ((j, v) ∷ d) =
      let rest = adjust k f d in if k == j then (j, f v) ∷ rest else (j, v) ∷ rest

  pub find-delete :
      (j k : ℕ) (d : List (ℕ × V)) → find j (delete k d) ≡ (if j == k then none else find j d)
  find-delete j k [] = ground arith
  find-delete j k ((i, v) ∷ d) = ground (arith, find-delete j k d)

  pub find-adjust :
      (j k : ℕ) (f : V → V) (d : List (ℕ × V))
      → find j (adjust k f d) ≡ (if j == k then map_option f (find j d) else find j d)
  find-adjust j k f [] = ground arith
  find-adjust j k f ((i, v) ∷ d) = ground (arith, find-adjust j k f d)

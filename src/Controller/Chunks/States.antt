-- ===== src/Controller/Chunks/States.antt =====
-- What `update_chunks` and `set_size` of vmnetx/controller/__init__.py mean for single chunks.
use vmnetx.Prelude.{
  ℕ, suc, ◌+◌, ◌-◌, ◌≤◌, ◌≡◌, refl, sym, ap, ◌∙◌, Bool, true, false, some, List, [], ◌∷◌, ◌++◌,
  append-nil, arith, ltb, ◌==◌, if◌then◌else◌, length, take, drop, slice, replicate, map, min, max,
  subst, length-take, length-slice_of_le, slice-append_middle, take-length,
}
use vmnetx.Util.Ranges.{
  consolidate, expand_all, expand_all-consolidate, IsMaximal, consolidate-IsMaximal,
}
use vmnetx.Controller.Chunks.{
  ChunkState, missing, accessed_modified, rank, mixes, next_state, ChunkStateArray, ensure_size,
  set_size, changed, image_resized, chunk_state_changed, update_chunks,
}
use vmnetx.Controller.Chunks.Updates.{
  raise, update_run, stored, sized, update_chunks-eq, three_parts, lt-length-sized,
}

-- Each chunk of the first list has in the second one a state that is at least as high.
abbrev pub NeverLower : List ChunkState → List ChunkState → Type 0
NeverLower [] ys = Unit
NeverLower (x ∷ xs) [] = ⊥
NeverLower (x ∷ xs) (y ∷ ys) = (rank x ≤ rank y) × NeverLower xs ys

NeverLower-refl : (xs : List ChunkState) → NeverLower xs xs
NeverLower-refl [] = tt
NeverLower-refl (x ∷ xs) = (omega arith, NeverLower-refl xs)

NeverLower-append :
    (r r' q q' : List ChunkState)
    → NeverLower r r'
    → length r ≡ length r'
    → NeverLower q q'
    → NeverLower (r ++ q) (r' ++ q')
NeverLower-append [] [] q q' h e k = k
NeverLower-append [] (x ∷ r') q q' h e k = absurd (omega arith)
NeverLower-append (x ∷ r) [] q q' h e k = absurd h
NeverLower-append (x ∷ r) (y ∷ r') q q' h e k =
    (h.0, NeverLower-append r r' q q' h.1 (omega arith) k)

NeverLower-longer : (xs zs : List ChunkState) → NeverLower xs (xs ++ zs)
NeverLower-longer [] zs = tt
NeverLower-longer (x ∷ xs) zs = (omega arith, NeverLower-longer xs zs)

NeverLower-trans :
    (xs ys zs : List ChunkState) → NeverLower xs ys → NeverLower ys zs → NeverLower xs zs
NeverLower-trans [] ys zs h k = tt
NeverLower-trans (x ∷ xs) [] zs h k = absurd h
NeverLower-trans (x ∷ xs) (y ∷ ys) [] h k = absurd k
NeverLower-trans (x ∷ xs) (y ∷ ys) (z ∷ zs) h k = (omega arith, NeverLower-trans xs ys zs h.1 k.1)

le-raise : (state c : ChunkState) → rank c ≤ rank (raise state c)
le-raise state c = ground arith

update_run-NeverLower :
    (state : ChunkState) (cs : List ChunkState) → NeverLower cs (update_run state cs)
update_run-NeverLower state [] = tt
update_run-NeverLower state (c ∷ cs) =
    (le-raise (next_state state c) c, update_run-NeverLower (next_state state c) cs)

length-update_run :
    (state : ChunkState) (cs : List ChunkState) → length cs ≡ length (update_run state cs)
length-update_run state [] = refl
length-update_run state (c ∷ cs) = ap suc (length-update_run (next_state state c) cs)

NeverLower-sized : (a : ChunkStateArray) (last : ℕ) → NeverLower a.chunks (sized a last)
unfolding ensure_size
NeverLower-sized a last = go (ltb (length a.chunks) (last + 1))
  where
    go :
        (b : Bool)
        → NeverLower a.chunks
            (if b
              then record {
                chunks = a.chunks ++ replicate (last + 1 - length a.chunks) missing;
                signals =
                    a.signals
                    ++ (image_resized (last + 1)
                        ∷ chunk_state_changed (length a.chunks) (last + 1 - 1)
                        ∷ []);
              }
              else a).chunks
    go true = NeverLower-longer a.chunks (replicate (last + 1 - length a.chunks) missing)
    go false = NeverLower-refl a.chunks

-- `update_chunks` never puts a chunk into a lower state, nor drops one.
pub update_chunks-NeverLower :
    (a : ChunkStateArray) (state : ChunkState) (first last : ℕ)
    → first ≤ last
    → (a' : ChunkStateArray) × (update_chunks a state first last ≡ some a')
      × NeverLower a.chunks a'.chunks
update_chunks-NeverLower a state first last h =
    let xs = sized a last in
    let run = slice xs first (last + 1) in
    (
      _,
      update_chunks-eq a state first last h,
      NeverLower-trans a.chunks xs _ (NeverLower-sized a last) (
          subst (λ l. NeverLower l (take first xs ++ (update_run state run ++ drop (last + 1) xs)))
            (three_parts xs first (last + 1) (omega arith))
            (NeverLower-append (take first xs) (take first xs) _ _ (NeverLower-refl (take first xs))
              refl
              (NeverLower-append run (update_run state run) _ _ (update_run-NeverLower state run)
                (length-update_run state run) (NeverLower-refl (drop (last + 1) xs))))),
    )

-- No chunk of the run is accessed where the others are modified, or the other way round.
abbrev pub NoneMixes : ChunkState → List ChunkState → Type 0
NoneMixes state [] = Unit
NoneMixes state (c ∷ cs) = (mixes c state ≡ false) × NoneMixes state cs

-- Where no chunk of the run mixes with the new state, each takes the higher of the two states.
pub update_run-NoneMixes :
    (state : ChunkState) (cs : List ChunkState)
    → NoneMixes state cs
    → update_run state cs ≡ map (raise state) cs
update_run-NoneMixes state [] h = refl
update_run-NoneMixes state (c ∷ cs) h =
    rw (h.0) (ap (λ l. raise state c ∷ l) (update_run-NoneMixes state cs h.1))

-- Without such a meeting in the range, `update_chunks` puts each chunk of the range into the higher of
-- its state and the new one, and leaves the other chunks.
pub update_chunks-NoneMixes :
    (a : ChunkStateArray) (state : ChunkState) (first last : ℕ)
    → first ≤ last
    → NoneMixes state (slice (sized a last) first (last + 1))
    → (a' : ChunkStateArray) × (update_chunks a state first last ≡ some a')
      × (a'.chunks
          ≡ take first (sized a last)
            ++ (map (raise state) (slice (sized a last) first (last + 1))
                ++ drop (last + 1) (sized a last)))
update_chunks-NoneMixes a state first last h k = (
  _,
  update_chunks-eq a state first last h,
  ap (λ l. take first (sized a last) ++ (l ++ drop (last + 1) (sized a last)))
      (update_run-NoneMixes state (slice (sized a last) first (last + 1)) k),
)

raise_top : (c : ChunkState) → raise (next_state accessed_modified c) c ≡ accessed_modified
raise_top c = ground arith

next_state_top : (c : ChunkState) → next_state accessed_modified c ≡ accessed_modified
next_state_top c = ground arith

update_run_top :
    (cs : List ChunkState)
    → update_run accessed_modified cs ≡ replicate (length cs) accessed_modified
update_run_top [] = refl
update_run_top (c ∷ cs) =
    λ i. raise_top c i ∷ (ap (λ st. update_run st cs) (next_state_top c) ∙ update_run_top cs) i

next_mixes : (c state : ChunkState) → mixes c state ≡ true → next_state state c ≡ accessed_modified
next_mixes c state m = rw m

update_run_mixes :
    (c state : ChunkState) → mixes c state ≡ true → raise (next_state state c) c ≡ accessed_modified
update_run_mixes c state m = ground arith

-- Where the first chunk of the range meets the new state, that chunk becomes ACCESSED_MODIFIED, and
-- so does every later chunk of the range, whatever it was: the loop assigns its own `state`.
pub update_chunks-mixes :
    (a : ChunkStateArray) (state c : ChunkState) (cs : List ChunkState) (first last : ℕ)
    → first ≤ last
    → slice (sized a last) first (last + 1) ≡ c ∷ cs
    → mixes c state ≡ true
    → (a' : ChunkStateArray) × (update_chunks a state first last ≡ some a')
      × (a'.chunks
          ≡ take first (sized a last)
            ++ (replicate (suc (length cs)) accessed_modified ++ drop (last + 1) (sized a last)))
update_chunks-mixes a state c cs first last h e m = (
  _,
  update_chunks-eq a state first last h,
  ap (λ l. take first (sized a last) ++ (l ++ drop (last + 1) (sized a last)))
      (ap (update_run state) e ∙ (λ i.
        update_run_mixes c state m i
        ∷ (ap (λ st. update_run st cs) (next_mixes c state m) ∙ update_run_top cs) i)),
)

-- The numbers of the chunks that the second list has in a higher state; the first has number `n`.
abbrev pub raised_at : ℕ → List ChunkState → List ChunkState → List ℕ
raised_at n [] ys = []
raised_at n (x ∷ xs) [] = []
raised_at n (x ∷ xs) (y ∷ ys) =
    let rest = raised_at (suc n) xs ys in if ltb (rank x) (rank y) then n ∷ rest else rest

same_test : (c state : ChunkState) → ltb (rank c) (rank state) ≡ ltb (rank c) (rank (raise state c))
same_test c state = ground arith

stored-eq :
    (n : ℕ) (state : ChunkState) (cs : List ChunkState)
    → stored n state cs ≡ raised_at n cs (update_run state cs)
stored-eq n state [] = refl
stored-eq n state (c ∷ cs) = λ i.
    if same_test c (next_state state c) i
    then n ∷ stored-eq (suc n) (next_state state c) cs i
    else stored-eq (suc n) (next_state state c) cs i

-- After the signals of the resizing, if any, the ranges of the 'chunk-state-changed' signals are,
-- spelled out, exactly the chunks of the range whose state went up, in order; each range is in order
-- and no two that follow each other could have been one.
pub update_chunks-signals :
    (a : ChunkStateArray) (state : ChunkState) (first last : ℕ)
    → first ≤ last
    → (a' : ChunkStateArray) × (ranges : List (ℕ × ℕ)) × (update_chunks a state first last
        ≡ some a')
      × (a'.signals ≡ (ensure_size a (last + 1)).signals ++ changed ranges)
      × (expand_all ranges
          ≡ raised_at first
              (slice (sized a last) first (last + 1))
              (slice a'.chunks first (last + 1)))
      × IsMaximal ranges
update_chunks-signals a state first last h =
    let xs = sized a last in
    let run = slice xs first (last + 1) in
    let numbers = stored first state run in
    (
      _,
      consolidate numbers,
      update_chunks-eq a state first last h,
      refl,
      expand_all-consolidate numbers
          ∙ stored-eq first state run
          ∙ ap (raised_at first run) (
              sym (
                slice-append_middle (take first xs) (update_run state run) (drop (last + 1) xs)
                  first (last + 1) (omega (arith, length-take first xs, lt-length-sized a last))
                  (omega (
                    arith,
                    length-update_run state run,
                    lt-length-sized a last,
                    length-slice_of_le xs first (last + 1),
                  )))),
      consolidate-IsMaximal numbers,
    )

-- `set_size` leaves as many chunks as asked for, the old ones first and MISSING ones behind them,
-- and emits both signals exactly when the number changes.
pub set_size_lem :
    (a : ChunkStateArray) (chunks : ℕ)
    → let current = length a.chunks in
      ((set_size a chunks).chunks ≡ take chunks a.chunks ++ replicate (chunks - current) missing)
      × ((set_size a chunks).signals ≡ (
          if current == chunks
          then a.signals
          else a.signals
            ++ (image_resized chunks
                ∷ chunk_state_changed (min current chunks) (max current chunks - 1)
                ∷ [])))
unfolding set_size ensure_size
set_size_lem a chunks = (
  ground (arith, take-length chunks a.chunks, append-nil (take chunks a.chunks), zero_more),
  ground arith,
)
  where
    zero_more : chunks ≤ length a.chunks → replicate (chunks - length a.chunks) missing ≡ []
    zero_more h =
        ap (λ n. replicate n missing) (let e : chunks - length a.chunks ≡ 0 = omega arith in e)

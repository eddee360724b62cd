-- ===== src/Controller/Chunks/Updates.antt =====
-- What `update_chunks` of vmnetx/controller/__init__.py does to the chunks: its index loop against
-- a recursion over the part of the list that it visits.
use vmnetx.Prelude.{
  ℕ, suc, ◌+◌, ◌-◌, ◌≤◌, ◌<◌, ◌≡◌, refl, sym, ap, ◌∙◌, Bool, true, false, none, some, List, [], ◌∷◌,
  ◌++◌, append_assoc, inl, inr, Bool-cases, arith, ltb, if◌then◌else◌, length, take, drop, slice,
  replicate, get_elem?, set, length-append, length-take, length-replicate, length-slice_of_le,
  take-append-drop, drop-drop,
}
use vmnetx.Util.Ranges
use vmnetx.Util.Ranges.{RangeConsolidator, emit, emit_all, consolidate}
use vmnetx.Controller.Chunks.{
  ChunkState, rank, next_state, Loop, store, loop_body, update_loop, ChunkStateArray, ensure_size,
  changed, finish_update, update_chunks,
}

-- The larger of the two states.
abbrev pub raise : ChunkState → ChunkState → ChunkState
raise state current = if ltb (rank current) (rank state) then state else current

-- The states of a run of chunks after the loop, which began it with `state`.
abbrev pub update_run : ChunkState → List ChunkState → List ChunkState
update_run state [] = []
update_run state (c ∷ cs) = raise (next_state state c) c ∷ update_run (next_state state c) cs

-- The value of the variable `state` after the run.
abbrev pub run_state : ChunkState → List ChunkState → ChunkState
run_state state [] = state
run_state state (c ∷ cs) = run_state (next_state state c) cs

-- The numbers of the chunks of the run that the loop stores to; the first chunk has number `n`.
abbrev pub stored : ℕ → ChunkState → List ChunkState → List ℕ
stored n state [] = []
stored n state (c ∷ cs) =
    let rest = stored (suc n) (next_state state c) cs in
    if ltb (rank c) (rank (next_state state c)) then n ∷ rest else rest

get_elem?-append_middle :
    {A : Type 0} (pre : List A) (x : A) (rest : List A)
    → get_elem? (pre ++ x ∷ rest) (length pre) ≡ some x
get_elem?-append_middle [] x rest = refl
get_elem?-append_middle (y ∷ pre) x rest = get_elem?-append_middle pre x rest

set-append_middle :
    {A : Type 0} (pre : List A) (x v : A) (rest : List A)
    → set (pre ++ x ∷ rest) (length pre) v ≡ pre ++ v ∷ rest
set-append_middle [] x v rest = refl
set-append_middle (y ∷ pre) x v rest = ap (λ l. y ∷ l) (set-append_middle pre x v rest)

update_loop_step :
    (rounds n : ℕ) (l : Loop) (c : ChunkState)
    → get_elem? l.chunks n ≡ some c
    → update_loop (suc rounds) n l ≡ update_loop rounds (suc n) (store l n (next_state l.state c) c)
unfolding update_loop
update_loop_step rounds n l c h =
    ap (λ o. elim (loop_body l n o) [ none ↦ none | some l' ↦ update_loop rounds (suc n) l' ]) h

abbrev emit_if : Bool → RangeConsolidator → ℕ → RangeConsolidator
emit_if b con n = if b then emit con n else con

store_lem :
    (pre rest : List ChunkState) (state state' c : ChunkState) (con : RangeConsolidator)
    → store
        (record { state = state; chunks = pre ++ c ∷ rest; consolidator = con })
        (length pre)
        state'
        c
      ≡ record {
        state = state';
        chunks = (pre ++ raise state' c ∷ []) ++ rest;
        consolidator = emit_if (ltb (rank c) (rank state')) con (length pre);
      }
store_lem pre rest state state' c con = elim (Bool-cases (ltb (rank c) (rank state'))) [
  | inl e ↦ rw e (
      ap (λ l. record { state = state'; chunks = l; consolidator = emit con (length pre) })
        (set-append_middle pre c state' rest ∙ sym (append_assoc pre (state' ∷ []) rest)))
  | inr e ↦ rw e (
      ap (λ l. record { state = state'; chunks = l; consolidator = con })
        (sym (append_assoc pre (c ∷ []) rest)))
]

emit_all-if :
    (b : Bool) (con : RangeConsolidator) (n : ℕ) (ns : List ℕ)
    → emit_all (emit_if b con n) ns ≡ emit_all con (if b then n ∷ ns else ns)
unfolding emit_all
emit_all-if true con n ns = refl
emit_all-if false con n ns = refl

-- The loop over the run `seg`, which stands behind `pre`.
update_loop-run :
    (seg pre post : List ChunkState) (n : ℕ) (state : ChunkState) (con : RangeConsolidator)
    → length pre ≡ n
    → update_loop
        (length seg)
        n
        (record { state = state; chunks = pre ++ (seg ++ post); consolidator = con })
      ≡ some (record {
        state = run_state state seg;
        chunks = pre ++ (update_run state seg ++ post);
        consolidator = emit_all con (stored n state seg);
      })
unfolding update_loop
update_loop-run [] pre post n state con e = unfold emit_all in refl
update_loop-run (c ∷ cs) pre post n state con e =
    update_loop_step (length cs) n
      (record { state = state; chunks = pre ++ (c ∷ (cs ++ post)); consolidator = con }) c
      (ap (get_elem? (pre ++ (c ∷ (cs ++ post)))) (sym e)
        ∙ get_elem?-append_middle pre c (cs ++ post))
    ∙ ap (update_loop (length cs) (suc n))
        (rw (← e) (store_lem pre (cs ++ post) state state' c con))
    ∙ update_loop-run cs (pre ++ new ∷ []) post (suc n) state' con'
        (omega (arith, length-append pre (new ∷ [])))
    ∙ ap some (
        ap
          (λ (p : List ChunkState × RangeConsolidator). record {
            state = run_state state' cs;
            chunks = p.0;
            consolidator = p.1;
          })
          (λ i. (
            append_assoc pre (new ∷ []) (update_run state' cs ++ post) i,
            emit_all-if (ltb (rank c) (rank state')) con n (stored (suc n) state' cs) i,
          )))
  where
    state' : ChunkState
    state' = next_state state c

    new : ChunkState
    new = raise state' c

    con' : RangeConsolidator
    con' = emit_if (ltb (rank c) (rank state')) con n

-- The chunks that `update_chunks` finds, once the image is long enough.
abbrev pub sized : ChunkStateArray → ℕ → List ChunkState
sized a last = (ensure_size a (last + 1)).chunks

pub lt-length-sized : (a : ChunkStateArray) (last : ℕ) → last < length (sized a last)
unfolding ensure_size
lt-length-sized a last = ground (
  arith,
  length-append a.chunks (replicate (last + 1 - length a.chunks) ChunkState.missing),
  length-replicate (last + 1 - length a.chunks) ChunkState.missing,
)

-- A list in three parts.
pub three_parts :
    (xs : List ChunkState) (m n : ℕ) → m ≤ n → take m xs ++ (slice xs m n ++ drop n xs) ≡ xs
three_parts xs m n h =
    ap (λ l. take m xs ++ l)
      (ap (λ l. slice xs m n ++ l)
          (sym (
            drop-drop (n - m) m xs
            ∙ ap (λ k. drop k xs) (let e : m + (n - m) ≡ n = omega arith in e)))
        ∙ take-append-drop (n - m) (drop m xs))
    ∙ take-append-drop m xs

-- For a range that is in order, `update_chunks` raises no IndexError: it first makes the image long
-- enough, then replaces the chunks of the range by `update_run` of them and leaves all others, and
-- signals the resizing, if any, and then the stored chunks in runs.
pub update_chunks-eq :
    (a : ChunkStateArray) (state : ChunkState) (first last : ℕ)
    → first ≤ last
    → let xs = sized a last in
      let run = slice xs first (last + 1) in
      update_chunks a state first last
      ≡ some (record {
        chunks = take first xs ++ (update_run state run ++ drop (last + 1) xs);
        signals =
            (ensure_size a (last + 1)).signals ++ changed (consolidate (stored first state run));
      })
unfolding update_chunks
update_chunks-eq a state first last h =
    ap (finish_update (ensure_size a (last + 1))) (
      (λ i.
        update_loop (length_run i) first
          (record { state = state; chunks = parts i; consolidator = Ranges.new }))
      ∙ update_loop-run run (take first xs) (drop (last + 1) xs) first state Ranges.new
          (omega (arith, length-take first xs, lt-length-sized a last)))
    ∙ unfold consolidate in refl
  where
    xs : List ChunkState
    xs = sized a last

    run : List ChunkState
    run = slice xs first (last + 1)

    length_run : last + 1 - first ≡ length run
    length_run =
        sym (length-slice_of_le xs first (last + 1) (omega (arith, lt-length-sized a last)))

    parts : xs ≡ take first xs ++ (run ++ drop (last + 1) xs)
    parts = sym (three_parts xs first (last + 1) (omega arith))

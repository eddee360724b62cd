-- ===== src/Controller/Chunks.antt =====
-- `ChunkStateArray` of vmnetx/controller/__init__.py: the state of each chunk of the disk image.
pub mod Updates
pub mod States
use vmnetx.Prelude.{
  ℕ, zero, suc, ◌+◌, ◌-◌, ◌≤◌, Bool, Option, none, some, List, [], ◌∷◌, ◌++◌, ◌&&◌, ◌||◌, ltb,
  if◌then◌else◌, length, take, replicate, get_elem?, set,
}
use vmnetx.Util.Ranges.{RangeConsolidator, emit, exit}
use vmnetx.Util.Ranges

pub data ChunkState : Type 0 where
  invalid missing cached accessed modified accessed_modified : ChunkState

-- The numbers of the class constants, which the code compares.
abbrev pub rank : ChunkState → ℕ
rank invalid = 0
rank missing = 1
rank cached = 2
rank accessed = 3
rank modified = 4
rank accessed_modified = 5

pub data Signal : Type 0 where
  chunk_state_changed : ℕ → ℕ → Signal
  image_resized : ℕ → Signal

-- The chunks, and the signals emitted so far, oldest first.
pub record ChunkStateArray : Type 0 where
  pub chunks : List ChunkState
  pub signals : List Signal

unfoldable pub ensure_size : ChunkStateArray → ℕ → ChunkStateArray
ensure_size a chunks =
    let current = length a.chunks in
    if ltb current chunks
    then record {
      chunks = a.chunks ++ replicate (chunks - current) missing;
      signals = a.signals ++ (image_resized chunks ∷ chunk_state_changed current (chunks - 1) ∷ []);
    }
    else a

unfoldable pub set_size : ChunkStateArray → ℕ → ChunkStateArray
unfolding ensure_size
set_size a chunks =
    let current = length a.chunks in
    if ltb chunks current
    then record {
      chunks = take chunks a.chunks;
      signals = a.signals ++ (image_resized chunks ∷ chunk_state_changed chunks (current - 1) ∷ []);
    }
    else ensure_size a chunks

-- An access and a modification that meet.
abbrev pub mixes : ChunkState → ChunkState → Bool
mixes accessed modified = Bool.true
mixes modified accessed = Bool.true
mixes _ _ = Bool.false

-- The variables of the loop of `update_chunks`: `state` is one of them, since the loop assigns it.
pub record Loop : Type 0 where
  pub state : ChunkState
  pub chunks : List ChunkState
  pub consolidator : RangeConsolidator

abbrev pub next_state : ChunkState → ChunkState → ChunkState
next_state state current = if mixes current state then accessed_modified else state

abbrev pub store : Loop → ℕ → ChunkState → ChunkState → Loop
store l chunk state current =
    if ltb (rank current) (rank state)
    then record {
      state = state;
      chunks = set l.chunks chunk state;
      consolidator = emit l.consolidator chunk;
    }
    else record l { state = state }

-- The body of the loop, at the entry `_chunks[chunk]`; none is the IndexError.
abbrev pub loop_body : Loop → ℕ → Option ChunkState → Option Loop
loop_body l chunk none = none
loop_body l chunk (some current) = some (store l chunk (next_state l.state current) current)

-- `for chunk in xrange(chunk, chunk + rounds)`
unfoldable pub update_loop : ℕ → ℕ → Loop → Option Loop
update_loop zero chunk l = some l
update_loop (suc rounds) chunk l = elim (loop_body l chunk (get_elem? l.chunks chunk)) [
  | none ↦ none
  | some l' ↦ update_loop rounds (suc chunk) l'
]

abbrev pub changed : List (ℕ × ℕ) → List Signal
changed [] = []
changed ((first, last) ∷ ranges) = chunk_state_changed first last ∷ changed ranges

-- The end of the `with` block, where the last run is signalled.
abbrev pub finish_update : ChunkStateArray → Option Loop → Option ChunkStateArray
finish_update a none = none
finish_update a (some l) =
    some (record { chunks = l.chunks; signals = a.signals ++ changed (exit l.consolidator) })

unfoldable pub update_chunks : ChunkStateArray → ChunkState → ℕ → ℕ → Option ChunkStateArray
update_chunks a state first last =
    let a' = ensure_size a (last + 1) in
    finish_update a' (
      update_loop (last + 1 - first) first
        (record { state = state; chunks = a'.chunks; consolidator = Ranges.new }))

-- ===== src/Examples/Chunks.antt =====
-- `ChunkStateArray` of vmnetx/controller/__init__.py on small images.
use vmnetx.Prelude.{ℕ, ◌≡◌, refl, some, List, [], ◌∷◌, ◌++◌, arith, take, drop, slice, replicate}
use vmnetx.Util.Ranges.{consolidate, expand_all, IsMaximal}
use vmnetx.Util.Ranges
use vmnetx.Controller.Chunks
use vmnetx.Controller.Chunks.{
  missing, cached, accessed, modified, accessed_modified, ChunkStateArray, ensure_size, set_size,
  changed, image_resized, chunk_state_changed, update_chunks,
}
use vmnetx.Controller.Chunks.Updates.{update_run, stored, sized, update_chunks-eq}
use vmnetx.Controller.Chunks.States.{update_chunks-mixes, raised_at, update_chunks-signals}

abbrev image : ChunkStateArray
image = record { chunks = cached ∷ accessed ∷ missing ∷ accessed ∷ []; signals = [] }

update_image :
    update_chunks image cached 1 5
    ≡ some (record {
      chunks = cached ∷ accessed ∷ cached ∷ accessed ∷ cached ∷ cached ∷ [];
      signals =
          image_resized 6
          ∷ chunk_state_changed 4 5
          ∷ chunk_state_changed 2 2
          ∷ chunk_state_changed 4 5
          ∷ [];
    })
unfolding update_chunks ensure_size Chunks.update_loop Ranges.emit Ranges.exit Ranges.new
update_image = refl

update_chunks-eq_example :
    update_chunks image cached 1 5
    ≡ some (record {
      chunks =
          take 1 (sized image 5)
          ++ (update_run cached (slice (sized image 5) 1 6) ++ drop 6 (sized image 5));
      signals =
          (ensure_size image 6).signals
          ++ changed (consolidate (stored 1 cached (slice (sized image 5) 1 6)));
    })
update_chunks-eq_example = update_chunks-eq image cached 1 5 (omega arith)

-- Chunk 2 was never accessed.
update_chunks-mixes_example :
    (a' : ChunkStateArray) × (update_chunks image modified 1 2 ≡ some a')
    × (a'.chunks
        ≡ take 1 (sized image 2) ++ (replicate 2 accessed_modified ++ drop 3 (sized image 2)))
unfolding ensure_size
update_chunks-mixes_example =
    update_chunks-mixes image modified accessed (missing ∷ []) 1 2 (omega arith) refl refl

update_chunks-signals_example :
    (a' : ChunkStateArray) × (ranges : List (ℕ × ℕ)) × (update_chunks image cached 1 5 ≡ some a')
    × (a'.signals ≡ (ensure_size image 6).signals ++ changed ranges)
    × (expand_all ranges ≡ raised_at 1 (slice (sized image 5) 1 6) (slice a'.chunks 1 6))
    × IsMaximal ranges
update_chunks-signals_example = update_chunks-signals image cached 1 5 (omega arith)

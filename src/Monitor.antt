-- ===== src/Monitor.antt =====
-- vmnetx/controller/local/monitor.py: the streams of vmnetfs, read in pieces and cut into lines, and
-- the progress of loading that is counted from them.
pub mod Lines
pub mod Progress
use vmnetx.Prelude.{ℕ, ◌+◌, ◌-◌, ◌*◌, Bool, true, false, List, [], ◌∷◌, ◌++◌, ◌==◌, if◌then◌else◌}
use vmnetx.Util.Ranges.{consolidate}

-- The outcome of `_fh.read()`: an exception, None, or bytes; no bytes are EOF.
pub data ReadOutcome : Type 0 where
  failed again : ReadOutcome
  received : List ℕ → ReadOutcome

pub record StreamMonitor : Type 0 where
  pub buf : List ℕ
  pub is_open : Bool  -- the file and its source
  pub lines : List (List ℕ)  -- what `_handle_lines` was given, in order

unfoldable pub new : StreamMonitor
new = record { buf = []; is_open = true; lines = [] }

abbrev pub attach : ℕ → List (List ℕ) × List ℕ → List (List ℕ) × List ℕ
attach c ([], partial) = ([], c ∷ partial)
attach c (line ∷ lines, partial) = ((c ∷ line) ∷ lines, partial)

-- `split('\n')`, with its last item apart.
unfoldable pub split : List ℕ → List (List ℕ) × List ℕ
split [] = ([], [])
split (c ∷ cs) = let rest = split cs in if c == 10 then ([] ∷ rest.0, rest.1) else attach c rest

unfoldable pub close : StreamMonitor → StreamMonitor
close s = record s { is_open = false }

-- `_read`.
unfoldable pub read : StreamMonitor → ReadOutcome → StreamMonitor
unfolding close split
read s failed = close s
read s again = s
read s (received []) = close s
read s (received (c ∷ cs)) =
    let parts = split (s.buf ++ c ∷ cs) in record s { buf = parts.1; lines = s.lines ++ parts.0 }

unfoldable pub read_all : StreamMonitor → List (List ℕ) → StreamMonitor
read_all s [] = s
read_all s (chunk ∷ chunks) = read_all (read s (received chunk)) chunks

-- `LoadProgressMonitor`, with the signals that it emitted.
pub record LoadProgressMonitor : Type 0 where
  pub chunks : ℕ
  pub chunk_size : ℕ
  pub seen : ℕ
  pub progress : List (ℕ × ℕ)

-- `_progress`.
unfoldable pub on_range : LoadProgressMonitor → ℕ × ℕ → LoadProgressMonitor
on_range s (first, last) =
    let seen = s.seen + (last - first + 1) in
    record s {
      seen = seen;
      progress = s.progress ++ (seen * s.chunk_size, s.chunks * s.chunk_size) ∷ [];
    }

unfoldable pub on_ranges : LoadProgressMonitor → List (ℕ × ℕ) → LoadProgressMonitor
on_ranges s [] = s
on_ranges s (range ∷ ranges) = on_ranges (on_range s range) ranges

-- `_ChunkStreamMonitor._handle_lines` with the numbers of the lines, and 'chunk-emitted' connected to
-- `_progress`.
unfoldable pub handle_lines : LoadProgressMonitor → List ℕ → LoadProgressMonitor
unfolding on_ranges
handle_lines s values = on_ranges s (consolidate values)

-- ===== src/Examples/Monitor.antt =====
-- vmnetx/controller/local/monitor.py on a stream in three pieces.
use vmnetx.Prelude.{ℕ, ◌≡◌, List, [], ◌∷◌}
use vmnetx.Monitor
use vmnetx.Monitor.{LoadProgressMonitor, split, read_all, handle_lines}
use vmnetx.Monitor.Lines.{concat, read_all-split}

abbrev pieces : List (List ℕ)
pieces = (49 ∷ []) ∷ (50 ∷ 10 ∷ 51 ∷ []) ∷ (10 ∷ 52 ∷ []) ∷ []

read_all-split_example :
    ((read_all Monitor.new pieces).lines, (read_all Monitor.new pieces).buf) ≡ split (concat pieces)
read_all-split_example = read_all-split pieces tt

abbrev monitor : LoadProgressMonitor
monitor = record { chunks = 10; chunk_size = 4; seen = 2; progress = [] }

abbrev values : List ℕ
values = 3 ∷ 4 ∷ 7 ∷ []

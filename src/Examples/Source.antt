-- ===== src/Examples/Source.antt =====
-- vmnetx/source.py over a resource of twelve bytes; the inputs are those of `_main`, scaled down.
use vmnetx.Prelude.{ℕ, ◌≡◌, refl, false, none, some, List, [], ◌∷◌, arith, slice}
use vmnetx.Source
use vmnetx.Source.{Result, ok, Http, HttpSource, read, read_stop, unrelated}
use vmnetx.Source.Reads.{Serves, IsFaithful, Reads}
use vmnetx.Source.Contract.{read-Reads}
use vmnetx.Source.Range.{CopiedRange, write_to_file, write_to_file-CopiedRange}

abbrev resource : List ℕ
resource = 10 ∷ 11 ∷ 12 ∷ 13 ∷ 14 ∷ 15 ∷ 16 ∷ 17 ∷ 18 ∷ 19 ∷ 20 ∷ 21 ∷ []

abbrev server : Http
server first stop = some (record {
  status_code = 206;
  etag_header = some "x1";
  last_modified = none;
  content = slice resource first stop;
})

server-Serves : Serves server resource (some "x1") none
unfolding Source.get_etag
server-Serves = record { header = some "x1"; validator = refl; answers = λ first stop h k. refl }

-- A source after a read of two bytes at 6, with a buffer of two.
abbrev after_read : HttpSource
after_read = record {
  length = 12;
  etag = some "x1";
  last_modified = none;
  offset = 3;
  closed = false;
  buffer = 18 ∷ 19 ∷ [];
  buffer_offset = 8;
  buffer_size = 2;
  last_case = some unrelated;
  last_network = some (6, 10);
}

after_read-IsFaithful : IsFaithful resource after_read
after_read-IsFaithful = record {
  is_open = refl;
  same_length = refl;
  reads_ahead = omega arith;
  buffered = refl;
}

read-Reads_example : Reads resource after_read 9 (read server after_read (some 6))
read-Reads_example =
    read-Reads server resource (some "x1") none server-Serves after_read (some 6)
      after_read-IsFaithful refl refl (omega arith) (omega arith) (omega arith)

short_read : (read server after_read (some 8)).0 ≡ ok (13 ∷ 14 ∷ 15 ∷ 16 ∷ 17 ∷ 18 ∷ 19 ∷ [])
unfolding read Source.read_case Source.read_tail Source.get Source.check_response Source.get_etag
short_read = refl

write_to_file-CopiedRange_example : CopiedRange server resource (some "x1") none (1 ∷ []) 3 11 (
    write_to_file 9 server
      (record { offset = 3; length = 8; contents = none })
      5
      (1 ∷ [])
      after_read)
write_to_file-CopiedRange_example =
    write_to_file-CopiedRange server resource (some "x1") none server-Serves 5 (omega arith) 9 3 8
      (1 ∷ []) after_read after_read-IsFaithful refl refl (omega arith) (omega arith)

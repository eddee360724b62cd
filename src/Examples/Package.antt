-- ===== src/Examples/Package.antt =====
-- vmnetx/package.py: a package of a domain of three bytes and a disk of four.
use text.Mathlib.Text.{◌==◌ as str_eq}
use vmnetx.Prelude.{
  ℕ, ◌≡◌, refl, false, true, none, some, List, [], ◌∷◌, ◌++◌, arith, slice, if◌then◌else◌,
}
use vmnetx.Source
use vmnetx.Source.{Http, HttpSource, read, seek}
use vmnetx.Source.Reads.{Serves, IsFaithful}
use vmnetx.Source.Range.{SourceRange, write_to_file, new_range}
use vmnetx.Package
use vmnetx.Package.{
  Result, ok, ZipInfo, Directory, LocalHeader, Manifest, Libraries, open_member, open_package,
  unpack, check_header,
}
use vmnetx.Package.Stored.{IsStored}
use vmnetx.Package.Members.{open_member-copied}
use vmnetx.Package.Contents.{bytes_of, bytes_of_memory, IsMember, absent, open_package-contents}

-- A local file header; the extra field has one byte.
abbrev local : List ℕ
local =
    80 ∷ 75 ∷ 3 ∷ 4 ∷ 20 ∷ 0 ∷ 0 ∷ 0 ∷ 0 ∷ 0 ∷ 0 ∷ 0 ∷ 33 ∷ 0 ∷ 0 ∷ 0 ∷ 0 ∷ 0 ∷ 3 ∷ 0 ∷ 0 ∷ 0 ∷ 3
    ∷ 0 ∷ 0 ∷ 0 ∷ 1 ∷ 0 ∷ 1 ∷ 0 ∷ []

abbrev domain_bytes : List ℕ
domain_bytes = local ++ (100 ∷ 9 ∷ 1 ∷ 2 ∷ 3 ∷ [])

abbrev resource : List ℕ
resource = domain_bytes ++ (local ++ (107 ∷ 9 ∷ 4 ∷ 5 ∷ 6 ∷ 7 ∷ 80 ∷ 75 ∷ []))

abbrev server : Http
server first stop = some (record {
  status_code = 206;
  etag_header = none;
  last_modified = none;
  content = slice resource first stop;
})

server-Serves : Serves server resource none none
unfolding Source.get_etag
server-Serves = record { header = none; validator = refl; answers = λ first stop h k. refl }

abbrev fresh : HttpSource
fresh = record {
  length = 73;
  etag = none;
  last_modified = none;
  offset = 0;
  closed = false;
  buffer = [];
  buffer_offset = 0;
  buffer_size = 100;
  last_case = none;
  last_network = none;
}

fresh-IsFaithful : IsFaithful resource fresh
fresh-IsFaithful = record {
  is_open = refl;
  same_length = refl;
  reads_ahead = omega arith;
  buffered = refl;
}

abbrev domain : ZipInfo
domain = record { header_offset = 0; file_size = 3 }

abbrev disk : ZipInfo
disk = record { header_offset = 35; file_size = 4 }

abbrev header : LocalHeader
header = record {
  magic = 80 ∷ 75 ∷ 3 ∷ 4 ∷ [];
  flags = 0;
  compression = 0;
  name_len = 1;
  extra_len = 1;
}

domain-IsStored : IsStored resource domain (1 ∷ 2 ∷ 3 ∷ [])
unfolding unpack
domain-IsStored = record {
  before = [];
  local = local;
  name = 100 ∷ [];
  extra = 9 ∷ [];
  after = local ++ (107 ∷ 9 ∷ 4 ∷ 5 ∷ 6 ∷ 7 ∷ 80 ∷ 75 ∷ []);
  header = header;
  whole = refl;
  starts = refl;
  sized = refl;
  unpacked = refl;
  magic = refl;
  stored = refl;
  clear = refl;
  name_is = refl;
  extra_is = refl;
  more = omega arith;
}

disk-IsStored : IsStored resource disk (4 ∷ 5 ∷ 6 ∷ 7 ∷ [])
unfolding unpack
disk-IsStored = record {
  before = domain_bytes;
  local = local;
  name = 107 ∷ [];
  extra = 9 ∷ [];
  after = 80 ∷ 75 ∷ [];
  header = header;
  whole = refl;
  starts = refl;
  sized = refl;
  unpacked = refl;
  magic = refl;
  stored = refl;
  clear = refl;
  name_is = refl;
  extra_is = refl;
  more = omega arith;
}

abbrev archive : Directory
archive path =
    if str_eq path "domain.xml"
    then some domain
    else if str_eq path "disk.img"
    then some disk
    else none

open_member-copied_example :
    (r : SourceRange) × (t : HttpSource) × (u : HttpSource) × (open_member server archive "disk.img"
        false fresh
      ≡ (ok r, t))
    × (write_to_file 9 server r 3 (8 ∷ []) t
        ≡ some (record { result = Source.ok tt; written = 8 ∷ 4 ∷ 5 ∷ 6 ∷ 7 ∷ []; source = u }))
open_member-copied_example =
    open_member-copied server resource none none server-Serves (4 ∷ 5 ∷ 6 ∷ 7 ∷ []) disk fresh
      archive "disk.img" 9 3 (8 ∷ []) disk-IsStored refl fresh-IsFaithful refl refl
      (λ h. ground arith) (omega arith) (omega arith)

abbrev manifest : Manifest
manifest = record { name = "machine"; domain = "domain.xml"; disk = "disk.img"; memory = none }

abbrev libraries : Libraries
libraries = record {
  open_zip = λ s. (ok (true, archive), s);
  read_manifest = λ s. (ok (60 ∷ []), s);
  parse = λ xml. some manifest;
}

-- The source after the domain was loaded.
abbrev loaded : HttpSource
loaded = (open_member server archive "domain.xml" true fresh).1

disk-IsMember : IsMember resource archive "disk.img" (4 ∷ 5 ∷ 6 ∷ 7 ∷ []) loaded
unfolding open_member seek read new_range check_header unpack Source.read_case Source.read_buffer
    Source.read_fresh Source.get Source.check_response Source.get_etag
disk-IsMember = record {
  info = disk;
  found = refl;
  stored = disk-IsStored;
  clear = λ h. ground arith;
}

open_package-contents_example :
    (p : Package.Package) × (t : HttpSource) × (open_package server libraries fresh ≡ (ok p, t))
    × (p.name ≡ "machine")
    × (p.domain.contents ≡ some (1 ∷ 2 ∷ 3 ∷ []))
    × (bytes_of resource p.disk ≡ 4 ∷ 5 ∷ 6 ∷ 7 ∷ [])
    × (bytes_of_memory resource p.memory ≡ none)
open_package-contents_example =
    open_package-contents server resource none none server-Serves libraries archive (60 ∷ [])
      manifest fresh fresh fresh (1 ∷ 2 ∷ 3 ∷ []) (4 ∷ 5 ∷ 6 ∷ 7 ∷ []) none refl refl refl
      fresh-IsFaithful refl refl
      (record { info = domain; found = refl; stored = domain-IsStored; clear = λ h. ground arith })
      disk-IsMember absent

-- ===== src/Package.antt =====
-- vmnetx/package.py: a package is a ZIP file, whose members are parts of a source. The ZIP and XML libraries are
-- parameters.
pub mod Stored
pub mod Members
pub mod Contents
use Prim.Native.String.{String}
use vmnetx.Prelude.{
  ℕ, ◌+◌, ◌*◌, ◌%◌, Bool, true, false, not, ◌&&◌, Option, none, some, List, [], ◌∷◌, ◌==◌,
  if◌then◌else◌, length, take, get_or,
}
use vmnetx.Prelude.Int.{pos}
use vmnetx.Source
use vmnetx.Source.{SourceError, Http, HttpSource, read, seek}
use vmnetx.Source.Range
use vmnetx.Source.Range.{SourceRange, new_range}

-- The errors; all but `struct.error` are a `BadPackageError`, or become one in `Package`.
pub data PackageError : Type 0 where
  missing_member invalid_header compressed encrypted struct_error no_manifest invalid_manifest
        bad_zip :
      PackageError
  source_error : SourceError → PackageError

pub data Result (A : Type 0) : Type 0 where
  ok : A → Result A
  err : PackageError → Result A

abbrev pub bind :
    {A B : Type 0}
    → Result A × HttpSource
    → (A → HttpSource → Result B × HttpSource)
    → Result B × HttpSource
bind (ok a, s) k = k a s
bind (err e, s) k = (err e, s)

abbrev pub raise : {A : Type 0} → Source.Result A × HttpSource → Result A × HttpSource
raise (Source.ok a, s) = (ok a, s)
raise (Source.err e, s) = (err (source_error e), s)

-- A member in the central directory, and `zip.getinfo`.
pub record ZipInfo : Type 0 where
  pub header_offset : ℕ
  pub file_size : ℕ

abbrev pub Directory : Type 0
Directory = String → Option ZipInfo

-- What is used of a local file header.
pub record LocalHeader : Type 0 where
  pub magic : List ℕ
  pub flags : ℕ
  pub compression : ℕ
  pub name_len : ℕ
  pub extra_len : ℕ

-- An `H` of a format with `<`.
abbrev pub half_word : List ℕ → ℕ → ℕ
half_word bytes i = get_or bytes i 0 + 256 * get_or bytes (i + 1) 0

-- `struct.calcsize(header_fmt)`.
abbrev pub header_len : ℕ
header_len = 30

-- `struct.unpack(header_fmt, …)`.
unfoldable pub unpack : List ℕ → Option LocalHeader
unpack bytes =
    if length bytes == header_len
    then some (record {
      magic = take 4 bytes;
      flags = half_word bytes 6;
      compression = half_word bytes 8;
      name_len = half_word bytes 26;
      extra_len = half_word bytes 28;
    })
    else none

-- `magic == zipfile.stringFileHeader`.
abbrev pub is_magic : List ℕ → Bool
is_magic (a ∷ b ∷ c ∷ d ∷ []) = ((a == 80) && (b == 75)) && ((c == 3) && (d == 4))
is_magic _ = false

unfoldable pub check_header : LocalHeader → Option PackageError
check_header h =
    if not (is_magic h.magic)
    then some invalid_header
    else if not (h.compression == 0)
    then some compressed
    else if h.flags % 2 == 1
    then some encrypted
    else none

abbrev pub in_archive :
    Http
    → ZipInfo
    → LocalHeader
    → Bool
    → Option PackageError
    → HttpSource
    → Result SourceRange × HttpSource
in_archive http info h load_data (some e) s = (err e, s)
in_archive http info h load_data none s = raise (
    new_range http s (info.header_offset + header_len + h.name_len + h.extra_len)
      (some info.file_size) load_data)

abbrev pub with_header :
    Http → ZipInfo → Bool → Option LocalHeader → HttpSource → Result SourceRange × HttpSource
with_header http info load_data none s = (err struct_error, s)
with_header http info load_data (some h) s = in_archive http info h load_data (check_header h) s

abbrev pub at_info : Http → Bool → Option ZipInfo → HttpSource → Result SourceRange × HttpSource
at_info http load_data none s = (err missing_member, s)
at_info http load_data (some info) s =
    bind (raise (seek s (pos info.header_offset) Source.set)) (λ _ s1.
      bind (raise (read http s1 (some header_len)))
        (λ bytes s2. with_header http info load_data (unpack bytes) s2))

-- `_PackageMember`.
unfoldable pub open_member :
    Http → Directory → String → Bool → HttpSource → Result SourceRange × HttpSource
open_member http zip path load_data s = at_info http load_data (zip path) s

-- What the manifest says.
pub record Manifest : Type 0 where
  pub name : String
  pub domain : String
  pub disk : String
  pub memory : Option String

-- `zipfile.ZipFile(source)` with its list of names and its directory, `zip.read`, and the XML parser with
-- the schema.
pub record Libraries : Type 0 where
  pub open_zip : HttpSource → Result (Bool × Directory) × HttpSource  -- whether there is a manifest
  pub read_manifest : HttpSource → Result (List ℕ) × HttpSource
  pub parse : List ℕ → Option Manifest

pub record Package : Type 0 where
  pub name : String
  pub domain : SourceRange
  pub disk : SourceRange
  pub memory : Option SourceRange

abbrev pub open_memory :
    Http → Directory → Option String → HttpSource → Result (Option SourceRange) × HttpSource
open_memory http zip none s = (ok none, s)
open_memory http zip (some path) s =
    bind (open_member http zip path false s) (λ r s'. (ok (some r), s'))

abbrev pub open_members :
    Http → Directory → Option Manifest → HttpSource → Result Package × HttpSource
open_members http zip none s = (err invalid_manifest, s)
open_members http zip (some m) s = bind (open_member http zip m.domain true s) (λ domain s1.
    bind (open_member http zip m.disk false s1) (λ disk s2.
      bind (open_memory http zip m.memory s2) (λ memory s3.
        (ok (record { name = m.name; domain = domain; disk = disk; memory = memory }), s3))))

abbrev pub with_manifest :
    Http → Libraries → Bool × Directory → HttpSource → Result Package × HttpSource
with_manifest http lib (false, zip) s = (err no_manifest, s)
with_manifest http lib (true, zip) s =
    bind (lib.read_manifest s) (λ xml s'. open_members http zip (lib.parse xml) s')

-- `Package`.
unfoldable pub open_package : Http → Libraries → HttpSource → Result Package × HttpSource
open_package http lib s = bind (lib.open_zip s) (λ zip s'. with_manifest http lib zip s')

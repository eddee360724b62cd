-- ===== src/Package/Contents.antt =====
-- A package of vmnetx/package.py as a whole.
use Prim.Native.String.{String}
use vmnetx.Prelude.{ℕ, ◌+◌, ◌≡◌, refl, ap, true, false, Option, none, some, List, length, slice}
use vmnetx.Source.{Http, HttpSource}
use vmnetx.Source.Reads.{Serves, IsFaithful}
use vmnetx.Source.Contract.{Straddles}
use vmnetx.Source.Range.{SourceRange}
use vmnetx.Package
use vmnetx.Package.{
  Result, ok, ZipInfo, Directory, header_len, Manifest, Libraries, open_member, open_memory,
  open_members, open_package,
}
use vmnetx.Package.Stored.{IsStored, content_offset, slice-content}
use vmnetx.Package.Members.{open_member-IsOpened, open_member-IsLoaded}

-- The bytes of a range.
abbrev pub bytes_of : List ℕ → SourceRange → List ℕ
bytes_of bytes r = slice bytes r.offset (r.offset + r.length)

abbrev pub bytes_of_memory : List ℕ → Option SourceRange → Option (List ℕ)
bytes_of_memory bytes none = none
bytes_of_memory bytes (some r) = some (bytes_of bytes r)

-- A path of the archive at which a content is stored; its header does not straddle the source's buffer.
pub record IsMember (bytes : List ℕ) (zip : Directory) (path : String) (content : List ℕ)
    (s : HttpSource) : Type 0 where
  pub info : ZipInfo
  pub found : zip path ≡ some info
  pub stored : IsStored bytes info content
  pub clear :
      ¬ Straddles (record s { offset = info.header_offset }) (info.header_offset + header_len)

-- The same of a member that may be missing from the manifest.
pub data IsOptional (bytes : List ℕ) (zip : Directory) (s : HttpSource)
    : Option String → Option (List ℕ) → Type 0 where
  absent : IsOptional bytes zip s none none
  present :
      {path : String} {content : List ℕ}
      → IsMember bytes zip path content s
      → IsOptional bytes zip s (some path) (some content)

module _ (http : Http) (bytes : List ℕ) (etag : Option String) (date : Option ℕ)
    (serves : Serves http bytes etag date) where
  -- The optional memory image, opened.
  pub record IsMemory (memory : Option (List ℕ)) (o : Result (Option SourceRange) × HttpSource)
      : Type 0 where
    pub range : Option SourceRange
    pub opened : o.0 ≡ ok range
    pub holds : bytes_of_memory bytes range ≡ memory

  open_memory-IsMemory :
      {path : Option String} {memory : Option (List ℕ)} (zip : Directory) (s : HttpSource)
      → IsFaithful bytes s
      → s.etag ≡ etag
      → s.last_modified ≡ date
      → IsOptional bytes zip s path memory
      → IsMemory memory (open_memory http zip path s)
  open_memory-IsMemory zip s v he hd absent = record { range = none; opened = refl; holds = refl }
  open_memory-IsMemory zip s v he hd (present {path} {content} m) =
      let o =
        open_member-IsOpened http bytes etag date serves m.stored s zip path m.found v he hd
          m.clear in
      let t = (open_member http zip path false s).1 in
      let e : open_member http zip path false s
          ≡ (ok (record { offset = content_offset m.stored; length = _; contents = none }), t) =
        ap (λ x. (x, t)) o.opened in
      rw e (record { range = some _; opened = refl; holds = ap some (slice-content m.stored) })

  -- A package of a resource that is unchanged, which the libraries can open, whose manifest fits the schema, and
  -- whose members are stored as they are: it is opened with the name of the manifest; the domain's data is in
  -- memory, and the ranges of the disk and of the memory image, if the manifest has one, are the parts of
  -- the resource that hold them. No header may straddle the source's buffer when it is read.
  pub open_package-contents :
      (lib : Libraries) (zip : Directory) (xml : List ℕ) (manifest : Manifest)
      (s s1 s2 : HttpSource) (domain disk : List ℕ) (memory : Option (List ℕ))
      → lib.open_zip s ≡ (ok (true, zip), s1)
      → lib.read_manifest s1 ≡ (ok xml, s2)
      → lib.parse xml ≡ some manifest
      → IsFaithful bytes s2
      → s2.etag ≡ etag
      → s2.last_modified ≡ date
      → IsMember bytes zip manifest.domain domain s2
      → let s3 = (open_member http zip manifest.domain true s2).1 in
        let s4 = (open_member http zip manifest.disk false s3).1 in
        IsMember bytes zip manifest.disk disk s3
        → IsOptional bytes zip s4 manifest.memory memory
        → (p : Package.Package) × (t : HttpSource) × (open_package http lib s ≡ (ok p, t))
          × (p.name ≡ manifest.name)
          × (p.domain.contents ≡ some domain)
          × (bytes_of bytes p.disk ≡ disk)
          × (bytes_of_memory bytes p.memory ≡ memory)
  unfolding open_package
  open_package-contents lib zip xml manifest s s1 s2 domain disk memory a b c v he hd m n o =
      let d1 =
        open_member-IsLoaded http bytes etag date serves m.stored s2 zip manifest.domain m.found v
          he hd m.clear in
      let s3 = (open_member http zip manifest.domain true s2).1 in
      let d2 =
        open_member-IsOpened http bytes etag date serves n.stored s3 zip manifest.disk n.found
          d1.faithful d1.same_etag d1.same_date n.clear in
      let s4 = (open_member http zip manifest.disk false s3).1 in
      let d3 = open_memory-IsMemory zip s4 d2.faithful d2.same_etag d2.same_date o in
      let s5 = (open_memory http zip manifest.memory s4).1 in
      let r1 : SourceRange = record {
        offset = content_offset m.stored;
        length = length domain;
        contents = some domain;
      } in
      let r2 : SourceRange = record {
        offset = content_offset n.stored;
        length = length disk;
        contents = none;
      } in
      let e1 : open_member http zip manifest.domain true s2 ≡ (ok r1, s3) =
        ap (λ x. (x, s3)) d1.opened in
      let e2 : open_member http zip manifest.disk false s3 ≡ (ok r2, s4) =
        ap (λ x. (x, s4)) d2.opened in
      let e3 : open_memory http zip manifest.memory s4 ≡ (ok d3.range, s5) =
        ap (λ x. (x, s5)) d3.opened in
      (
        record { name = manifest.name; domain = r1; disk = r2; memory = d3.range },
        s5,
        rw (a, b, c, e1, e2, e3) refl,
        refl,
        refl,
        slice-content n.stored,
        d3.holds,
      )

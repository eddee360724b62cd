-- ===== src/Package/Members.antt =====
-- What a member of a package of vmnetx/package.py is.
use Prim.Native.String.{String}
use vmnetx.Prelude.{
  ℕ, ◌+◌, ◌≤◌, ◌<◌, ◌≡◌, refl, ap, ◌∙◌, subst, true, false, Option, none, some, List, ◌++◌, arith,
  length,
}
use vmnetx.Source
use vmnetx.Source.{Http, HttpSource, read, seek}
use vmnetx.Source.Reads.{Serves, IsFaithful, Reads}
use vmnetx.Source.Contract.{Straddles, read-Reads}
use vmnetx.Source.Behind.{read-Behind}
use vmnetx.Source.Range.{SourceRange, new_range, write_to_file, write_to_file-CopiedRange}
use vmnetx.Package
use vmnetx.Package.{ZipInfo, LocalHeader, header_len, unpack, is_magic, check_header, open_member}
use vmnetx.Package.Stored.{
  content_offset, lengths, slice-local, slice-content, IsStored, check_header-none,
}

-- A member that was opened, with the source as it is then.
pub record IsOpened (bytes : List ℕ) (etag : Option String) (date : Option ℕ) (start : ℕ)
    (content : List ℕ) (contents : Option (List ℕ)) (o : Package.Result SourceRange × HttpSource)
    : Type 0 where
  pub opened :
      o.0 ≡ Package.ok (record { offset = start; length = length content; contents = contents })
  pub faithful : IsFaithful bytes o.1
  pub same_etag : o.1.etag ≡ etag
  pub same_date : o.1.last_modified ≡ date

at_offset : HttpSource → ℕ → HttpSource
at_offset s n = record s { offset = n; closed = false }

module _ (http : Http) (bytes : List ℕ) (etag : Option String) (date : Option ℕ)
    (serves : Serves http bytes etag date) where
  header-Reads :
      {content : List ℕ} {info : ZipInfo} (m : IsStored bytes info content) (s : HttpSource)
      → IsFaithful bytes s
      → s.etag ≡ etag
      → s.last_modified ≡ date
      → ¬ Straddles (record s { offset = info.header_offset }) (info.header_offset + header_len)
      → Reads bytes
          (at_offset s info.header_offset)
          (info.header_offset + 30)
          (read http (at_offset s info.header_offset) (some 30))
  unfolding at_offset
  header-Reads {content} {info} m s v he hd h =
      subst
        (λ n.
          Reads bytes (at_offset s info.header_offset) n
            (read http (at_offset s info.header_offset) (some 30)))
        (ground arith)
        (read-Reads http bytes etag date serves (at_offset s info.header_offset) (some 30)
          (record {
            is_open = refl;
            same_length = v.same_length;
            reads_ahead = v.reads_ahead;
            buffered = v.buffered;
          })
          he hd (omega arith) (omega (arith, lengths m)) (omega (arith, lengths m)))

  pub open_member-IsOpened :
      {content : List ℕ} {info : ZipInfo} (m : IsStored bytes info content) (s : HttpSource)
      (zip : Package.Directory) (path : String)
      → zip path ≡ some info
      → IsFaithful bytes s
      → s.etag ≡ etag
      → s.last_modified ≡ date
      → ¬ Straddles (record s { offset = info.header_offset }) (info.header_offset + header_len)
      → IsOpened bytes etag date (content_offset m) content none (open_member http zip path false s)
  unfolding open_member seek new_range at_offset
  open_member-IsOpened {content} {info} m s zip path e v he hd h =
      let reads = header-Reads m s v he hd h in
      let r = read http (at_offset s info.header_offset) (some 30) in
      let header : r.0 ≡ Source.ok m.local = reads.returned ∙ ap Source.ok (slice-local m) in
      let bytes_read : r ≡ (Source.ok m.local, r.1) = ap (λ x. (x, r.1)) header in
      rw
        (
          e,
          v.is_open,
          bytes_read,
          m.unpacked,
          check_header-none m.header m.magic m.stored m.clear,
          m.sized,
        )
        (record {
          opened = refl;
          faithful = reads.kept;
          same_etag = reads.same_etag ∙ he;
          same_date = reads.same_date ∙ hd;
        })

  -- The content of a member, once its header has been read.
  content-Reads :
      {content : List ℕ} {info : ZipInfo} (m : IsStored bytes info content) (s : HttpSource)
      → IsFaithful bytes s
      → s.etag ≡ etag
      → s.last_modified ≡ date
      → s.buffer_offset ≤ info.header_offset + 30
      → Reads bytes
          (at_offset s (content_offset m))
          (content_offset m + length content)
          (read http (at_offset s (content_offset m)) (some (length content)))
  unfolding at_offset
  content-Reads {content} {info} m s v he hd h =
      subst
        (λ n.
          Reads bytes (at_offset s (content_offset m)) n
            (read http (at_offset s (content_offset m)) (some (length content))))
        (ground arith)
        (read-Reads http bytes etag date serves (at_offset s (content_offset m))
          (some (length content))
          (record {
            is_open = refl;
            same_length = v.same_length;
            reads_ahead = v.reads_ahead;
            buffered = v.buffered;
          })
          he hd (omega arith) (omega (arith, lengths m, m.more)) (omega (arith, lengths m)))

  pub open_member-IsLoaded :
      {content : List ℕ} {info : ZipInfo} (m : IsStored bytes info content) (s : HttpSource)
      (zip : Package.Directory) (path : String)
      → zip path ≡ some info
      → IsFaithful bytes s
      → s.etag ≡ etag
      → s.last_modified ≡ date
      → ¬ Straddles (record s { offset = info.header_offset }) (info.header_offset + header_len)
      → IsOpened bytes etag date
          (content_offset m)
          content
          (some content)
          (open_member http zip path true s)
  unfolding open_member seek new_range at_offset
  open_member-IsLoaded {content} {info} m s zip path e v he hd h =
      let reads = header-Reads m s v he hd h in
      let r = read http (at_offset s info.header_offset) (some 30) in
      let header : r.0 ≡ Source.ok m.local = reads.returned ∙ ap Source.ok (slice-local m) in
      let bytes_read : r ≡ (Source.ok m.local, r.1) = ap (λ x. (x, r.1)) header in
      let behind : r.1.buffer_offset ≤ info.header_offset + 30 =
        read-Behind http (at_offset s info.header_offset) (some 30) m.local refl (omega arith)
          header in
      let reads' =
        content-Reads m r.1 reads.kept (reads.same_etag ∙ he) (reads.same_date ∙ hd) behind in
      let r' = read http (at_offset r.1 (content_offset m)) (some (length content)) in
      let content_read : r' ≡ (Source.ok content, r'.1) =
        ap (λ x. (x, r'.1)) (reads'.returned ∙ ap Source.ok (slice-content m)) in
      rw
        (
          e,
          v.is_open,
          bytes_read,
          m.unpacked,
          check_header-none m.header m.magic m.stored m.clear,
          m.sized,
          reads.kept.is_open,
          content_read,
        )
        (record {
          opened = refl;
          faithful = reads'.kept;
          same_etag = reads'.same_etag ∙ reads.same_etag ∙ he;
          same_date = reads'.same_date ∙ reads.same_date ∙ hd;
        })

  -- A member that is stored in the package as it is, neither compressed nor encrypted, of a resource that is
  -- unchanged: opening it succeeds, whatever the source's offset, if its header does not straddle the
  -- source's buffer; and with fuel above its length and blocks that are not empty, writing it to a file
  -- appends the content of the member, whatever its name and its extra field.
  pub open_member-copied :
      (content : List ℕ) (info : ZipInfo) (s : HttpSource) (zip : Package.Directory) (path : String)
      (fuel buf_size : ℕ) (written : List ℕ)
      → IsStored bytes info content
      → zip path ≡ some info
      → IsFaithful bytes s
      → s.etag ≡ etag
      → s.last_modified ≡ date
      → ¬ Straddles (record s { offset = info.header_offset }) (info.header_offset + header_len)
      → 0 < buf_size
      → length content < fuel
      → (r : SourceRange) × (t : HttpSource) × (u : HttpSource) × (open_member http zip path false s
          ≡ (Package.ok r, t))
        × (write_to_file fuel http r buf_size written t
            ≡ some (record { result = Source.ok tt; written = written ++ content; source = u }))
  open_member-copied content info s zip path fuel buf_size written m e v he hd h p k =
      let o = open_member-IsOpened m s zip path e v he hd h in
      let t = (open_member http zip path false s).1 in
      let r : SourceRange = record {
        offset = content_offset m;
        length = length content;
        contents = none;
      } in
      let c =
        write_to_file-CopiedRange http bytes etag date serves buf_size p fuel (content_offset m)
          (length content) written t o.faithful o.same_etag o.same_date (omega (arith, lengths m))
          k in
      (
        r,
        t,
        c.source,
        ap (λ x. (x, t)) o.opened,
        c.ended
            ∙ ap
                (λ l.
                  some
                    (record { result = Source.ok tt; written = written ++ l; source = c.source }))
                (slice-content m),
      )

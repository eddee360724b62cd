-- ===== src/Package/Stored.antt =====
-- What a stored member of a package of vmnetx/package.py is: where its header and its content stand.
use vmnetx.Prelude.{
  ℕ, ◌+◌, ◌-◌, ◌%◌, ◌<◌, ◌≡◌, refl, sym, ap, ◌∙◌, true, none, some, List, [], ◌∷◌, ◌++◌,
  append_assoc, arith, length, length-append, slice, take, drop,
}
use vmnetx.Package.{ZipInfo, LocalHeader, header_len, unpack, is_magic, check_header}

-- A member that is stored as it is, in a file of some bytes.
pub record IsStored (bytes : List ℕ) (info : ZipInfo) (content : List ℕ) : Type 0 where
  pub before : List ℕ
  pub local : List ℕ  -- the local file header
  pub name : List ℕ
  pub extra : List ℕ
  pub after : List ℕ
  pub header : LocalHeader
  pub whole : bytes ≡ before ++ (local ++ (name ++ (extra ++ (content ++ after))))
  pub starts : info.header_offset ≡ length before
  pub sized : info.file_size ≡ length content
  pub unpacked : unpack local ≡ some header
  pub magic : is_magic header.magic ≡ true
  pub stored : header.compression ≡ 0
  pub clear : header.flags % 2 ≡ 0
  pub name_is : header.name_len ≡ length name
  pub extra_is : header.extra_len ≡ length extra
  pub more : 0 < length after  -- the central directory stands behind all members

pub take-append : (xs ys : List ℕ) → take (length xs) (xs ++ ys) ≡ xs
take-append [] ys = refl
take-append (x ∷ xs) ys = ap (λ l. x ∷ l) (take-append xs ys)

pub drop-append : (xs ys : List ℕ) → drop (length xs) (xs ++ ys) ≡ ys
drop-append [] ys = refl
drop-append (x ∷ xs) ys = drop-append xs ys

-- The part of a list between two others.
pub slice-append_middle :
    (xs ys zs : List ℕ) (a b : ℕ)
    → a ≡ length xs
    → b ≡ length xs + length ys
    → slice (xs ++ (ys ++ zs)) a b ≡ ys
slice-append_middle xs ys zs a b p q =
    ap (λ n. take (b - n) (drop n (xs ++ (ys ++ zs)))) p
    ∙ ap (take (b - length xs)) (drop-append xs (ys ++ zs))
    ∙ ap (λ n. take n (ys ++ zs)) (let e : b - length xs ≡ length ys = omega arith in e)
    ∙ take-append ys zs

pub check_header-none :
    (h : LocalHeader)
    → is_magic h.magic ≡ true
    → h.compression ≡ 0
    → h.flags % 2 ≡ 0
    → check_header h ≡ none
unfolding check_header
check_header-none h m c f = rw (m, c, f) refl

pub unpack-length :
    (bytes : List ℕ) (h : LocalHeader) → unpack bytes ≡ some h → length bytes ≡ header_len
unfolding unpack
unpack-length bytes h e = ground arith

module _ {bytes content : List ℕ} {info : ZipInfo} (m : IsStored bytes info content) where
  -- Where the member's bytes begin.
  abbrev pub content_offset : ℕ
  content_offset = info.header_offset + header_len + m.header.name_len + m.header.extra_len

  pub local-length : length m.local ≡ 30
  local-length = unpack-length m.local m.header m.unpacked

  pub lengths : length bytes ≡ content_offset + length content + length m.after
  lengths =
      ap length m.whole
      ∙ omega (
        arith,
        m.starts,
        m.name_is,
        m.extra_is,
        local-length,
        length-append m.before (m.local ++ (m.name ++ (m.extra ++ (content ++ m.after)))),
        length-append m.local (m.name ++ (m.extra ++ (content ++ m.after))),
        length-append m.name (m.extra ++ (content ++ m.after)),
        length-append m.extra (content ++ m.after),
        length-append content m.after,
      )

  pub slice-local : slice bytes info.header_offset (info.header_offset + 30) ≡ m.local
  slice-local =
      ap (λ l. slice l info.header_offset (info.header_offset + 30)) m.whole
      ∙ slice-append_middle m.before m.local (m.name ++ (m.extra ++ (content ++ m.after)))
          info.header_offset (info.header_offset + 30) m.starts
          (omega (arith, m.starts, local-length))

  pub slice-content : slice bytes content_offset (content_offset + length content) ≡ content
  slice-content =
      let front = ((m.before ++ m.local) ++ m.name) ++ m.extra in
      let joined : bytes ≡ front ++ (content ++ m.after) =
        m.whole
        ∙ sym (append_assoc m.before m.local (m.name ++ (m.extra ++ (content ++ m.after))))
        ∙ sym (append_assoc (m.before ++ m.local) m.name (m.extra ++ (content ++ m.after)))
        ∙ sym (append_assoc ((m.before ++ m.local) ++ m.name) m.extra (content ++ m.after)) in
      let size : content_offset ≡ length front = omega (
        arith,
        m.starts,
        m.name_is,
        m.extra_is,
        local-length,
        length-append m.before m.local,
        length-append (m.before ++ m.local) m.name,
        length-append ((m.before ++ m.local) ++ m.name) m.extra,
      ) in
      ap (λ l. slice l content_offset (content_offset + length content)) joined
      ∙ slice-append_middle front content m.after content_offset (content_offset + length content)
          size (omega (arith, size))

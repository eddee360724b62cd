-- ===== src/Memory/RoundTrip.antt =====
-- vmnetx/memory.py: what is read back from a header that was written.
use vmnetx.Prelude.{
  ℕ, zero, suc, ◌+◌, ◌-◌, ◌*◌, ◌/◌, ◌%◌, ◌^◌, ◌≤◌, ◌<◌, ◌≡◌, refl, sym, ap, ◌∙◌, subst, Bool, true,
  List, [], ◌∷◌, ◌++◌, append_assoc, arith, length, take, drop, replicate, length-append,
  length-replicate, length-take, take-length, take-append, drop-append, ◌⊎◌,
}
use vmnetx.Memory.{
  ok, LibvirtQemuMemoryHeader, header_length, xml_end_alignment, xml_minimum_pad, pack_word,
  pack_words, unpack_words, rstrip, read_xml, parse, body, new_xml_len, pad, packed, write,
}

abbrev unpacked : ℕ → ℕ
unpacked n = n % 256 + 256 * (n / 256 % 256 + 256 * (n / 256 ^ 2 % 256 + 256 * (n / 256 ^ 3 % 256)))

unpacked-eq : (n : ℕ) → n < 2 ^ 32 → unpacked n ≡ n
unpacked-eq n h = omega arith

parse-packed :
    (h : LibvirtQemuMemoryHeader) (n : ℕ) (rest : List ℕ)
    → parse (packed h n ++ rest)
      ≡ read_xml (unpacked n) (unpacked h.was_running) (unpacked h.compressed) (pad n h.xml ++ rest)
unfolding parse packed unpack_words pack_words pack_word
parse-packed h n rest = refl

replicate_snoc : (k : ℕ) → replicate {A = ℕ} (suc k) 0 ≡ replicate k 0 ++ 0 ∷ []
replicate_snoc zero = refl
replicate_snoc (suc k) = ap (λ l. 0 ∷ l) (replicate_snoc k)

rstrip-replicate : (k : ℕ) → rstrip (replicate k 0) ≡ []
unfolding rstrip
rstrip-replicate zero = refl
rstrip-replicate (suc k) = rw (rstrip-replicate k) refl

rstrip-append : (xml : List ℕ) (k : ℕ) → rstrip (xml ++ replicate k 0) ≡ rstrip xml
unfolding rstrip
rstrip-append [] k = rstrip-replicate k
rstrip-append (x ∷ xs) k = rw (rstrip-append xs k) refl

-- The XML with its padding, cut before the last NUL byte.
pad_cut :
    (n k : ℕ) (xml rest : List ℕ)
    → n ≡ length xml + k
    → pad (suc n) xml ++ rest ≡ (xml ++ replicate k 0) ++ 0 ∷ rest
pad_cut n k xml rest h =
    ap (λ l. (l ++ replicate (suc n - length xml) 0) ++ rest)
      (take-length (suc n) xml (omega arith))
    ∙ ap (λ m. (xml ++ replicate m 0) ++ rest)
        (let e : suc n - length xml ≡ suc k = omega arith in e)
    ∙ ap (λ l. (xml ++ l) ++ rest) (replicate_snoc k)
    ∙ ap (λ l. l ++ rest) (sym (append_assoc xml (replicate k 0) (0 ∷ [])))
    ∙ append_assoc (xml ++ replicate k 0) (0 ∷ []) rest

read_xml-pad :
    (n was_running compressed : ℕ) (xml rest : List ℕ)
    → length xml ≤ n
    → rstrip xml ≡ xml
    → read_xml (suc n) was_running compressed (pad (suc n) xml ++ rest)
      ≡ ok (record {
        xml_len = suc n;
        was_running = was_running;
        compressed = compressed;
        xml = xml;
      })
read_xml-pad n was_running compressed xml rest h r =
    let k = n - length xml in
    let l : length (xml ++ replicate k 0) ≡ n =
      length-append xml (replicate k 0)
      ∙ ap (λ m. length xml + m) (length-replicate k 0)
      ∙ omega arith in
    ap (read_xml (suc n) was_running compressed) (pad_cut n k xml rest (omega arith))
    ∙ rw (drop-append (xml ++ replicate k 0) (0 ∷ rest) n l) (
        rw (take-append (xml ++ replicate k 0) (0 ∷ rest) n l) (
          ap
            (λ x. ok (record {
              xml_len = suc n;
              was_running = was_running;
              compressed = compressed;
              xml = x;
            }))
            (rstrip-append xml k ∙ r)))

length-packed :
    (h : LibvirtQemuMemoryHeader) (n : ℕ)
    → length h.xml ≤ n
    → length (packed h n) ≡ header_length + n
unfolding packed pack_words pack_word
length-packed h n l = omega (
  arith,
  length-append (take n h.xml) (replicate (n - length h.xml) 0),
  length-take n h.xml,
  length-replicate {A = ℕ} (n - length h.xml) 0,
)

-- Where the XML and its NUL byte fit in the new length and the values fit in a word, writing the
-- header succeeds, and what is read back is the header with the new length, if the XML does not end
-- in a NUL byte; behind it stand the file's old bytes from where the new header ends.
pub parse-write :
    (h : LibvirtQemuMemoryHeader) (extend : Bool) (fh : List ℕ)
    → length h.xml < new_xml_len h extend
    → new_xml_len h extend < 2 ^ 32
    → h.was_running < 2 ^ 32
    → h.compressed < 2 ^ 32
    → rstrip h.xml ≡ h.xml
    → (new : List ℕ) × (write h extend fh ≡ ok new)
      × (parse new ≡ ok (record h { xml_len = new_xml_len h extend }))
      × (body (record h { xml_len = new_xml_len h extend }) new
          ≡ drop (header_length + new_xml_len h extend) fh)
unfolding write body
parse-write h extend fh l b r c s =
    let n = new_xml_len h extend in
    let rest = drop (length (packed h n)) fh in
    let e : suc (n - 1) ≡ n = omega arith in
    let k : length (packed h n) ≡ header_length + n = length-packed h n (omega arith) in
    (
      packed h n ++ rest,
      ground (arith, l, b, r, c),
      parse-packed h n rest
          ∙ (λ i.
              read_xml (unpacked-eq n b i) (unpacked-eq h.was_running r i)
                (unpacked-eq h.compressed c i) (pad n h.xml ++ rest))
          ∙ subst
              (λ m.
                read_xml m h.was_running h.compressed (pad m h.xml ++ rest)
                ≡ ok (record h { xml_len = m }))
              e (read_xml-pad (n - 1) h.was_running h.compressed h.xml rest (omega arith) s),
      drop-append (packed h n) rest (header_length + n) k ∙ ap (λ m. drop m fh) k,
    )

-- An extended header has the padding that was asked for, and a body that begins at a multiple of the
-- alignment, unless the old length had the padding already; then the length stays.
pub new_xml_len-aligned :
    (h : LibvirtQemuMemoryHeader)
    → (length h.xml + xml_minimum_pad < new_xml_len h true)
      × (((header_length + new_xml_len h true) % xml_end_alignment ≡ 0)
          ⊎ (new_xml_len h true ≡ h.xml_len))
new_xml_len-aligned h = (ground arith, ground arith)

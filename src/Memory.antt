-- ===== src/Memory.antt =====
-- `LibvirtQemuMemoryHeader` of vmnetx/memory.py: the header of a saved memory image. A file is the
-- list of its bytes.
pub mod RoundTrip
use vmnetx.Prelude.{
  ℕ, zero, suc, ◌+◌, ◌-◌, ◌*◌, ◌/◌, ◌%◌, ◌^◌, Bool, true, false, not, ◌&&◌, ◌||◌, List, [], ◌∷◌,
  ◌++◌, ◌==◌, ltb, length, take, drop, replicate, if◌then◌else◌,
}

pub data MemoryImageError : Type 0 where
  struct_error invalid_magic unknown_version unused_not_zero missing_nul xml_too_large :
      MemoryImageError

pub data Result (A : Type 0) : Type 0 where
  ok : A → Result A
  err : MemoryImageError → Result A

-- `'LibvirtQemudSave'`.
abbrev pub header_magic : List ℕ
header_magic =
    76 ∷ 105 ∷ 98 ∷ 118 ∷ 105 ∷ 114 ∷ 116 ∷ 81 ∷ 101 ∷ 109 ∷ 117 ∷ 100 ∷ 83 ∷ 97 ∷ 118 ∷ 101 ∷ []

abbrev pub header_version : ℕ
header_version = 2

abbrev pub header_length : ℕ
header_length = 92

abbrev pub xml_minimum_pad : ℕ
xml_minimum_pad = 8192

abbrev pub xml_end_alignment : ℕ
xml_end_alignment = 4096

pub record LibvirtQemuMemoryHeader : Type 0 where
  pub xml_len : ℕ
  pub was_running : ℕ
  pub compressed : ℕ
  pub xml : List ℕ

abbrev pub starts : List ℕ → List ℕ → Bool
starts [] ys = true
starts (x ∷ xs) [] = false
starts (x ∷ xs) (y ∷ ys) = (x == y) && starts xs ys

abbrev pub all_zero : List ℕ → Bool
all_zero [] = true
all_zero (x ∷ xs) = (x == 0) && all_zero xs

-- `struct`'s `I` on x86: the lowest byte first.
unfoldable pub pack_word : ℕ → List ℕ
pack_word n = n % 256 ∷ n / 256 % 256 ∷ n / 256 ^ 2 % 256 ∷ n / 256 ^ 3 % 256 ∷ []

unfoldable pub pack_words : List ℕ → List ℕ
pack_words [] = []
pack_words (w ∷ ws) = pack_word w ++ pack_words ws

unfoldable pub unpack_words : ℕ → List ℕ → List ℕ
unpack_words (suc n) (a ∷ b ∷ c ∷ d ∷ buf) =
    (a + 256 * (b + 256 * (c + 256 * d))) ∷ unpack_words n buf
unpack_words _ _ = []

-- `rstrip('\0')`.
unfoldable pub rstrip : List ℕ → List ℕ
rstrip [] = []
rstrip (x ∷ xs) = let rest = rstrip xs in keep rest
  where
    keep : List ℕ → List ℕ
    keep [] = if x == 0 then [] else x ∷ []
    keep (y ∷ ys) = x ∷ y ∷ ys

-- The XML, and the NUL byte behind it, at the file's position. With an XML length of 0, `read(-1)`
-- takes all that is left, so that no NUL byte can follow.
abbrev pub read_xml : ℕ → ℕ → ℕ → List ℕ → Result LibvirtQemuMemoryHeader
read_xml zero was_running compressed fh = err missing_nul
read_xml (suc n) was_running compressed fh =
    if starts (0 ∷ []) (drop n fh)
    then ok (record {
      xml_len = suc n;
      was_running = was_running;
      compressed = compressed;
      xml = rstrip (take n fh);
    })
    else err missing_nul

abbrev pub check_header : List ℕ → List ℕ → List ℕ → Result LibvirtQemuMemoryHeader
check_header magic (version ∷ xml_len ∷ was_running ∷ compressed ∷ unused) fh =
    if not (starts magic header_magic)
    then err invalid_magic
    else if not (version == header_version)
    then err unknown_version
    else if not (all_zero unused)
    then err unused_not_zero
    else read_xml xml_len was_running compressed fh
check_header magic _ fh = err struct_error

-- `__init__`.
unfoldable pub parse : List ℕ → Result LibvirtQemuMemoryHeader
unfolding unpack_words rstrip
parse fh =
    let buf = take header_length fh in
    if length buf == header_length
    then check_header (take 16 buf) (unpack_words 19 (drop 16 buf)) (drop header_length fh)
    else err struct_error

-- `seek_body`: the bytes from there.
unfoldable pub body : LibvirtQemuMemoryHeader → List ℕ → List ℕ
body h fh = drop (header_length + h.xml_len) fh

-- The new length of the XML.
abbrev pub new_xml_len : LibvirtQemuMemoryHeader → Bool → ℕ
new_xml_len h extend =
    if extend && ltb h.xml_len (length h.xml + xml_minimum_pad + 1)
    then (header_length + (length h.xml + xml_minimum_pad + 1) + xml_end_alignment - 1)
        / xml_end_alignment
        * xml_end_alignment
      - header_length
    else h.xml_len

abbrev pub header_words : LibvirtQemuMemoryHeader → ℕ → List ℕ
header_words h xml_len = header_version ∷ xml_len ∷ h.was_running ∷ h.compressed ∷ replicate 15 0

-- `struct.pack('%ds' % n, xml)`.
abbrev pub pad : ℕ → List ℕ → List ℕ
pad n xml = take n xml ++ replicate (n - length xml) 0

-- What is written: the header and the XML.
unfoldable pub packed : LibvirtQemuMemoryHeader → ℕ → List ℕ
unfolding pack_words pack_word
packed h xml_len = header_magic ++ (pack_words (header_words h xml_len) ++ pad xml_len h.xml)

-- `write(fh, extend)`, with the file's bytes before and after; `struct.pack` raises for a value
-- that is not below 2 ^ 32.
unfoldable pub write : LibvirtQemuMemoryHeader → Bool → List ℕ → Result (List ℕ)
unfolding packed
write h extend fh =
    let xml_len = new_xml_len h extend in
    if ltb xml_len (length h.xml + 1)
    then err xml_too_large
    else if ltb xml_len (2 ^ 32) && (ltb h.was_running (2 ^ 32) && ltb h.compressed (2 ^ 32))
    then ok (packed h xml_len ++ drop (length (packed h xml_len)) fh)
    else err struct_error

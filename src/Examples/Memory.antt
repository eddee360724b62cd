-- ===== src/Examples/Memory.antt =====
-- vmnetx/memory.py: a short header that is extended over an old file.
use vmnetx.Prelude.{ℕ, ◌+◌, ◌%◌, ◌<◌, ◌≡◌, ◌⊎◌, refl, true, List, [], ◌∷◌, length, drop, arith}
use vmnetx.Memory.{
  LibvirtQemuMemoryHeader, ok, header_length, xml_end_alignment, xml_minimum_pad, rstrip, parse,
  body, new_xml_len, write,
}
use vmnetx.Memory.RoundTrip.{parse-write, new_xml_len-aligned}

abbrev header : LibvirtQemuMemoryHeader
header = record { xml_len = 100; was_running = 1; compressed = 3; xml = 60 ∷ 97 ∷ 62 ∷ [] }

rstrip_header : rstrip header.xml ≡ header.xml
unfolding rstrip
rstrip_header = refl

parse-write_example :
    (new : List ℕ) × (write header true (7 ∷ 8 ∷ []) ≡ ok new)
    × (parse new ≡ ok (record header { xml_len = new_xml_len header true }))
    × (body (record header { xml_len = new_xml_len header true }) new
        ≡ drop (header_length + new_xml_len header true) (7 ∷ 8 ∷ []))
parse-write_example =
    parse-write header true (7 ∷ 8 ∷ []) (ground arith) (ground arith) (ground arith) (ground arith)
      rstrip_header

new_xml_len-aligned_example :
    (length header.xml + xml_minimum_pad < new_xml_len header true)
    × (((header_length + new_xml_len header true) % xml_end_alignment ≡ 0)
        ⊎ (new_xml_len header true ≡ header.xml_len))
new_xml_len-aligned_example = new_xml_len-aligned header

-- ===== src/Source/Range.antt =====
-- `SourceRange` of vmnetx/source.py: a part of a source, and its copy into a file.
use Prim.Native.String.{String}
use vmnetx.Prelude.{
  false, refl, ℕ, zero, suc, ◌+◌, ◌-◌, ◌≤◌, ◌<◌, min, ◌≡◌, refl, sym, ap, ◌∙◌, Bool, Option, none,
  some, List, ◌++◌, append_assoc, append-nil, inl, inr, Bool-cases, arith, ◌==◌, if◌then◌else◌,
  length, slice, slice-append, length-slice_of_le, take, drop,
}
use vmnetx.Prelude.Int.{pos}
use vmnetx.Source.{Result, ok, err, Http, HttpSource, set, end, read, seek, tell}
use vmnetx.Source.Reads.{Serves, IsFaithful, Reads}
use vmnetx.Source.Contract.{read_reach, read-Reads, lt-read_reach, read_reach-le}

pub record SourceRange : Type 0 where
  pub offset : ℕ
  pub length : ℕ
  pub contents : Option (List ℕ)  -- `data`

abbrev bind_source :
    {A B : Type 0}
    → Result A × HttpSource
    → (A → HttpSource → Result B × HttpSource)
    → Result B × HttpSource
bind_source (err x, s) k = (err x, s)
bind_source (ok a, s) k = k a s

-- `if self.length is None: source.seek(0, 2); self.length = source.tell()`
range_length : HttpSource → Option ℕ → Result ℕ × HttpSource
range_length s (some n) = (ok n, s)
range_length s none = bind_source (seek s (pos 0) end) (λ _ s'. tell s')

unfoldable pub new_range : Http → HttpSource → ℕ → Option ℕ → Bool → Result SourceRange × HttpSource
unfolding range_length
new_range http s offset size load_data = bind_source (range_length s size) (λ n s1.
    if load_data
    then bind_source (seek s1 (pos offset) set) (λ _ s2.
      bind_source (read http s2 (some n))
        (λ bytes s3. (ok (record { offset = offset; length = n; contents = some bytes }), s3)))
    else (ok (record { offset = offset; length = n; contents = none }), s1))

-- What the output file holds after the loop, beside its result; none when the fuel ran out.
pub record Copied : Type 0 where
  pub result : Result (Unit {0})
  pub written : List ℕ
  pub source : HttpSource

-- One round's read, and the rest of the loop.
abbrev copy_on :
    (List ℕ → HttpSource → Option Copied) → List ℕ → Result (List ℕ) × HttpSource → Option Copied
copy_on rest written (err x, s) = some (record { result = err x; written = written; source = s })
copy_on rest written (ok bytes, s) = rest bytes s

-- `while count > 0`; `count -= len(buf)` ends the loop at 0 or below.
unfoldable pub copy_loop : ℕ → Http → ℕ → ℕ → List ℕ → HttpSource → Option Copied
copy_loop zero http buf_size count written s = none
copy_loop (suc fuel) http buf_size count written s =
    let more =
      copy_on
        (λ bytes s'. copy_loop fuel http buf_size (count - length bytes) (written ++ bytes) s')
        written (read http s (some (min count buf_size))) in
    if count == 0 then some (record { result = ok tt; written = written; source = s }) else more

abbrev start_copy :
    (HttpSource → Option Copied) → List ℕ → Result (Unit {0}) × HttpSource → Option Copied
start_copy loop written (err x, s) = some (record { result = err x; written = written; source = s })
start_copy loop written (ok _, s) = loop s

-- `write_to_file(fh, buf_size)`, where `written` is what the file holds already.
unfoldable pub write_to_file : ℕ → Http → SourceRange → ℕ → List ℕ → HttpSource → Option Copied
unfolding copy_loop
write_to_file fuel http r buf_size written s = elim r.contents [
  | some bytes ↦ some (record { result = ok tt; written = written ++ bytes; source = s })
  | none ↦
      start_copy (copy_loop fuel http buf_size r.length written) written (seek s (pos r.offset) set)
]

pair-eta : {A : Type 0} {B : Type 0} {a : A} (p : A × B) → p.0 ≡ a → p ≡ (a, p.1)
pair-eta p e = ap (λ x. (x, p.1)) e

-- A loop that ended well, behind the bytes from `first` to `stop`.
pub record CopiedRange (http : Http) (bytes : List ℕ) (etag : Option String) (date : Option ℕ)
    (written : List ℕ) (first stop : ℕ) (o : Option Copied) : Type 0 where
  pub source : HttpSource
  pub ended :
      o
      ≡ some
          (record { result = ok tt; written = written ++ slice bytes first stop; source = source })
  pub faithful : IsFaithful bytes source
  pub same_etag : source.etag ≡ etag
  pub same_date : source.last_modified ≡ date

-- The next round's range ends where this one's does.
next_range :
    (bytes written : List ℕ) (a b b' c c' : ℕ)
    → b' ≡ b
    → c' ≡ c
    → a ≤ b
    → b ≤ c
    → (written ++ slice bytes a b) ++ slice bytes b' c' ≡ written ++ slice bytes a c
next_range bytes written a b b' c c' p q h k =
    rw (p, q)
      (append_assoc written (slice bytes a b) (slice bytes b c)
        ∙ ap (λ l. written ++ l) (slice-append bytes a b c h k))

CopiedRange-widen :
    (http : Http) (bytes : List ℕ) (etag : Option String) (date : Option ℕ) (written : List ℕ)
    (a b b' c : ℕ) {c' : ℕ} (o : Option Copied)
    → b' ≡ b
    → c' ≡ c
    → a ≤ b
    → b ≤ c
    → CopiedRange http bytes etag date (written ++ slice bytes a b) b' c' o
    → CopiedRange http bytes etag date written a c o
CopiedRange-widen http bytes etag date written a b b' c {c'} o p q h k r = record {
  source = r.source;
  ended =
      r.ended
      ∙ ap (λ l. some (record { result = ok tt; written = l; source = r.source }))
          (next_range bytes written a b b' c c' p q h k);
  faithful = r.faithful;
  same_etag = r.same_etag;
  same_date = r.same_date;
}

module _ (http : Http) (bytes : List ℕ) (etag : Option String) (date : Option ℕ)
    (serves : Serves http bytes etag date) (buf_size : ℕ) (positive : 0 < buf_size) where
  copy_loop-CopiedRange :
      (fuel count : ℕ) (written : List ℕ) (s : HttpSource)
      → IsFaithful bytes s
      → s.etag ≡ etag
      → s.last_modified ≡ date
      → s.offset + count ≤ length bytes
      → count < fuel
      → CopiedRange http bytes etag date written s.offset
          (s.offset + count)
          (copy_loop fuel http buf_size count written s)
  unfolding copy_loop
  copy_loop-CopiedRange zero count written s v he hd h k = elim k [ ]
  copy_loop-CopiedRange (suc fuel) count written s v he hd h k = elim (Bool-cases (count == 0)) [
    | inl e ↦
        let z : count ≡ 0 = ground arith in
        rw e (record {
          source = s;
          ended =
              ap (λ l. some (record { result = ok tt; written = l; source = s }))
                (sym (append-nil written)
                  ∙ ap (λ n. written ++ take n (drop s.offset bytes))
                      (let e' : 0 ≡ s.offset + count - s.offset = omega arith in e'));
          faithful = v;
          same_etag = he;
          same_date = hd;
        })
    | inr e ↦
        let size = min count buf_size in
        let n = read_reach s (s.offset + size) in
        let nonzero : 0 < size = ground arith in
        let forward : s.offset < n = lt-read_reach s (s.offset + size) (omega arith) in
        let bounded : n ≤ s.offset + size = read_reach-le s (s.offset + size) in
        let reads : Reads bytes s n (read http s (some size)) =
          read-Reads http bytes etag date serves s (some size) v he hd (omega arith) (omega arith)
            (omega arith) in
        let returned : length (slice bytes s.offset n) ≡ n - s.offset =
          length-slice_of_le bytes s.offset n (omega arith) in
        rw (e, pair-eta (read http s (some size)) reads.returned)
          (CopiedRange-widen http bytes etag date written s.offset n
            (read http s (some size)).1.offset (s.offset + count) _ reads.moved
            (omega (arith, reads.moved, returned)) (omega arith) (omega arith)
            (copy_loop-CopiedRange fuel (count - length (slice bytes s.offset n))
              (written ++ slice bytes s.offset n) (read http s (some size)).1 reads.kept
              (reads.same_etag ∙ he) (reads.same_date ∙ hd) (omega (arith, reads.moved, returned))
              (omega (arith, returned))))
  ]

  -- Copying a range of a resource that is unchanged, with fuel above the range's length: the loop
  -- ends, and appends to the file exactly the bytes of the range, whatever the source's offset and
  -- buffer were and however many reads came back short.
  pub write_to_file-CopiedRange :
      (fuel : ℕ) (offset size : ℕ) (written : List ℕ) (s : HttpSource)
      → IsFaithful bytes s
      → s.etag ≡ etag
      → s.last_modified ≡ date
      → offset + size ≤ length bytes
      → size < fuel
      → CopiedRange http bytes etag date written offset (offset + size) (
          write_to_file fuel http
            (record { offset = offset; length = size; contents = none })
            buf_size
            written
            s)
  unfolding write_to_file seek
  write_to_file-CopiedRange fuel offset size written s v he hd h k = rw v.is_open (
      copy_loop-CopiedRange fuel size written (record s { offset = offset; closed = false })
        (record {
          is_open = refl;
          same_length = v.same_length;
          reads_ahead = v.reads_ahead;
          buffered = v.buffered;
        })
        he hd h k)

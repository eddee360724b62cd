-- ===== src/Source/Contract.antt =====
-- The contract of `_HttpSource.read` (vmnetx/source.py): the five cases together.
use Prim.Native.String.{String}
use vmnetx.Prelude.{
  ℕ, ◌+◌, ◌≤◌, ◌<◌, ◌≡◌, subst, ap, false, ◌&&◌, inl, inr, some, ◌-◌, Bool-cases, arith, ltb, leb,
  List, Option, if◌then◌else◌, length, slice, min,
}
use vmnetx.Source.{Result, ok, err, file_is_closed, Http, HttpSource, read_stop, read_case, read}
use vmnetx.Source.Reads.{
  Serves, IsFaithful, Reads, read_buffer-Reads, read_head-Reads, read_tail-Reads, read_end-Reads,
  read_fresh-Reads,
}

-- The wanted range begins before the buffer, and ends behind it.
abbrev pub Straddles : HttpSource → ℕ → Type 0
Straddles s stop = (s.offset < s.buffer_offset) × (s.buffer_offset + length s.buffer < stop)

read_open :
    (http : Http) (s : HttpSource) (size : Option ℕ)
    → s.closed ≡ false
    → read http s size ≡ read_case http s (read_stop s size)
unfolding read
read_open http s size h =
    ap (λ open_. if open_ then (err file_is_closed, s) else read_case http s (read_stop s size)) h

-- Where a read stops that is to stop at `stop`: a range that straddles the buffer is cut at the
-- buffer's end.
abbrev pub read_reach : HttpSource → ℕ → ℕ
read_reach s stop =
    if ltb s.offset s.buffer_offset && leb s.buffer_offset stop
    then min stop (s.buffer_offset + length s.buffer)
    else stop

Reads-at :
    {bytes : List ℕ} {s : HttpSource} {m n : ℕ} {r : Result (List ℕ) × HttpSource}
    → m ≡ n
    → Reads bytes s m r
    → Reads bytes s n r
Reads-at {bytes} {s} {r = r} e = subst (λ n. Reads bytes s n r) e

module _ (http : Http) (bytes : List ℕ) (etag : Option String) (date : Option ℕ)
    (serves : Serves http bytes etag date) (s : HttpSource) where
  read_case-Reads :
      (stop : ℕ)
      → IsFaithful bytes s
      → s.etag ≡ etag
      → s.last_modified ≡ date
      → s.offset ≤ stop
      → s.offset < length bytes
      → stop ≤ length bytes
      → Reads bytes s (read_reach s stop) (read_case http s stop)
  unfolding read_case
  read_case-Reads stop v he hd h k l =
      elim (Bool-cases (leb s.buffer_offset s.offset && leb stop buf_end)) [
        | inl e ↦ rw e (
            Reads-at (ground arith) (
              read_buffer-Reads http bytes etag date serves s stop v (ground arith) h (ground arith)
                l))
        | inr nb ↦ rw nb (elim (Bool-cases (leb s.buffer_offset s.offset && ltb s.offset buf_end)) [
          | inl e ↦ rw e (
              Reads-at (ground arith) (
                read_head-Reads http bytes etag date serves s stop v he hd l (ground arith)
                  (ground arith) (ground arith)))
          | inr nc ↦
              rw nc (elim (Bool-cases (ltb s.offset s.buffer_offset && leb s.buffer_offset stop)) [
                | inl e ↦ rw e (
                    read_tail-Reads http bytes etag date serves s stop v he hd l (ground arith)
                      (ground arith))
                | inr nd ↦ rw nd (elim (Bool-cases (leb s.length stop)) [
                  | inl e ↦ rw e (
                      read_end-Reads http bytes etag date serves s stop v he hd l
                        (ground (arith, v.same_length)))
                  | inr ne ↦
                      rw ne (read_fresh-Reads http bytes etag date serves s stop v he hd l h k)
                ])
              ])
        ])
      ]
    where
      buf_end : ℕ
      buf_end = s.buffer_offset + length s.buffer

  -- While the resource is unchanged, a read that begins within the resource and does not go past
  -- its end returns the bytes that stand there, without a gap, moves the offset behind them, and
  -- leaves the source so that the next read does the same. It returns all that were wanted, unless
  -- the wanted range begins before the buffer and ends behind it; then it stops at the buffer's end.
  pub read-Reads :
      (size : Option ℕ)
      → IsFaithful bytes s
      → s.etag ≡ etag
      → s.last_modified ≡ date
      → s.offset ≤ read_stop s size
      → s.offset < length bytes
      → read_stop s size ≤ length bytes
      → Reads bytes s (read_reach s (read_stop s size)) (read http s size)
  read-Reads size v he hd h k l =
      rw (read_open http s size v.is_open) (read_case-Reads (read_stop s size) v he hd h k l)

-- A read makes progress: where bytes are wanted, some are returned.
pub lt-read_reach : (s : HttpSource) (stop : ℕ) → s.offset < stop → s.offset < read_reach s stop
lt-read_reach s stop h = ground arith

pub read_reach-le : (s : HttpSource) (stop : ℕ) → read_reach s stop ≤ stop
read_reach-le s stop = ground arith

-- A read that straddles the buffer is short: it returns fewer bytes than were wanted, though the
-- resource has them all.
pub read-Straddles :
    (http : Http) (bytes : List ℕ) (etag : Option String) (date : Option ℕ)
    (serves : Serves http bytes etag date) (s : HttpSource) (size : ℕ)
    → IsFaithful bytes s
    → s.etag ≡ etag
    → s.last_modified ≡ date
    → s.offset + size ≤ length bytes
    → Straddles s (s.offset + size)
    → (n : ℕ) × (n < size)
      × ((read http s (some size)).0 ≡ ok (slice bytes s.offset (s.offset + n)))
read-Straddles http bytes etag date serves s size v he hd h st = (
  s.buffer_offset + length s.buffer - s.offset,
  omega (arith, st),
  rw
      (let e : s.offset + (s.buffer_offset + length s.buffer - s.offset)
            ≡ read_reach s (s.offset + size) =
          ground arith in
        e)
      (read-Reads http bytes etag date serves s (some size) v he hd (omega arith)
        (omega (arith, st.1)) h).returned,
)

-- ===== src/Source/Reads.antt =====
-- What `read` of vmnetx/source.py returns when the server has not changed the resource.
use Prim.Native.String.{String}
use text.Mathlib.Text.{◌==◌ as str_eq}
use text.Mathlib.TextPositions.{eq_refl}
use vmnetx.Prelude.{
  ℕ, ◌+◌, ◌-◌, ◌≤◌, ◌<◌, ◌≡◌, refl, ap, ◌∙◌, true, false, Option, none, some, List, ◌++◌, inl, inr,
  Bool-cases, arith, leb, ◌==◌, length, take, drop, slice, slice-append, length-slice_of_le,
  slice-slice, take_to-slice, drop_to-slice, slice_of_eq, take-length, append-take-slice, min,
}
use vmnetx.Source.{
  Result, ok, Http, Case, HttpSource, eq_option, get_etag, check_response, get, slice_to,
  read_buffer, read_head, read_tail, read_end, read_fresh,
}

-- A server that answers range requests over an unchanged resource as HTTP documents: status 206,
-- the same validators, and the bytes of the range that exist, if the range is not empty and begins
-- within the resource.
pub record Serves (http : Http) (bytes : List ℕ) (etag : Option String) (date : Option ℕ)
    : Type 0 where
  pub header : Option String
  pub validator : get_etag header ≡ etag
  pub answers :
      (first stop : ℕ)
      → first < stop
      → first < length bytes
      → http first stop
        ≡ some (record {
          status_code = 206;
          etag_header = header;
          last_modified = date;
          content = slice bytes first stop;
        })

-- What holds of a source between reads: it is open, its length is the resource's, and its buffer
-- holds the bytes that stand at `_buffer_offset`.
pub record IsFaithful (bytes : List ℕ) (s : HttpSource) : Type 0 where
  pub is_open : s.closed ≡ false
  pub same_length : s.length ≡ length bytes
  pub reads_ahead : 0 < s.buffer_size
  pub buffered : s.buffer ≡ slice bytes s.buffer_offset (s.buffer_offset + length s.buffer)

-- A read that returned the bytes from the offset up to `n`, and moved there.
pub record Reads (bytes : List ℕ) (s : HttpSource) (n : ℕ) (r : Result (List ℕ) × HttpSource)
    : Type 0 where
  pub returned : r.0 ≡ ok (slice bytes s.offset n)
  pub moved : r.1.offset ≡ n
  pub kept : IsFaithful bytes r.1
  pub same_etag : r.1.etag ≡ s.etag
  pub same_date : r.1.last_modified ≡ s.last_modified

eq_option_refl : (o : Option String) → eq_option str_eq o o ≡ true
eq_option_refl none = refl
eq_option_refl (some x) = eq_refl x

eq_date_refl : (o : Option ℕ) → eq_option ◌==◌ o o ≡ true
eq_date_refl none = refl
eq_date_refl (some x) = ground arith

module _ (http : Http) (bytes : List ℕ) (etag : Option String) (date : Option ℕ)
    (serves : Serves http bytes etag date) where
  get-Serves :
      (s : HttpSource) (first stop : ℕ)
      → s.etag ≡ etag
      → s.last_modified ≡ date
      → first < stop
      → first < length bytes
      → get http s first stop
        ≡ (ok (slice bytes first stop), record s { last_network = some (first, stop) })
  unfolding get check_response
  get-Serves s first stop he hd h k =
      rw
        (
          serves.answers first stop h k,
          he,
          hd,
          serves.validator,
          eq_option_refl etag,
          eq_date_refl date,
        )
        refl

  -- The outcome of a read that asked the server: new bytes in the buffer.
  refill-Reads :
      (s : HttpSource) (ret buffer : List ℕ) (origin stop n : ℕ) (used : Option Case)
      (network : Option (ℕ × ℕ))
      → IsFaithful bytes s
      → ret ≡ slice bytes s.offset n
      → buffer ≡ slice bytes origin stop
      → s.offset ≤ n
      → n ≤ length bytes
      → Reads bytes s n (
        ok ret,
        record s {
          last_case = used;
          last_network = network;
          buffer = buffer;
          buffer_offset = origin;
          offset = s.offset + length ret;
        },
      )
  refill-Reads s ret buffer origin stop n used network v er eb h k = record {
    returned = ap ok er;
    moved = omega (arith, ap length er, length-slice_of_le bytes s.offset n k);
    kept = record {
      is_open = v.is_open;
      same_length = v.same_length;
      reads_ahead = v.reads_ahead;
      buffered = slice_of_eq bytes origin stop eb;
    };
    same_etag = refl;
    same_date = refl;
  }

  pub read_buffer-Reads :
      (s : HttpSource) (stop : ℕ)
      → IsFaithful bytes s
      → s.buffer_offset ≤ s.offset
      → s.offset ≤ stop
      → stop ≤ s.buffer_offset + length s.buffer
      → stop ≤ length bytes
      → Reads bytes s stop (read_buffer s stop)
  unfolding read_buffer
  read_buffer-Reads s stop v h k l m = record {
    returned = ap ok ret;
    moved = omega (arith, ap length ret, length-slice_of_le bytes s.offset stop m);
    kept = record {
      is_open = v.is_open;
      same_length = v.same_length;
      reads_ahead = v.reads_ahead;
      buffered = v.buffered;
    };
    same_etag = refl;
    same_date = refl;
  }
    where
      ret :
          slice_to s.buffer s.buffer_offset (s.offset - s.buffer_offset) stop
          ≡ slice bytes s.offset stop
      ret =
          let e : leb s.buffer_offset stop ≡ true = ground arith in
          rw e (
            ap (λ n. take n (drop (s.offset - s.buffer_offset) s.buffer))
              (let e' : stop - s.buffer_offset - (s.offset - s.buffer_offset) ≡ stop - s.offset =
                  omega arith in
                e')
            ∙ ap (λ x. take (stop - s.offset) (drop (s.offset - s.buffer_offset) x)) v.buffered
            ∙ slice-slice bytes s.buffer_offset (s.buffer_offset + length s.buffer) s.offset stop h
                k l)

  module _ (s : HttpSource) (stop : ℕ) (v : IsFaithful bytes s) (he : s.etag ≡ etag)
      (hd : s.last_modified ≡ date) (inside : stop ≤ length bytes) where
    pub read_fresh-Reads :
        s.offset ≤ stop → s.offset < length bytes → Reads bytes s stop (read_fresh http s stop)
    unfolding read_fresh
    read_fresh-Reads h k =
        rw
          (get-Serves (record s { last_case = some Case.unrelated }) s.offset (stop + s.buffer_size)
            he hd (omega (arith, v.reads_ahead)) k)
          (refill-Reads s _ _ stop (stop + s.buffer_size) stop _ _ v
            (take_to-slice bytes s.offset (stop + s.buffer_size) stop h (omega arith))
            (drop_to-slice bytes s.offset (stop + s.buffer_size) stop h) h inside)

    pub read_end-Reads : s.offset < stop → Reads bytes s stop (read_end http s stop)
    unfolding read_end
    read_end-Reads h =
        rw
          (get-Serves (record s { last_case = some Case.at_end }) (s.offset - s.buffer_size) stop he
            hd (omega arith) (omega arith))
          (refill-Reads s _ _ (s.offset - s.buffer_size) stop stop _ _ v
            (drop_to-slice bytes (s.offset - s.buffer_size) stop s.offset (omega arith)) refl
            (omega arith) inside)

    -- The end of the buffer, and where a read with its tail in the buffer stops: a range that
    -- goes on behind the buffer is cut there.
    abbrev pub buffer_end : ℕ
    buffer_end = s.buffer_offset + length s.buffer

    pub read_tail-Reads :
        s.offset < s.buffer_offset
        → s.buffer_offset ≤ stop
        → Reads bytes s (min stop buffer_end) (read_tail http s stop)
    unfolding read_tail
    read_tail-Reads h k =
        rw
          (get-Serves (record s { last_case = some Case.tail_buffered }) (s.offset - s.buffer_size)
            s.buffer_offset he hd (omega arith) (omega arith))
          (refill-Reads s _ _ (s.offset - s.buffer_size) (min stop buffer_end) (min stop buffer_end)
            _ _ v
            (ap (drop (s.offset - (s.offset - s.buffer_size))) joined
              ∙ drop_to-slice bytes (s.offset - s.buffer_size) (min stop buffer_end) s.offset
                  (omega arith))
            joined (omega arith) (omega arith))
      where
        tail :
            take (stop - s.buffer_offset) s.buffer
            ≡ slice bytes s.buffer_offset (min stop buffer_end)
        tail = elim (Bool-cases (leb stop buffer_end)) [
          | inl e ↦
              ap (take (stop - s.buffer_offset)) v.buffered
              ∙ take_to-slice bytes s.buffer_offset buffer_end stop k (ground arith)
              ∙ ap (slice bytes s.buffer_offset)
                  (let p : stop ≡ min stop buffer_end = ground arith in p)
          | inr e ↦
              take-length (stop - s.buffer_offset) s.buffer (ground arith)
              ∙ v.buffered
              ∙ ap (slice bytes s.buffer_offset)
                  (let p : buffer_end ≡ min stop buffer_end = ground arith in p)
        ]

        joined :
            slice bytes (s.offset - s.buffer_size) s.buffer_offset
              ++ take (stop - s.buffer_offset) s.buffer
            ≡ slice bytes (s.offset - s.buffer_size) (min stop buffer_end)
        joined =
            ap (λ l. slice bytes (s.offset - s.buffer_size) s.buffer_offset ++ l) tail
            ∙ slice-append bytes (s.offset - s.buffer_size) s.buffer_offset (min stop buffer_end)
                (omega arith) (omega arith)

    pub read_head-Reads :
        s.buffer_offset ≤ s.offset
        → s.offset < buffer_end
        → buffer_end < stop
        → Reads bytes s stop (read_head http s stop)
    unfolding read_head
    read_head-Reads h k l =
        rw
          (get-Serves (record s { last_case = some Case.head_buffered }) (s.offset + length head)
            (s.offset + length head + (stop - s.offset - length head + s.buffer_size)) he hd
            (omega (arith, v.reads_ahead)) (omega (arith, length_head)))
          (refill-Reads s _ _ stop (stop + s.buffer_size) stop _ _ v
            (ap (λ y. y ++ take (stop - s.offset - length head) rest) head_slice ∙ joined.0)
            joined.1 (omega arith) inside)
      where
        head : List ℕ
        head = drop (s.offset - s.buffer_offset) s.buffer

        head_slice : head ≡ slice bytes s.offset buffer_end
        head_slice =
            ap (drop (s.offset - s.buffer_offset)) v.buffered
            ∙ drop_to-slice bytes s.buffer_offset buffer_end s.offset h

        length_head : length head ≡ buffer_end - s.offset
        length_head =
            ap length head_slice ∙ length-slice_of_le bytes s.offset buffer_end (omega arith)

        rest : List ℕ
        rest =
            slice bytes (s.offset + length head)
              (s.offset + length head + (stop - s.offset - length head + s.buffer_size))

        joined :
            (slice bytes s.offset buffer_end ++ take (stop - s.offset - length head) rest
              ≡ slice bytes s.offset stop)
            × (drop (stop - s.offset - length head) rest ≡ slice bytes stop (stop + s.buffer_size))
        joined =
            append-take-slice bytes s.offset buffer_end stop (stop + s.buffer_size)
              (s.offset + length head) (stop - s.offset - length head)
              (s.offset + length head + (stop - s.offset - length head + s.buffer_size))
              (omega (arith, length_head)) (omega (arith, length_head)) (omega (arith, length_head))
              (omega arith) (omega arith) (omega arith)

-- ===== src/Source.antt =====
-- vmnetx/source.py: `_HttpSource`, a file backed by HTTP range requests with one buffer, and
-- `SourceRange`, a part of a source that can be copied out. Here the state and the operations; what
-- reads return is in Source/Reads, copying in Source/Range.
--
-- The HTTP library and the server are the parameter `http`: the outcome of a GET of the resource
-- with a given Range header. One `read` makes at most one request, so the parameter is a function.
pub mod Reads
pub mod Contract
pub mod Behind
pub mod Range
use vmnetx.Prelude.{
  ℕ, ◌+◌, ◌-◌, Bool, true, false, not, ◌&&◌, ◌||◌, Option, none, some, List, [], ◌++◌, ltb, leb,
  ◌==◌, if◌then◌else◌, length, take, drop,
}
use vmnetx.Prelude.Int.{ℤ, pos, ◌+ℤ◌, pos_part}
use Prim.Native.String.{String}
use text.Mathlib.Text.{◌==◌ as str_eq, starts_with}

-- The messages of `SourceError`.
pub data SourceError : Type 0 where
  file_is_closed : SourceError
  server_ignored_range : SourceError
  resource_changed : SourceError
  request_failed : SourceError  -- a RequestException of the HTTP library, an error status included

pub data Result (A : Type 0) : Type 0 where
  ok : A → Result A
  err : SourceError → Result A

-- What the code reads of a response: the status, the ETag header, the Last-Modified header as
-- `_get_last_modified` returns it (a date is a number, none where there is no header or it does not
-- parse), and the body.
pub record Response : Type 0 where
  pub status_code : ℕ
  pub etag_header : Option String
  pub last_modified : Option ℕ
  pub content : List ℕ

-- A request that ends in an exception of the HTTP library has no response.
-- The range `bytes=first-last` is given by `first` and `last + 1`.
abbrev pub Http : Type 0
Http = ℕ → ℕ → Option Response

-- The letters B to F of the comments in `read`, in their order.
pub data Case : Type 0 where
  buffered head_buffered tail_buffered at_end unrelated : Case

pub record HttpSource : Type 0 where
  pub length : ℕ
  pub etag : Option String
  pub last_modified : Option ℕ
  pub offset : ℕ
  pub closed : Bool
  pub buffer : List ℕ
  pub buffer_offset : ℕ
  pub buffer_size : ℕ
  pub last_case : Option Case
  pub last_network : Option (ℕ × ℕ)

abbrev pub eq_option {ℓ} : {A : Type ℓ} → (A → A → Bool) → Option A → Option A → Bool
eq_option eq none none = true
eq_option eq (some x) (some y) = eq x y
eq_option eq _ _ = false

-- A weak ETag is ignored.
unfoldable pub get_etag : Option String → Option String
get_etag none = none
get_etag (some etag) = if starts_with etag "W/" then none else some etag

-- The checks of `_get` on a response; `raise_for_status` raises for the status codes
-- 400 to 599.
unfoldable pub check_response : HttpSource → Option Response → Result (List ℕ)
check_response s none = err request_failed
check_response s (some resp) =
    if leb 400 resp.status_code && ltb resp.status_code 600
    then err request_failed
    else if not (resp.status_code == 206)
    then err server_ignored_range
    else if not (eq_option str_eq (get_etag resp.etag_header) s.etag)
        || not (eq_option ◌==◌ resp.last_modified s.last_modified)
    then err resource_changed
    else ok resp.content

-- `_get(first, stop - first)`; it also records the range for debugging.
unfoldable pub get : Http → HttpSource → ℕ → ℕ → Result (List ℕ) × HttpSource
get http s first stop =
    (check_response s (http first stop), record s { last_network = some (first, stop) })

-- `buffer[start:stop - origin]`, where a negative end counts from the end of the buffer.
abbrev pub slice_to : List ℕ → ℕ → ℕ → ℕ → List ℕ
slice_to buffer origin start stop =
    if leb origin stop
    then take ((stop - origin) - start) (drop start buffer)
    else take ((length buffer - (origin - stop)) - start) (drop start buffer)

-- What remains of `read` once the response is there: the bytes to return and the new state, or
-- the exception of `_get`, which leaves offset and buffer as they were.
abbrev pub finish_read :
    Result (List ℕ) × HttpSource
    → (List ℕ → HttpSource → List ℕ × HttpSource)
    → Result (List ℕ) × HttpSource
finish_read (err x, s) k = (err x, s)
finish_read (ok content, s) k =
    let (ret, s') = k content s in (ok ret, record s' { offset = s'.offset + length ret })

-- Case B: from the buffer alone.
unfoldable pub read_buffer : HttpSource → ℕ → Result (List ℕ) × HttpSource
read_buffer s stop =
    let ret = slice_to s.buffer s.buffer_offset (s.offset - s.buffer_offset) stop in
    (ok ret, record s { last_case = some buffered; offset = s.offset + length ret })

-- Case C: the head from the buffer, the rest and `_buffer_size` bytes more from the server.
unfoldable pub read_head : Http → HttpSource → ℕ → Result (List ℕ) × HttpSource
read_head http s stop =
    let head = drop (s.offset - s.buffer_offset) s.buffer in
    let remaining = (stop - s.offset) - length head in
    finish_read
      (get http (record s { last_case = some head_buffered }) (s.offset + length head)
        (s.offset + length head + (remaining + s.buffer_size)))
      (λ content s'. (
        head ++ take remaining content,
        record s' { buffer = drop remaining content; buffer_offset = stop },
      ))

-- Case D: the tail from the buffer, what precedes it from the server.
unfoldable pub read_tail : Http → HttpSource → ℕ → Result (List ℕ) × HttpSource
read_tail http s stop =
    let tail = take (stop - s.buffer_offset) s.buffer in
    let start = s.offset - s.buffer_size in
    finish_read (get http (record s { last_case = some tail_buffered }) start s.buffer_offset)
      (λ content s'. (
        drop (s.offset - start) (content ++ tail),
        record s' { buffer = content ++ tail; buffer_offset = start },
      ))

-- Case E: at the end of the file, with `_buffer_size` bytes before.
unfoldable pub read_end : Http → HttpSource → ℕ → Result (List ℕ) × HttpSource
read_end http s stop =
    let start = s.offset - s.buffer_size in
    finish_read (get http (record s { last_case = some at_end }) start stop) (λ content s'.
      (drop (s.offset - start) content, record s' { buffer = content; buffer_offset = start }))

-- Case F: unrelated to the buffer, with `_buffer_size` bytes after.
unfoldable pub read_fresh : Http → HttpSource → ℕ → Result (List ℕ) × HttpSource
read_fresh http s stop =
    finish_read (get http (record s { last_case = some unrelated }) s.offset (stop + s.buffer_size))
      (λ content s'. (
        take (stop - s.offset) content,
        record s' { buffer = drop (stop - s.offset) content; buffer_offset = stop },
      ))

-- The position after the last byte wanted: `_offset + size`, which is `length` with no size.
abbrev pub read_stop : HttpSource → Option ℕ → ℕ
read_stop s none = s.length
read_stop s (some size) = s.offset + size

-- The chain of tests of `read`, on the end of the wanted range.
unfoldable pub read_case : Http → HttpSource → ℕ → Result (List ℕ) × HttpSource
read_case http s stop =
    let buf_start = s.buffer_offset in
    let buf_end = s.buffer_offset + length s.buffer in
    if leb buf_start s.offset && leb stop buf_end
    then read_buffer s stop
    else if leb buf_start s.offset && ltb s.offset buf_end
    then read_head http s stop
    else if ltb s.offset buf_start && leb buf_start stop
    then read_tail http s stop
    else if leb s.length stop
    then read_end http s stop
    else read_fresh http s stop

-- `read(size)`; `none` is the default, up to the end of the file.
unfoldable pub read : Http → HttpSource → Option ℕ → Result (List ℕ) × HttpSource
read http s size = if s.closed then (err file_is_closed, s) else read_case http s (read_stop s size)

-- `seek(offset, whence)` for the values of `whence`; any other leaves the offset as it is.
pub data Whence : Type 0 where
  set cur end other : Whence

abbrev pub seek_target : HttpSource → ℤ → Whence → ℤ
seek_target s offset set = offset
seek_target s offset cur = pos s.offset +ℤ offset
seek_target s offset end = pos s.length +ℤ offset
seek_target s offset other = pos s.offset

unfoldable pub seek : HttpSource → ℤ → Whence → Result (Unit {0}) × HttpSource
seek s offset whence =
    if s.closed
    then (err file_is_closed, s)
    else (ok tt, record s { offset = pos_part (seek_target s offset whence) })

unfoldable pub tell : HttpSource → Result ℕ × HttpSource
tell s = if s.closed then (err file_is_closed, s) else (ok s.offset, s)

unfoldable pub close : HttpSource → HttpSource
close s = record s { closed = true; buffer = [] }

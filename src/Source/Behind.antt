-- ===== src/Source/Behind.antt =====
-- Where the buffer of `_HttpSource` of vmnetx/source.py is after a read.
use vmnetx.Prelude.{
  ℕ, ◌+◌, ◌≤◌, ◌≡◌, refl, Bool, true, false, ◌&&◌, leb, ltb, Option, List, arith, length,
  if◌then◌else◌,
}
use vmnetx.Source.{
  Result, ok, err, Http, HttpSource, read, read_case, read_stop, finish_read, get, read_buffer,
  read_head, read_tail, read_end, read_fresh,
}

-- A read that raised nothing has its buffer begin no later than `stop`.
abbrev Behind : ℕ → Result (List ℕ) × HttpSource → Type 0
Behind stop r = (x : List ℕ) → r.0 ≡ ok x → r.1.buffer_offset ≤ stop

finish-Behind :
    (stop : ℕ) (r : Result (List ℕ)) (s : HttpSource)
    (k : List ℕ → HttpSource → List ℕ × HttpSource)
    → ((c : List ℕ) → (k c s).1.buffer_offset ≤ stop)
    → Behind stop (finish_read (r, s) k)
finish-Behind stop (ok c) s k h = λ x e. h c
finish-Behind stop (err y) s k h = λ x e. absurd (ground arith)

if_Behind :
    (stop : ℕ) (b : Bool) (r t : Result (List ℕ) × HttpSource)
    → (b ≡ true → Behind stop r)
    → (b ≡ false → Behind stop t)
    → Behind stop (if b then r else t)
if_Behind stop true r t f g = f refl
if_Behind stop false r t f g = g refl

read_case-Behind :
    (http : Http) (s : HttpSource) (stop : ℕ)
    → s.offset ≤ stop
    → Behind stop (read_case http s stop)
unfolding read_case read_buffer read_head read_tail read_end read_fresh get
read_case-Behind http s stop h =
    if_Behind stop (leb s.buffer_offset s.offset && leb stop (s.buffer_offset + length s.buffer)) _
      _ (λ e x y. ground arith)
      (λ e1.
        if_Behind stop
          (leb s.buffer_offset s.offset && ltb s.offset (s.buffer_offset + length s.buffer)) _ _
          (λ e. finish-Behind stop _ _ _ (λ c. omega arith))
          (λ e2.
            if_Behind stop (ltb s.offset s.buffer_offset && leb s.buffer_offset stop) _ _
              (λ e. finish-Behind stop _ _ _ (λ c. omega arith))
              (λ e3.
                if_Behind stop (leb s.length stop) _ _
                  (λ e. finish-Behind stop _ _ _ (λ c. omega arith))
                  (λ e4. finish-Behind stop _ _ _ (λ c. omega arith)))))

-- After a read that raised nothing, the buffer begins no later than the wanted range ends.
pub read-Behind :
    (http : Http) (s : HttpSource) (size : Option ℕ) (x : List ℕ)
    → s.closed ≡ false
    → s.offset ≤ read_stop s size
    → (read http s size).0 ≡ ok x
    → (read http s size).1.buffer_offset ≤ read_stop s size
unfolding read
read-Behind http s size x o h =
    if_Behind (read_stop s size) s.closed _ _ (λ e. absurd (ground arith))
      (λ e. read_case-Behind http s (read_stop s size) h) x

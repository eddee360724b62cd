-- ===== src/Monitor/Lines.antt =====
-- The lines of vmnetx/controller/local/monitor.py do not depend on how the stream is cut.
use vmnetx.Prelude.{
  ℕ, ◌≡◌, refl, sym, ap, ◌∙◌, Bool, true, false, List, [], ◌∷◌, ◌++◌, append-nil, append_assoc,
  ◌==◌, if◌then◌else◌,
}
use vmnetx.Monitor
use vmnetx.Monitor.{StreamMonitor, attach, split, read, read_all, received}

abbrev pub concat : List (List ℕ) → List ℕ
concat [] = []
concat (c ∷ cs) = c ++ concat cs

-- Lines, and what follows the last of them.
abbrev join : List (List ℕ) × List ℕ → List ℕ → List (List ℕ) × List ℕ
join p ys = let q = split (p.1 ++ ys) in (p.0 ++ q.0, q.1)

attach-join :
    (c : ℕ) (p : List (List ℕ) × List ℕ) (ys : List ℕ)
    → (c == 10) ≡ false
    → attach c (join p ys) ≡ join (attach c p) ys
unfolding split
attach-join c ([], partial) ys h = rw h refl
attach-join c (line ∷ lines, partial) ys h = refl

split-append : (xs ys : List ℕ) → split (xs ++ ys) ≡ join (split xs) ys
unfolding split
split-append [] ys = refl
split-append (c ∷ cs) ys = go (split-append cs ys) (c == 10) refl
  where
    go :
        split (cs ++ ys) ≡ join (split cs) ys
        → (b : Bool) → (c == 10) ≡ b
        → (if b
            then ([] ∷ (split (cs ++ ys)).0, (split (cs ++ ys)).1)
            else attach c (split (cs ++ ys)))
          ≡ join (if b then ([] ∷ (split cs).0, (split cs).1) else attach c (split cs)) ys
    go e true h = λ i. ([] ∷ (e i).0, (e i).1)
    go e false h = ap (attach c) e ∙ attach-join c (split cs) ys h

read-received :
    (s : StreamMonitor) (chunk : List ℕ) (c : ℕ)
    → read s (received (c ∷ chunk)) ≡ record s {
      buf = (split (s.buf ++ c ∷ chunk)).1;
      lines = s.lines ++ (split (s.buf ++ c ∷ chunk)).0;
    }
unfolding read
read-received s chunk c = refl

-- No piece is empty, since that is the end of the stream.
abbrev pub NoneEmpty : List (List ℕ) → Type 0
NoneEmpty [] = Unit
NoneEmpty ([] ∷ chunks) = ⊥
NoneEmpty ((c ∷ cs) ∷ chunks) = NoneEmpty chunks

read_all_from :
    (s : StreamMonitor) (chunks : List (List ℕ)) (before : List ℕ)
    → NoneEmpty chunks
    → (s.lines, s.buf) ≡ split before
    → ((read_all s chunks).lines, (read_all s chunks).buf) ≡ split (before ++ concat chunks)
unfolding read_all
read_all_from s [] before n e = e ∙ ap split (sym (append-nil before))
read_all_from s ([] ∷ chunks) before n e = absurd n
read_all_from s ((c ∷ cs) ∷ chunks) before n e =
    read_all_from (read s (received (c ∷ cs))) chunks (before ++ c ∷ cs) n (
      ap (λ t. (t.lines, t.buf)) (read-received s cs c)
      ∙ ap (λ p. join p (c ∷ cs)) e
      ∙ sym (split-append before (c ∷ cs)))
    ∙ ap split (append_assoc before (c ∷ cs) (concat chunks))

-- However a stream is cut into pieces, none of them empty: the lines that are handled are the lines of
-- the whole stream, in order, and what is kept is what follows its last newline.
pub read_all-split :
    (chunks : List (List ℕ))
    → NoneEmpty chunks
    → ((read_all Monitor.new chunks).lines, (read_all Monitor.new chunks).buf)
      ≡ split (concat chunks)
unfolding Monitor.new split
read_all-split chunks n = read_all_from Monitor.new chunks [] n refl

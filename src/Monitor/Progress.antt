-- ===== src/Monitor/Progress.antt =====
-- The progress of vmnetx/controller/local/monitor.py counts every chunk once.
use vmnetx.Prelude.{
  ℕ, zero, suc, ◌+◌, ◌-◌, ◌*◌, ◌≤◌, ◌≡◌, refl, sym, ap, ◌∙◌, ◌⊎◌, inl, inr, List, [], ◌∷◌, ◌++◌,
  length, length-append, arith,
}
use vmnetx.Util.Ranges.{
  count_up, expand, expand_all, consolidate, IsMaximal, expand_all-consolidate,
  consolidate-IsMaximal,
}
use vmnetx.Monitor.{LoadProgressMonitor, on_range, on_ranges, handle_lines}

length-count_up : (first n : ℕ) → length (count_up first n) ≡ n
length-count_up first zero = refl
length-count_up first (suc n) = ap suc (length-count_up (suc first) n)

abbrev AllInOrder : List (ℕ × ℕ) → Type 0
AllInOrder [] = Unit
AllInOrder (p ∷ ps) = (p.0 ≤ p.1) × AllInOrder ps

IsMaximal-AllInOrder : (ps : List (ℕ × ℕ)) → IsMaximal ps → AllInOrder ps
IsMaximal-AllInOrder [] h = tt
IsMaximal-AllInOrder (p ∷ []) h = (h, tt)
IsMaximal-AllInOrder (p ∷ q ∷ ps) h = (h.0, IsMaximal-AllInOrder (q ∷ ps) h.2)

on_ranges-seen :
    (ps : List (ℕ × ℕ)) (s : LoadProgressMonitor)
    → AllInOrder ps
    → (on_ranges s ps).seen ≡ s.seen + length (expand_all ps)
unfolding on_ranges on_range
on_ranges-seen [] s h = omega arith
on_ranges-seen ((first, last) ∷ ps) s h =
    on_ranges-seen ps (on_range s (first, last)) h.1
    ∙ omega (
      arith,
      h.0,
      length-append (expand (first, last)) (expand_all ps),
      length-count_up first (suc last - first),
    )

on_ranges-fixed :
    (ps : List (ℕ × ℕ)) (s : LoadProgressMonitor)
    → ((on_ranges s ps).chunks ≡ s.chunks) × ((on_ranges s ps).chunk_size ≡ s.chunk_size)
unfolding on_ranges on_range
on_ranges-fixed [] s = (refl, refl)
on_ranges-fixed (p ∷ ps) s = on_ranges-fixed ps (on_range s p)

-- What was signalled last is what has been seen.
abbrev pub IsReported : LoadProgressMonitor → Type 0
IsReported s =
    (before : List (ℕ × ℕ)) × (s.progress
      ≡ before ++ (s.seen * s.chunk_size, s.chunks * s.chunk_size) ∷ [])

on_ranges-IsReported :
    (ps : List (ℕ × ℕ)) (s : LoadProgressMonitor) → (ps ≡ []) ⊎ IsReported (on_ranges s ps)
unfolding on_ranges on_range
on_ranges-IsReported [] s = inl refl
on_ranges-IsReported (p ∷ []) s = inr (s.progress, refl)
on_ranges-IsReported (p ∷ q ∷ ps) s = elim (on_ranges-IsReported (q ∷ ps) (on_range s p)) [
  | inl e ↦ absurd (ground arith)
  | inr r ↦ inr r
]

-- After the numbers of some lines: what has been seen has grown by one for each of them, and if there
-- was any, the last progress that was signalled is that many chunks of all, both times the chunk
-- size.
pub handle_lines-seen :
    (s : LoadProgressMonitor) (values : List ℕ)
    → ((handle_lines s values).seen ≡ s.seen + length values)
      × ((values ≡ [])
          ⊎ ((before : List (ℕ × ℕ)) × ((handle_lines s values).progress
                ≡ before
                  ++ ((s.seen + length values) * s.chunk_size, s.chunks * s.chunk_size) ∷ [])))
unfolding handle_lines
handle_lines-seen s values =
    let ps = consolidate values in
    let e : (on_ranges s ps).seen ≡ s.seen + length values =
      on_ranges-seen ps s (IsMaximal-AllInOrder ps (consolidate-IsMaximal values))
      ∙ ap (λ l. s.seen + length l) (expand_all-consolidate values) in
    let f = on_ranges-fixed ps s in
    (
      e,
      elim (on_ranges-IsReported ps s) [
        | inl n ↦ inl (sym (expand_all-consolidate values) ∙ ap expand_all n)
        | inr (before, r) ↦ inr (before, r ∙ λ i. before ++ (e i * f.1 i, f.0 i * f.1 i) ∷ [])
      ],
    )

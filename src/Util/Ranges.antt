-- ===== src/Util/Ranges.antt =====
-- `RangeConsolidator` of vmnetx/util.py, which turns a sequence of chunk numbers into callbacks for
-- runs of consecutive ones.
use vmnetx.Prelude.{
  ℕ, zero, suc, ◌+◌, ◌-◌, ◌≤◌, ◌≡◌, ◌≢◌, refl, sym, ap, ◌∙◌, Bool, false, Option, none, some, List,
  [], ◌∷◌, ◌++◌, append-nil, append_assoc, Bool-cases, inl, inr, arith, ◌==◌, if◌then◌else◌,
}

-- `_first` and `_last`, which are both None or both set, and the callbacks made so far, oldest
-- first. A callback is the pair of its arguments.
pub record RangeConsolidator : Type 0 where
  pub pending : Option (ℕ × ℕ)
  pub calls : List (ℕ × ℕ)

unfoldable pub new : RangeConsolidator
new = record { pending = none; calls = [] }

-- `self._last == value - 1`, which fails at None and at value 0.
abbrev pub follows : Option (ℕ × ℕ) → ℕ → Bool
follows none value = false
follows (some (first, last)) value = last + 1 == value

-- `if self._first is not None: self._callback(self._first, self._last)`
abbrev pub flush : Option (ℕ × ℕ) → List (ℕ × ℕ) → List (ℕ × ℕ)
flush none calls = calls
flush (some p) calls = calls ++ p ∷ []

abbrev pub extend : Option (ℕ × ℕ) → ℕ → Option (ℕ × ℕ)
extend none value = none
extend (some (first, last)) value = some (first, value)

unfoldable pub emit : RangeConsolidator → ℕ → RangeConsolidator
emit c value =
    if follows c.pending value
    then record c { pending = extend c.pending value }
    else record { pending = some (value, value); calls = flush c.pending c.calls }

-- `__exit__`; the object is not used afterwards.
unfoldable pub exit : RangeConsolidator → List (ℕ × ℕ)
exit c = flush c.pending c.calls

unfoldable pub emit_all : RangeConsolidator → List ℕ → RangeConsolidator
emit_all c [] = c
emit_all c (value ∷ values) = emit_all (emit c value) values

-- The callbacks of a whole `with RangeConsolidator(...)` block that emits these values.
unfoldable pub consolidate : List ℕ → List (ℕ × ℕ)
unfolding new exit emit_all
consolidate values = exit (emit_all new values)

-- The numbers that callbacks stand for.
abbrev pub count_up : ℕ → ℕ → List ℕ
count_up first zero = []
count_up first (suc n) = first ∷ count_up (suc first) n

abbrev pub expand : ℕ × ℕ → List ℕ
expand (first, last) = count_up first (suc last - first)

abbrev pub expand_all : List (ℕ × ℕ) → List ℕ
expand_all [] = []
expand_all (p ∷ ps) = expand p ++ expand_all ps

-- Each run is in order, and no run could have been joined to the one after it.
abbrev pub IsMaximal : List (ℕ × ℕ) → Type 0
IsMaximal [] = Unit
IsMaximal (p ∷ []) = p.0 ≤ p.1
IsMaximal (p ∷ q ∷ ps) = (p.0 ≤ p.1) × (suc p.1 ≢ q.0) × IsMaximal (q ∷ ps)

expand_all-append : (ps qs : List (ℕ × ℕ)) → expand_all (ps ++ qs) ≡ expand_all ps ++ expand_all qs
expand_all-append [] qs = refl
expand_all-append (p ∷ ps) qs =
    ap (λ l. expand p ++ l) (expand_all-append ps qs)
    ∙ sym (append_assoc (expand p) (expand_all ps) (expand_all qs))

count_up_snoc : (first n : ℕ) → count_up first (suc n) ≡ count_up first n ++ (first + n) ∷ []
count_up_snoc first zero = ap (λ k. k ∷ []) (omega arith)
count_up_snoc first (suc n) =
    ap (λ l. first ∷ l)
      (count_up_snoc (suc first) n
        ∙ ap (λ k. count_up (suc first) n ++ k ∷ [])
            (let e : suc first + n ≡ first + suc n = omega arith in e))

abbrev InOrder : Option (ℕ × ℕ) → Type 0
InOrder none = Unit
InOrder (some p) = p.0 ≤ p.1

emit-InOrder : (c : RangeConsolidator) (v : ℕ) → InOrder c.pending → InOrder (emit c v).pending
unfolding emit
emit-InOrder c v h = ground arith

expand-extend :
    (first last v : ℕ)
    → first ≤ last
    → suc last ≡ v
    → expand (first, v) ≡ expand (first, last) ++ v ∷ []
expand-extend first last v h e =
    ap (count_up first) (let e' : suc v - first ≡ suc (suc last - first) = omega arith in e')
    ∙ count_up_snoc first (suc last - first)
    ∙ ap (λ k. expand (first, last) ++ k ∷ [])
        (let e' : first + (suc last - first) ≡ v = omega arith in e')

expand_self : (v : ℕ) → expand (v, v) ≡ v ∷ []
expand_self v = ap (count_up v) (let e : suc v - v ≡ 1 = omega arith in e)

expand_all_snoc :
    (ps : List (ℕ × ℕ)) (p : ℕ × ℕ) → expand_all (ps ++ p ∷ []) ≡ expand_all ps ++ expand p
expand_all_snoc ps p =
    expand_all-append ps (p ∷ []) ∙ ap (λ l. expand_all ps ++ l) (append-nil (expand p))

-- What the finished callbacks would cover if the block ended now.
abbrev covered : RangeConsolidator → List ℕ
covered c = expand_all (flush c.pending c.calls)

covered-new_range :
    (o : Option (ℕ × ℕ)) (calls : List (ℕ × ℕ)) (v : ℕ)
    → expand_all (flush o calls ++ (v, v) ∷ []) ≡ expand_all (flush o calls) ++ v ∷ []
covered-new_range o calls v =
    expand_all_snoc (flush o calls) (v, v)
    ∙ ap (λ l. expand_all (flush o calls) ++ l) (expand_self v)

covered-extend :
    (calls : List (ℕ × ℕ)) (first last v : ℕ)
    → first ≤ last
    → suc last ≡ v
    → expand_all (calls ++ (first, v) ∷ []) ≡ expand_all (calls ++ (first, last) ∷ []) ++ v ∷ []
covered-extend calls first last v h e =
    expand_all_snoc calls (first, v)
    ∙ ap (λ l. expand_all calls ++ l) (expand-extend first last v h e)
    ∙ sym (append_assoc (expand_all calls) (expand (first, last)) (v ∷ []))
    ∙ ap (λ l. l ++ v ∷ []) (sym (expand_all_snoc calls (first, last)))

covered-emit :
    (o : Option (ℕ × ℕ)) (calls : List (ℕ × ℕ)) (v : ℕ)
    → InOrder o
    → covered (emit (record { pending = o; calls = calls }) v)
      ≡ expand_all (flush o calls) ++ v ∷ []
unfolding emit
covered-emit none calls v h = covered-new_range none calls v
covered-emit (some (f, l)) calls v h = elim (Bool-cases (l + 1 == v)) [
  | inl e ↦ rw e (covered-extend calls f l v h (ground arith))
  | inr e ↦ rw e (covered-new_range (some (f, l)) calls v)
]

covered-emit_all :
    (c : RangeConsolidator) (values : List ℕ)
    → InOrder c.pending
    → covered (emit_all c values) ≡ covered c ++ values
unfolding emit_all
covered-emit_all c [] h = sym (append-nil (covered c))
covered-emit_all c (v ∷ values) h =
    covered-emit_all (emit c v) values (emit-InOrder c v h)
    ∙ ap (λ l. l ++ values) (covered-emit c.pending c.calls v h)
    ∙ append_assoc (covered c) (v ∷ []) values

-- The callbacks, spelled out, are exactly the emitted numbers in the order of emission.
pub expand_all-consolidate : (values : List ℕ) → expand_all (consolidate values) ≡ values
unfolding consolidate
expand_all-consolidate values = covered-emit_all new values tt

IsMaximal-extend :
    (ps : List (ℕ × ℕ)) (f l v : ℕ)
    → l ≤ v
    → IsMaximal (ps ++ (f, l) ∷ [])
    → IsMaximal (ps ++ (f, v) ∷ [])
IsMaximal-extend [] f l v h m = omega arith
IsMaximal-extend (p ∷ []) f l v h m = (m.0, m.1, omega (arith, m.2))
IsMaximal-extend (p ∷ q ∷ ps) f l v h m = (m.0, m.1, IsMaximal-extend (q ∷ ps) f l v h m.2)

IsMaximal-snoc :
    (ps : List (ℕ × ℕ)) (p : ℕ × ℕ) (v : ℕ)
    → suc p.1 ≢ v
    → IsMaximal (ps ++ p ∷ [])
    → IsMaximal ((ps ++ p ∷ []) ++ (v, v) ∷ [])
IsMaximal-snoc [] p v h m = (m, h, omega arith)
IsMaximal-snoc (q ∷ []) p v h m = (m.0, m.1, (m.2, h, omega arith))
IsMaximal-snoc (q ∷ r ∷ ps) p v h m = (m.0, m.1, IsMaximal-snoc (r ∷ ps) p v h m.2)

-- Between emissions: the runs so far are maximal, and nothing was called before the first emission.
abbrev Tidy : Option (ℕ × ℕ) → List (ℕ × ℕ) → Type 0
Tidy none calls = calls ≡ []
Tidy (some p) calls = (p.0 ≤ p.1) × IsMaximal (calls ++ p ∷ [])

emit-Tidy :
    (o : Option (ℕ × ℕ)) (calls : List (ℕ × ℕ)) (v : ℕ)
    → Tidy o calls
    → let c = emit (record { pending = o; calls = calls }) v in Tidy c.pending c.calls
unfolding emit
emit-Tidy none calls v h = (omega arith, rw h (let e : v ≤ v = omega arith in e))
emit-Tidy (some (f, l)) calls v h = elim (Bool-cases (l + 1 == v)) [
  | inl e ↦ rw e (ground arith, IsMaximal-extend calls f l v (ground arith) h.1)
  | inr e ↦ rw e (omega arith, IsMaximal-snoc calls (f, l) v (ground arith) h.1)
]

emit_all-Tidy :
    (c : RangeConsolidator) (values : List ℕ)
    → Tidy c.pending c.calls
    → Tidy (emit_all c values).pending (emit_all c values).calls
unfolding emit_all
emit_all-Tidy c [] h = h
emit_all-Tidy c (v ∷ values) h = emit_all-Tidy (emit c v) values (emit-Tidy c.pending c.calls v h)

Tidy-IsMaximal :
    (o : Option (ℕ × ℕ)) (calls : List (ℕ × ℕ)) → Tidy o calls → IsMaximal (flush o calls)
Tidy-IsMaximal none calls h = rw h tt
Tidy-IsMaximal (some p) calls h = h.1

-- Every callback's range is in order, and no two callbacks in a row could have been one.
pub consolidate-IsMaximal : (values : List ℕ) → IsMaximal (consolidate values)
unfolding consolidate
consolidate-IsMaximal values =
    let c = emit_all new values in Tidy-IsMaximal c.pending c.calls (emit_all-Tidy new values refl)

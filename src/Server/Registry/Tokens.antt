-- ===== src/Server/Registry/Tokens.antt =====
-- The tokens that `_fetch_controller` of vmnetx/server/__init__.py accepts.
use vmnetx.Prelude.{
  ℕ, ◌≡◌, ◌≢◌, refl, sym, ap, ◌∙◌, subst, ◌↔◌, ◌⊎◌, inl, inr, Bool, true, false, Option, none, some,
  List, [], ◌∷◌, ◌++◌, ◌==◌, arith, if◌then◌else◌, Option-cases,
}
use vmnetx.Server.Registry.{
  Entry, Server, slash, token_of, prepend, split_token, same, find, check_code, lookup_in, lookup,
  log, fetch_controller, fail_controller, fetched,
}

abbrev pub Has : Entry → List Entry → Type 0
Has e [] = ⊥
Has e (x ∷ xs) = (e ≡ x) ⊎ Has e xs

same-eq : (xs ys : List ℕ) → same xs ys ≡ true → xs ≡ ys
unfolding same
same-eq [] [] h = refl
same-eq [] (b ∷ ys) h = absurd (ground arith)
same-eq (a ∷ xs) [] h = absurd (ground arith)
same-eq (a ∷ xs) (b ∷ ys) h =
    let p : (a ≡ b) × (same xs ys ≡ true) = ground arith in λ i. p.0 i ∷ same-eq xs ys p.1 i

pub same-sym : (xs ys : List ℕ) → same xs ys ≡ false → same ys xs ≡ false
unfolding same
same-sym [] [] h = h
same-sym [] (y ∷ ys) h = refl
same-sym (x ∷ xs) [] h = refl
same-sym (x ∷ xs) (y ∷ ys) h = ground (arith, same-sym xs ys)

same_refl : (xs : List ℕ) → same xs xs ≡ true
unfolding same
same_refl [] = refl
same_refl (a ∷ xs) = ground (arith, same_refl xs)

-- An identifier in base 32 has no slash.
abbrev pub NoSlash : List ℕ → Type 0
NoSlash [] = Unit
NoSlash (c ∷ cs) = ((c == slash) ≡ false) × NoSlash cs

split_token-append :
    (id code : List ℕ) → NoSlash id → split_token (id ++ slash ∷ code) ≡ some (id, code)
unfolding split_token
split_token-append [] code h = refl
split_token-append (c ∷ cs) code h = rw h.0 (ap (prepend c) (split_token-append cs code h.1))

-- What `prepend` makes comes from something.
prepend-some :
    (c : ℕ) (o : Option (List ℕ × List ℕ)) (id code : List ℕ)
    → prepend c o ≡ some (id, code)
    → (rest : List ℕ) × (o ≡ some (rest, code)) × (id ≡ c ∷ rest)
prepend-some c none id code h = absurd (ground arith)
prepend-some c (some (rest, k)) id code h =
    let p : (c ∷ rest ≡ id) × (k ≡ code) = ground arith in
    (rest, (λ i. some (rest, p.1 i)), sym p.0)

split_token-eq :
    (token : List ℕ) (id code : List ℕ)
    → split_token token ≡ some (id, code)
    → token ≡ id ++ slash ∷ code
unfolding split_token
split_token-eq [] id code h = absurd (ground arith)
split_token-eq (c ∷ cs) id code h = go (split_token-eq cs) (c == slash) refl h
  where
    go :
        ((rest code' : List ℕ) → split_token cs ≡ some (rest, code') → cs ≡ rest ++ slash ∷ code')
        → (b : Bool) → (c == slash) ≡ b
        → (if b then some ([], cs) else prepend c (split_token cs)) ≡ some (id, code)
        → c ∷ cs ≡ id ++ slash ∷ code
    go below true e k =
        let p : (c ≡ slash) × ([] ≡ id) × (cs ≡ code) = ground arith in
        (λ i. p.0 i ∷ p.2 i) ∙ ap (λ l. l ++ slash ∷ code) p.1
    go below false e k =
        let p = prepend-some c (split_token cs) id code k in
        ap (λ l. c ∷ l) (below p.0 code p.1) ∙ ap (λ l. l ++ slash ∷ code) (sym p.2)

find-Has :
    (id : List ℕ) (es : List Entry) (e : Entry) → find id es ≡ some e → Has e es × (e.id ≡ id)
unfolding find
find-Has id [] e h = absurd (ground arith)
find-Has id (d ∷ ds) e h = go (find-Has id ds e) (same d.id id) refl h
  where
    go :
        (find id ds ≡ some e → Has e ds × (e.id ≡ id))
        → (b : Bool) → same d.id id ≡ b
        → (if b then some d else find id ds) ≡ some e
        → Has e (d ∷ ds) × (e.id ≡ id)
    go below true k l =
        let p : d ≡ e = ground arith in (inl (sym p), ap (λ x. x.id) (sym p) ∙ same-eq d.id id k)
    go below false k l = let p = below l in (inr p.0, p.1)

check_code-some :
    (code : List ℕ) (o : Option Entry) (e : Entry)
    → check_code code o ≡ some e
    → (o ≡ some e) × (e.authcode ≡ code)
check_code-some code none e h = absurd (ground arith)
check_code-some code (some d) e h = go (same d.authcode code) refl h
  where
    go :
        (b : Bool)
        → same d.authcode code ≡ b
        → (if b then some d else none) ≡ some e
        → (some d ≡ some e) × (e.authcode ≡ code)
    go true k l =
        let p : d ≡ e = ground arith in
        (l, ap (λ x. x.authcode) (sym p) ∙ same-eq d.authcode code k)
    go false k l = absurd (ground arith)

lookup-Has :
    (token : List ℕ) (es : List Entry) (e : Entry)
    → lookup token es ≡ some e
    → Has e es × (token ≡ token_of e)
unfolding lookup
lookup-Has token es e h = go (split_token token) refl h
  where
    go :
        (o : Option (List ℕ × List ℕ))
        → split_token token ≡ o
        → lookup_in es o ≡ some e
        → Has e es × (token ≡ token_of e)
    go none k l = absurd (ground arith)
    go (some (id, code)) k l =
        let p = check_code-some code (find id es) e l in
        let q = find-Has id es e p.0 in
        (q.0, split_token-eq token id code k ∙ λ i. (sym q.1) i ++ slash ∷ (sym p.1) i)

-- The identifiers of a dictionary are distinct, and have no slash.
abbrev pub Differs : List ℕ → List Entry → Type 0
Differs id [] = Unit
Differs id (e ∷ es) = (same e.id id ≡ false) × Differs id es

abbrev pub IsRegistry : List Entry → Type 0
IsRegistry [] = Unit
IsRegistry (e ∷ es) = NoSlash e.id × Differs e.id es × IsRegistry es

Has-Differs :
    (id : List ℕ) (es : List Entry) (e : Entry) → Differs id es → Has e es → same e.id id ≡ false
Has-Differs id [] e d h = elim h [ ]
Has-Differs id (x ∷ xs) e d (inl p) = ap (λ y. same y.id id) p ∙ d.0
Has-Differs id (x ∷ xs) e d (inr h) = Has-Differs id xs e d.1 h

Has-NoSlash : (es : List Entry) (e : Entry) → IsRegistry es → Has e es → NoSlash e.id
Has-NoSlash [] e v h = elim h [ ]
Has-NoSlash (x ∷ xs) e v (inl p) = subst (λ y. NoSlash y.id) (sym p) v.0
Has-NoSlash (x ∷ xs) e v (inr h) = Has-NoSlash xs e v.2 h

find-some : (es : List Entry) (e : Entry) → IsRegistry es → Has e es → find e.id es ≡ some e
unfolding find
find-some [] e v h = elim h [ ]
find-some (x ∷ xs) e v (inl p) =
    ap (λ y. find y.id (x ∷ xs)) p ∙ rw (same_refl x.id) (ap some (sym p))
find-some (x ∷ xs) e v (inr h) =
    let k : same x.id e.id ≡ false = same-sym e.id x.id (Has-Differs x.id xs e v.1 h) in
    rw k (find-some xs e v.2 h)

-- In a registry, `_fetch_controller` finds an instance exactly for that instance's own token.
pub lookup_iff :
    (token : List ℕ) (es : List Entry) (e : Entry)
    → IsRegistry es
    → (lookup token es ≡ some e) ↔ (Has e es × (token ≡ token_of e))
unfolding lookup
lookup_iff token es e v = (
  lookup-Has token es e,
  λ h.
      ap (λ t. lookup_in es (split_token t)) h.1
      ∙ ap (lookup_in es) (split_token-append e.id e.authcode (Has-NoSlash es e v h.0))
      ∙ ap (check_code e.authcode) (find-some es e v h.0)
      ∙ rw (same_refl e.authcode) refl,
)

-- A connection whose token is the token of no instance is told that it failed, and nothing else
-- happens.
pub fetch_controller_refused :
    (conn : ℕ) (token : List ℕ) (now : ℕ) (s : Server)
    → ((e : Entry) → Has e s.instances → token ≢ token_of e)
    → fetch_controller conn token now s ≡ log (fail_controller conn) s
unfolding fetch_controller
fetch_controller_refused conn token now s h = elim (Option-cases (lookup token s.instances)) [
  | inl k ↦ ap (λ o. fetched conn now o s) k
  | inr (e, k) ↦ let p = lookup-Has token s.instances e k in absurd (h e p.0 p.1)
]

-- ===== src/Server/Http/Access.antt =====
-- Who may change the server of vmnetx/server/ over HTTP, and what the answer is good for.
use Prim.Native.String.{String}
use text.Mathlib.Text.{◌==◌ as str_eq}
use text.Mathlib.TextEquality.{eq_iff}
use vmnetx.Prelude.{
  ℕ, ◌≡◌, ◌≢◌, refl, ap, ◌∙◌, ◌⊎◌, inl, inr, Bool, true, false, Option, none, some, List, [], ◌∷◌,
  ◌++◌, ◌==◌, arith, if◌then◌else◌,
}
use vmnetx.Server.Instance
use vmnetx.Server.Registry.{Entry, Server, slash, token_of, same, lookup, put, create_instance}
use vmnetx.Server.Registry.Tokens.{Has, NoSlash, Differs, IsRegistry, lookup_iff, same-sym}
use vmnetx.Server.Http
use vmnetx.Server.Http.{
  Refusal, Response, refused, created, Options, Body, Request, World, Link, link, lstrip, respond,
  serve, status_code, creation,
}

-- Without the secret key, or while the server does not run, a request changes nothing, and is refused with a
-- status of 403 or 503, whatever it asks for.
pub serve_refused :
    (o : Options) (w : World) (key : Option String) (r : Request) (s : Server)
    → ((k : String) → key ≡ some k → str_eq k o.secret_key ≡ false) ⊎ (s.running ≡ false)
    → ((serve o w key r s).1 ≡ s)
      × (((status_code (serve o w key r s).0 ≡ 403) × (s.running ≡ true))
          ⊎ ((status_code (serve o w key r s).0 ≡ 503) × (s.running ≡ false)))
unfolding serve status_code
serve_refused o w none r s h = ground arith
serve_refused o w (some k) r s (inl h) = ground (arith, h k refl)
serve_refused o w (some k) r s (inr h) = ground arith

-- The item of a new instance.
abbrev pub entry : World → Entry
entry w = record { id = w.id; authcode = w.authcode; instance = Instance.new w.now }

put-Has : (e : Entry) (es : List Entry) → Has e (put e es)
unfolding put
put-Has e [] = inl refl
put-Has e (d ∷ ds) = go (same d.id e.id) (put-Has e ds)
  where
    go : (b : Bool) → Has e (put e ds) → Has e (if b then e ∷ ds else d ∷ put e ds)
    go true h = inl refl
    go false h = inr h

put_new : (e : Entry) (es : List Entry) → Differs e.id es → put e es ≡ es ++ e ∷ []
unfolding put
put_new e [] d = refl
put_new e (x ∷ xs) d = rw d.0 (ap (λ l. x ∷ l) (put_new e xs d.1))

Differs-snoc :
    (id : List ℕ) (es : List Entry) (e : Entry)
    → Differs id es
    → same e.id id ≡ false
    → Differs id (es ++ e ∷ [])
Differs-snoc id [] e d h = (h, tt)
Differs-snoc id (x ∷ xs) e d h = (d.0, Differs-snoc id xs e d.1 h)

IsRegistry-snoc :
    (es : List Entry) (e : Entry)
    → IsRegistry es
    → NoSlash e.id
    → Differs e.id es
    → IsRegistry (es ++ e ∷ [])
IsRegistry-snoc [] e v n d = (n, tt, tt)
IsRegistry-snoc (x ∷ xs) e v n d =
    (v.0, Differs-snoc x.id xs e v.1 (same-sym x.id e.id d.0), IsRegistry-snoc xs e v.2 n d.1)

Has-snoc : (d e : Entry) (es : List Entry) → Has d es → Has d (es ++ e ∷ [])
Has-snoc d e [] h = elim h [ ]
Has-snoc d e (x ∷ xs) (inl p) = inl p
Has-snoc d e (x ∷ xs) (inr h) = inr (Has-snoc d e xs h)

Has-snoc_last : (e : Entry) (es : List Entry) → Has e (es ++ e ∷ [])
Has-snoc_last e [] = inl refl
Has-snoc_last e (x ∷ xs) = inr (Has-snoc_last e xs)

lstrip-slash : (c : ℕ) (cs : List ℕ) → (c == slash) ≡ false → lstrip (slash ∷ (c ∷ cs)) ≡ c ∷ cs
unfolding lstrip
lstrip-slash c cs h = rw h refl

-- The token of an instance whose identifier has a character is read back from the link.
lstrip-path :
    (o : Options) (id code : List ℕ)
    → NoSlash id
    → id ≢ []
    → lstrip (link o id code).path ≡ id ++ slash ∷ code
lstrip-path o [] code n h = absurd (h refl)
lstrip-path o (c ∷ cs) code n h = lstrip-slash c (cs ++ slash ∷ code) n.0

-- The items after an instance was created.
registered :
    (w : World) (s : Server) (d : Entry)
    → IsRegistry s.instances
    → NoSlash w.id
    → Differs w.id s.instances
    → Has d (s.instances ++ entry w ∷ [])
    → lookup (token_of d) (put (entry w) s.instances) ≡ some d
registered w s d v n f h =
    ap (lookup (token_of d)) (put_new (entry w) s.instances f)
    ∙ (lookup_iff (token_of d) (s.instances ++ entry w ∷ []) d
          (IsRegistry-snoc s.instances (entry w) v n f)).1
        (h, refl)

-- With the secret key, on a server that runs, a request for a package that can be opened creates an
-- instance, if its random identifier is new and has no slash: the link in the answer, as a client reads the
-- token from it, leads to that instance, and each older token still leads to its own.
pub serve-lookup :
    (o : Options) (w : World) (url : String) (s : Server)
    → s.running ≡ true
    → w.opens url ≡ true
    → IsRegistry s.instances
    → NoSlash w.id
    → w.id ≢ []
    → Differs w.id s.instances
    → let r = serve o w (some o.secret_key) (Http.post_instance (Http.with_url url)) s in
      (r.0 ≡ created (link o w.id w.authcode) w.id)
      × (lookup (lstrip (link o w.id w.authcode).path) r.1.instances ≡ some (entry w))
      × ((d : Entry) → Has d s.instances → lookup (token_of d) r.1.instances ≡ some d)
unfolding serve respond create_instance
serve-lookup o w url s r p v n m f =
    rw (r, (eq_iff o.secret_key o.secret_key).1 refl, p)
      (
        refl,
        rw (lstrip-path o w.id w.authcode n m)
            (registered w s (entry w) v n f (Has-snoc_last (entry w) s.instances)),
        λ d h. registered w s d v n f (Has-snoc d (entry w) s.instances h),
      )

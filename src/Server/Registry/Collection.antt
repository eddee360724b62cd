-- ===== src/Server/Registry/Collection.antt =====
-- The garbage collection of vmnetx/server/__init__.py: which instances it shuts down.
use vmnetx.Prelude.{
  ℕ, ◌+◌, ◌≤◌, ◌<◌, ◌≡◌, Bool-cases, refl, sym, subst, Bool, true, false, List, [], ◌∷◌, inl, inr,
  arith, ltb, if◌then◌else◌,
}
use vmnetx.Server.Instance
use vmnetx.Server.Instance.{Instance, shutdown, try_destroy, destroy_all}
use vmnetx.Server.Instance.Events.{destroys}
use vmnetx.Server.Registry.{Entry, is_expired, collect, Server, gc, check_shutdown, after_loop}

module _ (interval timeout now : ℕ) (closes : ℕ → Bool) where
  -- The time at which an instance is given up has not passed.
  abbrev pub IsFresh : Entry → Type 0
  IsFresh e = now ≤ e.instance.last_seen + interval + timeout

  -- The item of an instance after its `shutdown`.
  abbrev pub shut : Entry → Entry
  shut e = record e { instance = shutdown closes e.instance }

  -- What the collection leaves of an item: a fresh one as it is, and another one shut down; it is
  -- gone only if its `shutdown` emitted 'destroy'.
  pub data Collected : List Entry → List Entry → Type 0 where
    nothing : Collected [] []
    fresh :
        {e : Entry} {es ds : List Entry} → IsFresh e → Collected es ds → Collected (e ∷ es) (e ∷ ds)
    expired :
        {e : Entry} {es ds : List Entry}
        → e.instance.last_seen + interval + timeout < now
        → (shut e).instance.valid ≡ false
        → Collected es ds
        → Collected (e ∷ es) (shut e ∷ ds)
    destroyed :
        {e : Entry} {es ds : List Entry}
        → e.instance.last_seen + interval + timeout < now
        → destroys e.instance < destroys (shut e).instance
        → Collected es ds
        → Collected (e ∷ es) ds

  try_destroy_invalid : (s : Instance) → s.valid ≡ false → (try_destroy s).valid ≡ false
  unfolding try_destroy
  try_destroy_invalid s h = ground arith

  if_invalid :
      (b : Bool) (s t : Instance)
      → s.valid ≡ false
      → t.valid ≡ false
      → (if b then s else t).valid ≡ false
  if_invalid true s t h k = h
  if_invalid false s t h k = k

  close_invalid : (c : ℕ) (s : Instance) → s.valid ≡ false → (Instance.close c s).valid ≡ false
  unfolding Instance.close
  close_invalid c s h =
      if_invalid (Instance.contains c s.conns) _ s
        (try_destroy_invalid (record s { conns = Instance.remove c s.conns }) h) h

  destroy_all_invalid :
      (cs : List ℕ) (s : Instance) → s.valid ≡ false → (destroy_all closes cs s).valid ≡ false
  unfolding destroy_all
  destroy_all_invalid [] s h = h
  destroy_all_invalid (c ∷ cs) s h =
      destroy_all_invalid cs _
        (if_invalid (closes c) _ _ (close_invalid c (Instance.log (Instance.destroy_conn c) s) h) h)

  shutdown_invalid : (s : Instance) → (shutdown closes s).valid ≡ false
  unfolding shutdown
  shutdown_invalid s = go s.valid refl
    where
      go :
          (b : Bool)
          → s.valid ≡ b
          → (if b
              then try_destroy (destroy_all closes s.conns (record s { valid = false }))
              else s).valid
            ≡ false
      go true h =
          try_destroy_invalid _ (destroy_all_invalid s.conns (record s { valid = false }) refl)
      go false h = h

  collect-Collected : (es : List Entry) → Collected es (collect interval timeout now closes es)
  unfolding collect
  collect-Collected [] = nothing
  collect-Collected (e ∷ es) =
      let rest = collect-Collected es in
      elim (Bool-cases (is_expired interval timeout now e.instance)) [
        | inl x ↦
            let late : e.instance.last_seen + interval + timeout < now = ground arith in
            elim (Bool-cases (ltb (destroys e.instance) (destroys (shut e).instance))) [
              | inl d ↦ simp (x, d) (destroyed late (ground arith) rest)
              | inr d ↦ simp (x, d) (expired late (shutdown_invalid e.instance) rest)
            ]
        | inr x ↦ simp x (fresh (ground arith) rest)
      ]

  -- After the garbage collection of a server, item by item: an instance whose time, which is that it was
  -- last seen and both intervals, has not passed is there as it was; another one is there with what
  -- `shutdown` makes of it, which is not valid, and is missing only if that emitted 'destroy'.
  pub gc-Collected :
      (s : Server) → Collected s.instances (gc interval timeout now closes s).instances
  unfolding gc check_shutdown
  gc-Collected s =
      subst (Collected s.instances)
        (sym (same_instances (collect interval timeout now closes s.instances)))
        (collect-Collected s.instances)
    where
      same_instances : (es : List Entry) → (after_loop es s).instances ≡ es
      same_instances es = ground arith

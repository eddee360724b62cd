-- ===== src/Server/Registry/Events.antt =====
-- What can happen to `VMNetXServer` of vmnetx/server/__init__.py, and that it waits for something while it shuts down.
use vmnetx.Prelude.{
  ℕ, suc, ◌≡◌, refl, ◌⊎◌, inl, inr, Bool, true, false, not, Option, none, some, List, [], ◌∷◌, ltb,
  length, arith, if◌then◌else◌, Bool-cases,
}
use vmnetx.Server.Instance
use vmnetx.Server.Instance.{Instance}
use vmnetx.Server.Registry.{
  Entry, Effect, shutdown_signal, Server, all_gone, check_shutdown, put, fetched, connected,
  fetch_controller, accept, close, create_instance, after_loop, gc, initialize,
}
use vmnetx.Server.Registry.Shutdown.{change_instance, destroy_instance, shutdown}

-- Everything that happens to the server, or to one of its instances.
pub data Event : Type 0 where
  initializes : Event
  accepts closes : ℕ → Event
  fetches : ℕ → List ℕ → ℕ → Event
  creates : List ℕ → List ℕ → ℕ → Event
  collects : ℕ → ℕ → ℕ → (ℕ → Bool) → Event
  changes : List ℕ → (Instance → Instance) → Event
  destroys_instance : List ℕ → (ℕ → Bool) → Event
  shuts_down : (ℕ → Bool) → Event

abbrev pub or_same : Option Server → Server → Server
or_same none s = s
or_same (some s') s = s'

unfoldable pub step : Server → Event → Server
step s initializes = initialize s
step s (accepts conn) = if s.listening then accept conn s else s
step s (closes conn) = close conn s
step s (fetches conn token now) = fetch_controller conn token now s
step s (creates id code now) = or_same (create_instance id code now s) s
step s (collects interval timeout now c) = if s.collecting then gc interval timeout now c s else s
step s (changes id f) = change_instance id f s
step s (destroys_instance id c) = (destroy_instance id c s).1
step s (shuts_down c) = shutdown c s

unfoldable pub run : Server → List Event → Server
run s [] = s
run s (e ∷ es) = run (step s e) es

abbrev pub is_shutdown : Effect → Bool
is_shutdown shutdown_signal = true
is_shutdown _ = false

abbrev pub shutdown_signals : List Effect → ℕ
shutdown_signals [] = 0
shutdown_signals (e ∷ es) = if is_shutdown e then suc (shutdown_signals es) else shutdown_signals es

-- A server that is shutting down has something left to wait for.
abbrev pub IsWaiting : Server → Type 0
IsWaiting s = s.shutting_down ≡ true → all_gone s.instances s.unauthenticated ≡ false

-- What a change may signal: nothing, or once that it is shut down, with nothing left.
abbrev pub Signals : Server → Server → Type 0
Signals s t =
    (shutdown_signals t.effects ≡ shutdown_signals s.effects)
    ⊎ ((shutdown_signals t.effects ≡ suc (shutdown_signals s.effects))
        × (t.instances ≡ [])
        × (t.unauthenticated ≡ [])
        × (t.shutting_down ≡ false))

abbrev pub Good : Server → Server → Type 0
Good s t = IsWaiting t × Signals s t

pub all_gone-eq : (es : List Entry) (cs : List ℕ) → all_gone es cs ≡ true → (es ≡ []) × (cs ≡ [])
all_gone-eq [] [] h = (refl, refl)
all_gone-eq (e ∷ es) cs h = absurd (ground arith)
all_gone-eq [] (c ∷ cs) h = absurd (ground arith)

pub check_shutdown-Good : (s : Server) → Good s (check_shutdown s)
unfolding check_shutdown
check_shutdown-Good s = ground (arith, all_gone-eq s.instances s.unauthenticated)

-- Where nothing was removed, what was waited for is still there.
pub all_gone_same :
    (es xs : List Entry) (cs : List ℕ)
    → ltb (length es) (length xs) ≡ false
    → all_gone xs cs ≡ false
    → all_gone es cs ≡ false
all_gone_same [] [] cs h k = k
all_gone_same [] (x ∷ xs) cs h k = absurd (ground arith)
all_gone_same (e ∷ es) xs cs h k = refl

pub after_loop-Good : (es : List Entry) (s : Server) → IsWaiting s → Good s (after_loop es s)
after_loop-Good es s w = elim (Bool-cases (ltb (length es) (length s.instances))) [
  | inl e ↦ simp e (check_shutdown-Good (record s { instances = es }))
  | inr e ↦ simp e ((λ h. all_gone_same es s.instances s.unauthenticated e (w h)), inl refl)
]

pub put-cons : (e : Entry) (es : List Entry) (cs : List ℕ) → all_gone (put e es) cs ≡ false
unfolding put
put-cons e [] cs = refl
put-cons e (d ∷ ds) cs = ground arith

pub fetch_controller-Good :
    (conn now : ℕ) (o : Option Entry) (s : Server) → IsWaiting s → Good s (fetched conn now o s)
fetch_controller-Good conn now none s w = (w, inl refl)
fetch_controller-Good conn now (some e) s w = go (Instance.add_connection conn now e.instance)
  where
    go : (o : Option Instance) → Good s (connected conn e o s)
    go none = (w, inl refl)
    go (some i) = (
      (λ h.
          put-cons (record e { instance = i }) s.instances
            (Instance.remove conn s.unauthenticated)),
      inl refl,
    )

pub create_instance-Good :
    (id code : List ℕ) (now : ℕ) (s : Server)
    → IsWaiting s
    → Good s (or_same (create_instance id code now s) s)
unfolding create_instance
create_instance-Good id code now s w = go s.running
  where
    d : Entry
    d = record { id = id; authcode = code; instance = Instance.new now }

    go :
        (b : Bool)
        → Good s
            (or_same (if not b then none else some (record s { instances = put d s.instances })) s)
    go true = ((λ h. put-cons d s.instances s.unauthenticated), inl refl)
    go false = (w, inl refl)

pub accept-cons :
    (c : ℕ) (es : List Entry) (cs : List ℕ)
    → all_gone es (Instance.add c cs) ≡ true
    → all_gone es cs ≡ true
unfolding Instance.add Instance.contains
accept-cons c [] [] h = absurd (ground arith)
accept-cons c [] (d ∷ ds) h = ground arith
accept-cons c (e ∷ es) cs h = h

pub accept-Good : (c : ℕ) (s : Server) → IsWaiting s → Good s (accept c s)
unfolding accept
accept-Good c s w = ((λ h. not_gone (w h)), inl refl)
  where
    not_gone :
        all_gone s.instances s.unauthenticated ≡ false
        → all_gone s.instances (Instance.add c s.unauthenticated) ≡ false
    not_gone k = ground (arith, accept-cons c s.instances s.unauthenticated)

pub close-Good : (c : ℕ) (s : Server) → Good s (close c s)
unfolding close
close-Good c s =
    check_shutdown-Good (record s { unauthenticated = Instance.remove c s.unauthenticated })

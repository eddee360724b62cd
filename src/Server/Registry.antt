-- ===== src/Server/Registry.antt =====
-- `VMNetXServer` of vmnetx/server/__init__.py: the registry of instances, the lookup of a token, and
-- the collection of instances that were left. Identifiers, codes and tokens are lists of characters.
pub mod Tokens
pub mod Collection
pub mod Shutdown
pub mod Events
pub mod Signals
use vmnetx.Prelude.{
  ℕ, ◌+◌, Bool, true, false, not, ◌&&◌, Option, none, some, List, [], ◌∷◌, ◌++◌, ◌==◌, ltb, length,
  if◌then◌else◌,
}
use vmnetx.Server.Instance
use vmnetx.Server.Instance.{Instance}
use vmnetx.Server.Instance.Events.{destroys}

-- An item of `_instances`.
pub record Entry : Type 0 where
  pub id : List ℕ
  pub authcode : List ℕ
  pub instance : Instance

pub data Effect : Type 0 where
  fail_controller : ℕ → Effect
  shutdown_signal : Effect

pub record Server : Type 0 where
  pub instances : List Entry
  pub unauthenticated : List ℕ
  pub listening : Bool  -- with its source
  pub collecting : Bool  -- the garbage collection's timer
  pub running : Bool
  pub shutting_down : Bool
  pub effects : List Effect  -- the newest first

unfoldable pub new : Server
new = record {
  instances = [];
  unauthenticated = [];
  listening = false;
  collecting = false;
  running = false;
  shutting_down = false;
  effects = [];
}

-- `initialize`, where it does not raise.
unfoldable pub initialize : Server → Server
initialize s = record s { listening = true; collecting = true; running = true }

-- `'/'`.
abbrev pub slash : ℕ
slash = 47

-- `'%s/%s' % (id, authcode)`.
abbrev pub token_of : Entry → List ℕ
token_of e = e.id ++ slash ∷ e.authcode

abbrev pub prepend : ℕ → Option (List ℕ × List ℕ) → Option (List ℕ × List ℕ)
prepend c none = none
prepend c (some (id, code)) = some (c ∷ id, code)

-- `id, authcode = token.split('/', 1)`; none is the ValueError.
unfoldable pub split_token : List ℕ → Option (List ℕ × List ℕ)
split_token [] = none
split_token (c ∷ cs) =
    let rest = prepend c (split_token cs) in if c == slash then some ([], cs) else rest

unfoldable pub same : List ℕ → List ℕ → Bool
same [] [] = true
same (a ∷ xs) (b ∷ ys) = (a == b) && same xs ys
same _ _ = false

-- `_instances[id]`; none is the KeyError.
unfoldable pub find : List ℕ → List Entry → Option Entry
unfolding same
find id [] = none
find id (e ∷ es) = let rest = find id es in if same e.id id then some e else rest

abbrev pub check_code : List ℕ → Option Entry → Option Entry
check_code code none = none
check_code code (some e) = if same e.authcode code then some e else none

abbrev pub lookup_in : List Entry → Option (List ℕ × List ℕ) → Option Entry
lookup_in es none = none
lookup_in es (some (id, code)) = check_code code (find id es)

-- The `try` of `_fetch_controller`.
unfoldable pub lookup : List ℕ → List Entry → Option Entry
unfolding split_token find
lookup token es = lookup_in es (split_token token)

abbrev pub log : Effect → Server → Server
log e s = record s { effects = e ∷ s.effects }

-- `_check_shutdown`.
abbrev pub all_gone : List Entry → List ℕ → Bool
all_gone [] [] = true
all_gone _ _ = false

unfoldable pub check_shutdown : Server → Server
check_shutdown s =
    if s.shutting_down && all_gone s.instances s.unauthenticated
    then log shutdown_signal (record s { shutting_down = false })
    else s

-- `_instances[id] = instance`.
unfoldable pub put : Entry → List Entry → List Entry
unfolding same
put e [] = e ∷ []
put e (d ∷ ds) = let rest = put e ds in if same d.id e.id then e ∷ ds else d ∷ rest

-- `_fetch_controller`; where `add_connection` raises, the connection stays where it is.
abbrev pub connected : ℕ → Entry → Option Instance → Server → Server
connected conn e none s = s
connected conn e (some i) s = record s {
  instances = put (record e { instance = i }) s.instances;
  unauthenticated = Instance.remove conn s.unauthenticated;
}

abbrev pub fetched : ℕ → ℕ → Option Entry → Server → Server
fetched conn now none s = log (fail_controller conn) s
fetched conn now (some e) s = connected conn e (Instance.add_connection conn now e.instance) s

unfoldable pub fetch_controller : ℕ → List ℕ → ℕ → Server → Server
unfolding lookup
fetch_controller conn token now s = fetched conn now (lookup token s.instances) s

-- `_accept` of one connection.
unfoldable pub accept : ℕ → Server → Server
accept conn s = record s { unauthenticated = Instance.add conn s.unauthenticated }

-- `_close`.
unfoldable pub close : ℕ → Server → Server
unfolding check_shutdown
close conn s =
    check_shutdown (record s { unauthenticated = Instance.remove conn s.unauthenticated })

-- `create_instance`; the identifier and the code are random. none is the ServerUnavailableError.
unfoldable pub create_instance : List ℕ → List ℕ → ℕ → Server → Option Server
unfolding put
create_instance id code now s =
    if not s.running
    then none
    else some (record s {
      instances =
          put (record { id = id; authcode = code; instance = Instance.new now }) s.instances;
    })

-- An instance that may have emitted 'destroy'; `_destroy_instance_cb` then deletes the item.
abbrev pub keep : Entry → Instance → List Entry → List Entry
keep e i es = if ltb (destroys e.instance) (destroys i) then es else record e { instance = i } ∷ es

-- `curr > instance.last_seen + gc + to`.
abbrev pub is_expired : ℕ → ℕ → ℕ → Instance → Bool
is_expired interval timeout now i = ltb (i.last_seen + interval + timeout) now

-- The loop of `_gc`, over the values; the connections of `closes` close in their `destroy`.
unfoldable pub collect : ℕ → ℕ → ℕ → (ℕ → Bool) → List Entry → List Entry
collect interval timeout now closes [] = []
collect interval timeout now closes (e ∷ es) =
    let rest = collect interval timeout now closes es in
    if is_expired interval timeout now e.instance
    then keep e (Instance.shutdown closes e.instance) rest
    else e ∷ rest

abbrev pub after_loop : List Entry → Server → Server
after_loop es s =
    let s' = record s { instances = es } in
    if ltb (length es) (length s.instances) then check_shutdown s' else s'

-- `_gc`.
unfoldable pub gc : ℕ → ℕ → ℕ → (ℕ → Bool) → Server → Server
unfolding check_shutdown collect
gc interval timeout now closes s = after_loop (collect interval timeout now closes s.instances) s

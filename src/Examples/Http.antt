-- ===== src/Examples/Http.antt =====
-- vmnetx/server/http.py, and the end of a server of vmnetx/server/__init__.py.
use vmnetx.Prelude.{◌≡◌, ◌⊎◌, refl, inl, true, false, none, some, List, [], ◌∷◌, arith}
use vmnetx.Server.Instance
use vmnetx.Server.Registry
use vmnetx.Server.Registry.{Entry, Server, lookup, token_of}
use vmnetx.Server.Registry.Tokens.{Has}
use vmnetx.Server.Registry.Events
use vmnetx.Server.Registry.Events.{Signals}
use vmnetx.Server.Http
use vmnetx.Server.Http.{Options, World, Response, created, link, lstrip, serve, status_code}
use vmnetx.Server.Http.Access.{entry, serve_refused, serve-lookup}

abbrev options : Options
options = record { secret_key = "secret"; host = "vmnetx.example"; port = 18923 }

abbrev world : World
world = record {
  id = 65 ∷ 66 ∷ [];
  authcode = 120 ∷ [];
  now = 900;
  closes = λ c. true;
  opens = λ url. true;
}

abbrev other : Entry
other = record { id = 67 ∷ []; authcode = 121 ∷ []; instance = Instance.new 5 }

abbrev server : Server
server = record (Registry.initialize Registry.new) { instances = other ∷ [] }

serve_refused_example :
    ((serve options world none (Http.delete_instance (67 ∷ [])) server).1 ≡ server)
    × (((status_code (serve options world none (Http.delete_instance (67 ∷ [])) server).0 ≡ 403)
          × (server.running ≡ true))
        ⊎ ((status_code (serve options world none (Http.delete_instance (67 ∷ [])) server).0 ≡ 503)
            × (server.running ≡ false)))
serve_refused_example =
    serve_refused options world none (Http.delete_instance (67 ∷ [])) server
      (inl (λ k p. ground arith))

serve-lookup_example :
    let r =
      serve options world
        (some "secret")
        (Http.post_instance (Http.with_url "http://example/vm"))
        server in
    (r.0 ≡ created (link options world.id world.authcode) world.id)
    × (lookup (lstrip (link options world.id world.authcode).path) r.1.instances
        ≡ some (entry world))
    × ((d : Entry) → Has d server.instances → lookup (token_of d) r.1.instances ≡ some d)
unfolding Registry.same Registry.initialize
serve-lookup_example =
    serve-lookup options world "http://example/vm" server refl refl ((refl, tt), tt, tt)
      (refl, (refl, tt)) (λ p. ground arith) (refl, tt)

-- An instance and a connection are there when the server is shut down; the connection closes later.
abbrev ending : List Events.Event
ending =
    Events.initializes
    ∷ Events.creates (65 ∷ []) (120 ∷ []) 5
    ∷ Events.accepts 3
    ∷ Events.shuts_down (λ c. false)
    ∷ []

-- ===== src/Examples/Server.antt =====
-- vmnetx/server/__init__.py: one instance from its creation to its end, and a small registry.
use vmnetx.Prelude.{
  ◌≤◌, ◌≡◌, ◌≢◌, ◌↔◌, refl, inl, inr, true, false, none, some, List, [], ◌∷◌, arith,
}
use vmnetx.Server.Instance
use vmnetx.Server.Instance.{Instance, result}
use vmnetx.Server.Instance.Events.{
  Event, connects, closed, worker_ends, shutdown_ends, turns, shuts_down, step, run, destroys,
  shutdowns,
}
use vmnetx.Server.Instance.Lifecycle.{is_made}
use vmnetx.Server.Instance.Ending.{destroys-le, shutdowns-le}
use vmnetx.Server.Registry
use vmnetx.Server.Registry.{
  Entry, Server, token_of, lookup, fetch_controller, fail_controller, gc, is_expired,
}
use vmnetx.Server.Registry.Tokens.{Has, lookup_iff}
use vmnetx.Server.Registry.Collection.{Collected, gc-Collected}

-- Two connections, of which one closes by itself; the controller comes up, and then all is shut
-- down.
abbrev history : List Event
history =
    connects 1 10
    ∷ connects 2 11
    ∷ worker_ends (result 7)
    ∷ turns
    ∷ closed 1
    ∷ turns
    ∷ shuts_down (λ c. true)
    ∷ shutdown_ends
    ∷ turns
    ∷ []

abbrev ended : Instance
ended = run (Instance.new 5) history

ended_facts :
    (ended.destroyed ≡ true)
    × (ended.valid ≡ false)
    × (ended.conns ≡ [])
    × (ended.idle ≡ [])
    × (ended.closing ≡ 0)
unfolding run step Instance.new Instance.add_connection Instance.add Instance.contains Instance.get
    Instance.run_worker Instance.run_idle Instance.get_controller_result Instance.close
    Instance.remove Instance.try_destroy Instance.shutdown Instance.destroy_all
    Instance.run_shutdown
ended_facts = (refl, refl, refl, refl, refl)

destroys-le_example :
    (destroys ended ≤ 1)
    × (destroys ended ≡ 1
        → (ended.destroyed ≡ true)
          × (ended.valid ≡ false)
          × (ended.conns ≡ [])
          × (ended.controller ≡ none))
destroys-le_example = destroys-le 5 history

shutdowns-le_example :
    (destroys ended ≡ 1) × (is_made ended.controller_future ≡ true → 1 ≤ shutdowns ended)
shutdowns-le_example = shutdowns-le 5 history ended_facts.0 ended_facts.3 ended_facts.4

abbrev early : Entry
early = record { id = 65 ∷ 66 ∷ []; authcode = 120 ∷ []; instance = Instance.new 5 }

abbrev late : Entry
late = record { id = 67 ∷ []; authcode = 121 ∷ 122 ∷ []; instance = Instance.new 900 }

abbrev server : Server
server = record (Registry.initialize Registry.new) {
  instances = early ∷ late ∷ [];
  unauthenticated = 3 ∷ [];
}

lookup_iff_example :
    (lookup (67 ∷ 47 ∷ 121 ∷ 122 ∷ []) (early ∷ late ∷ []) ≡ some late)
    ↔ (Has late (early ∷ late ∷ []) × (67 ∷ 47 ∷ 121 ∷ 122 ∷ [] ≡ token_of late))
unfolding Registry.same
lookup_iff_example =
    lookup_iff (67 ∷ 47 ∷ 121 ∷ 122 ∷ []) (early ∷ late ∷ []) late
      ((refl, (refl, tt)), (refl, tt), ((refl, tt), tt, tt))

wrong_token : (e : Entry) → Has e server.instances → 67 ∷ 47 ∷ 120 ∷ [] ≢ token_of e
wrong_token e (inl p) q = ground arith
wrong_token e (inr (inl p)) q = ground arith
wrong_token e (inr (inr h)) q = h

gc-Collected_example :
    Collected 60 300 1000 (λ c. true) server.instances (gc 60 300 1000 (λ c. true) server).instances
gc-Collected_example = gc-Collected 60 300 1000 (λ c. true) server

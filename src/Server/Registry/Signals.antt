-- ===== src/Server/Registry/Signals.antt =====
-- When `VMNetXServer` of vmnetx/server/__init__.py says that it is shut down.
use vmnetx.Prelude.{suc, ◌≡◌, ◌⊎◌, true, false, []}
use vmnetx.Server.Instance
use vmnetx.Server.Instance.{Instance}
use vmnetx.Server.Registry
use vmnetx.Server.Registry.{
  Entry, Effect, fail_controller, shutdown_signal, Server, same, log, put, fetched, connected,
  create_instance, keep, is_expired,
}
use vmnetx.Server.Registry.Shutdown
use vmnetx.Server.Registry.Events.{shutdown_signals}

-- A change in the course of `shutdown`: it signals nothing, or ends the shutdown.
abbrev Stays : Server → Server → Type 0
Stays s t =
    (shutdown_signals t.effects ≡ shutdown_signals s.effects)
    × (t.shutting_down ≡ s.shutting_down)
    × (s.instances ≡ [] → t.instances ≡ [])
    × (s.unauthenticated ≡ [] → t.unauthenticated ≡ [])

abbrev Finishes : Server → Server → Type 0
Finishes s t =
    (s.shutting_down ≡ true)
    × (shutdown_signals t.effects ≡ suc (shutdown_signals s.effects))
    × (t.shutting_down ≡ false)
    × (t.instances ≡ [])
    × (t.unauthenticated ≡ [])

abbrev Proceeds : Server → Server → Type 0
Proceeds s t = Stays s t ⊎ Finishes s t

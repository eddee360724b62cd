-- ===== src/Controller/Remote/Connect.antt =====
-- How `RemoteController` of vmnetx/controller/remote.py connects: `initialize`, the attempts and what comes
-- of them.
use Prim.Native.String.{String}
use vmnetx.Prelude.{Bool, true, false, Option, none, some, if◌then◌else◌}
use vmnetx.Util.Backoff
use vmnetx.Util.Backoff.{BackoffTimer, default_schedule}
use vmnetx.Protocol.Client
use vmnetx.Protocol.Client.{ClientState, ClientSignal, ClientSend}
use vmnetx.Controller.{uninitialized, ensure_state}
use vmnetx.Controller.MainLoop
use vmnetx.Controller.MainLoop.{
  MainLoop, Failure, connection_failed, authentication_failed, protocol_error, connection_closed,
}
use vmnetx.Controller.Remote.{
  Phase, init, run, stop, RemoteController, fail_loop, retry, sendable, after_send,
  notify_stable_state,
}

-- `initialize` up to the nested main loop; none is the MachineStateError.
unfoldable pub begin_initialize : RemoteController → Option RemoteController
unfolding MainLoop.new Backoff.attempt
begin_initialize s =
    ensure_state uninitialized s.state (retry (record s { loop = some MainLoop.new }))

-- The rest of `initialize`, once the nested main loop is left; with an error it raises it.
abbrev pub leave_loop : Option Failure → RemoteController → RemoteController
leave_loop none s = notify_stable_state (record s { loop = none; phase = run })
leave_loop (some e) s = s

abbrev pub end_with : Phase → Option MainLoop → RemoteController → RemoteController
end_with init (some l) s = if l.finished then leave_loop l.error s else s
end_with _ _ s = s

unfoldable pub end_initialize : RemoteController → RemoteController
end_initialize s = end_with s.phase s.loop s

-- The timer of `_backoff` calls `_attempt_connection`.
abbrev pub attempt_on : Option Backoff.Timer → RemoteController → RemoteController
attempt_on none s = s
attempt_on (some t) s = record s { backoff = Backoff.fire s.backoff; connecting = true }

unfoldable pub attempt_connection : RemoteController → RemoteController
unfolding Backoff.fire
attempt_connection s = attempt_on s.backoff.timer s

-- A fresh endpoint, over which `send_authenticate` goes out at once.
abbrev pub open_endp : String → RemoteController → RemoteController
open_endp token s =
    after_send (record s { backoff = Backoff.reset s.backoff })
      (sendable (record { client = ClientState.unauthenticated; is_shut = false })
        (ClientSend.authenticate token))

-- `_connected`, with a socket or an error. In the last phase the socket is dropped.
abbrev pub connected_in : Phase → Bool → String → RemoteController → RemoteController
connected_in stop sock token s = s
connected_in _ true token s = open_endp token s
connected_in init false token s = record s { loop = fail_loop connection_failed s.loop }
connected_in run false token s = retry s

unfoldable pub connected : Bool → String → RemoteController → RemoteController
unfolding Backoff.reset Backoff.attempt Client.send MainLoop.fail
connected sock token s =
    if s.connecting then connected_in s.phase sock token (record s { connecting = false }) else s

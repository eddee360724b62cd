-- ===== src/Controller/Viewer.antt =====
-- `_ViewerConnection` of vmnetx/controller/remote.py: a connection of its own, which is turned into the
-- stream of the viewer and then answers the callback that asked for it.
pub mod Answers
use Prim.Native.String.{String}
use text.Mathlib.Text.{◌==◌ as str_eq}
use vmnetx.Prelude.{Bool, true, false, Option, none, some, List, [], ◌∷◌, if◌then◌else◌}
use vmnetx.Protocol.Message
use vmnetx.Protocol.Message.{Value, Message, MessageType, Effect, transmit, emit}
use vmnetx.Protocol.Client
use vmnetx.Protocol.Client.{ClientState, ClientSignal, ClientSend}

-- `callback(sock=...)` and `callback(error=...)`.
pub data Answer : Type 0 where
  sock failure : Answer

pub record ViewerConnection : Type 0 where
  pub client : ClientState
  pub is_shut : Bool
  pub callback : Bool  -- `_callback` is not None
  pub forwarding : Bool
  pub answers : List Answer  -- the newest first
  pub sent : List Message

-- `_endp.send_...(m)`, which the caller does not guard.
abbrev pub after_send : ViewerConnection → Option (ClientState × Message) → ViewerConnection
after_send v none = v
after_send v (some (client, m)) = record v { client = client; sent = m ∷ v.sent }

unfoldable pub new : String → ViewerConnection
unfolding Client.send
new token =
    after_send
      (record {
        client = ClientState.unauthenticated;
        is_shut = false;
        callback = true;
        forwarding = false;
        answers = [];
        sent = [];
      })
      (Client.send ClientState.unauthenticated (ClientSend.authenticate token))

-- `_fail`; what comes of the endpoint's shutdown is its 'close'.
unfoldable pub fail : ViewerConnection → ViewerConnection
fail v =
    if v.callback
    then record v { answers = failure ∷ v.answers; callback = false; is_shut = true }
    else record v { is_shut = true }

abbrev pub is_running : Value → Bool
is_running (Message.string s) = str_eq s "running"
is_running _ = false

unfoldable pub handle : ClientSignal → ViewerConnection → ViewerConnection
unfolding fail Client.send
handle (ClientSignal.auth_ok state name rate low high) v =
    if is_running state
    then after_send v (Client.send v.client ClientSend.attach_viewer)
    else fail v
handle (ClientSignal.auth_failed e) v = fail v
handle ClientSignal.attaching_viewer v =
    if v.callback
    then record v { forwarding = true; answers = sock ∷ v.answers; callback = false }
    else v
handle (ClientSignal.error e) v = fail v
handle _ v = v

unfoldable pub handle_all : List (Effect ClientSignal) → ViewerConnection → ViewerConnection
unfolding handle
handle_all [] v = v
handle_all (transmit m ∷ effects) v = handle_all effects (record v { sent = m ∷ v.sent })
handle_all (emit x ∷ effects) v = handle_all effects (handle x v)

-- A message from the server; after `start_forwarding` the protocol is off.
unfoldable pub message : MessageType → List (String × Value) → ViewerConnection → ViewerConnection
unfolding handle_all Client.dispatch
message t fields v =
    if v.is_shut
    then v
    else if v.forwarding
    then v
    else let d = Client.dispatch v.client t fields in
      handle_all d.effects (record v { client = d.state })

pub data Event : Type 0 where
  hears : MessageType → List (String × Value) → Event
  closes : Event

-- `_shutdown` is `_fail`.
unfoldable pub step : ViewerConnection → Event → ViewerConnection
step v (hears t fields) = message t fields v
step v closes = fail v

unfoldable pub run : ViewerConnection → List Event → ViewerConnection
run v [] = v
run v (e ∷ es) = run (step v e) es

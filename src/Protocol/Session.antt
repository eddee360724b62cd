-- ===== src/Protocol/Session.antt =====
-- A client and a server endpoint of vmnetx/protocol.py with the two streams of messages between
-- them. The environment chooses when each side sends and when it reads.
use Prim.Native.String.{String}
use vmnetx.Prelude.{
  ◌≡◌, refl, ap, sym, ◌∙◌, Bool, true, false, Option, none, some, List, [], ◌∷◌, ◌++◌, ◌||◌, ◌≢◌,
  ◌⊎◌, arith,
}
use mathlib.Core.Bool.{false≢true}
use vmnetx.Protocol.Message
use vmnetx.Protocol.Message.{
  Value, MessageType, Message, MessageError, not_authenticated, Effect, transmit, emit, Dispatched,
}
use vmnetx.Protocol.Server
use vmnetx.Protocol.Server.{ServerEndpoint, ServerSend}
use vmnetx.Protocol.Client
use vmnetx.Protocol.Client.{
  ClientState, unauthenticated, authenticating, running, attaching, viewer, ClientSend,
}
use vmnetx.Protocol.Guards.{is_privileged, dispatch-not_authenticated}

-- The streams hold the oldest message first.
pub record Session : Type 0 where
  pub client : ClientState
  pub server : ServerEndpoint
  pub to_server : List Message
  pub to_client : List Message

unfoldable pub start : Session
unfolding Server.new
start = record { client = unauthenticated; server = Server.new; to_server = []; to_client = [] }

-- What goes back over the wire: the messages transmitted, and `send_error(str(e))` for an error.
-- The text of the error is left empty, since no endpoint looks into it.
abbrev pub replies : {S : Type 0} → List (Effect S) → Option MessageError → List Message
replies [] none = []
replies [] (some e) =
    record { mtype = MessageType.error; fields = ("message", Message.string "") ∷ [] } ∷ []
replies (transmit m ∷ effects) e = m ∷ replies effects e
replies (emit s ∷ effects) e = replies effects e

abbrev pub server_received : Session → Message → List Message → Session
server_received s m rest =
    let d = Server.dispatch s.server m.mtype m.fields in
    record s {
      server = d.state;
      to_server = rest;
      to_client = s.to_client ++ replies d.effects d.raised;
    }

abbrev pub client_received : Session → Message → List Message → Session
client_received s m rest =
    let d = Client.dispatch s.client m.mtype m.fields in
    record s {
      client = d.state;
      to_client = rest;
      to_server = s.to_server ++ replies d.effects d.raised;
    }

-- The rest of what the program does on a signal is sending, which is a step of its own.
pub data Step : Session → Session → Type 0 where
  client_sends :
      (s : Session) (m : ClientSend) {c : ClientState} {message : Message}
      → Client.send s.client m ≡ some (c, message)
      → Step s (record s { client = c; to_server = s.to_server ++ message ∷ [] })
  server_sends :
      (s : Session) (m : ServerSend)
      → Step s (record s {
        server = Server.send s.server m;
        to_client = s.to_client ++ Server.sent m ∷ [];
      })
  server_receives :
      (s : Session) (m : Message) (rest : List Message)
      → s.to_server ≡ m ∷ rest
      → Step s (server_received s m rest)
  client_receives :
      (s : Session) (m : Message) (rest : List Message)
      → s.to_client ≡ m ∷ rest
      → Step s (client_received s m rest)

pub data Reach (s : Session) : Session → Type 0 where
  here : Reach s s
  next : {t u : Session} → Reach s t → Step t u → Reach s u

abbrev pub is_past_auth : ClientState → Bool
is_past_auth running = true
is_past_auth attaching = true
is_past_auth viewer = true
is_past_auth _ = false

abbrev pub is_auth_ok : MessageType → Bool
is_auth_ok MessageType.auth_ok = true
is_auth_ok _ = false

abbrev pub holds : (MessageType → Bool) → List Message → Bool
holds p [] = false
holds p (m ∷ ms) = p m.mtype || holds p ms

holds-append :
    (p : MessageType → Bool) (ms ns : List Message)
    → holds p (ms ++ ns) ≡ (holds p ms || holds p ns)
holds-append p [] ns = refl
holds-append p (m ∷ ms) ns = ground (arith, holds-append p ms ns)

-- Where the client believes that it is authenticated, or soon will, it is.
pub record Inv (s : Session) : Type 0 where
  pub client_is : is_past_auth s.client ≡ true → s.server.authenticated ≡ true
  pub reply_is : holds is_auth_ok s.to_client ≡ true → s.server.authenticated ≡ true
  pub request_is : holds is_privileged s.to_server ≡ true → s.server.authenticated ≡ true

start-Inv : Inv start
unfolding start Server.new
start-Inv = ground arith

-- What the proof needs of the endpoints: one lemma for each operation.
client_send_facts :
    (s : ClientState) (m : ClientSend) {c : ClientState} {message : Message}
    → Client.send s m ≡ some (c, message)
    → (is_past_auth c ≡ is_past_auth s)
      × (is_privileged message.mtype ≡ true → is_past_auth s ≡ true)
unfolding Client.send Client.sent
client_send_facts s m h = ground arith

server_send_facts :
    (s : ServerEndpoint) (m : ServerSend)
    → (s.authenticated ≡ true → (Server.send s m).authenticated ≡ true)
      × (is_auth_ok (Server.sent m).mtype ≡ true → (Server.send s m).authenticated ≡ true)
unfolding Server.send Server.sent
server_send_facts s m = ground arith

server_dispatch_facts :
    (s : ServerEndpoint) (t : MessageType) (fields : List (String × Value))
    → holds is_auth_ok
        (replies (Server.dispatch s t fields).effects (Server.dispatch s t fields).raised)
      ≡ false
unfolding Server.dispatch
server_dispatch_facts s t fields = ground arith

client_dispatch_facts :
    (s : ClientState) (t : MessageType) (fields : List (String × Value))
    → (is_past_auth (Client.dispatch s t fields).state ≡ true
        → (is_past_auth s ≡ true) ⊎ (is_auth_ok t ≡ true))
      × (holds is_privileged
            (replies (Client.dispatch s t fields).effects (Client.dispatch s t fields).raised)
          ≡ false)
unfolding Client.dispatch
client_dispatch_facts s t fields = ground arith

Step-Inv : {s u : Session} → Step s u → Inv s → Inv u
Step-Inv (client_sends s m {c} {message} e) v =
    let f = client_send_facts s.client m e in
    record {
      client_is = λ h. v.client_is (sym f.0 ∙ h);
      reply_is = v.reply_is;
      request_is = ground (arith, holds-append is_privileged s.to_server (message ∷ []), f);
    }
Step-Inv (server_sends s m) v =
    let f = server_send_facts s.server m in
    record {
      client_is = λ h. f.0 (v.client_is h);
      reply_is = ground (arith, holds-append is_auth_ok s.to_client (Server.sent m ∷ []), f);
      request_is = λ h. f.0 (v.request_is h);
    }
Step-Inv (server_receives s m rest e) v =
    let d = Server.dispatch s.server m.mtype m.fields in
    let same : d.state ≡ s.server = (dispatch-not_authenticated s.server m.mtype m.fields).1 in
    let still : d.state.authenticated ≡ s.server.authenticated = ap (λ x. x.authenticated) same in
    record {
      client_is = λ h. still ∙ v.client_is h;
      reply_is = ground (
        arith,
        still,
        holds-append is_auth_ok s.to_client (replies d.effects d.raised),
        server_dispatch_facts s.server m.mtype m.fields,
      );
      request_is = ground (arith, still, ap (holds is_privileged) e);
    }
Step-Inv (client_receives s m rest e) v =
    let d = Client.dispatch s.client m.mtype m.fields in
    let f = client_dispatch_facts s.client m.mtype m.fields in
    let head : holds is_auth_ok s.to_client ≡ (is_auth_ok m.mtype || holds is_auth_ok rest) =
      ap (holds is_auth_ok) e in
    record {
      client_is = ground (arith, f, head);
      reply_is = ground (arith, head);
      request_is =
          ground (arith, f, holds-append is_privileged s.to_server (replies d.effects d.raised));
    }

Reach-Inv : {s u : Session} → Inv s → Reach s u → Inv u
Reach-Inv v here = v
Reach-Inv v (next r st) = Step-Inv st (Reach-Inv v r)

-- In every session, however its messages are delayed and interleaved, and whatever the server sends:
-- a client whose endpoint is in the running state or beyond is authenticated at the server, and no
-- message that the server reads next is refused for want of authentication. So the guards of
-- `ClientEndpoint` suffice for those of `ServerEndpoint`.
pub never_unauthenticated :
    {s : Session}
    → Reach start s
    → (is_past_auth s.client ≡ true → s.server.authenticated ≡ true)
      × ((m : Message) (rest : List Message)
          → s.to_server ≡ m ∷ rest
          → (Server.dispatch s.server m.mtype m.fields).raised ≢ some not_authenticated)
never_unauthenticated {s} r =
    let v = Reach-Inv start-Inv r in
    (
      v.client_is,
      λ m rest e.
          let f = dispatch-not_authenticated s.server m.mtype m.fields in
          let head : holds is_privileged s.to_server
              ≡ (is_privileged m.mtype || holds is_privileged rest) =
            ap (holds is_privileged) e in
          λ h.
            let p = f.0.0 h in
            false≢true
              (sym p.1 ∙ v.request_is (head ∙ ap (λ b. b || holds is_privileged rest) p.0)),
    )

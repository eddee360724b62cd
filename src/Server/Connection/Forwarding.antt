-- ===== src/Server/Connection/Forwarding.antt =====
-- What `_ServerConnection` of vmnetx/server/__init__.py sends, and when.
use Prim.Native.String.{String}
use vmnetx.Prelude.{
  ◌≡◌, ◌≢◌, Bool-cases, Option, none, some, refl, sym, ◌∙◌, ◌⊎◌, inl, inr, Bool, true, false, ◌&&◌,
  List, [], ◌∷◌, arith, if◌then◌else◌,
}
use vmnetx.Protocol.Message
use vmnetx.Protocol.Message.{Value, Message, MessageType, MessageError, Effect, transmit, emit}
use vmnetx.Protocol.Server
use vmnetx.Protocol.Server.{ServerEndpoint, ServerSignal, ServerSend}
use vmnetx.Protocol.Guards.{All, IsPublic, dispatch-IsPublic}
use vmnetx.Controller.{VmState}
use vmnetx.Server.Connection
use vmnetx.Server.Connection.{
  Facts, ServerConnection, send, shutdown, set_controller, handle, handle_all, answer_error,
  message, attached, closed, fail_controller, controller_signal, Event, step, run,
}

-- The two messages that anyone may get.
abbrev pub is_refusal : MessageType → Bool
is_refusal MessageType.auth_failed = true
is_refusal MessageType.error = true
is_refusal _ = false

abbrev pub all_refusals : List Message → Bool
all_refusals [] = true
all_refusals (m ∷ ms) = is_refusal m.mtype && all_refusals ms

pub record Inv (s : ServerConnection) : Type 0 where
  pub known : s.controller ≡ s.endp.authenticated
  pub subscribed_is : s.subscribed ≡ true → s.controller ≡ true
  pub forwarding_is :
      s.forwarding ≡ true
      → (s.subscribed ≡ false)
        × (s.protocol_disabled ≡ true)
        × (s.controller ≡ true)
        × (s.attaching ≡ false)
  pub attaching_is :
      s.attaching ≡ true
      → (s.protocol_disabled ≡ true) × (s.controller ≡ true) × (s.forwarding ≡ false)
  pub refusals : s.controller ≡ false → all_refusals s.sent ≡ true

-- What a client that is not authenticated made the endpoint emit is public.
abbrev Guarded : ServerConnection → List (Effect ServerSignal) → Type 0
Guarded s effects = s.controller ≡ false → All IsPublic effects

abbrev Kept : ServerConnection → ServerConnection → Type 0
Kept s t = Inv t × (t.forwarding ≡ false) × (t.controller ≡ s.controller)

handle-Kept :
    (vm : VmState) (x : ServerSignal) (s : ServerConnection)
    → s.forwarding ≡ false
    → (s.controller ≡ false → IsPublic (emit x))
    → Inv s
    → Kept s (handle vm x s)
unfolding handle send shutdown Server.send Server.sent
handle-Kept vm (ServerSignal.authenticate token) s d p v = ground arith
handle-Kept vm ServerSignal.attach_viewer s d p v = ground arith
handle-Kept vm ServerSignal.start_vm s d p v = ground arith
handle-Kept vm ServerSignal.stop_vm s d p v = ground arith
handle-Kept vm ServerSignal.destroy_vm s d p v = ground arith
handle-Kept vm ServerSignal.ping s d p v = ground arith
handle-Kept vm (ServerSignal.error m) s d p v = ground arith

handle_all-Inv :
    (vm : VmState) (effects : List (Effect ServerSignal)) (s : ServerConnection)
    → s.forwarding ≡ false
    → Guarded s effects
    → Inv s
    → Inv (handle_all vm effects s)
unfolding handle_all
handle_all-Inv vm [] s d p v = v
handle_all-Inv vm (transmit m ∷ effects) s d p v =
    handle_all-Inv vm effects (record s { sent = m ∷ s.sent }) d (λ h. (p h).1)
      (let q : s.controller ≢ false = λ h. (p h).0 in ground arith)
handle_all-Inv vm (emit x ∷ effects) s d p v =
    let k = handle-Kept vm x s d (λ h. (p h).0) v in
    handle_all-Inv vm effects (handle vm x s) k.1 (λ h. (p (sym k.2 ∙ h)).1) k.0

if_Inv :
    (b : Bool) (s t : ServerConnection)
    → (b ≡ true → Inv s)
    → (b ≡ false → Inv t)
    → Inv (if b then s else t)
if_Inv true s t f g = f refl
if_Inv false s t f g = g refl

answer_error-Inv : (r : Option MessageError) (s : ServerConnection) → Inv s → Inv (answer_error r s)
unfolding send Server.send Server.sent
answer_error-Inv none s v = v
answer_error-Inv (some e) s v = ground arith

message-Inv :
    (vm : VmState) (t : MessageType) (fields : List (String × Value)) (s : ServerConnection)
    → Inv s
    → Inv (message vm t fields s)
unfolding message
message-Inv vm t fields s v =
    if_Inv s.is_open _ s
      (λ o.
        if_Inv s.protocol_disabled s _ (λ h. v)
          (λ h.
            let d = Server.dispatch s.endp t fields in
            answer_error-Inv d.raised (handle_all vm d.effects s) (
              handle_all-Inv vm d.effects s (ground arith)
                (λ k. dispatch-IsPublic s.endp t fields (sym v.known ∙ k)) v)))
      (λ o. v)

attached-Inv :
    (sock : Bool) (s : ServerConnection) → s.attaching ≡ true → Inv s → Inv (attached sock s)
unfolding attached send Server.send Server.sent
attached-Inv true s h v = ground arith
attached-Inv false s h v = ground arith

step-Inv : (s : ServerConnection) (e : Event) → Inv s → Inv (step s e)
unfolding step set_controller attached closed fail_controller controller_signal Connection.destroy
    shutdown send Server.send Server.sent
step-Inv s (Event.hears vm t fields) v = message-Inv vm t fields s v
step-Inv s (Event.gets_controller f vm) v = ground arith
step-Inv s (Event.attaches sock) v = if_Inv s.attaching _ s (λ h. attached-Inv sock s h v) (λ h. v)
step-Inv s (Event.signals x) v = ground arith
step-Inv s Event.fails v = ground arith
step-Inv s Event.destroys v = ground arith
step-Inv s Event.shuts_down v = ground arith
step-Inv s Event.closes v = ground arith

run-Inv : (es : List Event) (s : ServerConnection) → Inv s → Inv (run s es)
unfolding run
run-Inv [] s v = v
run-Inv (e ∷ es) s v = run-Inv es (step s e) (step-Inv s e v)

new-Inv : Inv Connection.new
unfolding Connection.new Server.new
new-Inv = ground arith

-- Whatever happens, in any order: a client that was given no controller has been sent nothing but
-- refusals and errors, and is not authenticated at its endpoint.
pub refusals_lem :
    (es : List Event)
    → (run Connection.new es).controller ≡ false
    → ((run Connection.new es).endp.authenticated ≡ false)
      × (all_refusals (run Connection.new es).sent ≡ true)
refusals_lem es h = let v = run-Inv es Connection.new new-Inv in (sym v.known ∙ h, v.refusals h)

-- The refusal of an authentication that was waiting for a controller, or for the failure of one.
abbrev pub Refuses : Event → List Message → List Message → Type 0
Refuses e old new =
    (m : Message) × (new ≡ m ∷ old)
    × (is_refusal m.mtype ≡ true)
    × ((e ≡ Event.fails) ⊎ ((f : Facts) × (vm : VmState) × (e ≡ Event.gets_controller f vm)))

still :
    (s : ServerConnection) (e : Event)
    → s.forwarding ≡ true
    → Inv s
    → ((step s e).sent ≡ s.sent) ⊎ Refuses e s.sent (step s e).sent
unfolding step message closed controller_signal Connection.destroy shutdown fail_controller send
    set_controller Server.sent
still s (Event.hears vm t fields) h v = inl (ground arith)
still s (Event.gets_controller f vm) h v =
    let k = (v.forwarding_is h).2 in
    elim (Bool-cases s.is_open) [
      | inl o ↦ inr (
        Server.sent (ServerSend.send_error "Already authenticated"),
        simp (k, o) refl,
        refl,
        inr (f, vm, refl),
      )
      | inr o ↦ inl (simp (k, o) refl)
    ]
still s (Event.attaches sock) h v = inl (ground arith)
still s (Event.signals x) h v = inl (ground arith)
still s Event.fails h v = elim (Bool-cases s.is_open) [
  | inl o ↦ inr (
    Server.sent (ServerSend.auth_failed (Message.string "Authentication failed")),
    simp o refl,
    refl,
    inl refl,
  )
  | inr o ↦ inl (simp o refl)
]
still s Event.destroys h v = inl (ground arith)
still s Event.shuts_down h v = inl (ground arith)
still s Event.closes h v = inl (ground arith)

-- Whatever has happened, in any order: once the viewer's stream is forwarded, an event puts no message
-- into it, but where an authentication of this client was waiting for its instance's controller: then its
-- failure, or that the client is authenticated already, is sent.
pub forwarding-sent :
    (es : List Event) (e : Event)
    → (run Connection.new es).forwarding ≡ true
    → ((step (run Connection.new es) e).sent ≡ (run Connection.new es).sent)
      ⊎ Refuses e (run Connection.new es).sent (step (run Connection.new es) e).sent
forwarding-sent es e h = still (run Connection.new es) e h (run-Inv es Connection.new new-Inv)

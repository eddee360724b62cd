-- ===== src/Protocol/Guards.antt =====
-- What the endpoints of vmnetx/protocol.py let through, by their state.
use Prim.Native.String.{String}
use vmnetx.Prelude.{
  ◌≡◌, refl, Bool, true, false, Option, none, some, List, [], ◌∷◌, ◌⊎◌, inl, inr, ◌↔◌, sym, subst,
  Bool-cases, if◌then◌else◌, arith,
}
use vmnetx.Protocol.Message
use vmnetx.Protocol.Message.{
  Value, MessageType, field, MessageError, not_authenticated, invalid_state, Effect, transmit, emit,
}
use vmnetx.Protocol.Server
use vmnetx.Protocol.Server.{ServerSignal, ServerEndpoint}
use vmnetx.Protocol.Client
use vmnetx.Protocol.Client.{
  ClientState, unauthenticated, authenticating, running, attaching, viewer, ClientSignal,
  ClientSend,
}

-- What a client that is not authenticated can make the server do: take a token, or report an error.
abbrev pub IsPublic : Effect ServerSignal → Type 0
IsPublic (emit (ServerSignal.authenticate _)) = Unit
IsPublic (emit (ServerSignal.error _)) = Unit
IsPublic _ = ⊥

abbrev pub All : {A : Type 0} → (A → Type 0) → List A → Type 0
All P [] = Unit
All P (x ∷ xs) = P x × All P xs

token_IsPublic :
    (s : ServerEndpoint) (o : Option Value)
    → All IsPublic (Message.emit_field s ServerSignal.authenticate o).effects
token_IsPublic s none = tt
token_IsPublic s (some v) = (tt, tt)

error_IsPublic :
    (s : ServerEndpoint) (o : Option Value)
    → All IsPublic (Message.emit_field s ServerSignal.error o).effects
error_IsPublic s none = tt
error_IsPublic s (some v) = (tt, tt)

need_auth-IsPublic :
    (s : ServerEndpoint) (effects : List (Effect ServerSignal))
    → s.authenticated ≡ false
    → All IsPublic (Server.need_auth s effects).effects
need_auth-IsPublic s effects h =
    subst
      (λ b.
        All IsPublic
          (if b then Message.done s effects else Message.fail s not_authenticated).effects)
      (sym h) tt

-- Before authentication every message, of whatever type, has public effects only: no signal that
-- starts, stops, destroys or attaches to the machine, and no reply.
pub dispatch-IsPublic :
    (s : ServerEndpoint) (t : MessageType) (fields : List (String × Value))
    → s.authenticated ≡ false
    → All IsPublic (Server.dispatch s t fields).effects
unfolding Server.dispatch
dispatch-IsPublic s MessageType.authenticate fields h = token_IsPublic s (field "token" fields)
dispatch-IsPublic s MessageType.error fields h = error_IsPublic s (field "message" fields)
dispatch-IsPublic s MessageType.attach_viewer fields h = need_auth-IsPublic s _ h
dispatch-IsPublic s MessageType.start_vm fields h = need_auth-IsPublic s _ h
dispatch-IsPublic s MessageType.stop_vm fields h = need_auth-IsPublic s _ h
dispatch-IsPublic s MessageType.destroy_vm fields h = need_auth-IsPublic s _ h
dispatch-IsPublic s MessageType.ping fields h = need_auth-IsPublic s _ h
dispatch-IsPublic s _ fields h = tt

-- The messages that want authentication.
abbrev pub is_privileged : MessageType → Bool
is_privileged MessageType.attach_viewer = true
is_privileged MessageType.start_vm = true
is_privileged MessageType.stop_vm = true
is_privileged MessageType.destroy_vm = true
is_privileged MessageType.ping = true
is_privileged _ = false

-- A message is refused for want of authentication exactly when it is privileged and the client is
-- not authenticated; no message changes the flag.
pub dispatch-not_authenticated :
    (s : ServerEndpoint) (t : MessageType) (fields : List (String × Value))
    → (((Server.dispatch s t fields).raised ≡ some not_authenticated)
        ↔ ((is_privileged t ≡ true) × (s.authenticated ≡ false)))
      × ((Server.dispatch s t fields).state ≡ s)
unfolding Server.dispatch
dispatch-not_authenticated s t fields = ground arith

-- The edges of the client's state diagram.
pub data Edge : ClientState → ClientState → Type 0 where
  begin : Edge unauthenticated authenticating
  accept : Edge authenticating running
  refuse : Edge authenticating unauthenticated
  attach : Edge running attaching
  attached : Edge attaching viewer

-- An incoming message of any type either leaves the state or follows an edge.
pub dispatch-Edge :
    (s : ClientState) (t : MessageType) (fields : List (String × Value))
    → ((Client.dispatch s t fields).state ≡ s) ⊎ Edge s (Client.dispatch s t fields).state
unfolding Client.dispatch
dispatch-Edge s t fields = grind (arith, begin, accept, refuse, attach, attached)

-- The states in which the client's handlers may see a signal.
abbrev pub IsExpected : ClientState → Effect ClientSignal → Type 0
IsExpected s (transmit m) = ⊥
IsExpected s (emit (ClientSignal.auth_ok _ _ _ _ _)) = s ≡ authenticating
IsExpected s (emit (ClientSignal.auth_failed _)) = s ≡ authenticating
IsExpected s (emit ClientSignal.attaching_viewer) = s ≡ attaching
IsExpected s (emit ClientSignal.pong) = Unit
IsExpected s (emit (ClientSignal.error _)) = Unit
IsExpected s (emit _) = s ≡ running

need_state-IsExpected :
    (needed s : ClientState) (rest : Client.Outcome)
    → (s ≡ needed → All (IsExpected s) rest.effects)
    → All (IsExpected s) (Client.need_state needed s rest).effects
need_state-IsExpected needed s rest h = elim (Bool-cases (Client.same_state s needed)) [
  | inl e ↦
      subst (λ b. All (IsExpected s) (if b then rest else Message.fail s invalid_state).effects)
        (sym e) (h (ground arith))
  | inr e ↦
      subst (λ b. All (IsExpected s) (if b then rest else Message.fail s invalid_state).effects)
        (sym e) tt
]

emit_field-IsExpected :
    (s s' : ClientState) (signal : Value → ClientSignal) (o : Option Value)
    → ((v : Value) → IsExpected s (emit (signal v)))
    → All (IsExpected s) (Message.emit_field s' signal o).effects
emit_field-IsExpected s s' signal none h = tt
emit_field-IsExpected s s' signal (some v) h = (h v, tt)

auth_ok-IsExpected :
    (s : ClientState) (fields : List (String × Value)) (o p : Option Value)
    → s ≡ authenticating
    → All (IsExpected s) (Client.emit_auth_ok fields o p).effects
auth_ok-IsExpected s fields none p e = tt
auth_ok-IsExpected s fields (some v) none e = tt
auth_ok-IsExpected s fields (some v) (some w) e = (e, tt)

vm_ended-IsExpected :
    (s : ClientState) (signal : ClientSignal)
    → (s ≡ running → IsExpected s (emit signal))
    → All (IsExpected s) (Client.vm_ended s signal).effects
vm_ended-IsExpected attaching signal h = tt
vm_ended-IsExpected running signal h = (h refl, tt)
vm_ended-IsExpected _ signal h = tt

-- Whatever the server sends, and in whatever order: the client's handlers see the outcome of the
-- authentication only while it is under way, the attaching of a viewer only when it was asked for,
-- and all signals about the machine only in the running state; and `_dispatch` itself sends no message
-- (a message that it raises an error for is answered by `_recv`).
pub dispatch-IsExpected :
    (s : ClientState) (t : MessageType) (fields : List (String × Value))
    → All (IsExpected s) (Client.dispatch s t fields).effects
unfolding Client.dispatch
dispatch-IsExpected s MessageType.auth_ok fields =
    need_state-IsExpected authenticating s _
      (auth_ok-IsExpected s fields (field "state" fields) (field "name" fields))
dispatch-IsExpected s MessageType.auth_failed fields =
    need_state-IsExpected authenticating s _ (λ e.
      emit_field-IsExpected s unauthenticated ClientSignal.auth_failed (field "error" fields)
        (λ v. e))
dispatch-IsExpected s MessageType.attaching_viewer fields =
    need_state-IsExpected attaching s _ (λ e. (e, tt))
dispatch-IsExpected s MessageType.startup_progress fields = need_state-IsExpected running s _ (λ e.
    emit_field-IsExpected s s ClientSignal.startup_progress (field "fraction" fields) (λ v. e))
dispatch-IsExpected s MessageType.startup_rejected_memory fields =
    need_state-IsExpected running s _ (λ e. (e, tt))
dispatch-IsExpected s MessageType.startup_failed fields =
    need_state-IsExpected running s _
      (λ e. emit_field-IsExpected s s ClientSignal.startup_failed (field "message" fields) (λ v. e))
dispatch-IsExpected s MessageType.vm_started fields =
    need_state-IsExpected running s _ (λ e.
      emit_field-IsExpected s s ClientSignal.vm_started (field "check_display" fields) (λ v. e))
dispatch-IsExpected s MessageType.vm_stopped fields =
    vm_ended-IsExpected s ClientSignal.vm_stopped (λ e. e)
dispatch-IsExpected s MessageType.vm_destroyed fields =
    vm_ended-IsExpected s ClientSignal.vm_destroyed (λ e. e)
dispatch-IsExpected s MessageType.pong fields = (tt, tt)
dispatch-IsExpected s MessageType.error fields =
    emit_field-IsExpected s s ClientSignal.error (field "message" fields) (λ v. tt)
dispatch-IsExpected s _ fields = tt

-- ===== src/Controller/Viewer/Answers.antt =====
-- The callback of `_ViewerConnection` of vmnetx/controller/remote.py is called once.
use Prim.Native.String.{String}
use vmnetx.Prelude.{◌≡◌, Bool, true, false, List, [], ◌∷◌, length, arith, if◌then◌else◌}
use vmnetx.Protocol.Message.{Effect, transmit, emit}
use vmnetx.Protocol.Client
use vmnetx.Protocol.Client.{ClientSignal}
use vmnetx.Controller.Viewer
use vmnetx.Controller.Viewer.{
  ViewerConnection, Answer, sock, failure, fail, handle, handle_all, message, Event, hears, closes,
  step, run,
}

-- Exactly one answer has been given, or the callback is still there.
pub record IsValid (v : ViewerConnection) : Type 0 where
  pub once : length v.answers ≡ (if v.callback then 0 else 1)
  pub forwarded : v.forwarding ≡ true → v.answers ≡ sock ∷ []
  pub unanswered : v.callback ≡ true → v.is_shut ≡ false

fail-IsValid : (v : ViewerConnection) → IsValid v → IsValid (fail v)
unfolding fail
fail-IsValid v h = ground arith

handle-IsValid : (x : ClientSignal) (v : ViewerConnection) → IsValid v → IsValid (handle x v)
unfolding handle fail Client.send
handle-IsValid (ClientSignal.auth_ok state name rate low high) v h = ground arith
handle-IsValid (ClientSignal.auth_failed e) v h = ground arith
handle-IsValid ClientSignal.attaching_viewer v h = ground arith
handle-IsValid (ClientSignal.error e) v h = ground arith
handle-IsValid (ClientSignal.startup_progress x) v h = h
handle-IsValid _ v h = h

handle_all-IsValid :
    (effects : List (Effect ClientSignal)) (v : ViewerConnection)
    → IsValid v
    → IsValid (handle_all effects v)
unfolding handle_all
handle_all-IsValid [] v h = h
handle_all-IsValid (transmit m ∷ effects) v h =
    handle_all-IsValid effects (record v { sent = m ∷ v.sent }) (ground arith)
handle_all-IsValid (emit x ∷ effects) v h =
    handle_all-IsValid effects (handle x v) (handle-IsValid x v h)

if_IsValid :
    (b : Bool) (v w : ViewerConnection) → IsValid v → IsValid w → IsValid (if b then v else w)
if_IsValid true v w h k = h
if_IsValid false v w h k = k

step-IsValid : (v : ViewerConnection) (e : Event) → IsValid v → IsValid (step v e)
unfolding step message
step-IsValid v (hears t fields) h = if_IsValid v.is_shut _ _ h (
    if_IsValid v.forwarding _ _ h (
      handle_all-IsValid (Client.dispatch v.client t fields).effects
        (record v { client = (Client.dispatch v.client t fields).state }) (ground arith)))
step-IsValid v closes h = fail-IsValid v h

run-IsValid : (es : List Event) (v : ViewerConnection) → IsValid v → IsValid (run v es)
unfolding run
run-IsValid [] v h = h
run-IsValid (e ∷ es) v h = run-IsValid es (step v e) (step-IsValid v e h)

new-IsValid : (token : String) → IsValid (Viewer.new token)
unfolding Viewer.new Client.send
new-IsValid token = ground arith

closes-answered : (v : ViewerConnection) → (step v closes).callback ≡ false
unfolding step fail
closes-answered v = ground arith

-- Whatever the server sends, in any order, and whether or not the connection closes: the callback
-- is called at most once, with a socket if the stream was handed over; and once the connection has
-- closed it has been called exactly once.
pub answers_lem :
    (token : String) (es : List Event)
    → (length (run (Viewer.new token) es).answers
        ≡ (if (run (Viewer.new token) es).callback then 0 else 1))
      × ((run (Viewer.new token) es).forwarding ≡ true
          → (run (Viewer.new token) es).answers ≡ sock ∷ [])
      × (length (step (run (Viewer.new token) es) closes).answers ≡ 1)
answers_lem token es =
    let h = run-IsValid es (Viewer.new token) (new-IsValid token) in
    let k = step-IsValid (run (Viewer.new token) es) closes h in
    (h.once, h.forwarded, ground (arith, k.once, closes-answered (run (Viewer.new token) es)))

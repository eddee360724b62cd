-- ===== src/Server/Registry/Shutdown.antt =====
-- `destroy_instance`, `get_status` and `shutdown` of `VMNetXServer` of vmnetx/server/__init__.py, and when
-- the server says that it is shut down.
use vmnetx.Prelude.{ℕ, Bool, true, false, not, Option, none, some, List, [], ◌∷◌, if◌then◌else◌}
use vmnetx.Server.Instance
use vmnetx.Server.Instance.{Instance}
use vmnetx.Server.Registry.{Entry, Server, same, find, check_shutdown, close, keep, after_loop}

-- What happens to one instance; `_destroy_instance_cb` deletes it if it emits 'destroy'.
unfoldable pub change : List ℕ → (Instance → Instance) → List Entry → List Entry
unfolding same
change id f [] = []
change id f (e ∷ es) =
    let rest = change id f es in if same e.id id then keep e (f e.instance) es else e ∷ rest

unfoldable pub change_instance : List ℕ → (Instance → Instance) → Server → Server
unfolding check_shutdown change
change_instance id f s = after_loop (change id f s.instances) s

-- The outcome of `destroy_instance`.
pub data Reply : Type 0 where
  unavailable key_error done : Reply

abbrev pub reply_of : Option Entry → Reply
reply_of none = key_error
reply_of (some e) = done

unfoldable pub destroy_instance : List ℕ → (ℕ → Bool) → Server → Reply × Server
unfolding change_instance find
destroy_instance id closes s =
    if not s.running
    then (unavailable, s)
    else (reply_of (find id s.instances), change_instance id (Instance.shutdown closes) s)

-- `_get_status`, without the texts that come from the package and the clock.
pub record InstanceStatus : Type 0 where
  pub id : List ℕ
  pub status : Instance.Status
  pub last_seen : ℕ

unfoldable pub statuses : List Entry → List InstanceStatus
unfolding Instance.status
statuses [] = []
statuses (e ∷ es) =
    record { id = e.id; status = Instance.status e.instance; last_seen = e.instance.last_seen }
    ∷ statuses es

unfoldable pub get_status : Server → Option (List InstanceStatus)
unfolding statuses
get_status s = if not s.running then none else some (statuses s.instances)

-- The loop of `shutdown` over the instances.
unfoldable pub shut_instances : (ℕ → Bool) → List Entry → List Entry
shut_instances closes [] = []
shut_instances closes (e ∷ es) =
    keep e (Instance.shutdown closes e.instance) (shut_instances closes es)

-- Its loop over the connections that are not authenticated.
unfoldable pub shut_conns : (ℕ → Bool) → List ℕ → Server → Server
unfolding close
shut_conns closes [] s = s
shut_conns closes (c ∷ cs) s = shut_conns closes cs (if closes c then close c s else s)

unfoldable pub shutdown : (ℕ → Bool) → Server → Server
unfolding check_shutdown shut_instances shut_conns
shutdown closes s =
    let s1 = record s {
      running = false;
      shutting_down = true;
      listening = false;
      collecting = false;
    } in
    let s2 = after_loop (shut_instances closes s1.instances) s1 in
    check_shutdown (shut_conns closes s2.unauthenticated s2)

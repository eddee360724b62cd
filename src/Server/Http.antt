-- ===== src/Server/Http.antt =====
-- `HttpServer` of vmnetx/server/http.py: the requests that create, list and destroy instances. The
-- opening of the package, which reads the network, is a parameter.
pub mod Access
use Prim.Native.String.{String}
use text.Mathlib.Text.{◌==◌ as str_eq}
use vmnetx.Prelude.{
  ℕ, Bool, true, false, not, Option, none, some, List, [], ◌∷◌, ◌++◌, ◌==◌, if◌then◌else◌,
}
use vmnetx.Server.Instance
use vmnetx.Server.Registry
use vmnetx.Server.Registry.{Server, slash, create_instance}
use vmnetx.Server.Registry.Shutdown
use vmnetx.Server.Registry.Shutdown.{InstanceStatus, get_status, destroy_instance}

-- The reasons of the answers with a status code of 400 and more.
pub data Refusal : Type 0 where
  unavailable missing_key incorrect_key invalid_json missing_argument not_found internal_error :
      Refusal

-- The link to a new instance; without the port where it is the default one.
pub record Link : Type 0 where
  pub hostname : String
  pub port : Option ℕ
  pub path : List ℕ

pub data Response : Type 0 where
  refused : Refusal → Response
  status : List InstanceStatus → Response
  created : Link → List ℕ → Response
  no_content : Response

unfoldable pub status_code : Response → ℕ
status_code (refused unavailable) = 503
status_code (refused missing_key) = 403
status_code (refused incorrect_key) = 403
status_code (refused invalid_json) = 400
status_code (refused missing_argument) = 400
status_code (refused not_found) = 404
status_code (refused internal_error) = 500
status_code (status xs) = 200
status_code (created url id) = 200
status_code no_content = 204

pub record Options : Type 0 where
  pub secret_key : String
  pub host : String
  pub port : ℕ

-- `DEFAULT_PORT`.
abbrev pub default_port : ℕ
default_port = 18923

-- The body of a request: not JSON, or an object with an 'url' or without.
pub data Body : Type 0 where
  not_json no_url : Body
  with_url : String → Body

pub data Request : Type 0 where
  get_instances : Request
  post_instance : Body → Request
  delete_instance : List ℕ → Request

-- What a request brings from outside: random numbers for an instance, the time, the connections that
-- close while they are destroyed, and whether the package at an URL can be opened.
pub record World : Type 0 where
  pub id : List ℕ
  pub authcode : List ℕ
  pub now : ℕ
  pub closes : ℕ → Bool
  pub opens : String → Bool

abbrev pub Handled : Type 0
Handled = Response × Server

-- The decorator `_check_running`.
abbrev pub check_running : Server → Handled → Handled
check_running s r = if not s.running then (refused unavailable, s) else r

-- The decorator `_need_auth`, on the header's value.
abbrev pub need_auth : Options → Option String → Server → Handled → Handled
need_auth o none s r = (refused missing_key, s)
need_auth o (some key) s r = if not (str_eq key o.secret_key) then (refused incorrect_key, s) else r

abbrev pub listed : Option (List InstanceStatus) → Response
listed none = refused unavailable
listed (some xs) = status xs

abbrev pub link : Options → List ℕ → List ℕ → Link
link o id authcode = record {
  hostname = o.host;
  port = if o.port == default_port then none else some o.port;
  path = slash ∷ (id ++ slash ∷ authcode);
}

-- `lstrip('/')`, by which `RemoteController` of vmnetx/controller/remote.py reads the token from the path.
unfoldable pub lstrip : List ℕ → List ℕ
lstrip [] = []
lstrip (c ∷ cs) = let rest = lstrip cs in if c == slash then rest else c ∷ cs

abbrev pub creation : Options → World → Server → Option Server → Handled
creation o w s none = (refused unavailable, s)
creation o w s (some s') = (created (link o w.id w.authcode) w.id, s')

-- An exception that no handler catches is Flask's answer 500.
abbrev pub create : Options → World → Body → Server → Handled
create o w not_json s = (refused invalid_json, s)
create o w no_url s = (refused missing_argument, s)
create o w (with_url url) s =
    if w.opens url
    then creation o w s (create_instance w.id w.authcode w.now s)
    else (refused internal_error, s)

abbrev pub deleted : Shutdown.Reply × Server → Handled
deleted (Shutdown.unavailable, s) = (refused unavailable, s)
deleted (Shutdown.key_error, s) = (refused not_found, s)
deleted (Shutdown.done, s) = (no_content, s)

-- `_status`, `_create_instance` and `_destroy_instance`, without their decorators.
unfoldable pub respond : Options → World → Request → Server → Handled
unfolding get_status create_instance destroy_instance
respond o w get_instances s = (listed (get_status s), s)
respond o w (post_instance body) s = create o w body s
respond o w (delete_instance id) s = deleted (destroy_instance id w.closes s)

unfoldable pub serve : Options → World → Option String → Request → Server → Handled
unfolding respond
serve o w key r s = check_running s (need_auth o key s (respond o w r s))

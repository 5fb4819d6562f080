-- ===== src/Http.antt =====
-- internal/httpapi: requests and replies, the state of the handler, and what it uses of the
-- libraries. A request is served in steps between which other requests and jobs may run; such a
-- gap is an argument `others` of the handler that has it.
pub mod Names
pub mod View
pub mod Access
pub mod Proxy
pub mod Jobs
pub mod Api
pub mod Serve
pub mod Safety
pub mod Sessions
pub mod Accepted
pub mod Closed
use cf_herdr_poc.Base.{
  ℕ, String, Bytes, codes, Bool, true, false, Option, none, some, List, [], ◌∷◌, Err, if◌then◌else◌,
  str_eq, ◌*◌,
}
use cf_herdr_poc.Base.Exec.{Result}
use cf_herdr_poc.Store.{File, Tail}

-- A header with its canonical name.
abbrev pub Headers : Type 0
Headers = List (String × Bytes)

-- `path` is `URL.Path`, `tls` tells whether `TLS` is not nil.
pub record Request : Type 0 where
  pub host : Bytes
  pub path : String
  pub method : String
  pub headers : Headers
  pub tls : Bool
  pub body : Bytes

-- The fields of a parsed URL that are looked at. `has_user` is `User != nil`; `bare` is the text of
-- the URL without user, query and fragment.
pub record Url : Type 0 where
  pub scheme : Bytes
  pub host : Bytes
  pub has_user : Bool
  pub query : Bytes
  pub fragment : Bytes
  pub bare : Bytes

pub record CreateInput : Type 0 where
  pub name : String
  pub repository : String
  pub buildpack : String

-- Go's libraries: net/url, net, mime, strings, encoding/json behind `MaxBytesReader` with unknown
-- fields refused, crypto/hmac in base64, `Request.Cookie`, the director of a single-host proxy.
pub record Library : Type 0 where
  pub parse_url : Bytes → Option Url
  pub is_ip : Bytes → Bool
  pub split_host_port : Bytes → Option Bytes
  pub to_lower : Bytes → Bytes
  pub equal_fold : Bytes → Bytes → Bool
  pub media_type : Bytes → Option Bytes
  pub decode_create : ℕ → Bytes → Result Err (CreateInput × Tail)
  pub decode_token : ℕ → Bytes → Result Err (Bytes × Tail)
  pub sign : Bytes → Bytes → Bytes
  pub find_cookie : String → Headers → Option Bytes
  pub direct : Request → Request
  pub redact : Bytes → Bytes

pub record Config : Type 0 where
  pub buildpacks : List String
  pub manager_pack_host : Bytes
  pub manager_token : Bytes
  pub trust_forwarded_proto : Bool
  pub has_web : Bool

pub data Job : Type 0 where
  reconcile retry : String → Job

-- `jobs` holds the jobs that were started, the latest first.
pub record Handler (W : Type 0) : Type 0 where
  pub file : File W
  pub closed : Bool
  pub jobs : List Job

abbrev pub max_request_body : ℕ
max_request_body = 64 * 1024

abbrev pub session_cookie : String
session_cookie = "manager_session"

abbrev pub session_context : Bytes
session_context = codes "cf-herdr-poc manager browser session v1"

-- `Header.Get`: the first value of the name, or nothing.
unfoldable pub header : String → Headers → Bytes
header name [] = []
header name ((key, value) ∷ rest) =
    let later = header name rest in if str_eq key name then value else later

-- ===== src/Examples/Requests.antt =====
-- A manager behind HTTP, with libraries that know a few texts.
use cf_herdr_poc.Base.{
  String, Bytes, codes, Bool, true, false, ◌≡◌, ◌≢◌, refl, ◌⊎◌, Option, none, some, List, [], ◌∷◌,
  Err, error_new, bytes_eq, str_eq, if◌then◌else◌,
}
use cf_herdr_poc.Base.Exec.{ok, err}
use cf_herdr_poc.Store
use cf_herdr_poc.Store.{File, Tail, eof}
use cf_herdr_poc.Http.{
  max_request_body, Request, Url, CreateInput, Library, Config, Headers, Handler, Job, reconcile,
  header, session_cookie,
}
use cf_herdr_poc.Http.Access.{session, issue, authorize, derive_session, is_secure}
use cf_herdr_poc.Http.Api.{sandboxes, delete_sandbox}
use cf_herdr_poc.Http.Serve.{serve}
use cf_herdr_poc.Http.Safety.{Guarded, serve-Guarded}
use cf_herdr_poc.Http.Sessions.{session_issued}
use cf_herdr_poc.Http.Accepted.{Accepted, sandboxes-Accepted, Marked, delete_sandbox-Marked}
use cf_herdr_poc.Http.Closed.{Frozen, serve-Frozen}
use cf_herdr_poc.Examples.Stores.{Machine, disk, blank}

-- The only body of a sandbox is `blue`, any other body is a token.
abbrev lib : Library
lib = record {
  parse_url = λ s. some record {
    scheme = codes "https";
    host = codes "example.com";
    has_user = false;
    query = [];
    fragment = [];
    bare = s;
  };
  is_ip = λ s. false;
  split_host_port = λ s. none;
  to_lower = λ s. s;
  equal_fold = bytes_eq;
  media_type = λ s. some s;
  decode_create = λ n s.
      if bytes_eq s (codes "blue")
      then ok
          (record { name = "blue"; repository = "https://example.com/blue"; buildpack = "go" }, eof)
      else err (error_new "invalid");
  decode_token = λ n s. ok (s, eof);
  sign = λ key s. key;
  find_cookie = λ name h. some (header "Cookie" h);
  direct = λ r. r;
  redact = λ s. s;
}

abbrev config : Config
config = record {
  buildpacks = "go" ∷ [];
  manager_pack_host = codes "pack.example.com";
  manager_token = codes "secret";
  trust_forwarded_proto = true;
  has_web = true;
}

abbrev closed_handler : Handler Machine
closed_handler = record { file = blank; closed = true; jobs = [] }

abbrev open_handler : Handler Machine
open_handler = record { file = blank; closed = false; jobs = [] }

abbrev request : String → String → Headers → String → Request
request method path headers body = record {
  host = codes "manager.example.com";
  path = path;
  method = method;
  headers = headers;
  tls = true;
  body = codes body;
}

abbrev json : Headers
json = ("Content-Type", codes "application/json") ∷ ("Cookie", codes "secret") ∷ []

abbrev log_in : Request
log_in = request "POST" "/manager/api/session" json "secret"

abbrev with_session : Request
with_session = request "GET" "/api/state" (("Cookie", codes "secret") ∷ []) ""

abbrev post_blue : Request
post_blue = request "POST" "/manager/api/sandboxes" json "blue"

-- `blue` is there.
abbrev with_blue : Handler Machine
with_blue = (sandboxes disk lib config (λ w. 7) (λ i s. s) post_blue open_handler).0

session_issued_example :
    (tail : Tail) × (lib.decode_token 65536 log_in.body ≡ ok (codes "secret", tail))
    × (is_secure lib config log_in ≡ true)
    × (codes "secret" ≡ derive_session lib (codes "secret"))
unfolding session
session_issued_example = session_issued lib config log_in refl

serve-Guarded_example :
    Guarded disk lib config
      (λ w. 7)
      (λ w. true)
      (λ i s. s)
      post_blue
      open_handler
      (serve disk lib config (λ w. 7) (λ w. true) (λ i s. s) post_blue open_handler)
serve-Guarded_example =
    serve-Guarded disk lib config (λ w. 7) (λ w. true) (λ i s. s) post_blue open_handler

sandboxes-Accepted_example :
    Accepted disk lib config
      (λ w. 7)
      (λ i s. s)
      (lib.decode_create max_request_body post_blue.body)
      open_handler
      with_blue
unfolding sandboxes cf_herdr_poc.Http.Access.has_json_content_type
    cf_herdr_poc.Http.Jobs.accepting_jobs cf_herdr_poc.Http.Names.validate_create
    cf_herdr_poc.Cf.name_matches cf_herdr_poc.Cf.contains Store.get cf_herdr_poc.Base.lookup
    Store.create Store.commit Store.write_atomic
sandboxes-Accepted_example =
    sandboxes-Accepted disk lib config (λ w. 7) (λ i s. s) post_blue open_handler refl

delete_sandbox-Marked_example :
    Marked disk lib config
      (λ w. 7)
      (λ i s. s)
      "blue"
      with_blue
      (delete_sandbox disk lib config (λ w. 7) (λ i s. s) "blue" with_blue).0
unfolding delete_sandbox sandboxes cf_herdr_poc.Http.Access.has_json_content_type
    cf_herdr_poc.Http.Jobs.accepting_jobs cf_herdr_poc.Http.Names.validate_create
    cf_herdr_poc.Cf.name_matches cf_herdr_poc.Cf.contains Store.get cf_herdr_poc.Base.lookup
    Store.create Store.commit Store.write_atomic Store.update cf_herdr_poc.Base.insert
    cf_herdr_poc.Http.Api.set_deleted
delete_sandbox-Marked_example =
    delete_sandbox-Marked disk lib config (λ w. 7) (λ i s. s) "blue" with_blue refl

serve-Frozen_example :
    Frozen disk lib config
      (λ w. 7)
      (λ w. true)
      (λ i s. s)
      []
      (serve disk lib config (λ w. 7) (λ w. true) (λ i s. s) post_blue closed_handler).0
serve-Frozen_example =
    serve-Frozen disk lib config (λ w. 7) (λ w. true) (λ i s. s) [] (λ i s h. h) post_blue
      closed_handler (refl, refl)

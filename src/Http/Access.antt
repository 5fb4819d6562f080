-- ===== src/Http/Access.antt =====
-- Who may use the manager: the bearer token, and the session that it is exchanged for.
use cf_herdr_poc.Base.{
  ℕ, String, Bytes, codes, Bool, true, false, not, ◌&&◌, ◌||◌, Option, none, some, List, ◌++◌,
  if◌then◌else◌, bytes_eq, str_eq, is_some, Err,
}
use cf_herdr_poc.Base.Exec.{Result, ok, err}
use cf_herdr_poc.Store.{Tail, ensure_eof}
use cf_herdr_poc.Http.{
  Request, Library, Config, Headers, header, session_cookie, session_context, max_request_body,
}
use cf_herdr_poc.Http.View.{SandboxView}

-- A `Set-Cookie` of the session cookie, which is HttpOnly, Secure and SameSite=Strict.
pub data Cookie : Type 0 where
  issue : Bytes → Cookie
  expire : Cookie

pub data Body : Type 0 where
  nothing : Body
  api_error plain : String → Body
  plain_error : Bytes → Body
  buildpacks : List String → Body
  one : SandboxView → Body
  many : List SandboxView → Body
  status_text : String → Body

-- `allow` and `challenge` are the headers `Allow` and `WWW-Authenticate`.
pub record Response : Type 0 where
  pub status : ℕ
  pub allow : Option String
  pub challenge : Bool
  pub cookie : Option Cookie
  pub body : Body

abbrev pub respond : ℕ → Body → Response
respond status body = record {
  status = status;
  allow = none;
  challenge = false;
  cookie = none;
  body = body;
}

abbrev pub not_allowed : String → Response
not_allowed methods = record (respond 405 (api_error "method not allowed")) { allow = some methods }

abbrev pub unauthorized : Response
unauthorized = respond 401 (api_error "unauthorized")

unfoldable pub derive_session : Library → Bytes → Bytes
derive_session lib token = lib.sign token session_context

unfoldable pub bearer_authorizer : Bytes → Headers → Bool
unfolding header
bearer_authorizer token headers =
    bytes_eq (codes "Bearer " ++ token) (header "Authorization" headers)

module _ (lib : Library) (config : Config) where
  unfoldable pub authorize : Request → Bool
  unfolding bearer_authorizer derive_session
  authorize r =
      if bearer_authorizer config.manager_token r.headers
      then true
      else elim (lib.find_cookie session_cookie r.headers) [
        | none ↦ false
        | some value ↦ bytes_eq value (derive_session lib config.manager_token)
      ]

  unfoldable pub has_json_content_type : Request → Bool
  unfolding header
  has_json_content_type r = elim (lib.media_type (header "Content-Type" r.headers)) [
    | none ↦ false
    | some value ↦ bytes_eq value (codes "application/json")
  ]

  unfoldable pub is_secure : Request → Bool
  unfolding header
  is_secure r =
      r.tls
      || (config.trust_forwarded_proto
          && lib.equal_fold (header "X-Forwarded-Proto" r.headers) (codes "https"))

  -- The decoded token, behind the checks of the JSON.
  unfoldable pub open_session : Request → Bytes → Response
  unfolding is_secure derive_session
  open_session r token =
      if not (bytes_eq config.manager_token token)
      then unauthorized
      else if not (is_secure r)
      then respond 400 (api_error "HTTPS required")
      else record (respond 204 nothing) {
        cookie = some (issue (derive_session lib config.manager_token));
      }

  unfoldable pub decoded_session : Request → Result Err (Bytes × Tail) → Response
  unfolding open_session ensure_eof
  decoded_session r (err e) = respond 400 (api_error "invalid JSON")
  decoded_session r (ok (token, tail)) =
      if is_some (ensure_eof tail)
      then respond 400 (api_error "invalid JSON")
      else open_session r token

  unfoldable pub session : Request → Response
  unfolding has_json_content_type decoded_session
  session r =
      if str_eq r.method "DELETE"
      then record (respond 204 nothing) { cookie = some expire }
      else if not (str_eq r.method "POST")
      then not_allowed "POST, DELETE"
      else if not (has_json_content_type r)
      then respond 415 (api_error "content type must be application/json")
      else decoded_session r (lib.decode_token max_request_body r.body)

-- ===== src/Http/Sessions.antt =====
-- The session cookie: for whom it is issued, and what it is good for.
use cf_herdr_poc.Base.{
  Err, if_both, Bytes, true, ◌≡◌, refl, sym, ap, inl, inr, some, Bool-cases, str_eq, is_some,
  bytes_eq, bytes_eq_refl, bytes_eq-eq,
}
use cf_herdr_poc.Base.Exec.{Result, ok, err}
use cf_herdr_poc.Store.{Tail, ensure_eof}
use cf_herdr_poc.Http.{Request, Library, Config, session_cookie, max_request_body}
use cf_herdr_poc.Http.Access.{
  issue, bearer_authorizer, derive_session, authorize, is_secure, open_session, decoded_session,
  session, has_json_content_type,
}

module _ (lib : Library) (config : Config) where
  open_session_lem :
      (r : Request) (token : Bytes) {v : Bytes}
      → (open_session lib config r token).cookie ≡ some (issue v)
      → (config.manager_token ≡ token)
        × (is_secure lib config r ≡ true)
        × (v ≡ derive_session lib config.manager_token)
  unfolding open_session
  open_session_lem r token h = elim (Bool-cases (bytes_eq config.manager_token token)) [
    | inr p ↦ cc (rw p at h)
    | inl p ↦ elim (Bool-cases (is_secure lib config r)) [
      | inr q ↦ cc (rw q at (rw p at h))
      | inl q ↦ (bytes_eq-eq config.manager_token token p, q, cc (rw q at (rw p at h)))
    ]
  ]

  decoded_session_lem :
      (r : Request) (d : Result Err (Bytes × Tail)) {v : Bytes}
      → (decoded_session lib config r d).cookie ≡ some (issue v)
      → (tail : Tail) × (d ≡ ok (config.manager_token, tail))
        × (is_secure lib config r ≡ true)
        × (v ≡ derive_session lib config.manager_token)
  unfolding decoded_session
  decoded_session_lem r (err e) h = cc
  decoded_session_lem r (ok (token, tail)) h = elim (Bool-cases (is_some (ensure_eof tail))) [
    | inl p ↦ cc (rw p at h)
    | inr p ↦
        let (same, secure, value) = open_session_lem r token (rw p at h) in
        (tail, ap (λ t. ok (t, tail)) (sym same), secure, value)
  ]

  -- A session cookie is issued only to a caller who sends the token of the manager in the body of a
  -- request that came over TLS, or that tells so in X-Forwarded-Proto where that is trusted; its
  -- value is the one derived from the token.
  pub session_issued :
      (r : Request) {v : Bytes}
      → (session lib config r).cookie ≡ some (issue v)
      → (tail : Tail) × (lib.decode_token max_request_body r.body ≡ ok (config.manager_token, tail))
        × (is_secure lib config r ≡ true)
        × (v ≡ derive_session lib config.manager_token)
  unfolding session
  session_issued r h = elim (Bool-cases (str_eq r.method "DELETE")) [
    | inl p ↦ cc (rw p at h)
    | inr p ↦ elim (Bool-cases (str_eq r.method "POST")) [
      | inr q ↦ cc (rw q at (rw p at h))
      | inl q ↦ elim (Bool-cases (has_json_content_type lib config r)) [
        | inr t ↦ cc (rw t at (rw q at (rw p at h)))
        | inl t ↦ decoded_session_lem r _ (rw t at (rw q at (rw p at h)))
      ]
    ]
  ]

  -- A request that carries an issued session cookie is authorized.
  pub authorize-session :
      (r q : Request) {v : Bytes}
      → (session lib config r).cookie ≡ some (issue v)
      → lib.find_cookie session_cookie q.headers ≡ some v
      → authorize lib config q ≡ true
  unfolding authorize
  authorize-session r q {v} h c =
      let value = (session_issued r h).3 in
      if_both (λ b. b ≡ true) (bearer_authorizer config.manager_token q.headers) true _ refl
        (rw (c, value) (bytes_eq_refl (derive_session lib config.manager_token)))

-- ===== src/Http/Serve.antt =====
-- `ServeHTTP` of internal/httpapi/server.go.
use cf_herdr_poc.Base.{
  ℕ, String, Bool, true, false, not, ◌&&◌, ◌||◌, none, some, List, [], ◌∷◌, if◌then◌else◌, str_eq,
  is_some, cut_prefix,
}
use cf_herdr_poc.Store.{FileSystem}
use cf_herdr_poc.Http.{Request, Library, Config, Handler}
use cf_herdr_poc.Http.Names.{canonical_host}
use cf_herdr_poc.Http.Access.{Response, respond, unauthorized, status_text, authorize, session}
use cf_herdr_poc.Http.Proxy.{director}
use cf_herdr_poc.Http.Api.{api}

-- What the caller gets: a response, or what another server answers. `forwarded` holds the request
-- that Collie is sent.
pub data Answer : Type 0 where
  responded : Response → Answer
  redirected : String → Answer
  not_found web : Answer
  forwarded : Request → Answer

unfoldable pub has_prefix : String → String → Bool
unfolding cut_prefix
has_prefix p s = is_some (cut_prefix p s)

abbrev one_of : List String → String → Bool
one_of [] s = false
one_of (t ∷ ts) s = str_eq s t || one_of ts s

-- The files of Collie's user interface.
unfoldable pub is_collie_file : String → Bool
unfolding has_prefix
is_collie_file path =
    has_prefix "/assets/" path
    || has_prefix "/fonts/" path
    || one_of
        ("/theme-init.js" ∷ "/manifest.webmanifest" ∷ "/sw.js" ∷ "/dog-gallop.png" ∷ "/favicon.svg"
          ∷ "/favicon.ico" ∷ "/favicon-96x96.png" ∷ "/apple-touch-icon.png" ∷ [])
        path

unfoldable pub trim_collie : String → String
unfolding cut_prefix
trim_collie path = elim (cut_prefix "/collie" path) [ none ↦ path | some rest ↦ rest ]

module _ {W C : Type 0} (fs : FileSystem W C) (lib : Library) (config : Config) (now : W → ℕ)
    (healthy : W → Bool) (others : ℕ → Handler W → Handler W) where
  abbrev Result : Type 0
  Result = Handler W × Answer

  -- `authorized` with a handler that has run: what it did counts only if the caller may.
  unfoldable pub authorized : Request → Result → Handler W → Result
  authorized r next s =
      if authorize lib config r
      then next
      else (s, responded (record unauthorized { challenge = true }))

  abbrev to_collie : Request → Handler W → Result
  to_collie r s = (s, forwarded (director lib true r))

  unfoldable pub serve_api : Request → Handler W → Result
  unfolding authorized
  serve_api r s =
      let (t, response) = api fs lib config now others r s in
      if str_eq r.path "/manager/api/session"
      then (s, responded (session lib config r))
      else authorized r (t, responded response) s

  unfoldable pub health : Handler W → Answer
  health s =
      if healthy s.file.world
      then responded (respond 200 (status_text "ok"))
      else responded (respond 503 (status_text "unavailable"))

  -- The `switch`.
  unfoldable pub serve_rest : Request → Handler W → Result
  unfolding authorized health is_collie_file trim_collie
  serve_rest r s =
      if str_eq r.path "/"
      then (s, redirected "/manager/")
      else if str_eq r.path "/manager/healthz" && str_eq r.method "GET"
      then (s, health s)
      else if has_prefix "/collie/" r.path
      then authorized r (to_collie (record r { path = trim_collie r.path }) s) s
      else if is_collie_file r.path || has_prefix "/api/" r.path
      then authorized r (to_collie r s) s
      else if has_prefix "/pack/v1/" r.path
      then (s, not_found)
      else if has_prefix "/manager/" r.path && config.has_web
      then (s, web)
      else (s, not_found)

  unfoldable pub serve_public : Request → Handler W → Result
  unfolding serve_api serve_rest
  serve_public r s =
      if str_eq r.path "/manager/api" || has_prefix "/manager/api/" r.path
      then serve_api r s
      else serve_rest r s

  unfoldable pub serve_pack : Request → Answer
  serve_pack r =
      if has_prefix "/pack/v1/" r.path then forwarded (director lib false r) else not_found

  unfoldable pub serve : Request → Handler W → Result
  unfolding serve_public serve_pack canonical_host
  serve r s =
      let (host, fine) = canonical_host lib r.host in
      if not fine
      then (s, not_found)
      else if lib.equal_fold host config.manager_pack_host
      then (s, serve_pack r)
      else serve_public r s

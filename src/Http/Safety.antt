-- ===== src/Http/Safety.antt =====
-- Who reaches the store and Collie through the handler.
use cf_herdr_poc.Base.{
  ℕ, String, codes, Bool, true, false, not, ◌&&◌, ◌||◌, ◌≡◌, refl, ◌⊎◌, inl, inr, [], ◌∷◌,
  Bool-cases, if◌then◌else◌, str_eq, if_both,
}
use cf_herdr_poc.Store.{FileSystem}
use cf_herdr_poc.Http.{Request, Library, Config, Handler, Headers}
use cf_herdr_poc.Http.Names.{canonical_host}
use cf_herdr_poc.Http.Access.{authorize}
use cf_herdr_poc.Http.Proxy.{is_manager_secret}
use cf_herdr_poc.Http.Serve.{
  Answer, responded, redirected, not_found, web, forwarded, has_prefix, is_collie_file, authorized,
  serve_api, health, serve_rest, serve_public, serve_pack, serve,
}

-- An entry of the name.
abbrev has_header : String → Headers → Bool
has_header name [] = false
has_header name ((key, value) ∷ rest) =
    let later = has_header name rest in if str_eq key name then true else later

module _ (lib : Library) where
  -- An entry whose name tells that it is a secret of the manager.
  abbrev has_secret : Headers → Bool
  has_secret [] = false
  has_secret ((key, value) ∷ rest) =
      let later = has_secret rest in
      if is_manager_secret (lib.to_lower (codes key)) then true else later

  -- What Collie is sent carries no cookie, no credentials of a proxy and no header of the manager
  -- that is a secret, and no bearer token unless it is asked to leave that in.
  pub record IsStripped (strip : Bool) (q : Request) : Type 0 where
    pub no_cookie : has_header "Cookie" q.headers ≡ false
    pub no_proxy : has_header "Proxy-Authorization" q.headers ≡ false
    pub no_secret : has_secret q.headers ≡ false
    pub no_token : (strip ≡ false) ⊎ (has_header "Authorization" q.headers ≡ false)

module _ {W C : Type 0} (fs : FileSystem W C) (lib : Library) (config : Config) (now : W → ℕ)
    (healthy : W → Bool) (others : ℕ → Handler W → Handler W) where
  -- The request is for the API that members of the pack call.
  abbrev pub ForPack : Request → Type 0
  ForPack r =
      (lib.equal_fold (canonical_host lib r.host).0 config.manager_pack_host ≡ true)
      × (has_prefix "/pack/v1/" r.path ≡ true)

  -- A caller who is not authorized reaches Collie on this way only.
  abbrev pub Reaches : Request → Answer → Type 0
  Reaches r (forwarded q) = ForPack r
  Reaches r (responded _) = Unit
  Reaches r (redirected _) = Unit
  Reaches r not_found = Unit
  Reaches r web = Unit

  abbrev pub Guarded : Request → Handler W → Handler W × Answer → Type 0
  Guarded r s (t, a) = (authorize lib config r ≡ true) ⊎ ((t ≡ s) × Reaches r a)

  -- What Collie is sent holds no secret of the manager.
  abbrev pub Clean : Request → Handler W × Answer → Type 0
  Clean r (t, forwarded q) = (IsStripped lib true q) ⊎ (ForPack r × IsStripped lib false q)
  Clean r (t, responded _) = Unit
  Clean r (t, redirected _) = Unit
  Clean r (t, not_found) = Unit
  Clean r (t, web) = Unit

  authorized-Guarded :
      (r : Request) (next : Handler W × Answer) (s : Handler W)
      → Guarded r s (authorized fs lib config now healthy others r next s)
  unfolding authorized
  authorized-Guarded r next s = elim (Bool-cases (authorize lib config r)) [
    | inl p ↦ inl p
    | inr p ↦ rw p (inr (refl, tt))
  ]

  health_quiet :
      (r : Request) (s : Handler W) → Reaches r (health fs lib config now healthy others s)
  unfolding health
  health_quiet r s = if_both (Reaches r) (healthy s.file.world) _ _ tt tt

  serve_api-Guarded :
      (r : Request) (s : Handler W) → Guarded r s (serve_api fs lib config now healthy others r s)
  unfolding serve_api
  serve_api-Guarded r s =
      if_both (Guarded r s) (str_eq r.path "/manager/api/session") _ _ (inr (refl, tt))
        (authorized-Guarded r _ s)

  serve_rest-Guarded :
      (r : Request) (s : Handler W) → Guarded r s (serve_rest fs lib config now healthy others r s)
  unfolding serve_rest
  serve_rest-Guarded r s = if_both (Guarded r s) (str_eq r.path "/") _ _ (inr (refl, tt)) (
      if_both (Guarded r s) (str_eq r.path "/manager/healthz" && str_eq r.method "GET") _ _
        (inr (refl, (health_quiet r s)))
        (if_both (Guarded r s) (has_prefix "/collie/" r.path) _ _ (authorized-Guarded r _ s) (
          if_both (Guarded r s) (is_collie_file r.path || has_prefix "/api/" r.path) _ _
            (authorized-Guarded r _ s)
            (if_both (Guarded r s) (has_prefix "/pack/v1/" r.path) _ _ (inr (refl, tt)) (
              if_both (Guarded r s) (has_prefix "/manager/" r.path && config.has_web) _ _
                (inr (refl, tt)) (inr (refl, tt)))))))

  serve_public-Guarded :
      (r : Request) (s : Handler W)
      → Guarded r s (serve_public fs lib config now healthy others r s)
  unfolding serve_public
  serve_public-Guarded r s =
      if_both (Guarded r s) (str_eq r.path "/manager/api" || has_prefix "/manager/api/" r.path) _ _
        (serve_api-Guarded r s) (serve_rest-Guarded r s)

  serve_pack-Reaches :
      (r : Request)
      → lib.equal_fold (canonical_host lib r.host).0 config.manager_pack_host ≡ true
      → Reaches r (serve_pack fs lib config now healthy others r)
  unfolding serve_pack
  serve_pack-Reaches r h = elim (Bool-cases (has_prefix "/pack/v1/" r.path)) [
    | inl p ↦ rw (p, serve_pack) (h, p)
    | inr p ↦ rw p tt
  ]

  -- A request of a caller who is not authorized, whatever it is, changes neither the store nor the
  -- jobs, and reaches Collie only if it is for the host of the pack and a path below /pack/v1/.
  pub serve-Guarded :
      (r : Request) (s : Handler W) → Guarded r s (serve fs lib config now healthy others r s)
  unfolding serve
  serve-Guarded r s =
      let host = canonical_host lib r.host in
      if_both (Guarded r s) (not host.1) _ _ (inr (refl, tt))
        (elim (Bool-cases (lib.equal_fold host.0 config.manager_pack_host)) [
          | inl p ↦ rw p (inr (refl, (serve_pack-Reaches r p)))
          | inr p ↦ rw p (serve_public-Guarded r s)
        ])

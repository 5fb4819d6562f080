-- ===== src/Http/Closed.antt =====
-- Requests behind `Close`.
use cf_herdr_poc.Base.{
  ℕ, String, codes, Bool, true, false, not, ◌&&◌, ◌||◌, ◌≡◌, refl, inl, inr, Option, none, some,
  List, Option-cases, str_eq, is_some, Err, if_both, cut_suffix, cut_prefix, contains_text,
}
use cf_herdr_poc.Base.Exec.{Result, ok, err}
use cf_herdr_poc.Model.{Sandbox}
use cf_herdr_poc.Store
use cf_herdr_poc.Store.{FileSystem, File, Tail, ensure_eof}
use cf_herdr_poc.Http.{Request, Library, Config, Handler, Job, CreateInput}
use cf_herdr_poc.Http.Names.{valid_name, validate_create, canonical_host}
use cf_herdr_poc.Http.Access.{Response, has_json_content_type, authorize}
use cf_herdr_poc.Http.Jobs.{enqueue, start_job, accepting_jobs}
use cf_herdr_poc.Http.Api.{
  created, persist, admit, decoded_create, sandboxes, retry_sandbox, deletion_stored,
  store_deletion, delete_sandbox, change_sandbox, named_sandbox, sandbox, api,
}
use cf_herdr_poc.Http.Serve.{
  Answer, has_prefix, is_collie_file, authorized, serve_api, serve_rest, serve_public, serve,
}

module _ {W C : Type 0} (fs : FileSystem W C) (lib : Library) (config : Config) (now : W → ℕ)
    (healthy : W → Bool) (others : ℕ → Handler W → Handler W) (jobs : List Job) where
  -- The handler is closed, and these jobs were started.
  abbrev pub Frozen : Handler W → Type 0
  Frozen s = (s.closed ≡ true) × (s.jobs ≡ jobs)

  module _ (kept : (i : ℕ) (s : Handler W) → Frozen s → Frozen (others i s)) where
    abbrev Fine : Handler W × Response → Type 0
    Fine (t, r) = Frozen t

    start_job-Fine :
        (job : Job) (r : Response) (s : Handler W) → Frozen s → Fine (start_job job r s)
    unfolding start_job enqueue
    start_job-Fine job r s h = rw h.0 (refl, h.1)

    created-Fine :
        (input : CreateInput) (b : Sandbox) (e : Option Err) (t : Handler W)
        → Frozen t
        → Fine (created fs lib config now others input b e t)
    unfolding created
    created-Fine input b none t h = start_job-Fine _ _ _ (kept 2 t h)
    created-Fine input b (some e) t h =
        if_both Fine (is_some (Store.get (others 2 t).file input.name)) _ _ (kept 2 t h)
          (kept 2 t h)

    admit-Fine :
        (input : CreateInput) (s : Handler W)
        → Frozen s
        → Fine (admit fs lib config now others input s)
    unfolding admit persist
    admit-Fine input s h =
        if_both Fine (is_some (Store.get s.file input.name)) _ _ h
          (created-Fine input _ _ _ (kept 1 s h))

    decoded-Fine :
        (d : Result Err (CreateInput × Tail)) (s : Handler W)
        → Frozen s
        → Fine (decoded_create fs lib config now others d s)
    unfolding decoded_create
    decoded-Fine (err e) s h =
        if_both Fine (contains_text (codes "request body too large") e.text) _ _ h h
    decoded-Fine (ok (input, tail)) s h =
        if_both Fine (is_some (ensure_eof tail)) _ _ h
          (elim (Option-cases
            (validate_create lib input.name input.repository input.buildpack config.buildpacks)) [
              | inr p ↦ rw (p.1, decoded_create) h
              | inl p ↦ rw (p, decoded_create) (admit-Fine input (others 0 s) (kept 0 s h))
            ])

    sandboxes-Fine :
        (r : Request) (s : Handler W) → Frozen s → Fine (sandboxes fs lib config now others r s)
    unfolding sandboxes
    sandboxes-Fine r s h = if_both Fine (str_eq r.method "GET") _ _ h (
        if_both Fine (not (has_json_content_type lib config r)) _ _ h
          (if_both Fine (not (accepting_jobs s)) _ _ h (decoded-Fine _ s h)))

    retry-Fine :
        (name : String) (s : Handler W)
        → Frozen s
        → Fine (retry_sandbox fs lib config now others name s)
    unfolding retry_sandbox
    retry-Fine name s h =
        if_both Fine (not (accepting_jobs s)) _ _ h (start_job-Fine _ _ _ (kept 1 s h))

    stored-Fine :
        (name : String) (e : Option Err) (t : Handler W)
        → Frozen t
        → Fine (deletion_stored fs lib config now others name e t)
    unfolding deletion_stored
    stored-Fine name none t h = start_job-Fine _ _ _ (kept 2 t h)
    stored-Fine name (some e) t h = h

    delete-Fine :
        (name : String) (s : Handler W)
        → Frozen s
        → Fine (delete_sandbox fs lib config now others name s)
    unfolding delete_sandbox store_deletion
    delete-Fine name s h =
        if_both Fine (not (accepting_jobs s)) _ _ h (stored-Fine name _ _ (kept 1 s h))

    named-Fine :
        (r : Request) (again : Bool) (name : String) (s : Handler W)
        → Frozen s
        → Fine (named_sandbox fs lib config now others r again name s)
    unfolding named_sandbox change_sandbox
    named-Fine r again name s h =
        let t = others 0 s in
        if_both Fine (not (valid_name name)) _ _ h (
          if_both Fine (is_some (Store.get s.file name)) _ _
            (if_both Fine (again && str_eq r.method "POST") _ _ (retry-Fine name t (kept 0 s h)) (
              if_both Fine (not again && str_eq r.method "DELETE") _ _
                (delete-Fine name t (kept 0 s h)) (kept 0 s h)))
            h)

    sandbox-Fine :
        (r : Request) (rest : String) (s : Handler W)
        → Frozen s
        → Fine (sandbox fs lib config now others r rest s)
    unfolding sandbox
    sandbox-Fine r rest s h = elim (Option-cases (cut_suffix "/retry" rest)) [
      | inl p ↦ rw (p, sandbox) (named-Fine r false rest s h)
      | inr p ↦ rw (p.1, sandbox) (named-Fine r true p.0 s h)
    ]

    api-Fine : (r : Request) (s : Handler W) → Frozen s → Fine (api fs lib config now others r s)
    unfolding api
    api-Fine r s h = if_both Fine (str_eq r.path "/manager/api/config") _ _ h (
        if_both Fine (str_eq r.path "/manager/api/sandboxes") _ _
          (if_both Fine (str_eq r.method "GET" || str_eq r.method "POST") _ _ (sandboxes-Fine r s h)
            h)
          (elim (Option-cases (cut_prefix "/manager/api/sandboxes/" r.path)) [
            | inl p ↦ rw (p, api) h
            | inr p ↦ rw (p.1, api) (sandbox-Fine r p.0 s h)
          ]))

    abbrev Still : Handler W × Answer → Type 0
    Still (t, a) = Frozen t

    authorized-Still :
        (r : Request) (next : Handler W × Answer) (s : Handler W)
        → Frozen s
        → Still next
        → Still (authorized fs lib config now healthy others r next s)
    unfolding authorized
    authorized-Still r next s h k = if_both Still (authorize lib config r) _ _ k h

    serve_rest-Still :
        (r : Request) (s : Handler W)
        → Frozen s
        → Still (serve_rest fs lib config now healthy others r s)
    unfolding serve_rest
    serve_rest-Still r s h = if_both Still (str_eq r.path "/") _ _ h (
        if_both Still (str_eq r.path "/manager/healthz" && str_eq r.method "GET") _ _ h (
          if_both Still (has_prefix "/collie/" r.path) _ _ (authorized-Still r _ s h h) (
            if_both Still (is_collie_file r.path || has_prefix "/api/" r.path) _ _
              (authorized-Still r _ s h h)
              (if_both Still (has_prefix "/pack/v1/" r.path) _ _ h
                (if_both Still (has_prefix "/manager/" r.path && config.has_web) _ _ h h)))))

    -- If the handler is closed, and what runs beside the request starts no job either, then a request
    -- starts none, and the handler stays closed.
    pub serve-Frozen :
        (r : Request) (s : Handler W)
        → Frozen s
        → Frozen (serve fs lib config now healthy others r s).0
    unfolding serve serve_public serve_api
    serve-Frozen r s h =
        let host = canonical_host lib r.host in
        if_both Still (not host.1) _ _ h (
          if_both Still (lib.equal_fold host.0 config.manager_pack_host) _ _ h (
            if_both Still (str_eq r.path "/manager/api" || has_prefix "/manager/api/" r.path) _ _
              (if_both Still (str_eq r.path "/manager/api/session") _ _ h
                (authorized-Still r _ s h (api-Fine r s h)))
              (serve_rest-Still r s h)))

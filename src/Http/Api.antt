-- ===== src/Http/Api.antt =====
-- The handlers of the API in internal/httpapi/server.go, behind the check of the caller.
use cf_herdr_poc.Base.{
  ℕ, String, codes, Bool, true, false, not, ◌&&◌, ◌||◌, Option, none, some, [], map, Err,
  if◌then◌else◌, str_eq, is_some, cut_prefix, cut_suffix, contains_text,
}
use cf_herdr_poc.Base.Exec.{Result, ok, err}
use cf_herdr_poc.Model.{Sandbox, present, deleted, creating, deleting, no_phase}
use cf_herdr_poc.Store
use cf_herdr_poc.Store.{FileSystem, Tail, ensure_eof, sort, list}
use cf_herdr_poc.Http.{
  Request, Library, Config, Handler, reconcile, retry, CreateInput, max_request_body,
}
use cf_herdr_poc.Http.Names.{valid_name, validate_create}
use cf_herdr_poc.Http.View.{public_sandbox}
use cf_herdr_poc.Http.Access.{
  Response, respond, not_allowed, api_error, plain, plain_error, nothing, buildpacks, one, many,
  has_json_content_type,
}
use cf_herdr_poc.Http.Jobs.{accepting_jobs, start_job, shutting_down}

abbrev pub new_sandbox : CreateInput → ℕ → Sandbox
new_sandbox input now = record {
  name = input.name;
  app_guid = "";
  repository = input.repository;
  revision = "";
  buildpack = input.buildpack;
  desired = present;
  phase = creating;
  resume_phase = no_phase;
  internal_host = "";
  pack_member_id = "";
  last_error = [];
  operations = [];
  created_at = now;
  updated_at = now;
}

-- The callback of the deletion.
unfoldable pub set_deleted : ℕ → Sandbox → Sandbox
set_deleted now b = record b { desired = deleted; phase = deleting; updated_at = now }

-- `now` is the clock; `others i` is what other goroutines do in the gap `i`.
module _ {W C : Type 0} (fs : FileSystem W C) (lib : Library) (config : Config) (now : W → ℕ)
    (others : ℕ → Handler W → Handler W) where
  abbrev Reply : Type 0
  Reply = Handler W × Response

  abbrev exists_already : Response
  exists_already = respond 409 (plain "sandbox already exists")

  unfoldable pub created : CreateInput → Sandbox → Option Err → Handler W → Reply
  unfolding start_job
  created input b none t =
      start_job (reconcile input.name) (respond 202 (one (public_sandbox lib b))) (others 2 t)
  created input b (some e) t =
      let u = others 2 t in
      if is_some (Store.get u.file input.name)
      then (u, exists_already)
      else (u, respond 500 (plain "persist sandbox"))

  unfoldable pub persist : CreateInput → Handler W → Reply
  unfolding created
  persist input s =
      let b = new_sandbox input (now s.file.world) in
      let (file, e) = Store.create fs b s.file in created input b e (record s { file = file })

  unfoldable pub admit : CreateInput → Handler W → Reply
  unfolding persist
  admit input s =
      let go = persist input (others 1 s) in
      if is_some (Store.get s.file input.name) then (s, exists_already) else go

  unfoldable pub decoded_create : Result Err (CreateInput × Tail) → Handler W → Reply
  unfolding admit ensure_eof
  decoded_create (err e) s =
      if contains_text (codes "request body too large") e.text
      then (s, respond 413 (plain "request too large"))
      else (s, respond 400 (plain "invalid JSON"))
  decoded_create (ok (input, tail)) s =
      if is_some (ensure_eof tail)
      then (s, respond 400 (plain "invalid trailing JSON"))
      else elim (validate_create lib input.name input.repository input.buildpack
          config.buildpacks) [
            | some e ↦ (s, respond 400 (plain_error e.text))
            | none ↦ admit input (others 0 s)
          ]

  unfoldable pub list_sandboxes : Handler W → Response
  list_sandboxes s = respond 200 (many (map (public_sandbox lib) (sort (list s.file))))

  unfoldable pub sandboxes : Request → Handler W → Reply
  unfolding decoded_create list_sandboxes
  sandboxes r s =
      if str_eq r.method "GET"
      then (s, list_sandboxes s)
      else if not (has_json_content_type lib config r)
      then (s, respond 415 (plain "content type must be application/json"))
      else if not (accepting_jobs s)
      then (s, shutting_down)
      else decoded_create (lib.decode_create max_request_body r.body) s

  unfoldable pub retry_sandbox : String → Handler W → Reply
  unfolding start_job
  retry_sandbox name s =
      if not (accepting_jobs s)
      then (s, shutting_down)
      else start_job (retry name) (respond 202 nothing) (others 1 s)

  unfoldable pub deletion_stored : String → Option Err → Handler W → Reply
  unfolding start_job
  deletion_stored name (some e) t = (t, respond 500 (plain "persist deletion"))
  deletion_stored name none t = start_job (reconcile name) (respond 202 nothing) (others 2 t)

  unfoldable pub store_deletion : String → Handler W → Reply
  unfolding deletion_stored
  store_deletion name s =
      let (file, e) = Store.update fs name (λ b. ok (set_deleted (now s.file.world) b)) s.file in
      deletion_stored name e (record s { file = file })

  unfoldable pub delete_sandbox : String → Handler W → Reply
  unfolding store_deletion
  delete_sandbox name s =
      if not (accepting_jobs s) then (s, shutting_down) else store_deletion name (others 1 s)

  -- The method on a sandbox that exists.
  unfoldable pub change_sandbox : Request → Bool → String → Handler W → Reply
  unfolding retry_sandbox delete_sandbox
  change_sandbox r again name s =
      if again && str_eq r.method "POST"
      then retry_sandbox name s
      else if not again && str_eq r.method "DELETE"
      then delete_sandbox name s
      else (s, not_allowed "POST, DELETE")

  -- The name is checked by a pattern without `/`, so the second check of the source adds nothing.
  unfoldable pub named_sandbox : Request → Bool → String → Handler W → Reply
  unfolding change_sandbox
  named_sandbox r again name s =
      if not (valid_name name)
      then (s, respond 404 (api_error "not found"))
      else if is_some (Store.get s.file name)
      then change_sandbox r again name (others 0 s)
      else (s, respond 404 (api_error "not found"))

  -- The argument is the path behind `/manager/api/sandboxes/`.
  unfoldable pub sandbox : Request → String → Handler W → Reply
  unfolding named_sandbox cut_suffix
  sandbox r remainder s = elim (cut_suffix "/retry" remainder) [
    | none ↦ named_sandbox r false remainder s
    | some name ↦ named_sandbox r true name s
  ]

  unfoldable pub api : Request → Handler W → Reply
  unfolding sandboxes sandbox cut_prefix
  api r s =
      if str_eq r.path "/manager/api/config"
      then (
        s,
        if str_eq r.method "GET"
            then respond 200 (buildpacks config.buildpacks)
            else not_allowed "GET",
      )
      else if str_eq r.path "/manager/api/sandboxes"
      then (if str_eq r.method "GET" || str_eq r.method "POST"
          then sandboxes r s
          else (s, not_allowed "GET, POST"))
      else elim (cut_prefix "/manager/api/sandboxes/" r.path) [
        | none ↦ (s, respond 404 (api_error "not found"))
        | some remainder ↦ sandbox r remainder s
      ]

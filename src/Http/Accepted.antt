-- ===== src/Http/Accepted.antt =====
-- What a request that is answered by 202 has done.
use cf_herdr_poc.Base.{
  ℕ, String, false, ◌≡◌, refl, ◌≢◌, ap, inl, inr, Option, none, some, [], ◌∷◌, arith, Bool-cases,
  Option-cases, str_eq, is_some, Err, insert, lookup-insert_self,
}
use cf_herdr_poc.Base.Exec.{Result, ok, err}
use cf_herdr_poc.Model.{Sandbox, present, deleted, creating, deleting, no_phase}
use cf_herdr_poc.Store
use cf_herdr_poc.Store.{FileSystem, File, Tail, eof, more, broken, ensure_eof, commit}
use cf_herdr_poc.Store.Laws.{commit_cases}
use cf_herdr_poc.Store.Update.{update_done}
use cf_herdr_poc.Http.{
  Request, Library, Config, Handler, Job, reconcile, CreateInput, max_request_body,
}
use cf_herdr_poc.Http.Names.{validate_create}
use cf_herdr_poc.Http.Access.{Response, has_json_content_type}
use cf_herdr_poc.Http.Jobs.{enqueue, start_job, accepting_jobs}
use cf_herdr_poc.Http.Api.{
  new_sandbox, set_deleted, created, persist, admit, decoded_create, list_sandboxes, sandboxes,
  deletion_stored, store_deletion, delete_sandbox,
}

module _ {W C : Type 0} (fs : FileSystem W C) (lib : Library) (config : Config) (now : W → ℕ)
    (others : ℕ → Handler W → Handler W) where
  start_job_lem :
      (job : Job) (done : Response) (s : Handler W)
      → (start_job job done s).1.status ≡ 202
      → (s.closed ≡ false) × ((start_job job done s).0 ≡ record s { jobs = job ∷ s.jobs })
  unfolding start_job enqueue
  start_job_lem job done s h = ground arith

  create_done :
      (b : Sandbox) (f : File W)
      → (Store.create fs b f).1 ≡ none
      → (Store.get f b.name ≡ none) × (Store.get (Store.create fs b f).0 b.name ≡ some b)
  unfolding Store.create Store.get
  create_done b f h = ground (
    arith,
    commit_cases fs (insert b.name b f.sandboxes) f,
    lookup-insert_self b.name b f.sandboxes,
  )

  abbrev made : CreateInput → Handler W → File W
  made input u = (Store.create fs (new_sandbox input (now u.file.world)) u.file).0

  -- What is to be stored for an input.
  abbrev pub wanted : CreateInput → ℕ → Sandbox
  wanted input time = record {
    name = input.name;
    repository = input.repository;
    buildpack = input.buildpack;
    desired = present;
    phase = creating;
    created_at = time;
    updated_at = time;
    app_guid = "";
    revision = "";
    resume_phase = no_phase;
    internal_host = "";
    pack_member_id = "";
    last_error = [];
    operations = [];
  }

  -- In state `u` the sandbox of the input was created, and on what the others then made of the
  -- state its job was started.
  pub record Persisted (input : CreateInput) (u t : Handler W) : Type 0 where
    pub fresh : Store.get u.file input.name ≡ none
    pub stored : Store.get (made input u) input.name ≡ some (wanted input (now u.file.world))
    pub opened : (others 2 (record u { file = made input u })).closed ≡ false
    pub started :
        let v = others 2 (record u { file = made input u }) in
        t ≡ record v { jobs = reconcile input.name ∷ v.jobs }

  created_refused :
      (input : CreateInput) (b : Sandbox) (e : Err) (t : Handler W)
      → (created fs lib config now others input b (some e) t).1.status ≢ 202
  unfolding created
  created_refused input b e t h = ground arith

  persist-Persisted :
      (input : CreateInput) (u : Handler W)
      → (persist fs lib config now others input u).1.status ≡ 202
      → Persisted input u (persist fs lib config now others input u).0
  unfolding persist
  persist-Persisted input u h =
      let b = new_sandbox input (now u.file.world) in
      let t = record u { file = made input u } in
      elim (Option-cases (Store.create fs b u.file).1) [
        | inr p ↦ absurd (created_refused input b p.0 t (rw p.1 at h))
        | inl p ↦
            let (opened, started) = start_job_lem _ _ (others 2 t) (rw (p, created) at h) in
            let (fresh, stored) = create_done b u.file p in
            record {
              fresh = fresh;
              stored = stored;
              opened = opened;
              started = rw (p, created) started;
            }
      ]

  -- The body holds one input and nothing more, which is valid; it was made a sandbox, and its job
  -- started.
  abbrev pub Accepted : Result Err (CreateInput × Tail) → Handler W → Handler W → Type 0
  Accepted body s t =
      (input : CreateInput) × (body ≡ ok (input, eof))
      × (validate_create lib input.name input.repository input.buildpack config.buildpacks ≡ none)
      × Persisted input (others 1 (others 0 s)) t

  at_end : (tail : Tail) → is_some (ensure_eof tail) ≡ false → tail ≡ eof
  unfolding ensure_eof
  at_end eof h = refl
  at_end more h = cc
  at_end (broken e) h = cc

  decoded_create-Accepted :
      (d : Result Err (CreateInput × Tail)) (s : Handler W)
      → (decoded_create fs lib config now others d s).1.status ≡ 202
      → Accepted d s (decoded_create fs lib config now others d s).0
  unfolding decoded_create admit
  decoded_create-Accepted (err e) s h = absurd (ground arith)
  decoded_create-Accepted (ok (input, tail)) s h =
      let u = others 0 s in
      let valid =
        validate_create lib input.name input.repository input.buildpack config.buildpacks in
      elim (Bool-cases (is_some (ensure_eof tail))) [
        | inl p ↦ absurd (ground arith)
        | inr p ↦ elim (Option-cases valid) [
          | inr q ↦ absurd (ground (arith, rw (q.1, decoded_create) at (rw p at h)))
          | inl q ↦ elim (Bool-cases (is_some (Store.get u.file input.name))) [
            | inl x ↦ absurd (ground (arith, rw x at (rw (q, decoded_create) at (rw p at h))))
            | inr x ↦ rw p (
                rw (q, decoded_create)
                  (rw x (
                    input,
                    ap (λ x. ok (input, x)) (at_end tail p),
                    q,
                    persist-Persisted input (others 1 u)
                        (rw x at (rw (q, decoded_create) at (rw p at h))),
                  )))
          ]
        ]
      ]

  -- A `POST` of a sandbox is answered by 202 only if its body is one input, which is valid, no sandbox
  -- had the name when it was stored, the one of the input was stored, present and in phase
  -- `creating`, the handler was still open after that, and the
  -- job of the sandbox was started.
  pub sandboxes-Accepted :
      (r : Request) (s : Handler W)
      → (sandboxes fs lib config now others r s).1.status ≡ 202
      → Accepted
          (lib.decode_create max_request_body r.body)
          s
          (sandboxes fs lib config now others r s).0
  unfolding sandboxes
  sandboxes-Accepted r s h = elim (Bool-cases (str_eq r.method "GET")) [
    | inl p ↦ absurd (listed (rw p at h))
    | inr p ↦ elim (Bool-cases (has_json_content_type lib config r)) [
      | inr q ↦ absurd (ground (arith, rw q at (rw p at h)))
      | inl q ↦ elim (Bool-cases (accepting_jobs s)) [
        | inr x ↦ absurd (ground (arith, rw x at (rw q at (rw p at h))))
        | inl x ↦ rw p (rw q (rw x (decoded_create-Accepted _ s (rw x at (rw q at (rw p at h))))))
      ]
    ]
  ]
    where
      listed : (list_sandboxes fs lib config now others s).status ≢ 202
      listed e = ground arith

  abbrev marked : String → Handler W → File W × Option Err
  marked name u = Store.update fs name (λ b. ok (set_deleted (now u.file.world) b)) u.file

  -- In state `u` the sandbox was marked as deleted, and on what the others then made of the state its
  -- job was started.
  pub record Marked (name : String) (u t : Handler W) : Type 0 where
    pub there :
        (b : Sandbox) × (Store.get u.file name ≡ some b)
        × (Store.get (marked name u).0 name
            ≡ some
                (record b { desired = deleted; phase = deleting; updated_at = now u.file.world }))
    pub opened : (others 2 (record u { file = (marked name u).0 })).closed ≡ false
    pub started :
        let v = others 2 (record u { file = (marked name u).0 }) in
        t ≡ record v { jobs = reconcile name ∷ v.jobs }

  store_deletion-Marked :
      (name : String) (u : Handler W)
      → (store_deletion fs lib config now others name u).1.status ≡ 202
      → Marked name u (store_deletion fs lib config now others name u).0
  unfolding store_deletion deletion_stored set_deleted
  store_deletion-Marked name u h =
      let t = record u { file = (marked name u).0 } in
      elim (Option-cases (marked name u).1) [
        | inr p ↦ absurd (ground (arith, rw (p.1, deletion_stored) at h))
        | inl p ↦
            let (opened, started) = start_job_lem _ _ (others 2 t) (rw (p, deletion_stored) at h) in
            record {
              there = update_done fs name (set_deleted (now u.file.world)) u.file p;
              opened = opened;
              started = rw (p, deletion_stored) started;
            }
      ]

  -- A `DELETE` of a sandbox is answered by 202 only if the sandbox was there and is stored as to be
  -- deleted and in phase `deleting`, and as before otherwise but for its time of update, the handler
  -- was open after that, and the job of the sandbox was started.
  pub delete_sandbox-Marked :
      (name : String) (s : Handler W)
      → (delete_sandbox fs lib config now others name s).1.status ≡ 202
      → Marked name (others 1 s) (delete_sandbox fs lib config now others name s).0
  unfolding delete_sandbox
  delete_sandbox-Marked name s h = elim (Bool-cases (accepting_jobs s)) [
    | inr p ↦ absurd (ground (arith, rw p at h))
    | inl p ↦ rw p (store_deletion-Marked name (others 1 s) (rw p at h))
  ]

-- ===== src/Reconcile/Create.antt =====
-- `reconcileCreate`: one function for each case of the switch.
use Prim.Native.String.{◌++◌ as string_append}
use cf_herdr_poc.Base.{
  ℕ, String, codes, Bool, true, false, not, ◌&&◌, Option, none, some, ◌++◌, str_eq, lookup, remove,
  Err, error_new, error_text, if◌then◌else◌,
}
use cf_herdr_poc.Base.Exec.{ok, pure, raise, check, ◌>>=◌, ◌>>◌}
use cf_herdr_poc.Model.{
  Phase, Sandbox, Desired, deleted, creating, preparing_invite, staging, discovering_app, starting,
  securing_route, securing_manager_route, configuring_enrollment, waiting_for_app,
  waiting_for_route, triggering_enrollment, joining_pack, ready, Operation, phase_text,
}
use cf_herdr_poc.Store.{FileSystem}
use cf_herdr_poc.Reconcile.{
  Prepared, Enrollment, Config, Services, M, install_enrollment, stage, app_guid,
  configure_enrollment, start_app, inspect_app, secure_route, add_route_policy, reachable,
  trigger_enrollment, member_present,
}
use cf_herdr_poc.Reconcile.Effects.{
  unless_already_exists, persist_phase, act, operate_on, ask_bool, called, poll, update,
  append_operation, find, effect_prepare, ensure_prepared, ensure_enrollment, keep_prepared,
  cleanup_transient, record_call,
}

unfoldable pub needs_enrollment : Phase → Bool
needs_enrollment discovering_app = true
needs_enrollment securing_route = true
needs_enrollment securing_manager_route = true
needs_enrollment configuring_enrollment = true
needs_enrollment starting = true
needs_enrollment _ = false

abbrev dotted : String → String → String
dotted a b = string_append a (string_append "." b)

-- The callbacks of `store.Update`, behind the time of the update.
unfoldable pub set_revision : String → ℕ → Sandbox → Sandbox
set_revision revision now t = record t { revision = revision; updated_at = now }

unfoldable pub set_guid : String → Phase → ℕ → Sandbox → Sandbox
set_guid guid next now t = record t { app_guid = guid; phase = next; updated_at = now }

unfoldable pub set_host : String → ℕ → Sandbox → Sandbox
set_host host now t = record t { internal_host = host }

unfoldable pub set_member : ℕ → Sandbox → Sandbox
set_member now t = record t { pack_member_id = t.name }

unfoldable pub is_deleted : Desired → Bool
is_deleted deleted = true
is_deleted _ = false

module _ {W C : Type 0} (fs : FileSystem W C) (svc : Services W) (config : Config) where
  unfoldable pub do_creating : Sandbox → M W (Unit {0})
  do_creating b = do
    persist_phase fs svc b.name creating
    result ← effect_prepare fs svc config b
    keep_prepared b.name result
    update fs svc b.name (set_revision result.revision)
    persist_phase fs svc b.name preparing_invite

  unfoldable pub do_preparing_invite : Sandbox → M W (Unit {0})
  do_preparing_invite b = do
    persist_phase fs svc b.name preparing_invite
    ensure_enrollment fs svc config b
    persist_phase fs svc b.name staging

  -- `r.prepared[name]`: the zero value if the key is missing.
  abbrev pub prepared_path : Option Prepared → String
  prepared_path none = ""
  prepared_path (some p) = p.path

  -- `r.enrollments[name].Path()`. The interface is nil if the key is missing, and the call panics;
  -- `ensureEnrollment` has just set the key.
  abbrev pub enrollment_path : Option Enrollment → M W String
  enrollment_path none = raise (error_new "nil enrollment")
  enrollment_path (some e) = pure e.path

  unfoldable pub do_staging : Sandbox → M W (Unit {0})
  do_staging b = do
    persist_phase fs svc b.name staging
    ensure_prepared fs svc config b
    ensure_enrollment fs svc config b
    found ← find (λ s. s.prepared) b.name
    let path = prepared_path found
    persist_phase fs svc b.name staging
    held ← find (λ s. s.enrollments) b.name
    source ← enrollment_path held
    e ← act fs svc (install_enrollment path source)
    check e
    persist_phase fs svc b.name staging
    stage_error ← operate_on fs svc b.name (
        stage (record {
          name = b.name;
          expected_app_guid = b.app_guid;
          buildpack = b.buildpack;
          bits_path = path;
        }))
    check stage_error
    persist_phase fs svc b.name discovering_app

  unfoldable pub effect_guid : String → M W (String × Operation × Option Err)
  unfolding record_call
  effect_guid name s =
      let (w, guid, op, e) = svc.ask_guid (app_guid name) s.file.world in
      (ok (guid, op, e), record_call (app_guid name) e w s)

  -- The phase to go on with: the one that a lost enrollment interrupted, if any.
  unfoldable pub recovered : String → Option Phase → M W Phase
  recovered name none s = (ok securing_route, s)
  recovered name (some p) s = (ok p, record s { recovery_phase = remove name s.recovery_phase })

  unfoldable pub take_recovery : String → M W Phase
  unfolding recovered
  take_recovery name s = recovered name (lookup name s.recovery_phase) s

  abbrev pub mismatched : Sandbox → String → Bool
  mismatched b guid = not (str_eq b.app_guid "") && not (str_eq guid b.app_guid)

  abbrev pub identity_error : Err
  identity_error = error_new "app identity mismatch: persisted GUID does not match current app"

  unfoldable pub do_discovering_app : Sandbox → M W (Unit {0})
  do_discovering_app b = do
    persist_phase fs svc b.name discovering_app
    (guid, op, e) ← effect_guid b.name
    append_operation fs svc b.name op
    check e
    if mismatched b guid
        then raise identity_error
        else do next ← take_recovery b.name; update fs svc b.name (set_guid guid next)

  unfoldable pub do_securing_route : Sandbox → M W (Unit {0})
  do_securing_route b = do
    persist_phase fs svc b.name securing_route
    e ← operate_on fs svc b.name (
        secure_route (record {
          app_name = b.name;
          app_guid = b.app_guid;
          domain = config.identity_domain;
          host = b.name;
          source_app_guid = config.manager_app_guid;
        }))
    check (unless_already_exists e)
    update fs svc b.name (set_host (dotted b.name config.identity_domain))
    persist_phase fs svc b.name securing_manager_route

  unfoldable pub do_securing_manager_route : Sandbox → M W (Unit {0})
  do_securing_manager_route b = do
    persist_phase fs svc b.name securing_manager_route
    e ← operate_on fs svc b.name (
        add_route_policy (record {
          domain = config.identity_domain;
          host = config.manager_route_host;
          source_app_guid = b.app_guid;
        }))
    check (unless_already_exists e)
    persist_phase fs svc b.name configuring_enrollment

  unfoldable pub do_configuring_enrollment : Sandbox → M W (Unit {0})
  do_configuring_enrollment b = do
    persist_phase fs svc b.name configuring_enrollment
    e ← operate_on fs svc b.name (
        configure_enrollment b.name (record {
          token_app_path = "/home/vcap/app/sandbox-runtime/join-token";
          lead_address = string_append "https://" config.manager_pack_host;
          self_address = dotted b.name config.identity_domain;
          cf_api = config.cf_api;
          cf_username = config.cf_username;
          cf_password = config.cf_password;
          cf_org = config.cf_org;
          cf_space = config.cf_space;
        }))
    check e
    persist_phase fs svc b.name starting

  unfoldable pub do_starting : Sandbox → M W (Unit {0})
  do_starting b = do
    persist_phase fs svc b.name starting
    e ← operate_on fs svc b.name (start_app b.name)
    check e
    persist_phase fs svc b.name waiting_for_app

  unfoldable pub app_is_up : String → M W Bool
  app_is_up guid = do
    app ← called (inspect_app guid) (svc.ask_app (inspect_app guid))
    pure (app.running && app.ready)

  unfoldable pub do_waiting_for_app : Sandbox → M W (Unit {0})
  do_waiting_for_app b = do
    persist_phase fs svc b.name waiting_for_app
    poll fs svc config "inspect-app" (app_is_up b.app_guid)
    persist_phase fs svc b.name waiting_for_route

  unfoldable pub do_waiting_for_route : Sandbox → M W (Unit {0})
  do_waiting_for_route b = do
    persist_phase fs svc b.name waiting_for_route
    poll fs svc config "probe-route" (ask_bool fs svc (reachable b.internal_host))
    persist_phase fs svc b.name triggering_enrollment

  -- A failed trigger is no error if the member is there all the same.
  unfoldable pub unless_joined : Sandbox → Option Err → M W (Unit {0})
  unless_joined b none = pure tt
  unless_joined b (some e) = do
    joined ← ask_bool fs svc (member_present b.name)
    if joined then pure tt else raise e

  unfoldable pub do_triggering_enrollment : Sandbox → M W (Unit {0})
  do_triggering_enrollment b = do
    persist_phase fs svc b.name triggering_enrollment
    joined ← ask_bool fs svc (member_present b.name)
    if joined then pure tt else do
      persist_phase fs svc b.name triggering_enrollment
      e ← operate_on fs svc b.name (trigger_enrollment b.internal_host)
      unless_joined b e
    persist_phase fs svc b.name joining_pack

  unfoldable pub do_joining_pack : Sandbox → M W (Unit {0})
  do_joining_pack b = do
    persist_phase fs svc b.name joining_pack
    poll fs svc config "observe-member" (ask_bool fs svc (member_present b.name))
    cleanup_transient fs svc b.name
    update fs svc b.name set_member
    persist_phase fs svc b.name ready

  -- The switch; `ready` returns before it.
  unfoldable pub advance : Phase → Sandbox → M W (Unit {0})
  advance creating b = do_creating b
  advance preparing_invite b = do_preparing_invite b
  advance staging b = do_staging b
  advance discovering_app b = do_discovering_app b
  advance securing_route b = do_securing_route b
  advance securing_manager_route b = do_securing_manager_route b
  advance configuring_enrollment b = do_configuring_enrollment b
  advance starting b = do_starting b
  advance waiting_for_app b = do_waiting_for_app b
  advance waiting_for_route b = do_waiting_for_route b
  advance triggering_enrollment b = do_triggering_enrollment b
  advance joining_pack b = do_joining_pack b
  advance p b =
      raise (error_text (codes "unknown reconciliation phase " ++ svc.quote (phase_text p)))

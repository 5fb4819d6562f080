-- ===== src/Reconcile/Delete.antt =====
-- `reconcileDelete`, one function for each block of it.
use cf_herdr_poc.Base.{Bool, not, str_eq, Err, error_new, if◌then◌else◌}
use cf_herdr_poc.Base.Exec.{maybe, pure, ◌>>=◌, ◌>>◌}
use cf_herdr_poc.Model.{Sandbox, deleting}
use cf_herdr_poc.Store.{FileSystem}
use cf_herdr_poc.Store
use cf_herdr_poc.Reconcile.{
  Config, Services, M, member_present, remove_member, ensure_app_absent, remove_route_policy,
  remove_route, delete_app, cleanup,
}
use cf_herdr_poc.Reconcile.Effects.{
  unless_absent, is_already_exists, persist_phase, fail, fail_if, act, operate_on, ask_bool,
  cleanup_transient, forget_prepared,
}
use cf_herdr_poc.Base.Exec.{catch}

module _ {W C : Type 0} (fs : FileSystem W C) (svc : Services W) (config : Config)
    (b : Sandbox) where
  abbrev deleting_phase : M W (Unit {0})
  deleting_phase = persist_phase fs svc b.name deleting

  abbrev failing : {A : Type 0} → Err → M W A
  failing = fail fs svc b.name deleting

  abbrev ownership_unknown : Err
  ownership_unknown =
      error_new "app ownership unknown: persisted GUID is missing and app name already exists"

  unfoldable pub delete_member : M W (Unit {0})
  delete_member = do
    deleting_phase
    present ← catch (ask_bool fs svc (member_present b.name)) failing
    if not present then pure tt else do
      deleting_phase
      e ← act fs svc (remove_member b.name)
      fail_if fs svc b.name deleting (unless_absent e)

  -- With no GUID on record nothing may be deleted under the name, if an app has it.
  unfoldable pub check_absent : M W (Unit {0})
  check_absent = do
    deleting_phase
    e ← operate_on fs svc b.name (ensure_app_absent b.name)
    maybe e (pure tt) (λ x. if is_already_exists x then failing ownership_unknown else failing x)

  unfoldable pub delete_policy : M W (Unit {0})
  delete_policy = do
    deleting_phase
    e ← operate_on fs svc b.name (
        remove_route_policy (record {
          domain = config.identity_domain;
          host = config.manager_route_host;
          source_app_guid = b.app_guid;
        }))
    fail_if fs svc b.name deleting (unless_absent e)

  unfoldable pub delete_route : M W (Unit {0})
  delete_route = do
    deleting_phase
    e ← operate_on fs svc b.name (
        remove_route (record {
          app_name = b.name;
          app_guid = b.app_guid;
          domain = config.identity_domain;
          host = b.name;
          source_app_guid = config.manager_app_guid;
        }))
    fail_if fs svc b.name deleting (unless_absent e)

  unfoldable pub delete_the_app : M W (Unit {0})
  delete_the_app = do
    deleting_phase
    e ← operate_on fs svc b.name (delete_app b.name b.app_guid)
    fail_if fs svc b.name deleting (unless_absent e)

  unfoldable pub delete_files : M W (Unit {0})
  delete_files = do
    deleting_phase
    catch (cleanup_transient fs svc b.name) failing
    deleting_phase
    e ← act fs svc (cleanup (svc.join_path config.work_root b.name))
    fail_if fs svc b.name deleting (unless_absent e)
    forget_prepared b.name

  -- `store.Delete`.
  unfoldable pub delete_record : M W (Unit {0})
  delete_record s =
      let (file, e) = Store.delete fs b.name s.file in
      fail_if fs svc b.name deleting e (record s { file = file })

  unfoldable pub app_exists : Bool
  app_exists = not (str_eq b.app_guid "")

  unfoldable pub reconcile_delete : M W (Unit {0})
  unfolding app_exists
  reconcile_delete = do
    deleting_phase
    delete_member
    if app_exists then delete_policy else check_absent
    delete_route
    if app_exists then delete_the_app else pure tt
    delete_files
    delete_record

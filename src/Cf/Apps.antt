-- ===== src/Cf/Apps.antt =====
-- The operations of internal/cf/provider.go on apps.

use cf_herdr_poc.Base.{
  String, Bytes, codes, true, false, not, Option, none, some, [], ◌∷◌, str_eq, bytes_eq, Err,
  error_new, if◌then◌else◌, is_some,
}
use cf_herdr_poc.Base.Exec.{maybe}
use cf_herdr_poc.Model.{Operation}
use cf_herdr_poc.Reconcile.{PushRequest}
use cf_herdr_poc.Cf.{
  already_exists, ownership_lost, identity_mismatch, cf_error, is_provider_absent, validate_name,
  validate_guid, contains,
}
use cf_herdr_poc.Cf.Execute.{Provider, Platform, Shell, execute, merge_operations}

-- `model.Operation{}`.
abbrev pub no_operation : Operation
no_operation = record {
  name = [];
  command = [];
  summary = [];
  started_at = 0;
  duration = 0;
  success = false;
  error = [];
}

abbrev pub succeeded : Operation → Operation
succeeded op = record op { success = true; error = [] }

abbrev pub spoiled : Operation → String → Operation
spoiled op message = record op { success = false; error = codes message }

module _ {W : Type 0} (platform : Platform W) (p : Provider W) where
  abbrev Reply : Type 0
  Reply = Shell W × Operation × Option Err

  abbrev invalid_guid : Operation → Shell W → Reply
  invalid_guid op s = (
    s,
    spoiled op "cf app returned an invalid GUID",
    some (error_new "cf app returned an invalid GUID"),
  )

  unfoldable pub push : PushRequest → Shell W → Reply
  push q s =
      let (t, op, output, e) =
        execute platform p "stage"
          ("push" ∷ q.name ∷ "--no-route" ∷ "--no-start" ∷ "-b" ∷ q.buildpack ∷ "-p" ∷ q.bits_path
            ∷ "-c" ∷ "./sandbox-runtime/start.sh" ∷ [])
          s in
      (t, op, e)

  -- The preflight found an app of the name.
  unfoldable pub stage_found : PushRequest → Operation → Bytes → Shell W → Reply
  stage_found q op guid s =
      let go = push q s in
      if is_some (validate_guid guid)
      then invalid_guid op s
      else if str_eq q.expected_app_guid ""
      then (
        s,
        record (spoiled op "stage app name already exists") { name = codes "stage" },
        some (cf_error "stage" already_exists none),
      )
      else if not (bytes_eq guid (codes q.expected_app_guid))
      then (
        s,
        record (spoiled op "stage app identity mismatch") { name = codes "stage" },
        some (cf_error "stage" identity_mismatch none),
      )
      else go

  -- The preflight failed: go on only if the app is missing and none was expected.
  unfoldable pub stage_missing : PushRequest → Operation → Err → Shell W → Reply
  stage_missing q op e s =
      let go = push q s in
      if not (is_provider_absent e)
      then (s, op, some e)
      else if str_eq q.expected_app_guid ""
      then go
      else (
        s,
        record op { name = codes "stage"; error = codes "stage app ownership lost" },
        some (cf_error "stage" ownership_lost (some e)),
      )

  unfoldable pub stage_checks : PushRequest → Shell W → Option Err
  stage_checks q s =
      maybe (validate_name "app" q.name)
        (if not (contains p.buildpacks q.buildpack)
          then some (error_new "buildpack is not allowed")
          else maybe (platform.check_bits_path p.work_root q.bits_path s.world)
              (if str_eq q.expected_app_guid ""
                then none
                else validate_guid (codes q.expected_app_guid))
              some)
        some

  unfoldable pub stage_preflight : PushRequest → Shell W → Reply
  unfolding stage_found stage_missing
  stage_preflight q s =
      let (t, op, output, e) =
        execute platform p "stage-preflight" ("app" ∷ q.name ∷ "--guid" ∷ []) s in
      elim e [
        | none ↦ stage_found q op (platform.trim_space output) t
        | some x ↦ stage_missing q op x t
      ]

  unfoldable pub stage : PushRequest → Shell W → Reply
  unfolding stage_checks
  stage q s =
      let go = stage_preflight q s in
      elim (stage_checks q s) [ some e ↦ (s, no_operation, some e) | none ↦ go ]

  unfoldable pub ensure_app_absent : String → Shell W → Reply
  ensure_app_absent name s =
      let (t, op, output, e) = execute platform p "app-absence" ("app" ∷ name ∷ "--guid" ∷ []) s in
      elim (validate_name "app" name) [
        | some x ↦ (s, no_operation, some x)
        | none ↦ elim e [
          | some x ↦ if is_provider_absent x then (t, succeeded op, none) else (t, op, some x)
          | none ↦
              if is_some (validate_guid (platform.trim_space output)) then invalid_guid op t else (
                t,
                spoiled op "app name already exists",
                some (cf_error "app-absence" already_exists none),
              )
        ]
      ]

  unfoldable pub app_guid : String → Shell W → Shell W × Bytes × Operation × Option Err
  app_guid name s =
      let (t, op, output, e) = execute platform p "app-guid" ("app" ∷ name ∷ "--guid" ∷ []) s in
      let guid = platform.trim_space output in
      elim (validate_name "app" name) [
        | some x ↦ (s, [], no_operation, some x)
        | none ↦ elim e [
          | some x ↦ (t, [], op, some x)
          | none ↦
              if is_some (validate_guid guid)
              then (
                t,
                [],
                spoiled op "cf app returned an invalid GUID",
                some (error_new "cf app returned an invalid GUID"),
              )
              else (t, guid, op, none)
        ]
      ]

  unfoldable pub start_app : String → Shell W → Reply
  start_app name s =
      let (t, op, output, e) = execute platform p "start-app" ("start" ∷ name ∷ []) s in
      elim (validate_name "app" name) [ some x ↦ (s, no_operation, some x) | none ↦ (t, op, e) ]

  -- Behind the validation of `DeleteApp`.
  unfoldable pub delete_found : String → String → Shell W → Reply
  delete_found name expected s =
      let (t, op, output, e) = execute platform p "delete-app" ("app" ∷ name ∷ "--guid" ∷ []) s in
      let (u, deleted, _, f) = execute platform p "delete-app" ("delete" ∷ name ∷ "-f" ∷ []) t in
      elim e [
        | some x ↦ if is_provider_absent x then (t, succeeded op, none) else (t, op, some x)
        | none ↦
            if not (bytes_eq (platform.trim_space output) (codes expected))
            then (
              t,
              spoiled op "delete-app identity mismatch",
              some (cf_error "delete-app" identity_mismatch none),
            )
            else (u, merge_operations platform op deleted, f)
      ]

  unfoldable pub delete_app : String → String → Shell W → Reply
  delete_app name expected s =
      let go = delete_found name expected s in
      elim (validate_name "app" name) [
        | some x ↦ (s, no_operation, some x)
        | none ↦ elim (validate_guid (codes expected)) [
          | some x ↦ (s, no_operation, some x)
          | none ↦ go
        ]
      ]

-- ===== src/Cf/Routes.antt =====
-- The operations of internal/cf/provider.go on routes and route policies, and the enrollment
-- settings of an app.
use Prim.Native.String.{◌++◌ as string_append}
use cf_herdr_poc.Base.{
  String, codes, Bool, true, false, Option, none, some, List, [], ◌∷◌, str_eq, bytes_eq, Err,
  if◌then◌else◌,
}
use cf_herdr_poc.Base.Exec.{maybe}
use cf_herdr_poc.Model.{Operation}
use cf_herdr_poc.Reconcile.{RouteRequest, RoutePolicyRequest}
use cf_herdr_poc.Cf.{
  identity_mismatch, cf_error, is_provider_absent, validate_name, validate_guid, validate_domain,
}
use cf_herdr_poc.Cf.Execute.{Provider, Platform, Shell, execute, execute_many, merge_operations}
use cf_herdr_poc.Cf.Apps.{no_operation, succeeded, spoiled}

abbrev source_of : String → String
source_of guid = string_append "cf:app:" guid

module _ {W : Type 0} (platform : Platform W) (p : Provider W) where
  abbrev Reply : Type 0
  Reply = Shell W × Operation × Option Err

  unfoldable pub validate_route_policy : RoutePolicyRequest → Option Err
  validate_route_policy q =
      maybe (validate_domain platform.is_ip (codes q.domain))
        (maybe (validate_name "host" q.host) (validate_guid (codes q.source_app_guid)) some) some

  unfoldable pub validate_route_request : RouteRequest → Option Err
  unfolding validate_route_policy
  validate_route_request q =
      maybe (validate_name "app" q.app_name)
        (maybe (if str_eq q.app_guid "" then none else validate_guid (codes q.app_guid))
          (validate_route_policy
            (record { domain = q.domain; host = q.host; source_app_guid = q.source_app_guid }))
          some)
        some

  unfoldable pub secure_route : RouteRequest → Shell W → Reply
  unfolding validate_route_request
  secure_route q s =
      let go =
        execute_many platform p "secure-route"
          (("create-route" ∷ q.domain ∷ "--hostname" ∷ q.host ∷ [])
            ∷ ("map-route" ∷ q.app_name ∷ q.domain ∷ "--hostname" ∷ q.host ∷ [])
            ∷ ("add-route-policy"
                ∷ q.domain
                ∷ "--hostname"
                ∷ q.host
                ∷ "--source"
                ∷ source_of q.source_app_guid
                ∷ [])
            ∷ [])
          s in
      elim (validate_route_request q) [ some e ↦ (s, no_operation, some e) | none ↦ go ]

  unfoldable pub add_route_policy : RoutePolicyRequest → Shell W → Reply
  unfolding validate_route_policy
  add_route_policy q s =
      let (t, op, output, e) =
        execute platform p "add-route-policy"
          ("add-route-policy"
            ∷ q.domain
            ∷ "--hostname"
            ∷ q.host
            ∷ "--source"
            ∷ source_of q.source_app_guid
            ∷ [])
          s in
      elim (validate_route_policy q) [ some x ↦ (s, no_operation, some x) | none ↦ (t, op, e) ]

  unfoldable pub remove_route_policy : RoutePolicyRequest → Shell W → Reply
  unfolding validate_route_policy
  remove_route_policy q s =
      let (t, op, output, e) =
        execute platform p "remove-route-policy"
          ("remove-route-policy"
            ∷ q.domain
            ∷ "--hostname"
            ∷ q.host
            ∷ "--source"
            ∷ source_of q.source_app_guid
            ∷ "-f"
            ∷ [])
          s in
      elim (validate_route_policy q) [ some x ↦ (s, no_operation, some x) | none ↦ (t, op, e) ]

  abbrev delete_route_args : RouteRequest → List String
  delete_route_args q = "delete-route" ∷ q.domain ∷ "--hostname" ∷ q.host ∷ "-f" ∷ []

  abbrev unmap_route_args : RouteRequest → List String
  unmap_route_args q = "unmap-route" ∷ q.app_name ∷ q.domain ∷ "--hostname" ∷ q.host ∷ []

  abbrev policy_args : RouteRequest → List String
  policy_args q =
      "remove-route-policy"
      ∷ q.domain
      ∷ "--hostname"
      ∷ q.host
      ∷ "--source"
      ∷ source_of q.source_app_guid
      ∷ "-f"
      ∷ []

  -- The commands behind the check of the identity, and the merge of their operation.
  unfoldable pub clean_route : List (List String) → Operation → Shell W → Reply
  clean_route commands result s =
      let (t, cleanup, e) = execute_many platform p "remove-route" commands s in
      (t, merge_operations platform result cleanup, e)

  -- The app is there: its route is unmapped only if it is the expected one. A route of another app
  -- is deleted all the same, and reported.
  unfoldable pub remove_identified : RouteRequest → Operation → Bool → Shell W → Reply
  unfolding clean_route
  remove_identified q result true s =
      clean_route (unmap_route_args q ∷ delete_route_args q ∷ []) result s
  remove_identified q result false s =
      let (t, op, e) = clean_route (delete_route_args q ∷ []) result s in
      elim e [
        | some x ↦ (t, op, some x)
        | none ↦ (
          t,
          spoiled op "remove-route identity mismatch",
          some (cf_error "remove-route" identity_mismatch none),
        )
      ]

  unfoldable pub remove_with_guid : RouteRequest → Operation → Shell W → Reply
  unfolding remove_identified
  remove_with_guid q first s =
      let (t, identity, output, e) =
        execute platform p "remove-route" ("app" ∷ q.app_name ∷ "--guid" ∷ []) s in
      let result = merge_operations platform first identity in
      elim e [
        | some x ↦
            if is_provider_absent x
            then clean_route (delete_route_args q ∷ []) (succeeded result) t
            else (t, result, some x)
        | none ↦
            remove_identified q result (bytes_eq (platform.trim_space output) (codes q.app_guid)) t
      ]

  unfoldable pub remove_route : RouteRequest → Shell W → Reply
  unfolding validate_route_request remove_with_guid clean_route
  remove_route q s =
      let (t, result, e) = execute_many platform p "remove-route" (policy_args q ∷ []) s in
      elim (validate_route_request q) [
        | some x ↦ (s, no_operation, some x)
        | none ↦ elim e [
          | some x ↦ (t, result, some x)
          | none ↦
              if str_eq q.app_guid ""
              then clean_route (delete_route_args q ∷ []) result t
              else remove_with_guid q result t
        ]
      ]

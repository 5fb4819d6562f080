-- ===== src/Cf/Enroll.antt =====
-- `ConfigureEnrollment` of internal/cf/provider.go.
use Prim.Native.String.{◌++◌ as string_append}
use cf_herdr_poc.Base.{
  String, codes, not, ◌||◌, Option, none, some, List, [], ◌∷◌, str_eq, Err, error_new,
  if◌then◌else◌, is_nil,
}
use cf_herdr_poc.Base.Exec.{maybe}
use cf_herdr_poc.Model.{Operation}
use cf_herdr_poc.Reconcile.{EnrollmentConfig}
use cf_herdr_poc.Cf.{validate_name}
use cf_herdr_poc.Cf.Execute.{Provider, Platform, Shell, execute_many}
use cf_herdr_poc.Cf.Apps.{no_operation}

module _ {W : Type 0} (platform : Platform W) (p : Provider W) where
  abbrev required : EnrollmentConfig → List (String × String)
  required c =
      ("CF_API", c.cf_api)
      ∷ ("CF_USERNAME", c.cf_username)
      ∷ ("CF_PASSWORD", c.cf_password)
      ∷ ("CF_ORG", c.cf_org)
      ∷ ("CF_SPACE", c.cf_space)
      ∷ []

  unfoldable pub find_blank : List (String × String) → Option Err
  find_blank [] = none
  find_blank ((key, value) ∷ rest) =
      if is_nil (platform.trim_space (codes value))
      then some (error_new (string_append key " is required for enrollment"))
      else find_blank rest

  unfoldable pub check_enrollment : String → EnrollmentConfig → Shell W → Option Err
  unfolding find_blank
  check_enrollment name c s =
      maybe (validate_name "app" name)
        (if not (str_eq c.token_app_path "/home/vcap/app/sandbox-runtime/join-token")
            || not (platform.valid_https_address c.lead_address)
            || not (platform.valid_host c.self_address)
          then some (error_new "invalid enrollment configuration")
          else find_blank (platform.range (required c) s.world))
        some

  abbrev pub settings : String → EnrollmentConfig → List (String × String)
  settings name c =
      ("HERDR_SOCKET_PATH", "/home/vcap/.sandbox-state/herdr.sock")
      ∷ ("CF_API", c.cf_api)
      ∷ ("CF_USERNAME", c.cf_username)
      ∷ ("CF_PASSWORD", c.cf_password)
      ∷ ("CF_ORG", c.cf_org)
      ∷ ("CF_SPACE", c.cf_space)
      ∷ ("COLLIE_JOIN_TOKEN_FILE", c.token_app_path)
      ∷ ("COLLIE_PACK_LEAD_ADDRESS", c.lead_address)
      ∷ ("SANDBOX_MEMBER_ID", name)
      ∷ ("COLLIE_PACK_SELF_ADDRESS", c.self_address)
      ∷ []

  abbrev set_commands : String → List (String × String) → List (List String)
  set_commands name [] = []
  set_commands name ((key, value) ∷ rest) =
      ("set-env" ∷ name ∷ key ∷ value ∷ []) ∷ set_commands name rest

  unfoldable pub configure_enrollment :
      String → EnrollmentConfig → Shell W → Shell W × Operation × Option Err
  unfolding check_enrollment
  configure_enrollment name c s =
      let go =
        execute_many platform p "configure-enrollment" (set_commands name (settings name c)) s in
      elim (check_enrollment name c s) [ some e ↦ (s, no_operation, some e) | none ↦ go ]

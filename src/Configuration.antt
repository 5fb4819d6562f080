-- ===== src/Configuration.antt =====
-- internal/config/config.go: the settings of the manager, read from its environment. `strings.TrimSpace`
-- and the parsers of durations and truth values are parameters; a duration that is not positive is 0.
pub mod Hosts
pub mod Checked
unfoldable pub use Hosts.{trim_suffix, is_label, valid_dns_name, route_host}
use cf_herdr_poc.Base.{
  ℕ, String, Bytes, codes, Bool, true, false, not, ◌&&◌, ◌||◌, Option, none, some, List, [], ◌∷◌,
  ◌++◌, Err, error_new, wrap, if◌then◌else◌, ◌==◌, ltb, leb, bytes_eq, is_nil, length, mem_byte,
}
use cf_herdr_poc.Base.Exec.{Result, ok, err}
use cf_herdr_poc.Cf.{is_lower, is_digit, every, split_at}

pub record Library : Type 0 where
  pub trim_space : Bytes → Bytes
  pub parse_duration : Bytes → Result Err ℕ
  pub parse_bool : Bytes → Option Bool

pub record Config : Type 0 where
  pub address : Bytes
  pub state_path : Bytes
  pub web_dir : Bytes
  pub collie_dir : Bytes
  pub identity_domain : Bytes
  pub manager_app_name : Bytes
  pub manager_app_guid : Bytes
  pub manager_pack_host : Bytes
  pub manager_route_host : Bytes
  pub buildpacks : List Bytes
  pub reconcile_interval : ℕ
  pub api_token : Bytes
  pub collie_address : Bytes
  pub work_root : Bytes
  pub runtime_dir : Bytes
  pub sandbox_runtime_dir : Bytes
  pub bun_executable : Bytes
  pub collie_executable : Bytes
  pub herdr_executable : Bytes
  pub cf_executable : Bytes
  pub cf_api : Bytes
  pub cf_username : Bytes
  pub cf_password : Bytes
  pub cf_org : Bytes
  pub cf_space : Bytes
  pub cf_skip_ssl_validation : Bool
  pub instance_cert : Bytes
  pub instance_key : Bytes

module _ (lib : Library) where
  -- The texts without blanks around them, `none` if one of them is blank.
  unfoldable pub trim_all : List Bytes → Option (List Bytes)
  trim_all [] = some []
  trim_all (b ∷ bs) =
      let text = lib.trim_space b in
      let rest = trim_all bs in
      if is_nil text then none else elim rest [ none ↦ none | some ts ↦ some (text ∷ ts) ]

  unfoldable pub read_interval : Bytes → Result Err ℕ
  read_interval raw = if is_nil raw then ok 2_000_000_000 else elim (lib.parse_duration raw) [
    | err e ↦ err (wrap "MANAGER_RECONCILE_INTERVAL must be a valid duration" e)
    | ok d ↦ if d == 0 then err (error_new "MANAGER_RECONCILE_INTERVAL must be positive") else ok d
  ]

  unfoldable pub read_skip : Bytes → Result Err Bool
  read_skip raw = if is_nil raw then ok false else elim (lib.parse_bool raw) [
    | none ↦ err (error_new "CF_SKIP_SSL_VALIDATION must be true or false")
    | some b ↦ ok b
  ]

  module _ (getenv : String → Bytes) where
    abbrev pub value : String → Bytes
    value key = lib.trim_space (getenv key)

    unfoldable pub value_or : String → Bytes → Bytes
    value_or key default = let result = value key in if is_nil result then default else result

    unfoldable pub read_address : Bytes
    read_address =
        if not (is_nil (value "MANAGER_ADDRESS"))
        then value "MANAGER_ADDRESS"
        else if not (is_nil (value "PORT"))
        then b':' ∷ value "PORT"
        else codes ":8080"

    -- The value that `Load` returns at its end.
    unfoldable pub make_config : Bytes → List Bytes → ℕ → Bool → Config
    unfolding value_or read_address
    make_config host buildpacks interval skip =
        let runtime_dir = value_or "MANAGER_RUNTIME_DIR" (codes "./manager-runtime") in
        record {
          address = read_address;
          state_path = value_or "MANAGER_STATE_PATH" (codes "./data/sandboxes.json");
          web_dir = value_or "MANAGER_WEB_DIR" (codes "./web/dist");
          collie_dir = value_or "MANAGER_COLLIE_DIR" (codes "./collie");
          identity_domain = value "CF_IDENTITY_DOMAIN";
          manager_app_name = value "MANAGER_APP_NAME";
          manager_app_guid = value "MANAGER_APP_GUID";
          manager_pack_host = value "MANAGER_PACK_HOST";
          manager_route_host = host;
          buildpacks = buildpacks;
          reconcile_interval = interval;
          api_token = value "MANAGER_API_TOKEN";
          collie_address = value_or "MANAGER_COLLIE_ADDRESS" (codes "127.0.0.1:9191");
          work_root = value_or "MANAGER_WORK_ROOT" (codes "./data/work");
          runtime_dir = runtime_dir;
          sandbox_runtime_dir = value_or "MANAGER_SANDBOX_RUNTIME_DIR" (codes "./sandbox/runtime");
          bun_executable = value_or "MANAGER_BUN_EXECUTABLE" (runtime_dir ++ codes "/bin/bun");
          collie_executable =
              value_or "MANAGER_COLLIE_EXECUTABLE" (runtime_dir ++ codes "/bin/collie");
          herdr_executable =
              value_or "MANAGER_HERDR_EXECUTABLE" (runtime_dir ++ codes "/bin/herdr");
          cf_executable = value_or "MANAGER_CF_EXECUTABLE" (codes "./manager-runtime/bin/cf");
          cf_api = value "CF_API";
          cf_username = value "CF_USERNAME";
          cf_password = value "CF_PASSWORD";
          cf_org = value "CF_ORG";
          cf_space = value "CF_SPACE";
          cf_skip_ssl_validation = skip;
          instance_cert =
              value_or "CF_INSTANCE_CERT" (codes "/etc/cf-instance-credentials/instance.crt");
          instance_key =
              value_or "CF_INSTANCE_KEY" (codes "/etc/cf-instance-credentials/instance.key");
        }

    unfoldable pub load_options : Bytes → List Bytes → Result Err Config
    unfolding read_interval read_skip make_config
    load_options host buildpacks = elim (read_interval (value "MANAGER_RECONCILE_INTERVAL")) [
      | err e ↦ err e
      | ok interval ↦ elim (read_skip (value "CF_SKIP_SSL_VALIDATION")) [
        | err e ↦ err e
        | ok skip ↦ ok (make_config host buildpacks interval skip)
      ]
    ]

    unfoldable pub load_buildpacks : Bytes → Result Err Config
    unfolding load_options trim_all split_at
    load_buildpacks host =
        if is_nil (value "SANDBOX_BUILDPACKS")
        then err (error_new "SANDBOX_BUILDPACKS must contain at least one buildpack")
        else elim (trim_all (split_at b',' (value "SANDBOX_BUILDPACKS"))) [
          | none ↦ err (error_new "SANDBOX_BUILDPACKS must not contain empty buildpacks")
          | some buildpacks ↦ load_options host buildpacks
        ]

    unfoldable pub load : Result Err Config
    unfolding load_buildpacks route_host
    load =
        if is_nil (value "CF_IDENTITY_DOMAIN")
        then err (error_new "CF_IDENTITY_DOMAIN is required")
        else elim (route_host (value "CF_IDENTITY_DOMAIN") (value "MANAGER_PACK_HOST")) [
          | none ↦ err (error_new "MANAGER_PACK_HOST must be a direct child of CF_IDENTITY_DOMAIN")
          | some host ↦ load_buildpacks host
        ]

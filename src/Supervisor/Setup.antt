-- ===== src/Supervisor/Setup.antt =====
-- The configuration of a supervisor, and the probes, of internal/supervisor/collie.go.
use cf_herdr_poc.Base.{
  ℕ, ◌*◌, Bytes, codes, Bool, true, false, ◌||◌, Option, none, some, List, [], ◌∷◌, ◌++◌, Err,
  error_text, if◌then◌else◌, ◌==◌, bytes_eq, is_nil, mem_byte,
}
use cf_herdr_poc.Base.Exec.{Result, ok, err}
use cf_herdr_poc.Supervisor.{Attempt}

-- The configuration, less the writers and the function that replaces the environment. A time that is
-- not positive counts as 0.
pub record Config : Type 0 where
  pub executable : Bytes
  pub args : List Bytes
  pub dir : Bytes
  pub plugin_root : Bytes
  pub host : Bytes
  pub port : ℕ
  pub ready_timeout : ℕ
  pub probe_interval : ℕ
  pub stop_timeout : ℕ
  pub ready_target : Bytes

-- What `New` uses of the libraries: `filepath.Abs`, the text of a number, `%q`, and the IP
-- addresses of the loopback.
pub record Library : Type 0 where
  pub abs : Bytes → Result Err Bytes
  pub decimal : ℕ → Bytes
  pub quote : Bytes → Bytes
  pub is_loopback_ip : Bytes → Bool

abbrev pub default : Bytes → Bytes → Bytes
default value other = if is_nil value then other else value

abbrev pub default_time : ℕ → ℕ → ℕ
default_time value other = if value == 0 then other else value

-- A millisecond, in nanoseconds.
abbrev pub millisecond : ℕ
millisecond = 1000000

module _ (lib : Library) where
  abbrev pub absolute_dir : Bytes → Result Err Bytes
  absolute_dir dir = if is_nil dir then ok dir else lib.abs dir

  abbrev pub dir_of : Bytes → Bytes
  dir_of dir = elim (absolute_dir dir) [ ok d ↦ d | err e ↦ dir ]

  -- `configErr`
  unfoldable pub dir_error : Config → Option Err
  dir_error c = elim (absolute_dir c.dir) [
    | ok d ↦ none
    | err e ↦ some (record e {
      text = codes "resolve Collie directory " ++ lib.quote c.dir ++ codes ": " ++ e.text;
    })
  ]

  unfoldable pub with_defaults : Config → Config
  with_defaults c =
      let dir = dir_of c.dir in
      let host = default c.host (codes "127.0.0.1") in
      let port = if c.port == 0 then 8787 else c.port in
      let target =
        codes "http://" ++ host ++ codes ":" ++ lib.decimal port ++ codes "/api/snapshot" in
      record {
        executable = default c.executable (codes "bun");
        args = elim c.args [
          | [] ↦ codes "run" ∷ codes "bridge/index.ts" ∷ []
          | a ∷ more ↦ a ∷ more
        ];
        dir = dir;
        plugin_root = default c.plugin_root dir;
        host = host;
        port = port;
        ready_timeout = default_time c.ready_timeout (10000 * millisecond);
        probe_interval = default_time c.probe_interval (50 * millisecond);
        stop_timeout = default_time c.stop_timeout (5000 * millisecond);
        ready_target = default c.ready_target target;
      }

  unfoldable pub is_loopback : Bytes → Bool
  is_loopback host = bytes_eq host (codes "localhost") || lib.is_loopback_ip host

  abbrev pub is_rooted : Bytes → Bool
  is_rooted [] = false
  is_rooted (c ∷ s) = c == b'/'

  unfoldable pub resolve_executable : Bytes → Result Err Bytes
  resolve_executable executable =
      if is_rooted executable
      then ok executable
      else if mem_byte executable b'/'
      then lib.abs executable
      else ok executable

  -- What a start of the configured child meets.
  unfoldable pub attempt_for : Config → Option Err → Option Err → Attempt
  unfolding with_defaults dir_error is_loopback resolve_executable
  attempt_for c canceled refused =
      let d = with_defaults c in
      record {
        config_error = dir_error c;
        context_error = canceled;
        loopback = is_loopback d.host;
        host = lib.quote d.host;
        unresolved = elim (resolve_executable d.executable) [ ok x ↦ none | err e ↦ some e ];
        refused = refused;
      }

-- `httpProbe`, with what the request returns: the status and its text.
unfoldable pub http_probe : Result Err (ℕ × Bytes) → Option Err
http_probe (err e) = some e
http_probe (ok (status, text)) =
    if status == 200 then none else some (error_text (codes "snapshot returned " ++ text))

-- `UnixSocketProbe`, with what `Stat` tells of the mode, and the error of the context.
unfoldable pub unix_socket_probe : Bytes → Result Err Bool → Option Err → Option Err
unix_socket_probe path (err e) canceled = some e
unix_socket_probe path (ok false) canceled =
    some (error_text (path ++ codes " is not a Unix socket"))
unix_socket_probe path (ok true) canceled = canceled

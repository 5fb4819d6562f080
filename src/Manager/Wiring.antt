-- ===== src/Manager/Wiring.antt =====
-- Smaller parts of cmd/manager/main.go: the environment of Herdr, the address of Collie, the files
-- of the web page, and what ends the wait for a shutdown.
use cf_herdr_poc.Base.{
  ℕ, String, Bytes, codes, Bool, not, ◌&&◌, ◌||◌, Option, none, some, List, [], ◌∷◌, ◌++◌, Err,
  error_new, wrap, if◌then◌else◌, ◌==◌, ltb, is_nil, mem_byte, trim_prefix,
}
use cf_herdr_poc.Base.Exec.{Result, ok, err}
use cf_herdr_poc.Environment.{cut, is_managed}

abbrev pub herdr_names : List String
herdr_names = "HERDR_PLUGIN_CONFIG_DIR" ∷ "HERDR_PLUGIN_STATE_DIR" ∷ "HERDR_SOCKET_PATH" ∷ []

unfoldable pub keep_unmanaged : List Bytes → List Bytes
unfolding cut is_managed
keep_unmanaged [] = []
keep_unmanaged (e ∷ es) =
    let rest = keep_unmanaged es in
    elim (cut e) [
      | none ↦ e ∷ rest
      | some (k, v) ↦ if is_managed herdr_names k then rest else e ∷ rest
    ]

-- `herdrEnvironment`
unfoldable pub herdr_environment : List Bytes → Bytes → Bytes → Bytes → List Bytes
unfolding keep_unmanaged
herdr_environment base config_dir state_dir socket_path =
    keep_unmanaged base
    ++ ((codes "HERDR_PLUGIN_CONFIG_DIR=" ++ config_dir)
        ∷ (codes "HERDR_PLUGIN_STATE_DIR=" ++ state_dir)
        ∷ (codes "HERDR_SOCKET_PATH=" ++ socket_path)
        ∷ [])

-- `net.SplitHostPort`, `net.ParseIP` with `IsLoopback`, and `strconv.Atoi` (of a number that is not
-- negative).
pub record Library : Type 0 where
  pub split_host_port : Bytes → Result Err (Bytes × Bytes)
  pub is_loopback_ip : Bytes → Bool
  pub atoi : Bytes → Option ℕ

unfoldable pub loopback_address : Library → Bytes → Result Err (Bytes × ℕ)
loopback_address lib address = elim (lib.split_host_port address) [
  | err e ↦ err (wrap "MANAGER_COLLIE_ADDRESS must be host:port" e)
  | ok (host, raw) ↦
      let bad = err (error_new "MANAGER_COLLIE_ADDRESS has an invalid port") in
      if not (lib.is_loopback_ip host)
      then err (error_new "MANAGER_COLLIE_ADDRESS must use a loopback IP")
      else elim (lib.atoi raw) [
        | none ↦ bad
        | some port ↦ if ltb port 1 || ltb 65535 port then bad else ok (host, port)
      ]
]

-- What the web page answers: the file at the path, the start page, or 404.
pub data Page : Type 0 where
  file index not_found : Page

abbrev pub drop_slashes : Bytes → Bytes
drop_slashes [] = []
drop_slashes (c ∷ s) =
    let rest = drop_slashes s in if (c == b'/') && is_nil rest then [] else c ∷ rest

-- What is behind the last slash, or `name` where there is none: `filepath.Base` of a path that does
-- not end in a slash.
unfoldable pub base_name : Bytes → Bytes → Bytes
base_name name [] = name
base_name name (c ∷ s) = base_name (if c == b'/' then s else name) s

-- `managerWeb`, with what `Stat` tells of the file.
unfoldable pub manager_web : Bytes → (Bytes → Bool) → Page
unfolding trim_prefix base_name
manager_web url_path exists =
    let path = trim_prefix (codes "/manager/") url_path in
    if is_nil path
    then file
    else if exists path
    then file
    else if mem_byte (base_name (drop_slashes path) (drop_slashes path)) b'.'
    then not_found
    else index

-- What `waitForShutdown` receives first.
pub data Ending : Type 0 where
  interrupted : Ending
  http_ended : Option Err → Ending
  child_ended : Option Err → Ending

unfoldable pub wait_for_shutdown : Ending → Option Err
wait_for_shutdown interrupted = none
wait_for_shutdown (http_ended none) = none
wait_for_shutdown (http_ended (some e)) = some (wrap "serve manager HTTP" e)
wait_for_shutdown (child_ended e) = e

-- The channel of `mergeSupervisorErrors`, which has room for one, when an error comes.
unfoldable pub merge_error : Option Err → Option Err → Option Err
merge_error full none = full
merge_error none (some e) = some e
merge_error (some x) (some e) = some x

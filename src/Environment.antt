-- ===== src/Environment.antt =====
-- internal/collie/environment.go: the environment of the Collie child process. Entries are byte
-- strings.
use cf_herdr_poc.Base.{
  ℕ, String, Bytes, codes, Bool, true, false, not, ◌&&◌, ◌||◌, Option, none, some, List, [], ◌∷◌,
  ◌++◌, str_eq, if◌then◌else◌, ◌==◌, Assoc, lookup, bytes_eq,
}

-- `port` is `strconv.Itoa` of the port.
pub record Runtime : Type 0 where
  pub plugin_root : String
  pub config_dir : String
  pub state_dir : String
  pub socket_path : String
  pub host : String
  pub port : String
  pub pack_transport : String

abbrev pub managed_names : List String
managed_names =
    "HERDR_PLUGIN_CONFIG_DIR" ∷ "HERDR_PLUGIN_STATE_DIR" ∷ "COLLIE_STATE_DIR" ∷ "COLLIE_PLUGIN_ROOT"
    ∷ "HERDR_SOCKET_PATH" ∷ "COLLIE_HOST" ∷ "COLLIE_PORT" ∷ "COLLIE_PACK_TRANSPORT" ∷ []

-- An entry that is set only where the value is not empty.
abbrev optional : String → String → Assoc String → Assoc String
optional key value rest = if str_eq value "" then rest else (key, value) ∷ rest

unfoldable pub overrides : Runtime → Assoc String
overrides r =
    ("HERDR_PLUGIN_CONFIG_DIR", r.config_dir)
    ∷ ("HERDR_PLUGIN_STATE_DIR", r.state_dir)
    ∷ ("COLLIE_STATE_DIR", r.state_dir)
    ∷ ("COLLIE_HOST", r.host)
    ∷ ("COLLIE_PORT", r.port)
    ∷ optional "COLLIE_PLUGIN_ROOT" r.plugin_root (
        optional "COLLIE_PACK_TRANSPORT" r.pack_transport
          (optional "HERDR_SOCKET_PATH" r.socket_path []))

abbrev add_front : ℕ → Option (Bytes × Bytes) → Option (Bytes × Bytes)
add_front c none = none
add_front c (some (k, v)) = some (c ∷ k, v)

-- `strings.Cut(entry, "=")`.
unfoldable pub cut : Bytes → Option (Bytes × Bytes)
cut [] = none
cut (c ∷ s) = let rest = cut s in if c == b'=' then some ([], s) else add_front c rest

unfoldable pub is_managed : List String → Bytes → Bool
is_managed [] key = false
is_managed (n ∷ ns) key = bytes_eq (codes n) key || is_managed ns key

-- The value of an entry of the key, if it is one.
abbrev pub key_of : Bytes → Bytes → Bool
key_of key entry = elim (cut entry) [ none ↦ false | some (k, v) ↦ bytes_eq k key ]

unfoldable pub replaced : Bytes → Bool
unfolding cut is_managed
replaced entry = elim (cut entry) [ none ↦ false | some (k, v) ↦ is_managed managed_names k ]

unfoldable pub keep_entries : List Bytes → List Bytes
unfolding replaced
keep_entries [] = []
keep_entries (e ∷ es) = let rest = keep_entries es in if replaced e then rest else e ∷ rest

abbrev entry : String → String → Bytes
entry key value = codes key ++ (b'=' ∷ codes value)

unfoldable pub override_entries : List String → Assoc String → List Bytes
override_entries [] values = []
override_entries (n ∷ ns) values =
    let rest = override_entries ns values in
    elim (lookup n values) [ none ↦ rest | some v ↦ entry n v ∷ rest ]

unfoldable pub environment : Runtime → List Bytes → List Bytes
unfolding overrides keep_entries override_entries
environment r base = keep_entries base ++ override_entries managed_names (overrides r)

-- The values that an environment gives a name, in order.
abbrev pub values_of : Bytes → List Bytes → List Bytes
values_of key [] = []
values_of key (e ∷ es) =
    let rest = values_of key es in
    elim (cut e) [ none ↦ rest | some (k, v) ↦ if bytes_eq k key then v ∷ rest else rest ]

abbrev managed : Bytes → Bool
managed key = is_managed managed_names key

abbrev no_equals : Bytes → Bool
no_equals [] = true
no_equals (c ∷ s) = not (c == b'=') && no_equals s

abbrev all_clean : List String → Bool
all_clean [] = true
all_clean (n ∷ ns) = no_equals (codes n) && all_clean ns

-- The values that a table gives those of the names that are the key.
abbrev pub assigned : List String → Assoc String → Bytes → List Bytes
assigned [] values key = []
assigned (n ∷ ns) values key =
    let rest = assigned ns values key in
    if bytes_eq (codes n) key
    then elim (lookup n values) [ none ↦ rest | some v ↦ codes v ∷ rest ]
    else rest

-- The values of a managed name, written out.
abbrev pub filled : String → List Bytes
filled value = if str_eq value "" then [] else codes value ∷ []

abbrev pub set_values : Runtime → Bytes → List Bytes
set_values r key =
    if bytes_eq (codes "HERDR_PLUGIN_CONFIG_DIR") key
    then codes r.config_dir ∷ []
    else if bytes_eq (codes "HERDR_PLUGIN_STATE_DIR") key
    then codes r.state_dir ∷ []
    else if bytes_eq (codes "COLLIE_STATE_DIR") key
    then codes r.state_dir ∷ []
    else if bytes_eq (codes "COLLIE_PLUGIN_ROOT") key
    then filled r.plugin_root
    else if bytes_eq (codes "HERDR_SOCKET_PATH") key
    then filled r.socket_path
    else if bytes_eq (codes "COLLIE_HOST") key
    then codes r.host ∷ []
    else if bytes_eq (codes "COLLIE_PORT") key
    then codes r.port ∷ []
    else if bytes_eq (codes "COLLIE_PACK_TRANSPORT") key
    then filled r.pack_transport
    else []

-- The first name that is the key is the only one.
abbrev one_of : List String → Bytes → (String → List Bytes) → List Bytes
one_of [] key f = []
one_of (n ∷ ns) key f = let rest = one_of ns key f in if bytes_eq (codes n) key then f n else rest

abbrev given : Assoc String → String → List Bytes
given values n = elim (lookup n values) [ none ↦ [] | some v ↦ codes v ∷ [] ]

abbrev fresh : List String → Bool
fresh [] = true
fresh (n ∷ ns) = not (is_managed ns (codes n)) && fresh ns

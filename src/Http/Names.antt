-- ===== src/Http/Names.antt =====
-- The checks of names, hosts and repositories in internal/httpapi/server.go.
use cf_herdr_poc.Base.{
  String, Bytes, codes, Bool, false, not, ◌&&◌, ◌||◌, Option, none, some, List, [], ◌∷◌, Err,
  error_new, if◌then◌else◌, ◌==◌, is_nil, bytes_eq, has_any, count_byte, cut_at, starts,
  trim_prefix,
}
use cf_herdr_poc.Cf.{name_matches, contains}
use cf_herdr_poc.Http.{Library, Url}

unfoldable pub valid_name : String → Bool
valid_name value = name_matches (codes value)

-- `strings.TrimSuffix(value, ".")`
unfoldable pub trim_dot : Bytes → Bytes
trim_dot [] = []
trim_dot (c ∷ []) = if c == b'.' then [] else c ∷ []
trim_dot (c ∷ d ∷ s) = c ∷ trim_dot (d ∷ s)

module _ (lib : Library) where
  abbrev without_port : Bytes → Bytes
  without_port value =
      if starts (codes "[") value || count_byte b':' value == 1
      then elim (lib.split_host_port value) [ none ↦ value | some h ↦ h ]
      else value

  unfoldable pub canonical_host : Bytes → Bytes × Bool
  unfolding trim_dot has_any count_byte
  canonical_host value =
      let host = trim_dot (lib.to_lower (without_port value)) in
      if has_any (codes " ") value || is_nil value
      then ([], false)
      else (host, not (is_nil host) && not (has_any (codes "/@?#") host))

  unfoldable pub valid_hostname : Bytes → Bool
  unfolding canonical_host
  valid_hostname value =
      let (host, fine) = canonical_host value in
      if is_nil value || has_any (codes "/@?#") value
      then false
      else fine && bytes_eq host value && not (lib.is_ip host)

  abbrev known_scheme : Bytes → Bool
  known_scheme s =
      bytes_eq s (codes "http") || bytes_eq s (codes "https") || bytes_eq s (codes "ssh")

  unfoldable pub valid_url : Option Url → Bool
  valid_url none = false
  valid_url (some u) =
      known_scheme u.scheme
      && not (is_nil u.host)
      && not u.has_user
      && is_nil u.query
      && is_nil u.fragment

  -- `git@host:path`, cut at its first colon.
  unfoldable pub valid_git : Option (Bytes × Bytes) → Bool
  unfolding valid_hostname trim_prefix
  valid_git none = false
  valid_git (some (head, path)) =
      valid_hostname (trim_prefix (codes "git@") head) && not (is_nil path)

  unfoldable pub valid_repository : Bytes → Bool
  unfolding valid_url valid_git has_any cut_at
  valid_repository value =
      if is_nil value || starts (codes "-") value || has_any (0 ∷ b'\r' ∷ b'\n' ∷ []) value
      then false
      else if starts (codes "git@") value
      then valid_git (cut_at b':' value)
      else valid_url (lib.parse_url value)

  unfoldable pub validate_create : String → String → String → List String → Option Err
  unfolding valid_name valid_repository
  validate_create name repository buildpack buildpacks =
      if not (valid_name name)
      then some (error_new "invalid sandbox name")
      else if not (valid_repository (codes repository))
      then some (error_new "invalid repository")
      else if contains buildpacks buildpack
      then none
      else some (error_new "buildpack is not allowed")

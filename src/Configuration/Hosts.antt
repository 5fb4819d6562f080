-- ===== src/Configuration/Hosts.antt =====
-- The host names of internal/config/config.go, and how texts are cut.
use cf_herdr_poc.Base.{
  Bytes, Bool, true, false, not, ◌&&◌, ◌||◌, Option, none, some, List, [], ◌∷◌, ◌++◌, if◌then◌else◌,
  ◌==◌, ltb, bytes_eq, is_nil, length, mem_byte,
}
use cf_herdr_poc.Cf.{is_lower, is_digit, every, split_at}

-- `strings.TrimSuffix`
unfoldable pub trim_suffix : Bytes → Bytes → Bytes
trim_suffix suffix [] = []
trim_suffix suffix (c ∷ s) =
    let rest = trim_suffix suffix s in if bytes_eq (c ∷ s) suffix then [] else c ∷ rest

abbrev starts_in_dash : Bytes → Bool
starts_in_dash [] = false
starts_in_dash (c ∷ s) = c == b'-'

abbrev ends_in_dash : Bytes → Bool
ends_in_dash [] = false
ends_in_dash (c ∷ []) = c == b'-'
ends_in_dash (c ∷ d ∷ s) = ends_in_dash (d ∷ s)

unfoldable pub is_label : Bytes → Bool
unfolding is_lower is_digit every
is_label label =
    not (is_nil label || ltb 63 (length label) || starts_in_dash label || ends_in_dash label)
    && every (λ c. is_lower c || is_digit c || c == b'-') label

abbrev all_labels : List Bytes → Bool
all_labels [] = true
all_labels (l ∷ ls) = is_label l && all_labels ls

unfoldable pub valid_dns_name : Bytes → Bool
unfolding is_label split_at
valid_dns_name value =
    not (ltb 253 (length value) || is_nil value) && all_labels (split_at b'.' value)

-- The host of the route of the manager, `none` if the host of the pack is refused.
unfoldable pub route_host : Bytes → Bytes → Option Bytes
unfolding trim_suffix valid_dns_name
route_host domain pack_host =
    let suffix = b'.' ∷ domain in
    let host = trim_suffix suffix pack_host in
    if is_nil pack_host
    then some []
    else if bytes_eq host pack_host
        || is_nil host
        || mem_byte host b'.'
        || not (valid_dns_name pack_host)
        || not (bytes_eq (host ++ suffix) pack_host)
    then none
    else some host

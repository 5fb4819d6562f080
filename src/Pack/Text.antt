-- ===== src/Pack/Text.antt =====
-- The texts of internal/pack/manager.go: names of members, invitations and lines of the roster.
use cf_herdr_poc.Base.{
  ℕ, Bytes, codes, Bool, true, false, not, ◌&&◌, ◌||◌, Option, none, some, List, [], ◌∷◌, Err,
  error_new, if◌then◌else◌, ◌==◌, leb, bytes_eq, is_nil, length, starts, cut_at,
}
use cf_herdr_poc.Cf.{is_lower, is_upper, is_digit, is_hex, every}

-- `^[a-z0-9][a-z0-9-]{0,62}$`
unfoldable pub is_member : Bytes → Bool
unfolding is_lower is_digit every
is_member [] = false
is_member (c ∷ s) =
    (is_lower c || is_digit c)
    && leb (length s) 62
    && every (λ d. is_lower d || is_digit d || d == b'-') s

unfoldable pub validate_member : Bytes → Option Err
unfolding is_member
validate_member id = if is_member id then none else some (error_new "invalid Collie Pack member ID")

abbrev name_char : ℕ → Bool
name_char c = is_lower c || is_upper c || is_digit c || c == b'_' || c == b'-'

-- `^[A-Za-z0-9_-]+\.[0-9a-fA-F]{64}$`
unfoldable pub is_invite : Bytes → Bool
unfolding cut_at is_lower is_upper is_digit is_hex every
is_invite s = elim (cut_at b'.' s) [
  | none ↦ false
  | some (head, key) ↦
      not (is_nil head) && every name_char head && length key == 64 && every is_hex key
]

abbrev prepend : ℕ → List Bytes → List Bytes
prepend c [] = (c ∷ []) ∷ []
prepend c (l ∷ ls) = (c ∷ l) ∷ ls

-- `strings.Split(s, "\n")`
unfoldable pub split_lines : Bytes → List Bytes
split_lines [] = [] ∷ []
split_lines (c ∷ s) = let rest = split_lines s in if c == b'\n' then [] ∷ rest else prepend c rest

abbrev pub is_role : Bytes → Bool
is_role rest = starts (codes " (lead)  ") rest || starts (codes " (peer)  ") rest

-- The name in a line of the roster, `^  (<member>)  \((?:lead|peer)\)  `. A name has no space.
unfoldable pub roster_member : Bytes → Option Bytes
unfolding cut_at is_member
roster_member (c ∷ d ∷ s) =
    if (c == b' ') && (d == b' ')
    then elim (cut_at b' ' s) [
      | none ↦ none
      | some (id, rest) ↦ if is_member id && is_role rest then some id else none
    ]
    else none
roster_member _ = none

unfoldable pub is_listed : Bytes → List Bytes → Bool
unfolding roster_member
is_listed id [] = false
is_listed id (line ∷ lines) =
    let later = is_listed id lines in
    elim (roster_member line) [ none ↦ later | some m ↦ if bytes_eq m id then true else later ]

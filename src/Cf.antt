-- ===== src/Cf.antt =====
-- internal/cf/provider.go: types, text limits and the validation of requests. Regular expressions that
-- find secrets in output, `strings.ToLower`, `strings.TrimSpace` and the checks of
-- `validateBitsPath`, which walk the file system, are functions of `Platform`.
pub mod Login
pub mod Output
pub mod Execute
pub mod Apps
pub mod Routes
pub mod Inspect
pub mod Enroll
pub mod Text
pub mod Ownership
use Prim.Native.String.{◌++◌ as string_append}
use cf_herdr_poc.Base.{
  map_text, ℕ, zero, suc, ◌+◌, ◌-◌, String, Bytes, codes, Bool, true, false, not, ◌&&◌, ◌||◌,
  Option, none, some, List, [], ◌∷◌, ◌++◌, map, str_eq, Err, error_new, error_text, length, take,
  drop, ltb, leb, ◌==◌, if◌then◌else◌, is_nil,
}
use cf_herdr_poc.Model.{Operation}
use cf_herdr_poc.Sanitize.{blank_control}

-- `Error.Kind`.
pub data Kind : Type 0 where
  already_exists ownership_lost identity_mismatch not_found failed : Kind

unfoldable pub kind_text : Kind → String
kind_text already_exists = "already_exists"
kind_text ownership_lost = "ownership_lost"
kind_text identity_mismatch = "identity_mismatch"
kind_text not_found = "not_found"
kind_text failed = "failed"

unfoldable pub is_not_found : Kind → Bool
is_not_found not_found = true
is_not_found _ = false

unfoldable pub is_exists : Kind → Bool
is_exists already_exists = true
is_exists _ = false

-- `Error.Error`.
unfoldable pub error_message : String → Kind → String
unfolding kind_text
error_message operation already_exists =
    if str_eq operation "stage"
    then "stage app name already exists"
    else string_append operation " already_exists"
error_message operation ownership_lost =
    if str_eq operation "stage"
    then "stage app ownership lost"
    else string_append operation " ownership_lost"
error_message operation kind = string_append operation (string_append " " (kind_text kind))

abbrev pub cause_unsupported : Option Err → Bool
cause_unsupported none = false
cause_unsupported (some e) = e.unsupported

-- `&Error{…}`: the error has both classifying methods, and unwraps to its cause.
unfoldable pub cf_error : String → Kind → Option Err → Err
unfolding is_not_found is_exists error_message
cf_error operation kind cause = record {
  text = codes (error_message operation kind);
  unsupported = cause_unsupported cause;
  class = some (record { absent = is_not_found kind; already_exists = is_exists kind });
}

-- `isProviderAbsent`, of an error that is not nil.
unfoldable pub is_provider_absent : Err → Bool
is_provider_absent e = elim e.class [ none ↦ false | some c ↦ c.absent ]

unfoldable pub is_provider_already_exists : Err → Bool
is_provider_already_exists e = elim e.class [ none ↦ false | some c ↦ c.already_exists ]

abbrev pub max_operation_text : ℕ
max_operation_text = 1024

abbrev pub max_operation_summary : ℕ
max_operation_summary = 4096

unfoldable pub bounded : Bytes → Bytes
bounded value =
    let clean = map_text blank_control value in
    if ltb max_operation_text (length clean) then take max_operation_text clean else clean

abbrev pub truncation_marker : Bytes
truncation_marker = codes "[older output truncated]\n"

-- Keeps the end of the text behind the marker.
unfoldable pub cap_summary : Bytes → Bytes
cap_summary value =
    let size = length value in
    let keep = max_operation_summary - length truncation_marker in
    if ltb max_operation_summary size then truncation_marker ++ drop (size - keep) value else value

-- Character classes of the patterns of names and GUIDs.
unfoldable pub is_lower : ℕ → Bool
is_lower c = leb b'a' c && leb c b'z'

unfoldable pub is_upper : ℕ → Bool
is_upper c = leb b'A' c && leb c b'Z'

unfoldable pub is_digit : ℕ → Bool
is_digit c = leb b'0' c && leb c b'9'

unfoldable pub is_hex : ℕ → Bool
unfolding is_digit
is_hex c = is_digit c || leb b'a' c && leb c b'f' || leb b'A' c && leb c b'F'

unfoldable pub every : (ℕ → Bool) → Bytes → Bool
every p [] = true
every p (c ∷ s) = p c && every p s

-- `^[a-z][a-z0-9-]{0,47}$`
unfoldable pub name_matches : Bytes → Bool
unfolding is_lower is_digit every
name_matches [] = false
name_matches (c ∷ s) =
    is_lower c && leb (length s) 47 && every (λ d. is_lower d || is_digit d || d == b'-') s

unfoldable pub validate_name : String → String → Option Err
unfolding name_matches
validate_name kind value =
    if name_matches (codes value)
    then none
    else some (error_new (string_append "invalid " (string_append kind " name")))

-- One test for each character of a pattern.
unfoldable pub matches_all : List (ℕ → Bool) → Bytes → Bool
matches_all [] [] = true
matches_all (p ∷ ps) (c ∷ s) = p c && matches_all ps s
matches_all _ _ = false

abbrev repeat : ℕ → (ℕ → Bool) → List (ℕ → Bool) → List (ℕ → Bool)
repeat zero p rest = rest
repeat (suc n) p rest = p ∷ repeat n p rest

abbrev is_variant : ℕ → Bool
is_variant c = c == b'8' || c == b'9' || c == b'a' || c == b'b' || c == b'A' || c == b'B'

-- `uuidPattern`, whatever the case of its letters.
unfoldable pub uuid_pattern : List (ℕ → Bool)
unfolding is_hex
uuid_pattern =
    let dash = λ (c : ℕ). c == b'-' in
    repeat 8 is_hex (
      dash
      ∷ repeat 4 is_hex (
          dash
          ∷ (λ c. leb b'1' c && leb c b'5')
          ∷ repeat 3 is_hex (dash ∷ is_variant ∷ repeat 3 is_hex (dash ∷ repeat 12 is_hex []))))

unfoldable pub validate_guid : Bytes → Option Err
unfolding matches_all uuid_pattern
validate_guid value =
    if matches_all uuid_pattern value then none else some (error_new "invalid GUID")

unfoldable pub contains : List String → String → Bool
contains [] wanted = false
contains (v ∷ vs) wanted = str_eq v wanted || contains vs wanted

abbrev label_char : ℕ → Bool
label_char c = is_lower c || is_upper c || is_digit c || c == b'-'

abbrev last_is_dash : Bytes → Bool
last_is_dash [] = false
last_is_dash (c ∷ []) = c == b'-'
last_is_dash (c ∷ d ∷ s) = last_is_dash (d ∷ s)

abbrev first_is_dash : Bytes → Bool
first_is_dash [] = false
first_is_dash (c ∷ s) = c == b'-'

-- `strings.Split(value, sep)` at a byte.
abbrev pub add_byte : ℕ → List Bytes → List Bytes
add_byte c [] = (c ∷ []) ∷ []
add_byte c (w ∷ ws) = (c ∷ w) ∷ ws

unfoldable pub split_at : ℕ → Bytes → List Bytes
split_at sep [] = [] ∷ []
split_at sep (c ∷ s) = let rest = split_at sep s in if c == sep then [] ∷ rest else add_byte c rest

unfoldable pub valid_label : Bytes → Bool
unfolding is_lower is_upper is_digit every
valid_label label =
    not (is_nil label)
    && leb (length label) 63
    && not (first_is_dash label)
    && not (last_is_dash label)
    && every label_char label

unfoldable pub all_valid : List Bytes → Bool
unfolding valid_label
all_valid [] = true
all_valid (l ∷ ls) = valid_label l && all_valid ls

-- `net.ParseIP(value) != nil` is `is_ip`. A final dot leaves an empty last label, which is invalid,
-- so `HasSuffix(value, ".")` needs no test of its own.
unfoldable pub validate_domain : (Bytes → Bool) → Bytes → Option Err
unfolding split_at all_valid
validate_domain is_ip value =
    let labels = split_at b'.' value in
    if not (is_nil value)
      && leb (length value) 253
      && not (is_ip value)
      && leb 2 (length labels)
      && all_valid labels
    then none
    else some (error_new "invalid domain")

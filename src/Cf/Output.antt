-- ===== src/Cf/Output.antt =====
-- `sanitizeOutput` of internal/cf/provider.go: what its passes over the output replace. The regular
-- expressions that find the places are functions of `Platform`.
use cf_herdr_poc.Base.{
  ℕ, Bytes, codes, Option, none, some, [], ◌∷◌, ◌++◌, ◌==◌, ◌||◌, if◌then◌else◌,
}
use cf_herdr_poc.Sanitize.{blank_control}

-- The callback of `strings.Map`: keeps newlines and tabs.
unfoldable pub output_char : ℕ → ℕ
output_char c =
    if c == b'\n' || c == b'\t' then c else if c == b'\r' then b'\n' else blank_control c

-- `strings.IndexAny(value, "=:")`: the text up to the separator, and what is behind it.
unfoldable pub cut_separator : Bytes → Option (Bytes × Bytes)
cut_separator [] = none
cut_separator (c ∷ s) =
    let rest = cut_separator s in
    if c == b'=' || c == b':'
    then some (c ∷ [], s)
    else elim rest [ none ↦ none | some (prefix, behind) ↦ some (c ∷ prefix, behind) ]

abbrev redacted : Bytes
redacted = codes "[REDACTED]"

-- In the quotes that the value has, if it begins with one.
unfoldable pub redact_value : Bytes → Bytes
redact_value (quote ∷ c ∷ rest) =
    if quote == b'"' || quote == b'\'' then quote ∷ (redacted ++ (quote ∷ [])) else redacted
redact_value _ = redacted

unfoldable pub redact_assignment : (Bytes → Bytes) → Bytes → Bytes
unfolding cut_separator redact_value
redact_assignment trim_space value = elim (cut_separator value) [
  | none ↦ value
  | some (prefix, remainder) ↦ prefix ++ redact_value (trim_space remainder)
]

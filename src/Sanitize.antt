-- ===== src/Sanitize.antt =====
-- The cleaning of text before it is stored or shown: `sanitize` of internal/reconcile,
-- internal/httpapi and internal/bootstrap, which are the same function. The regular expression that
-- redacts secrets is a parameter. The text may end in a part of a character, where it is cut.
use cf_herdr_poc.Base.{
  ℕ, ◌≤◌, ◌≡◌, ◌≢◌, refl, ◌||◌, [], ◌∷◌, map, map_text, valid_from, arith, Bytes, length, take,
  take_of_le, sym, length-take, All, All-take, ltb, Bool-cases, inl, inr, ◌==◌, if◌then◌else◌,
}

unfoldable pub blank_control : ℕ → ℕ
blank_control c = if ltb c 0x20 || c == 0x7f then 0x20 else c

abbrev pub max_text : ℕ
max_text = 1024

unfoldable pub sanitize : (Bytes → Bytes) → Bytes → Bytes
sanitize redact value =
    let clean = map_text blank_control (redact value) in
    if ltb max_text (length clean) then take max_text clean else clean

abbrev pub IsPrintable : ℕ → Type 0
IsPrintable c = (0x20 ≤ c) × (c ≢ 0x7f)

All-blank : (s : Bytes) → All IsPrintable (map blank_control s)
unfolding blank_control
All-blank [] = tt
All-blank (c ∷ s) = ((ground arith, ground arith), All-blank s)

-- Whatever the redaction gives, a sanitized text has at most 1024 bytes and no control character.
pub sanitize_safe :
    (redact : Bytes → Bytes) (s : Bytes)
    → (length (sanitize redact s) ≤ 1024) × All IsPrintable (sanitize redact s)
unfolding sanitize map_text
sanitize_safe redact s =
    let clean = map_text blank_control (redact s) in
    elim (Bool-cases (ltb max_text (length clean))) [
      | inl p ↦ rw p (
        omega (arith, length-take max_text clean),
        All-take IsPrintable max_text clean (All-blank (valid_from 0 (redact s))),
      )
      | inr p ↦ rw p (ground arith, All-blank (valid_from 0 (redact s)))
    ]

-- A text of at most 1024 bytes, without control characters, which is the beginning of what the
-- redaction makes of a text, with its control characters blanked.
abbrev pub IsCleaned : (Bytes → Bytes) → Bytes → Type 0
IsCleaned redact text =
    (length text ≤ 1024)
    × All IsPrintable text
    × ((cause : Bytes) × (text ≡ take 1024 (map_text blank_control (redact cause))))

sanitize-take :
    (redact : Bytes → Bytes) (s : Bytes)
    → sanitize redact s ≡ take 1024 (map_text blank_control (redact s))
unfolding sanitize map_text
sanitize-take redact s =
    let clean = map_text blank_control (redact s) in
    elim (Bool-cases (ltb max_text (length clean))) [
      | inl p ↦ rw p refl
      | inr p ↦ rw p (sym (take_of_le 1024 clean (ground arith)))
    ]

pub sanitize-IsCleaned : (redact : Bytes → Bytes) (s : Bytes) → IsCleaned redact (sanitize redact s)
sanitize-IsCleaned redact s =
    let (short, printable) = sanitize_safe redact s in
    (short, printable, (s, sanitize-take redact s))

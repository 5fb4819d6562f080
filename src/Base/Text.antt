-- ===== src/Base/Text.antt =====
-- Go strings two ways: `String` for names that are only compared, `Bytes` for text that is cut,
-- mapped or joined.
use Prim.Native.Nat.{ℕ, zero, suc, ◌+◌}
use Prim.Native.Char.{code}
use Prim.Native.String.{String}
use mathlib.Core.List.{List, [], ◌∷◌, map}
use mathlib.Core.Bool.{Bool, true, false, ◌&&◌, ◌||◌}
use mathlib.Core.Path.{◌≡◌, refl}
use native.Mathlib.Omega.{arith}
use mathlib.Core.Option.{Option, none, some}
use text.Mathlib.Text.{◌==◌ as str_eq}
use cf_herdr_poc.Base.Tests.{ltb, leb, ◌==◌, if◌then◌else◌}

abbrev pub Bytes : Type 0
Bytes = List ℕ

-- The code points of a text: its bytes, if it is ASCII.
abbrev pub codes : String → Bytes
codes String.[] = []
codes (String.◌∷◌ c s) = code c ∷ codes s

abbrev pub is_nil {ℓ} : {A : Type ℓ} → List A → Bool
is_nil [] = true
is_nil (_ ∷ _) = false

abbrev pub bytes_eq : Bytes → Bytes → Bool
bytes_eq [] [] = true
bytes_eq (a ∷ s) (b ∷ t) = let rest = bytes_eq s t in (a == b) && rest
bytes_eq _ _ = false

pub bytes_eq-eq : (s t : Bytes) → bytes_eq s t ≡ true → s ≡ t
bytes_eq-eq [] [] h = refl
bytes_eq-eq [] (b ∷ t) h = cc
bytes_eq-eq (a ∷ s) [] h = cc
bytes_eq-eq (a ∷ s) (b ∷ t) h = ground (arith, bytes_eq-eq s t)

pub bytes_eq_refl : (s : Bytes) → bytes_eq s s ≡ true
bytes_eq_refl [] = refl
bytes_eq_refl (a ∷ s) = ground (arith, bytes_eq_refl s)

-- `strings.CutPrefix` and `strings.CutSuffix`: the rest, if the text begins or ends so.
unfoldable pub cut_prefix : String → String → Option String
cut_prefix String.[] s = some s
cut_prefix (String.◌∷◌ a p) String.[] = none
cut_prefix (String.◌∷◌ a p) (String.◌∷◌ b s) =
    let rest = cut_prefix p s in if code a == code b then rest else none

unfoldable pub cut_suffix : String → String → Option String
cut_suffix e String.[] = if str_eq String.[] e then some String.[] else none
cut_suffix e (String.◌∷◌ c s) =
    let rest = cut_suffix e s in
    if str_eq (String.◌∷◌ c s) e
    then some String.[]
    else elim rest [ none ↦ none | some r ↦ some (String.◌∷◌ c r) ]

abbrev pub mem_byte : Bytes → ℕ → Bool
mem_byte [] c = false
mem_byte (b ∷ set) c = b == c || mem_byte set c

-- `strings.ContainsAny`.
unfoldable pub has_any : Bytes → Bytes → Bool
has_any set [] = false
has_any set (c ∷ s) = mem_byte set c || has_any set s

unfoldable pub count_byte : ℕ → Bytes → ℕ
count_byte b [] = 0
count_byte b (c ∷ s) = (if c == b then 1 else 0) + count_byte b s

-- `strings.Cut` at a byte.
unfoldable pub cut_at : ℕ → Bytes → Option (Bytes × Bytes)
cut_at b [] = none
cut_at b (c ∷ s) =
    let rest = cut_at b s in
    if c == b then some ([], s) else elim rest [ none ↦ none | some (k, v) ↦ some (c ∷ k, v) ]

abbrev pub starts : Bytes → Bytes → Bool
starts [] s = true
starts (a ∷ p) [] = false
starts (a ∷ p) (b ∷ s) = let rest = starts p s in (a == b) && rest

-- `strings.Contains(s, p)`.
unfoldable pub contains_text : Bytes → Bytes → Bool
contains_text p [] = starts p []
contains_text p (c ∷ s) = starts p (c ∷ s) || contains_text p s

-- `strings.TrimPrefix`.
unfoldable pub trim_prefix : Bytes → Bytes → Bytes
trim_prefix [] s = s
trim_prefix (a ∷ p) [] = []
trim_prefix (a ∷ p) (b ∷ s) =
    let rest = trim_prefix p s in if starts (a ∷ p) (b ∷ s) then rest else b ∷ s

abbrev between : ℕ → ℕ → ℕ → Bool
between low high c = leb low c && leb c high

-- Bytes that go on with a character.
abbrev continues : ℕ → Bytes → Bool
continues zero s = true
continues (suc n) [] = false
continues (suc n) (c ∷ s) = let rest = continues n s in between 0x80 0xbf c && rest

-- The next byte is between two bounds, and `n` bytes behind it go on with the character.
abbrev follows : ℕ → ℕ → ℕ → Bytes → Bool
follows low high n [] = false
follows low high n (c ∷ s) = between low high c && continues n s

-- How many bytes go on with the character that begins with `c`, if it is one in UTF-8.
unfoldable pub trailing : ℕ → Bytes → Option ℕ
trailing c s =
    if ltb c 0x80
    then some 0
    else if between 0xc2 0xdf c && continues 1 s
    then some 1
    else if c == 0xe0 && follows 0xa0 0xbf 1 s
    then some 2
    else if (between 0xe1 0xec c || between 0xee 0xef c) && continues 2 s
    then some 2
    else if c == 0xed && follows 0x80 0x9f 1 s
    then some 2
    else if c == 0xf0 && follows 0x90 0xbf 2 s
    then some 3
    else if between 0xf1 0xf3 c && continues 3 s
    then some 3
    else if c == 0xf4 && follows 0x80 0x8f 2 s
    then some 3
    else none

abbrev behind : Option ℕ → ℕ
behind none = 0
behind (some n) = n

abbrev or_replaced : Option ℕ → ℕ → Bytes → Bytes
or_replaced none c rest = 0xef ∷ 0xbf ∷ 0xbd ∷ rest
or_replaced (some n) c rest = c ∷ rest

-- Each byte that is in no character becomes U+FFFD. The number counts the bytes that go on with the
-- character before.
unfoldable pub valid_from : ℕ → Bytes → Bytes
unfolding trailing
valid_from n [] = []
valid_from (suc n) (c ∷ s) = c ∷ valid_from n s
valid_from zero (c ∷ s) =
    let found = trailing c s in or_replaced found c (valid_from (behind found) s)

-- `strings.Map` with a function that changes characters of one byte only.
unfoldable pub map_text : (ℕ → ℕ) → Bytes → Bytes
unfolding valid_from
map_text f s = map f (valid_from 0 s)

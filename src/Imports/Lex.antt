-- ===== src/Imports/Lex.antt =====
-- The lexer of cmd/checkimports/main.go, and the relative imports of a file. Sources are valid
-- UTF-8, whose bytes above 0x7f mean nothing to the lexer but where it copies them.
use Prim.Native.Char.{Char, code}
use cf_herdr_poc.Base.{
  ℕ, zero, suc, String, str_eq, codes, mem_byte, Bool, true, false, ◌&&◌, ◌||◌, Option, none, some,
  List, [], ◌∷◌, ◌++◌, if◌then◌else◌, ◌==◌, leb, cut_prefix, is_some,
}

pub data Kind : Type 0 where
  identifier literal punctuation : Kind

pub record Token : Type 0 where
  pub kind : Kind
  pub value : String

abbrev pub is_literal : Kind → Bool
is_literal literal = true
is_literal _ = false

abbrev pub is_identifier : Kind → Bool
is_identifier identifier = true
is_identifier _ = false

abbrev pub within : ℕ → ℕ → ℕ → Bool
within low high c = leb low c && leb c high

unfoldable pub is_identifier_byte : ℕ → Bool
is_identifier_byte c =
    c == b'_' || c == b'$' || within b'a' b'z' c || within b'A' b'Z' c || within b'0' b'9' c

abbrev pub first_byte : ℕ → String → Bool
first_byte b String.[] = false
first_byte b (String.◌∷◌ c s) = code c == b

abbrev pub behind : String → String
behind String.[] = String.[]
behind (String.◌∷◌ c s) = s

-- The rest from the end of the line on.
unfoldable pub skip_line : String → String
skip_line String.[] = String.[]
skip_line (String.◌∷◌ c s) =
    let rest = skip_line s in if code c == b'\n' then String.◌∷◌ c s else rest

-- The rest behind the end of a comment. Where it has no end, the last byte is left.
unfoldable pub skip_block : String → String
skip_block String.[] = String.[]
skip_block (String.◌∷◌ c s) =
    let rest = skip_block s in
    if str_eq s String.[]
    then String.◌∷◌ c s
    else if code c == b'*' && first_byte b'/' s
    then behind s
    else rest

-- The text up to a quote, with its escapes resolved, and the rest behind the quote. The flag tells
-- whether a backslash stands before.
unfoldable pub read_quoted : ℕ → Bool → String → String × String
read_quoted q false String.[] = (String.[], String.[])
read_quoted q true String.[] = ("\\", String.[])
read_quoted q true (String.◌∷◌ c s) =
    let (value, rest) = read_quoted q false s in (String.◌∷◌ c value, rest)
read_quoted q false (String.◌∷◌ c s) =
    let (value, rest) = read_quoted q (code c == b'\\') s in
    if code c == q
    then (String.[], s)
    else if code c == b'\\'
    then (value, rest)
    else (String.◌∷◌ c value, rest)

unfoldable pub skip_template : Bool → String → String
skip_template escaped String.[] = String.[]
skip_template true (String.◌∷◌ c s) = skip_template false s
skip_template false (String.◌∷◌ c s) =
    let rest = skip_template (code c == b'\\') s in if code c == b'`' then s else rest

unfoldable pub read_word : String → String × String
unfolding is_identifier_byte
read_word String.[] = (String.[], String.[])
read_word (String.◌∷◌ c s) =
    let (word, rest) = read_word s in
    if is_identifier_byte (code c) then (String.◌∷◌ c word, rest) else (String.[], String.◌∷◌ c s)

abbrev pub token : Kind → String × String → Option Token × String
token kind (value, rest) = (some (record { kind = kind; value = value }), rest)

-- A round of the loop of `lex`: the token that is found, if there is one, and the rest.
unfoldable pub next_token : Char → String → Option Token × String
unfolding skip_line skip_block read_quoted skip_template read_word is_identifier_byte
next_token c s =
    if code c == b'/' && first_byte b'/' s
    then (none, skip_line (behind s))
    else if code c == b'/' && first_byte b'*' s
    then (none, skip_block (behind s))
    else if code c == b'\'' || code c == b'"'
    then token literal (read_quoted (code c) false s)
    else if code c == b'`'
    then (none, skip_template false s)
    else if is_identifier_byte (code c)
    then token identifier (read_word (String.◌∷◌ c s))
    else if mem_byte (codes "();,") (code c)
    then token punctuation (String.◌∷◌ c String.[], s)
    else (none, s)

abbrev pub add_token : Option Token → List Token → List Token
add_token none rest = rest
add_token (some t) rest = t ∷ rest

-- On fuel, of which each round takes one.
unfoldable pub lex_from : ℕ → String → List Token
unfolding next_token
lex_from zero s = []
lex_from (suc k) String.[] = []
lex_from (suc k) (String.◌∷◌ c s) =
    let (found, rest) = next_token c s in add_token found (lex_from k rest)

abbrev pub size : String → ℕ
size String.[] = 0
size (String.◌∷◌ c s) = suc (size s)

unfoldable pub lex : String → List Token
unfolding lex_from
lex source = lex_from (size source) source

-- `appendRelative`, of what is to be added.
unfoldable pub relative_only : String → List String
relative_only specifier =
    if is_some (cut_prefix "./" specifier) || is_some (cut_prefix "../" specifier)
    then specifier ∷ []
    else []

-- What follows `from`, before the next semicolon.
unfoldable pub import_from : List Token → List String
unfolding relative_only
import_from [] = []
import_from (t ∷ []) = []
import_from (t ∷ u ∷ rest) =
    let later = import_from (u ∷ rest) in
    if str_eq t.value ";"
    then []
    else if str_eq t.value "from" && is_literal u.kind
    then relative_only u.value
    else later

abbrev pub literal_first : List Token → Option String
literal_first [] = none
literal_first (t ∷ rest) = if is_literal t.kind then some t.value else none

-- `import("…")` and `require("…")`: what follows the word.
abbrev pub call_argument : List Token → Option String
call_argument [] = none
call_argument (t ∷ rest) = if str_eq t.value "(" then literal_first rest else none

-- What follows `import` or `export`.
unfoldable pub statement_imports : List Token → List String
unfolding relative_only import_from
statement_imports rest = elim (literal_first rest) [
  | some value ↦ relative_only value
  | none ↦ import_from rest
]

unfoldable pub word_imports : String → List Token → List String
unfolding relative_only statement_imports
word_imports word rest =
    let statement =
      if str_eq word "import" || str_eq word "export" then statement_imports rest else [] in
    if str_eq word "import" || str_eq word "require"
    then elim (call_argument rest) [ some value ↦ relative_only value | none ↦ statement ]
    else statement

unfoldable pub token_imports : List Token → List String
unfolding word_imports
token_imports [] = []
token_imports (t ∷ rest) =
    let later = token_imports rest in
    if is_identifier t.kind then word_imports t.value rest ++ later else later

unfoldable pub relative_imports : String → List String
unfolding lex token_imports
relative_imports contents = token_imports (lex contents)

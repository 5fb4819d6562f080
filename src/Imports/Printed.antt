-- ===== src/Imports/Printed.antt =====
-- The imports of a file that begins with import statements.
use Prim.Native.Char.{code}
use text.Mathlib.Text.{◌==◌ as str_eq}
use text.Mathlib.TextEquality.{eq_iff}
use cf_herdr_poc.Base.{
  String, Bool, true, false, not, ◌&&◌, ◌≡◌, refl, sym, ◌∙◌, ap, List, [], ◌∷◌, ◌++◌, ◌==◌, arith,
  Bool-cases, inl, inr, cut_prefix, both_true,
}
use cf_herdr_poc.Imports.Lex.{
  Token, identifier, literal, punctuation, read_quoted, next_token, lex, token_imports,
  relative_imports, relative_only, word_imports, statement_imports,
}
use cf_herdr_poc.Imports.Tokens.{lex_rounds}

abbrev pub put : String → String → String
put String.[] rest = rest
put (String.◌∷◌ c text) rest = String.◌∷◌ c (put text rest)

-- A line `import './path';` for each path, and the rest.
abbrev pub print : List String → String → String
print [] rest = rest
print (path ∷ paths) rest = put "import '" (put (put "./" path) (put "';\n" (print paths rest)))

-- No quote and no backslash.
abbrev pub is_plain : String → Bool
is_plain String.[] = true
is_plain (String.◌∷◌ c s) = not (code c == b'\'') && (not (code c == b'\\') && is_plain s)

abbrev pub all_plain : List String → Bool
all_plain [] = true
all_plain (path ∷ paths) = is_plain path && all_plain paths

abbrev pub dotted : List String → List String
dotted [] = []
dotted (path ∷ paths) = put "./" path ∷ dotted paths

read_plain :
    (text rest : String)
    → is_plain text ≡ true
    → read_quoted b'\'' false (put text (put "'" rest)) ≡ (text, rest)
unfolding read_quoted
read_plain String.[] rest h = refl
read_plain (String.◌∷◌ c text) rest h = elim (Bool-cases (code c == b'\'')) [
  | inl p ↦ absurd (ground arith)
  | inr p ↦ elim (Bool-cases (code c == b'\\')) [
    | inl q ↦ absurd (ground arith)
    | inr q ↦
        let more = read_plain text rest (ground arith) in
        rw p (rw (q, read_quoted) (ap (λ r. (String.◌∷◌ c r.0, r.1)) more))
  ]
]

abbrev word : String → Token
word value = record { kind = identifier; value = value }

abbrev text_token : String → Token
text_token value = record { kind = literal; value = value }

abbrev mark : String → Token
mark value = record { kind = punctuation; value = value }

lex-import : (k : String) → lex (put "import '" k) ≡ word "import" ∷ lex (put " '" k)
unfolding next_token
lex-import k = lex_rounds (put "import '" k)

lex-space : (k : String) → lex (put " '" k) ≡ lex (put "'" k)
unfolding next_token
lex-space k = lex_rounds (put " '" k)

lex-text :
    (text rest : String)
    → is_plain text ≡ true
    → lex (put "'" (put text (put "'" rest))) ≡ text_token text ∷ lex rest
unfolding next_token
lex-text text rest h =
    lex_rounds (put "'" (put text (put "'" rest)))
    ∙ ap (λ (r : String × String). text_token r.0 ∷ lex r.1) (read_plain text rest h)

lex-end : (rest : String) → lex (put ";\n" rest) ≡ mark ";" ∷ lex rest
unfolding next_token
lex-end rest = lex_rounds (put ";\n" rest) ∙ ap (λ l. mark ";" ∷ l) (lex_rounds (put "\n" rest))

-- The tokens of a line.
lex-line :
    (path rest : String)
    → is_plain path ≡ true
    → lex (put "import '" (put (put "./" path) (put "';\n" rest)))
      ≡ word "import" ∷ text_token (put "./" path) ∷ mark ";" ∷ lex rest
lex-line path rest h =
    let k = put (put "./" path) (put "';\n" rest) in
    lex-import k
    ∙ ap (λ l. word "import" ∷ l)
        (lex-space k
          ∙ lex-text (put "./" path) (put ";\n" rest) h
          ∙ ap (λ l. text_token (put "./" path) ∷ l) (lex-end rest))

imports-lex : (contents : String) → relative_imports contents ≡ token_imports (lex contents)
unfolding relative_imports
imports-lex contents = refl

abbrev starts_dot : String → Bool
starts_dot String.[] = false
starts_dot (String.◌∷◌ c text) = code c == b'.'

no_paren : (path : String) → str_eq (put "./" path) "(" ≡ false
no_paren path = elim (Bool-cases (str_eq (put "./" path) "(")) [
  | inl same ↦
      let dot : true ≡ false = ap starts_dot ((eq_iff (put "./" path) "(").0 same) in absurd cc
  | inr p ↦ p
]

imports-line :
    (path : String) (l : List Token)
    → token_imports (word "import" ∷ text_token (put "./" path) ∷ mark ";" ∷ l)
      ≡ put "./" path ∷ token_imports l
unfolding token_imports word_imports statement_imports relative_only cut_prefix
imports-line path l = rw (no_paren path) refl

-- The relative imports of a file that begins with import statements are those of the statements, and
-- then those of the rest.
pub relative_imports-print :
    (paths : List String) (rest : String)
    → all_plain paths ≡ true
    → relative_imports (print paths rest) ≡ dotted paths ++ relative_imports rest
relative_imports-print [] rest h = refl
relative_imports-print (path ∷ paths) rest h =
    let (plain, others) = both_true _ _ h in
    let more = print paths rest in
    imports-lex (print (path ∷ paths) rest)
    ∙ ap token_imports (lex-line path more plain)
    ∙ imports-line path (lex more)
    ∙ ap (λ l. put "./" path ∷ l)
        (sym (imports-lex more) ∙ relative_imports-print paths rest others)

-- ===== src/Imports/Tokens.antt =====
-- The loop of `lex` of cmd/checkimports/main.go ends.
use Prim.Native.Char.{Char, code}
use cf_herdr_poc.Base.{
  ℕ, zero, suc, ◌≤◌, String, Bool, true, false, List, [], ◌≡◌, refl, ap, arith, ◌==◌,
}
use cf_herdr_poc.Imports.Lex.{
  Token, size, behind, skip_line, skip_block, read_quoted, skip_template, read_word, next_token,
  add_token, lex_from, lex,
}

behind_le : (s : String) → size (behind s) ≤ size s
behind_le String.[] = omega arith
behind_le (String.◌∷◌ c s) = omega arith

skip_line_le : (s : String) → size (skip_line s) ≤ size s
unfolding skip_line
skip_line_le String.[] = omega arith
skip_line_le (String.◌∷◌ c s) = ground (arith, skip_line_le s)

skip_block_le : (s : String) → size (skip_block s) ≤ size s
unfolding skip_block
skip_block_le String.[] = omega arith
skip_block_le (String.◌∷◌ c s) = ground (arith, skip_block_le s, behind_le s)

read_quoted_le : (q : ℕ) (escaped : Bool) (s : String) → size (read_quoted q escaped s).1 ≤ size s
unfolding read_quoted
read_quoted_le q false String.[] = omega arith
read_quoted_le q true String.[] = omega arith
read_quoted_le q true (String.◌∷◌ c s) = let rest = read_quoted_le q false s in omega (arith, rest)
read_quoted_le q false (String.◌∷◌ c s) =
    let rest = read_quoted_le q (code c == b'\\') s in ground (arith, rest)

skip_template_le : (escaped : Bool) (s : String) → size (skip_template escaped s) ≤ size s
unfolding skip_template
skip_template_le false String.[] = omega arith
skip_template_le true String.[] = omega arith
skip_template_le true (String.◌∷◌ c s) = omega (arith, skip_template_le false s)
skip_template_le false (String.◌∷◌ c s) =
    let rest = skip_template_le (code c == b'\\') s in ground (arith, rest)

read_word_le : (s : String) → size (read_word s).1 ≤ size s
unfolding read_word
read_word_le String.[] = omega arith
read_word_le (String.◌∷◌ c s) = let rest = read_word_le s in ground (arith, rest)

-- A round takes the byte that it has looked at.
next_token_le : (c : Char) (s : String) → size (next_token c s).1 ≤ size s
unfolding next_token
next_token_le c s =
    let line = skip_line_le (behind s) in
    let block = skip_block_le (behind s) in
    let tail = behind_le s in
    let quoted = read_quoted_le (code c) false s in
    let template = skip_template_le false s in
    let word = read_word_le s in ground (arith, line, block, tail, quoted, template, word)

lex_from-same : (j k : ℕ) (s : String) → size s ≤ j → size s ≤ k → lex_from j s ≡ lex_from k s
unfolding lex_from
lex_from-same zero zero s h g = refl
lex_from-same zero (suc k) String.[] h g = refl
lex_from-same zero (suc k) (String.◌∷◌ c s) h g = absurd (omega (arith, h))
lex_from-same (suc j) zero String.[] h g = refl
lex_from-same (suc j) zero (String.◌∷◌ c s) h g = absurd (omega (arith, g))
lex_from-same (suc j) (suc k) String.[] h g = refl
lex_from-same (suc j) (suc k) (String.◌∷◌ c s) h g =
    let less = next_token_le c s in
    let rest =
      lex_from-same j k (next_token c s).1 (omega (arith, less, h)) (omega (arith, less, g)) in
    ap (add_token (next_token c s).0) rest

-- A round of the loop, with what gives the tokens of the rest.
abbrev pub lex_round : (String → List Token) → String → List Token
lex_round later String.[] = []
lex_round later (String.◌∷◌ c s) = add_token (next_token c s).0 (later (next_token c s).1)

-- `lex` is the loop of the source, which has no bound: the fuel that is used never runs out.
pub lex_rounds : (source : String) → lex source ≡ lex_round lex source
unfolding lex lex_from
lex_rounds String.[] = refl
lex_rounds (String.◌∷◌ c s) =
    let less = next_token_le c s in
    let rest = (next_token c s).1 in
    ap (add_token (next_token c s).0) (lex_from-same (size s) (size rest) rest less (omega arith))

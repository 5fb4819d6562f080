-- ===== src/Examples/Imports.antt =====
-- A program of two files and a broken one, for cmd/checkimports.
use cf_herdr_poc.Base.{
  String, true, some, List, [], ◌∷◌, ◌≡◌, refl, error_new, if◌then◌else◌, cut_prefix,
}
use cf_herdr_poc.Base.Exec.{ok, err}
use cf_herdr_poc.Paths.{FilePath, clean, join_path, parent, relative}
use cf_herdr_poc.Imports.Lex.{identifier, lex, relative_imports}
use cf_herdr_poc.Imports.Closure.{Files, path_eq, has, check_from}
use cf_herdr_poc.Imports.Outcome.{Outcome}

abbrev at_path : List String → FilePath
at_path names = record { rooted = true; names = names }

abbrev main_file : FilePath
main_file = at_path ("app" ∷ "main.ts" ∷ [])

abbrev part_file : FilePath
part_file = at_path ("app" ∷ "part.ts" ∷ [])

abbrev main_text : String
main_text = "import './part';\nimport x from './part'; // import './gone'\n"

abbrev part_text : String
part_text = "export const m = require(\"../app/main.ts\");"

abbrev all_files : List FilePath
all_files = main_file ∷ part_file ∷ []

abbrev two_files : Files
two_files = record {
  is_file = λ p. has p all_files;
  read_file = λ p.
      if path_eq p main_file
      then ok main_text
      else if path_eq p part_file
      then ok part_text
      else err (error_new "no such file");
}

main_tokens : relative_imports main_text ≡ "./part" ∷ "./part" ∷ []
unfolding relative_imports cut_prefix
main_tokens = refl

both_found :
    check_from two_files 3 (at_path ("app" ∷ [])) main_file ≡ some (ok ("main.ts" ∷ "part.ts" ∷ []))
unfolding check_from relative_imports cut_prefix join_path clean parent relative
both_found = refl

outside_refused :
    check_from two_files 3 (at_path ("other" ∷ [])) main_file
    ≡ some (err (error_new "./part resolves outside runtime root"))
unfolding check_from relative_imports cut_prefix join_path clean parent relative
outside_refused = refl

-- A comment that does not end leaves its last byte to the lexer.
open_comment : lex "/* ab" ≡ record { kind = identifier; value = "b" } ∷ []
unfolding lex
open_comment = refl

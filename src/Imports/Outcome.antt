-- ===== src/Imports/Outcome.antt =====
-- What `checkImports` of cmd/checkimports/main.go comes to.
use cf_herdr_poc.Base.{String, true, Option, none, some, List, [], ◌∷◌, All, ◌≡◌, ◌⊎◌, Err}
use cf_herdr_poc.Base.Exec.{Result, ok, err}
use cf_herdr_poc.Paths.{FilePath}
use cf_herdr_poc.Imports.Lex.{relative_imports}
use cf_herdr_poc.Imports.Closure.{Files, has, import_target}
use cf_herdr_poc.Imports.Closed.{IsTarget, IsClosed}
use cf_herdr_poc.Imports.Printed.{print, dotted}

abbrev pub OneOf : String → List String → Type 0
OneOf s [] = ⊥
OneOf s (t ∷ ts) = (s ≡ t) ⊎ OneOf s ts

module _ (files : Files) (root : FilePath) (all : List FilePath) where
  -- The error is that of following one of these imports of the file.
  abbrev IsLost : FilePath → List String → Err → Type 0
  IsLost source specifiers e =
      (specifier : String) × OneOf specifier specifiers
      × (import_target files root source specifier ≡ err e)

  -- The error is that of reading a file, or of following one of its relative imports.
  abbrev pub IsBroken : Err → Type 0
  IsBroken e =
      (source : FilePath) × (has source all ≡ true)
      × ((files.read_file source ≡ err e)
          ⊎ ((contents : String) × (files.read_file source ≡ ok contents)
              × IsLost source (relative_imports contents) e))

  abbrev pub Outcome : FilePath → List String → Option (Result Err (List FilePath)) → Type 0
  Outcome entrypoint paths none = ⊥
  Outcome entrypoint paths (some (err e)) = IsBroken e
  Outcome entrypoint paths (some (ok seen)) =
      (has entrypoint seen ≡ true)
      × All (IsClosed files root seen) seen
      × All (IsTarget files root seen entrypoint) (dotted paths)

  -- The file begins with import statements of these paths, if there are any.
  abbrev pub Begins : FilePath → List String → Type 0
  Begins source paths =
      (paths ≡ []) ⊎ ((rest : String) × (files.read_file source ≡ ok (print paths rest)))

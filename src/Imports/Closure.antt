-- ===== src/Imports/Closure.antt =====
-- `checkImports` of cmd/checkimports/main.go: the files that are reached from the entry point. The
-- file system is a parameter, which does not change.
use Prim.Native.Char.{Char, code}
use Prim.Native.Nat.{Ordering}
use Prim.Native.String.{◌++◌ as append, compare}
use cf_herdr_poc.Base.{
  ℕ, zero, suc, String, str_eq, Bool, true, false, not, ◌&&◌, ◌||◌, Option, none, some, List, [],
  ◌∷◌, ◌++◌, map, Err, error_new, if◌then◌else◌, ◌==◌,
}
use cf_herdr_poc.Base.Exec.{Result, ok, err}
use cf_herdr_poc.Base.Results.{◌>>=◌}
use cf_herdr_poc.Paths.{FilePath, first_is, clean, join_path, parent, absolute, relative}
use cf_herdr_poc.Imports.Lex.{relative_imports}

abbrev pub to_first : Char → List String → List String
to_first c [] = String.◌∷◌ c String.[] ∷ []
to_first c (n ∷ ns) = String.◌∷◌ c n ∷ ns

-- The names between the slashes.
unfoldable pub split_slashes : String → List String
split_slashes String.[] = String.[] ∷ []
split_slashes (String.◌∷◌ c s) =
    let rest = split_slashes s in if code c == b'/' then String.[] ∷ rest else to_first c rest

-- A relative path as text, `filepath.ToSlash`.
abbrev pub show_names : List String → String
show_names [] = "."
show_names (n ∷ []) = n
show_names (n ∷ m ∷ ns) = append n (append "/" (show_names (m ∷ ns)))

abbrev pub show_path : FilePath → String
show_path p = if p.rooted then append "/" (show_names p.names) else show_names p.names

abbrev pub names_eq : List String → List String → Bool
names_eq [] [] = true
names_eq (a ∷ l) (b ∷ m) = let rest = names_eq l m in str_eq a b && rest
names_eq _ _ = false

abbrev pub path_eq : FilePath → FilePath → Bool
path_eq p q = (if p.rooted then q.rooted else not q.rooted) && names_eq p.names q.names

-- `seen[source]`
unfoldable pub has : FilePath → List FilePath → Bool
has p [] = false
has p (q ∷ seen) = path_eq p q || has p seen

abbrev pub has_dot : String → Bool
has_dot String.[] = false
has_dot (String.◌∷◌ c s) = code c == b'.' || has_dot s

-- `filepath.Ext(base) != ""`
abbrev pub has_extension : List String → Bool
has_extension [] = false
has_extension (n ∷ []) = has_dot n
has_extension (n ∷ m ∷ ns) = has_extension (m ∷ ns)

-- `base + extension`
abbrev pub extend : String → List String → List String
extend extension [] = extension ∷ []
extend extension (n ∷ []) = append n extension ∷ []
extend extension (n ∷ m ∷ ns) = n ∷ extend extension (m ∷ ns)

abbrev pub index_extensions : List String
index_extensions = ".ts" ∷ ".tsx" ∷ ".js" ∷ ".jsx" ∷ []

unfoldable pub candidates : FilePath → List FilePath
candidates base =
    let with_extension =
      map (λ e. record base { names = extend e base.names }) (index_extensions ++ (".json" ∷ [])) in
    let index = map (λ e. join_path base (append "index" e ∷ [])) index_extensions in
    base ∷ (if has_extension base.names then [] else with_extension ++ index)

-- `is_file`: `os.Stat` succeeds, and it is no directory; `read_file` is `os.ReadFile`.
pub record Files : Type 0 where
  pub is_file : FilePath → Bool
  pub read_file : FilePath → Result Err String

module _ (files : Files) where
  unfoldable pub first_file : List FilePath → Option FilePath
  first_file [] = none
  first_file (p ∷ rest) =
      let later = first_file rest in if files.is_file p then some (clean p) else later

  unfoldable pub resolve_import : FilePath → String → Option FilePath
  unfolding first_file split_slashes candidates
  resolve_import dir specifier = first_file (candidates (join_path dir (split_slashes specifier)))

  module _ (root : FilePath) where
    unfoldable pub missing : FilePath → String → Err
    missing source specifier =
        let shown : String = elim (relative root source) [
          | ok names ↦ show_names names
          | err _ ↦ show_path source
        ] in
        error_new (append shown (append " imports missing " specifier))

    unfoldable pub is_outside : FilePath → Bool
    is_outside p = elim (relative root p) [ ok names ↦ first_is ".." names | err _ ↦ true ]

    -- What comes of the file that an import was resolved to.
    unfoldable pub target_found : FilePath → String → Option FilePath → Result Err FilePath
    target_found source specifier none = err (missing source specifier)
    target_found source specifier (some p) =
        if is_outside p
        then err (error_new (append specifier " resolves outside runtime root"))
        else ok p

    -- The file that an import of `source` leads to.
    unfoldable pub import_target : FilePath → String → Result Err FilePath
    unfolding resolve_import target_found missing is_outside
    import_target source specifier =
        target_found source specifier (resolve_import (parent source) specifier)

    -- The loop over the imports of `source`, where `visit` is given. `none` is the end of the fuel.
    unfoldable pub visit_all :
        (FilePath → List FilePath → Option (Result Err (List FilePath)))
        → FilePath
        → List String
        → List FilePath
        → Option (Result Err (List FilePath))
    unfolding import_target
    visit_all visit source [] seen = some (ok seen)
    visit_all visit source (specifier ∷ rest) seen = elim (import_target source specifier) [
      | err e ↦ some (err e)
      | ok p ↦ elim (visit p seen) [
        | none ↦ none
        | some (err e) ↦ some (err e)
        | some (ok more) ↦ visit_all visit source rest more
      ]
    ]

    -- `seen` is what the map holds. Each call takes one of the fuel.
    unfoldable pub visit : ℕ → FilePath → List FilePath → Option (Result Err (List FilePath))
    unfolding has visit_all
    visit zero source seen = none
    visit (suc k) source seen =
        if has source seen then some (ok seen) else elim (files.read_file source) [
          | err e ↦ some (err e)
          | ok contents ↦
              visit_all (λ p more. visit k p more) source (relative_imports contents)
                (source ∷ seen)
        ]

  abbrev pub insert_text : String → List String → List String
  insert_text n [] = n ∷ []
  insert_text n (m ∷ ns) =
      let rest = insert_text n ns in elim (compare n m) [ Ordering.gt ↦ m ∷ rest | _ ↦ n ∷ m ∷ ns ]

  -- The sorted relative paths of what was seen.
  unfoldable pub listed : FilePath → List FilePath → Result Err (List String)
  listed root [] = ok []
  listed root (p ∷ seen) = do
    names ← relative root p
    rest ← listed root seen
    ok (insert_text (show_names names) rest)

  unfoldable pub check_from : ℕ → FilePath → FilePath → Option (Result Err (List String))
  unfolding visit listed
  check_from fuel root entrypoint = elim (visit root fuel entrypoint []) [
    | none ↦ none
    | some (err e) ↦ some (err e)
    | some (ok seen) ↦ some (listed root seen)
  ]

  -- With the working directory.
  unfoldable pub check_imports :
      ℕ → Result Err FilePath → FilePath → FilePath → Option (Result Err (List String))
  unfolding check_from
  check_imports fuel cwd root entrypoint = elim (absolute cwd root) [
    | err e ↦ some (err e)
    | ok abs_root ↦ elim (absolute cwd entrypoint) [
      | err e ↦ some (err e)
      | ok abs_entrypoint ↦ check_from fuel abs_root abs_entrypoint
    ]
  ]

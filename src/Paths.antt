-- ===== src/Paths.antt =====
-- What the program uses of path/filepath on Unix: a path is rooted or not, and is a row of names.
pub mod Laws
use mathlib.Core.List.{reverse, foldl}
use cf_herdr_poc.Base.{
  ℕ, String, str_eq, Bool, true, false, not, ◌&&◌, ◌||◌, Option, none, some, List, [], ◌∷◌, ◌++◌,
  Err, error_new, wrap, if◌then◌else◌,
}
use cf_herdr_poc.Base.Exec.{Result, ok, err}

-- The empty path has no names and is not rooted; `.` and `..` are names until a path is cleaned.
-- The cleaned path `.` has no names.
pub record FilePath : Type 0 where
  pub rooted : Bool
  pub names : List String

abbrev pub is_empty : List String → Bool
is_empty [] = true
is_empty (n ∷ ns) = false

abbrev pub first_is : String → List String → Bool
first_is wanted [] = false
first_is wanted (n ∷ ns) = str_eq n wanted

-- The names above those given, which stand in reverse.
unfoldable pub go_up : Bool → List String → List String
go_up rooted [] = if rooted then [] else ".." ∷ []
go_up rooted (m ∷ rest) = if str_eq m ".." then ".." ∷ m ∷ rest else rest

-- A name is put behind the cleaned names, which stand in reverse.
unfoldable pub add_name : Bool → List String → String → List String
unfolding go_up
add_name rooted done n =
    if str_eq n "" || str_eq n "."
    then done
    else if str_eq n ".."
    then go_up rooted done
    else n ∷ done

unfoldable pub clean_from : Bool → List String → List String → List String
unfolding add_name
clean_from rooted = foldl (add_name rooted)

-- `filepath.Clean`
unfoldable pub clean : FilePath → FilePath
unfolding clean_from
clean p = record p { names = reverse (clean_from p.rooted [] p.names) }

-- `filepath.Join` of a path that is not empty with another.
unfoldable pub join_path : FilePath → List String → FilePath
join_path p names = clean (record p { names = p.names ++ names })

abbrev pub drop_last : List String → List String
drop_last [] = []
drop_last (n ∷ []) = []
drop_last (n ∷ m ∷ ns) = n ∷ drop_last (m ∷ ns)

-- `filepath.Dir` of a cleaned path.
unfoldable pub parent : FilePath → FilePath
parent p = record p { names = drop_last p.names }

-- `filepath.Abs`, with the working directory.
unfoldable pub absolute : Result Err FilePath → FilePath → Result Err FilePath
unfolding join_path
absolute cwd p =
    if p.rooted then ok (clean p) else elim cwd [ ok d ↦ ok (join_path d p.names) | err e ↦ err e ]

abbrev pub ups : List String → List String → List String
ups [] target = target
ups (b ∷ bs) target = ".." ∷ ups bs target

abbrev pub cannot_relate : Err
cannot_relate = error_new "Rel: can't make target relative to base"

-- The names that are left behind the common ones.
unfoldable pub relate : List String → List String → Result Err (List String)
relate [] target = ok target
relate (b ∷ bs) [] = if str_eq b ".." then err cannot_relate else ok (ups (b ∷ bs) [])
relate (b ∷ bs) (t ∷ ts) =
    let rest = relate bs ts in
    if str_eq b t
    then rest
    else if str_eq b ".."
    then err cannot_relate
    else ok (ups (b ∷ bs) (t ∷ ts))

abbrev pub same_root : Bool → Bool → Bool
same_root true b = b
same_root false b = not b

-- `filepath.Rel`: the names of a path that is not rooted.
unfoldable pub relative : FilePath → FilePath → Result Err (List String)
unfolding relate
relative base target =
    if same_root base.rooted target.rooted
    then relate (clean base).names (clean target).names
    else err cannot_relate

-- A relative path that leads nowhere, or up.
abbrev pub leads_out : List String → Bool
leads_out names = is_empty names || first_is ".." names

-- `requireChild` of internal/runtime/bundle.go, with what `Rel` returned.
unfoldable pub child_error : Result Err (List String) → Option Err
child_error (err e) = some (wrap "compare destination to work root" e)
child_error (ok names) =
    if leads_out names then some (error_new "destination must be a child of work root") else none

unfoldable pub require_child : FilePath → FilePath → Option Err
unfolding relative child_error
require_child root destination = child_error (relative root destination)

-- ===== src/Bundle/Checks.antt =====
-- The checks of internal/runtime/bundle.go, which change nothing.
use mathlib.Core.List.{reverse}
use cf_herdr_poc.Base.{
  String, codes, Bool, not, ◌&&◌, ◌||◌, List, [], ◌∷◌, ◌++◌, Err, error_new, error_text, wrap,
  if◌then◌else◌,
}
use cf_herdr_poc.Base.Exec.{Result, ok, err}
use cf_herdr_poc.Base.Results.{◌>>=◌, ◌>>◌, done, wrapped, checked, refuse_if, each}
use cf_herdr_poc.Paths.{FilePath, is_empty, clean, join_path, absolute, relative, require_child}
use cf_herdr_poc.Bundle.{Info, Visit, System}

abbrev pub Checked : Type 0
Checked = Result Err (Unit {0})

-- `path == ""`
abbrev pub is_blank : FilePath → Bool
is_blank p = not p.rooted && is_empty p.names

abbrev pub is_asset : Info → Bool
is_asset info = info.is_regular && info.is_executable

-- The parts of a relative path as `strings.Split` gives them: `.` is one of its own.
abbrev pub parts : List String → List String
parts [] = "." ∷ []
parts (n ∷ ns) = n ∷ ns

abbrev pub assets : List (List String)
assets =
    ("start.sh" ∷ [])
    ∷ ("start-bash.sh" ∷ [])
    ∷ ("bin" ∷ "bun" ∷ [])
    ∷ ("bin" ∷ "herdr" ∷ [])
    ∷ ("bin" ∷ "collie" ∷ [])
    ∷ ("bin" ∷ "opencode" ∷ [])
    ∷ ("bin" ∷ "cf" ∷ [])
    ∷ ("bin" ∷ "sandbox-bootstrap" ∷ [])
    ∷ []

module _ {W H : Type 0} (sys : System W H) where
  -- `fmt.Errorf("… %q …", …, path)`
  abbrev pub about : String → FilePath → String → Err
  about before path after = error_text (codes before ++ sys.quote path ++ codes after)

  abbrev pub wrap_about : String → FilePath → String → Err → Err
  wrap_about before path after e = record e {
    text = codes before ++ sys.quote path ++ codes after ++ codes ": " ++ e.text;
  }

  -- The names of the path stand in reverse.
  unfoldable pub nearest_from : W → Bool → List String → Result Err FilePath
  nearest_from w rooted [] =
      let current : FilePath = record { rooted = rooted; names = [] } in
      elim (sys.lstat current w) [
        | ok info ↦ ok current
        | err e ↦
            if sys.not_exist e
            then err (error_new "destination has no existing ancestor")
            else err (wrap "inspect destination ancestor" e)
      ]
  nearest_from w rooted (n ∷ above) =
      let current : FilePath = record { rooted = rooted; names = reverse (n ∷ above) } in
      let higher = nearest_from w rooted above in
      elim (sys.lstat current w) [
        | ok info ↦ ok current
        | err e ↦ if sys.not_exist e then higher else err (wrap "inspect destination ancestor" e)
      ]

  unfoldable pub nearest_existing_ancestor : FilePath → W → Result Err FilePath
  unfolding nearest_from
  nearest_existing_ancestor p w = nearest_from w p.rooted (reverse (clean p).names)

  unfoldable pub within_work_root : FilePath → FilePath → W → Checked
  within_work_root work_root destination w = do
    refuse_if (is_blank work_root || is_blank destination)
        (error_new "work root and destination are required")
    checked (require_child work_root destination)
    abs_root ← wrapped (wrap "resolve work root") (absolute (sys.getwd w) work_root)
    abs_destination ← wrapped (wrap "resolve destination") (absolute (sys.getwd w) destination)
    physical_root ← wrapped (wrap "resolve physical work root") (sys.eval_symlinks abs_root w)
    ancestor ← nearest_existing_ancestor abs_destination w
    physical_ancestor ←
        wrapped (wrap "resolve physical destination ancestor") (sys.eval_symlinks ancestor w)
    remainder ← wrapped (wrap "resolve destination remainder") (relative ancestor abs_destination)
    checked (require_child physical_root (join_path physical_ancestor remainder))

  unfoldable pub reject_from : W → FilePath → List String → Checked
  reject_from w current [] = done
  reject_from w current (n ∷ ns) =
      let next = join_path current (n ∷ []) in
      let rest = reject_from w next ns in
      elim (sys.lstat next w) [
        | err e ↦
            if sys.not_exist e then done else err (wrap_about "inspect overlay path " next "" e)
        | ok info ↦
            if info.is_symlink
            then err (about "overlay destination contains symlink " next "")
            else rest
      ]

  unfoldable pub reject_symlink_components : FilePath → FilePath → W → Checked
  unfolding reject_from
  reject_symlink_components root target w = do
    abs_root ← wrapped (wrap "resolve overlay root") (absolute (sys.getwd w) root)
    abs_target ← wrapped (wrap "resolve overlay target") (absolute (sys.getwd w) target)
    names ← wrapped (wrap "compare overlay target to work root") (relative abs_root abs_target)
    reject_from w abs_root (parts names)

  unfoldable pub validate_symlink : FilePath → FilePath → W → Checked
  validate_symlink root path w = do
    target ← wrapped (wrap_about "read runtime symlink " path "") (sys.readlink path w)
    refuse_if target.rooted (about "runtime symlink " path " is absolute")
    found ← wrapped (wrap_about "resolve runtime symlink " path "") (sys.eval_symlinks path w)
    resolved ←
        wrapped (wrap_about "resolve runtime symlink " path "") (absolute (sys.getwd w) found)
    wrapped (wrap_about "runtime symlink " path " resolves outside runtime")
        (checked (require_child root resolved))
    info ← wrapped (wrap_about "inspect runtime symlink " path "") (sys.stat path w)
    refuse_if (not info.is_regular)
        (about "runtime symlink " path " does not resolve to a regular file")

  unfoldable pub validate_visit : FilePath → W → Visit → Checked
  validate_visit root w v = do
    checked v.failure
    if v.is_symlink then validate_symlink root v.path w else done

  unfoldable pub validate_asset : FilePath → W → List String → Checked
  validate_asset source w names = do
    let path = join_path source names
    info ← wrapped (wrap_about "runtime asset " path " is missing") (sys.stat path w)
    refuse_if (not (is_asset info))
        (about "runtime asset " path " must be an executable regular file")

  unfoldable pub validate_runtime : FilePath → W → Checked
  validate_runtime source w = do
    refuse_if (is_blank source) (error_new "runtime directory is required")
    abs_root ← wrapped (wrap "resolve runtime directory") (absolute (sys.getwd w) source)
    root ← wrapped (wrap "resolve runtime directory") (sys.eval_symlinks abs_root w)
    wrapped (wrap_about "validate runtime directory " source "")
        (each (validate_visit root w) (sys.walk source w))
    each (validate_asset source w) assets

  unfoldable pub overlay_target : Visit → Info → FilePath → Checked
  overlay_target v info target = do
    refuse_if info.is_symlink (about "overlay destination contains symlink " target "")
    refuse_if (v.is_dir && not info.is_dir)
        (about "overlay directory path is not a directory " target "")

  unfoldable pub validate_overlay_visit : FilePath → FilePath → FilePath → W → Visit → Checked
  unfolding overlay_target
  validate_overlay_visit source work_root destination w v = do
    checked v.failure
    names ← relative source v.path
    let target = join_path destination names
    reject_symlink_components work_root target w
    elim (sys.lstat target w) [
      | err e ↦
          if sys.not_exist e
          then done
          else err (wrap_about "inspect overlay destination " target "" e)
      | ok info ↦ overlay_target v info target
    ]

  unfoldable pub validate_overlay_destination : FilePath → FilePath → FilePath → W → Checked
  validate_overlay_destination source work_root destination w =
      each (validate_overlay_visit source work_root destination w) (sys.walk source w)

-- ===== src/Manager/Settings.antt =====
-- The directories of cmd/manager/main.go, and the path of the cf executable.
pub mod Physical
use cf_herdr_poc.Base.{
  ℕ, String, Bytes, codes, Bool, true, false, not, ◌&&◌, ◌||◌, Option, none, some, List, [], ◌∷◌,
  ◌++◌, Err, error_new, error_text, wrap, if◌then◌else◌, ◌==◌, ltb, is_nil, mem_byte, trim_prefix,
}
use cf_herdr_poc.Base.Exec.{Result, ok, err, Exec, pure, raise, gets, ◌>>=◌, ◌>>◌}
use cf_herdr_poc.Environment.{cut, is_managed}
use cf_herdr_poc.Paths.{FilePath, join_path, parent, clean, absolute}
use cf_herdr_poc.Bundle.{Info, System}
use cf_herdr_poc.Bundle.Overlay.{asks}

module _ {W H : Type 0} (sys : System W H) where
  abbrev pub said : FilePath → String → Err
  said path text = error_text (sys.quote path ++ codes text)

  abbrev pub is_physical : Info → Bool
  is_physical info = info.is_dir && not info.is_symlink

  -- The look at a directory that was there: an error of it.
  unfoldable pub look_at : FilePath → Info → Option Err
  look_at path info =
      if info.is_symlink
      then some (said path " is a symlink")
      else if not info.is_dir
      then some (said path " is not a directory")
      else none

  -- The look at a directory that was made.
  unfoldable pub look_again : FilePath → W → Option Err
  look_again path w = elim (sys.lstat path w) [
    | err e ↦ some (record e {
      text = codes "inspect created directory " ++ sys.quote path ++ codes ": " ++ e.text;
    })
    | ok info ↦
        if is_physical info
        then none
        else some (
            error_text
              (codes "created path " ++ sys.quote path ++ codes " is not a physical directory"))
  ]

  unfoldable pub make_dir : FilePath → W → W × Option Err
  unfolding look_again
  make_dir path w =
      let (r, u) = sys.mkdir_all path 0o700 w in
      elim r [
        | err e ↦ (
          u,
          some (record e { text = codes "create " ++ sys.quote path ++ codes ": " ++ e.text }),
        )
        | ok _ ↦ (u, look_again path u)
      ]

  unfoldable pub ensure_private_dir : FilePath → W → W × Option Err
  unfolding look_at make_dir
  ensure_private_dir path w = elim (sys.lstat path w) [
    | ok info ↦ (w, look_at path info)
    | err e ↦ if sys.not_exist e then make_dir path w else (
      w,
      some (record e { text = codes "inspect " ++ sys.quote path ++ codes ": " ++ e.text }),
    )
  ]

  -- The loop over the directories, in some order.
  unfoldable pub ensure_dirs : List (String × FilePath) → W → W × Option Err
  unfolding ensure_private_dir
  ensure_dirs [] w = (w, none)
  ensure_dirs ((name, path) ∷ rest) w =
      let (u, e) = ensure_private_dir path w in
      let later = ensure_dirs rest u in
      elim e [
        | none ↦ later
        | some x ↦ (
          u,
          some
              (record x { text = codes "ensure " ++ codes name ++ codes " directory: " ++ x.text }),
        )
      ]

  unfoldable pub canonical_executable : FilePath → W → Result Err FilePath
  canonical_executable path w = elim (sys.eval_symlinks path w) [
    | err e ↦ err e
    | ok found ↦ absolute (sys.getwd w) found
  ]

-- `managerDirs`
pub record Dirs : Type 0 where
  pub collie_config : FilePath
  pub collie_state : FilePath
  pub token : FilePath
  pub cf_home : FilePath

unfoldable pub manager_dirs : FilePath → Dirs
manager_dirs state_path =
    let base = parent (clean state_path) in
    record {
      collie_config = join_path base ("collie-config" ∷ []);
      collie_state = join_path base ("collie-state" ∷ []);
      token = join_path base ("tokens" ∷ []);
      cf_home = join_path base ("cf-home" ∷ []);
    }

unfoldable pub all_dirs : FilePath → FilePath → List (String × FilePath)
unfolding manager_dirs
all_dirs state_path work_root =
    let dirs = manager_dirs state_path in
    ("state parent", parent (clean state_path))
    ∷ ("work root", work_root)
    ∷ ("Collie config", dirs.collie_config)
    ∷ ("Collie state", dirs.collie_state)
    ∷ ("token", dirs.token)
    ∷ ("CF home", dirs.cf_home)
    ∷ []

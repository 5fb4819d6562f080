-- ===== src/Examples/Bundles.antt =====
-- A small file system, and a runtime that is laid over a clone in it.
use cf_herdr_poc.Base.{
  String, Bytes, codes, Bool, true, false, not, ◌&&◌, ◌≡◌, refl, none, List, [], ◌∷◌, ◌++◌, Err,
  error_new, All, ◌↔◌, if◌then◌else◌,
}
use cf_herdr_poc.Base.Exec.{ok, err, ◌>>=◌, catch}
use cf_herdr_poc.Base.Results.{done, each}
use cf_herdr_poc.Paths.{FilePath, clean, join_path, require_child, absolute, relative, parent}
use cf_herdr_poc.Paths.Laws.{IsChild, require_child_iff}
use cf_herdr_poc.Bundle.{Info, Visit, System, Builder}
use cf_herdr_poc.Bundle.Checks.{
  within_work_root, nearest_existing_ancestor, validate_runtime, validate_visit, validate_symlink,
  validate_asset, validate_overlay_destination, validate_overlay_visit, reject_symlink_components,
}
use cf_herdr_poc.Bundle.Overlay.{prepare}
use cf_herdr_poc.Bundle.Inside.{Under}
use cf_herdr_poc.Bundle.Gone.{IsAbsent, IsRemovable, prepare-IsAbsent}
use cf_herdr_poc.Bundle.Valid.{IsRuntime, validate_runtime-IsRuntime}

abbrev pub work : FilePath
work = record { rooted = true; names = "work" ∷ [] }

abbrev pub sandbox : FilePath
sandbox = record { rooted = true; names = "work" ∷ "sb" ∷ [] }

abbrev pub runtime : FilePath
runtime = record { rooted = true; names = "runtime" ∷ [] }

require_child_iff_example : (require_child work sandbox ≡ none) ↔ IsChild work sandbox
require_child_iff_example = require_child_iff work sandbox

abbrev pub missing : Err
missing = error_new "file does not exist"

abbrev pub plain_file : Info
plain_file = record {
  is_symlink = false;
  is_dir = false;
  is_regular = true;
  is_executable = true;
  perm = 0o755;
}

abbrev pub directory : Info
directory = record {
  is_symlink = false;
  is_dir = true;
  is_regular = false;
  is_executable = true;
  perm = 0o755;
}

-- The root of a walk and a link in it.
abbrev pub visits : FilePath → List Visit
visits source =
    (record {
      path = source;
      failure = none;
      is_symlink = false;
      is_dir = true;
      info = ok directory;
    })
    ∷ (record {
      path = record source { names = source.names ++ "bin" ∷ [] };
      failure = none;
      is_symlink = true;
      is_dir = false;
      info = ok plain_file;
    })
    ∷ []

-- The state lists the files that were made, and tells whether the sandbox is there. Every path is a
-- file, but for those that `absent` tells.
abbrev pub Disk : Type 0
Disk = Bool × List FilePath

abbrev pub disk : (FilePath → Disk → Bool) → System Disk FilePath
disk absent = record {
  getwd = λ w. ok work;
  lstat = λ p w. if absent p w then err missing else ok plain_file;
  stat = λ p w. ok plain_file;
  readlink = λ p w. ok (record { rooted = false; names = "cf" ∷ [] });
  eval_symlinks = λ p w. ok p;
  walk = λ p w. visits p;
  not_exist = λ e. true;
  mkdir_all = λ p mode w. (ok tt, (w.0, p ∷ w.1));
  symlink = λ target p w. (ok tt, (w.0, p ∷ w.1));
  remove_all = λ p w. (ok tt, (false, w.1));
  read_file = λ p w. ok [];
  write_file = λ p text mode w. (ok tt, (w.0, p ∷ w.1));
  open_file = λ p w. (ok p, w);
  create_new = λ p mode w. (ok p, (w.0, p ∷ w.1));
  name = λ p. p;
  copy = λ p q w. (ok tt, w);
  close = λ p w. (ok tt, w);
  run = λ arguments w. ((true, w.1), codes "abc", none);
  trim_space = λ s. s;
  quote = λ p. [];
}

abbrev is_deep : List String → Bool
is_deep (a ∷ b ∷ names) = true
is_deep names = false

abbrev is_inner : List String → Bool
is_inner (a ∷ b ∷ c ∷ names) = true
is_inner names = false

abbrev builder : Builder
builder = record { has_runner = true; runtime_dir = runtime; work_root = work }

abbrev url : Bytes
url = codes "https://git.example/app"

-- Only what lies below a sandbox is missing.
abbrev full : System Disk FilePath
full = disk (λ p w. is_inner p.names)

abbrev Made : Disk → Type 0
Made w = All (Under (join_path sandbox ("sandbox-runtime" ∷ []))) w.1

-- The copy makes two files.
prepare_makes : (prepare full builder url sandbox (false, [])).1 ≡ (
  true,
  record { rooted = true; names = "work" ∷ "sb" ∷ "sandbox-runtime" ∷ "bin" ∷ [] }
      ∷ record { rooted = true; names = "work" ∷ "sb" ∷ "sandbox-runtime" ∷ [] }
      ∷ [],
)
unfolding prepare within_work_root require_child clean absolute nearest_existing_ancestor
    validate_runtime each validate_visit validate_symlink validate_asset
    validate_overlay_destination validate_overlay_visit reject_symlink_components join_path relative
    ◌>>=◌ catch parent
prepare_makes = refl

runtime_valid : validate_runtime full runtime (false, []) ≡ done
unfolding validate_runtime each validate_visit validate_symlink validate_asset absolute clean
    require_child
runtime_valid = refl

validate_runtime-IsRuntime_example : IsRuntime full (false, []) runtime
validate_runtime-IsRuntime_example =
    validate_runtime-IsRuntime full (false, []) runtime runtime_valid

-- What is in the work root is missing before the clone.
abbrev bare : System Disk FilePath
bare = disk (λ p w. is_deep p.names && not w.0)

-- There is no runtime.
abbrev no_runtime : Builder
no_runtime = record builder { runtime_dir = record { rooted = false; names = [] } }

bare-IsRemovable : IsRemovable bare sandbox
bare-IsRemovable = record { succeeds = λ w. refl; removes = λ w. (missing, refl, refl) }

no_runtime_fails :
    (prepare bare no_runtime url sandbox (false, [])).0
    ≡ err (error_new "runtime directory is required")
unfolding prepare within_work_root require_child clean absolute nearest_existing_ancestor
    validate_runtime join_path ◌>>=◌ catch
no_runtime_fails = refl

prepare-IsAbsent_example : IsAbsent bare sandbox (prepare bare no_runtime url sandbox (false, [])).1
prepare-IsAbsent_example =
    prepare-IsAbsent bare sandbox bare-IsRemovable no_runtime url (false, [])
      (error_new "runtime directory is required") (missing, refl, refl) no_runtime_fails

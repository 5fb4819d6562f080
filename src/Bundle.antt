-- ===== src/Bundle.antt =====
-- internal/runtime/bundle.go: the runtime that is laid over a cloned repository.
pub mod Checks
pub mod Overlay
pub mod Clear
pub mod Inside
pub mod Gone
pub mod Valid
use cf_herdr_poc.Base.{
  ℕ, String, Bytes, codes, Bool, true, false, not, ◌&&◌, ◌||◌, Option, none, some, List, [], ◌∷◌,
  ◌++◌, Err, error_new, wrap, if◌then◌else◌, ◌==◌,
}
use cf_herdr_poc.Base.Exec.{Result, Exec}
use cf_herdr_poc.Paths.{FilePath}

-- `fs.FileInfo`: the kind of a file, and whether one of the bits 0111 is set.
pub record Info : Type 0 where
  pub is_symlink : Bool
  pub is_dir : Bool
  pub is_regular : Bool
  pub is_executable : Bool
  pub perm : ℕ

-- What `WalkDir` calls its function with; `info` is what `entry.Info()` returns.
pub record Visit : Type 0 where
  pub path : FilePath
  pub failure : Option Err
  pub is_symlink : Bool
  pub is_dir : Bool
  pub info : Result Err Info

-- An argument of a command.
pub data Argument : Type 0 where
  word : Bytes → Argument
  file : FilePath → Argument

-- The system calls and the runner. `W` is what they read and change, `H` a handle of an open file.
-- `walk` lists what is there when a walk starts; `quote` is the text of a path under `%q`.
pub record System (W H : Type 0) : Type 0 where
  pub getwd : W → Result Err FilePath
  pub lstat : FilePath → W → Result Err Info
  pub stat : FilePath → W → Result Err Info
  pub readlink : FilePath → W → Result Err FilePath
  pub eval_symlinks : FilePath → W → Result Err FilePath
  pub walk : FilePath → W → List Visit
  pub not_exist : Err → Bool
  pub mkdir_all : FilePath → ℕ → Exec W Err (Unit {0})
  pub symlink : FilePath → FilePath → Exec W Err (Unit {0})
  pub remove_all : FilePath → Exec W Err (Unit {0})
  pub read_file : FilePath → W → Result Err Bytes
  pub write_file : FilePath → Bytes → ℕ → Exec W Err (Unit {0})
  pub open_file : FilePath → Exec W Err H
  pub create_new : FilePath → ℕ → Exec W Err H
  pub name : H → FilePath
  pub copy : H → H → Exec W Err (Unit {0})
  pub close : H → Exec W Err (Unit {0})
  pub run : List Argument → W → W × Bytes × Option Err
  pub trim_space : Bytes → Bytes
  pub quote : FilePath → Bytes

pub record Builder : Type 0 where
  pub has_runner : Bool
  pub runtime_dir : FilePath
  pub work_root : FilePath

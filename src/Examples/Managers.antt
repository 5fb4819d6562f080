-- ===== src/Examples/Managers.antt =====
-- A manager whose Collie does not become ready, and the directories of a manager.
use cf_herdr_poc.Base.{
  ℕ, ◌+◌, ◌≡◌, refl, Bool, true, false, Option, none, some, List, [], ◌∷◌, Err, error_new, length,
}
use cf_herdr_poc.Base.Exec.{ok, ◌>>=◌, catch}
use cf_herdr_poc.Paths.{FilePath}
use cf_herdr_poc.Manager.Run.{Call, awaiting, collie, run}
use cf_herdr_poc.Manager.Run.Traces.{Down}
use cf_herdr_poc.Manager.Run.Orderly.{run-Down}
use cf_herdr_poc.Manager.Settings.{all_dirs, ensure_dirs}
use cf_herdr_poc.Manager.Settings.Physical.{IsKeeping}
use cf_herdr_poc.Bundle.{System}
use cf_herdr_poc.Examples.Bundles.{disk, directory, work}

abbrev answer : Call → ℕ → ℕ × Option Err
answer (awaiting collie) w = (w + 1, some (error_new "collie child exited"))
answer c w = (w + 1, none)

run-Down_example : Down (run answer (record { world = 0; calls = [] })).1.calls
run-Down_example = run-Down answer 0

-- Ten steps of setup, two starts, two waits and two stops.
run_calls : length (run answer (record { world = 0; calls = [] })).1.calls ≡ 16
unfolding run ◌>>=◌ catch
run_calls = refl

-- Every path is a directory.
abbrev plain : System (Bool × List FilePath) FilePath
plain = record (disk (λ p w. false)) { lstat = λ p w. ok directory }

plain-IsKeeping : IsKeeping plain
plain-IsKeeping = record {
  kept = λ path other mode w h. record { info = directory; looked = refl; physical = refl };
}

abbrev state_path : FilePath
state_path = record { rooted = true; names = "data" ∷ "sandboxes.json" ∷ [] }

dirs_there : (ensure_dirs plain (all_dirs state_path work) (true, [])).1 ≡ none
unfolding ensure_dirs all_dirs
dirs_there = refl

-- ===== src/Examples/Settings.antt =====
-- An environment that sets what `Load` requires.
use cf_herdr_poc.Base.{
  String, Bytes, codes, true, false, refl, Option, none, some, [], ◌∷◌, Assoc, lookup,
}
use cf_herdr_poc.Base.Exec.{ok}
use cf_herdr_poc.Configuration
use cf_herdr_poc.Configuration.{Library, make_config, load}
use cf_herdr_poc.Configuration.Checked.{IsChecked, load-IsChecked}

abbrev lib : Library
lib = record { trim_space = λ s. s; parse_duration = λ s. ok 5; parse_bool = λ s. some true }

abbrev variables : Assoc Bytes
variables =
    ("CF_IDENTITY_DOMAIN", codes "apps.internal")
    ∷ ("MANAGER_PACK_HOST", codes "pack.apps.internal")
    ∷ ("SANDBOX_BUILDPACKS", codes "go,node")
    ∷ []

abbrev or_empty : Option Bytes → Bytes
or_empty none = []
or_empty (some s) = s

abbrev getenv : String → Bytes
getenv key = or_empty (lookup key variables)

abbrev config : Configuration.Config
config = make_config lib getenv (codes "pack") (codes "go" ∷ codes "node" ∷ []) 2_000_000_000 false

load-IsChecked_example : IsChecked config
unfolding load lookup
load-IsChecked_example = load-IsChecked lib getenv config refl

-- ===== src/Examples/Providers.antt =====
-- The Cloud Foundry provider, on a runner that answers every command with the GUID of an app.
use cf_herdr_poc.Base.{
  ℕ, ◌≡◌, refl, ◌⊎◌, none, some, List, [], ◌∷◌, Bytes, true, false, String, Err, codes,
}
use cf_herdr_poc.Base.Exec.{Result, ok}
use cf_herdr_poc.Reconcile.{PushRequest, App}
use cf_herdr_poc.Cf.Output.{redact_assignment}
use cf_herdr_poc.Cf.Execute.{Provider, Platform, Shell, execute, execute_many}
use cf_herdr_poc.Cf.Apps.{push, stage, delete_app}
use cf_herdr_poc.Cf.Inspect.{Process, Instance}
use cf_herdr_poc.Cf.Text.{IsBounded, execute_many-IsBounded}
use cf_herdr_poc.Cf.Ownership.{Owned, preflight, delete_look, stage-Owned, delete_app_owned}

abbrev guid : String
guid = "01234567-89ab-1def-8123-456789abcdef"

abbrev platform : Platform ℕ
platform = record {
  now = λ w. w;
  context_error = λ w. none;
  strip_output = λ s. s;
  redact_bearer = λ s. s;
  replace_json = λ f s. s;
  replace_shell = λ f s. f s;
  trim_space = λ s. s;
  to_lower = λ s. s;
  is_ip = λ s. false;
  check_bits_path = λ r b w. none;
  url_escape = λ s. s;
  valid_https_address = λ s. true;
  valid_host = λ s. true;
  range = λ m w. m;
}

abbrev provider : Provider ℕ
provider = record {
  runner = some (record { run = λ x args w. (w, codes guid, none); run_env = none });
  executable = "";
  buildpacks = "go" ∷ [];
  work_root = "/work";
  environment = [];
}

abbrev shell : Shell ℕ
shell = record { world = 5; ran = [] }

abbrev request : PushRequest
request = record {
  name = "blue";
  expected_app_guid = guid;
  buildpack = "go";
  bits_path = "/work/blue";
}

stage-Owned_example :
    let (t, op, out, e) = preflight platform provider request shell in
    ((stage platform provider request shell).0 ≡ shell)
    ⊎ (((stage platform provider request shell).0 ≡ t)
        ⊎ (Owned platform provider guid (out, e)
            × (stage platform provider request shell ≡ push platform provider request t)))
stage-Owned_example = stage-Owned platform provider request shell

delete_app_owned_example :
    let (t, op, out, e) = delete_look platform provider "blue" shell in
    let (u, _, _, f) = execute platform provider "delete-app" ("delete" ∷ "blue" ∷ "-f" ∷ []) t in
    ((delete_app platform provider "blue" guid shell).0 ≡ shell)
    ⊎ (((delete_app platform provider "blue" guid shell).0 ≡ t)
        ⊎ ((e ≡ none)
            × (out ≡ codes guid)
            × ((delete_app platform provider "blue" guid shell).0 ≡ u)
            × ((delete_app platform provider "blue" guid shell).2 ≡ f)))
delete_app_owned_example = delete_app_owned platform provider "blue" guid shell

abbrev commands : List (List String)
commands = ("set-env" ∷ "blue" ∷ "A" ∷ []) ∷ ("set-env" ∷ "blue" ∷ "B" ∷ []) ∷ []

execute_many-IsBounded_example :
    IsBounded (execute_many platform provider "configure-enrollment" commands shell).1
execute_many-IsBounded_example =
    execute_many-IsBounded platform provider "configure-enrollment" commands shell

abbrev instances : List Instance
instances =
    record { state = "RUNNING"; routable = true }
    ∷ record { state = "RUNNING"; routable = false }
    ∷ []

abbrev up : App
up = record { running = true; ready = true }

abbrev decode_processes : Bytes → Result Err (List Process)
decode_processes s = ok (record { guid = guid; kind = "web"; instances = some 2 } ∷ [])

abbrev decode_stats : Bytes → Result Err (List Instance)
decode_stats s = ok instances

quoted_secret :
    redact_assignment (λ s. s) (codes "\"token\":\"abc\"") ≡ codes "\"token\":\"[REDACTED]\""
unfolding redact_assignment
quoted_secret = refl

-- ===== src/Reconcile.antt =====
-- internal/reconcile/reconciler.go: the state of the reconciler, and what it calls. The store is
-- the file store; the other interfaces of the file (`Runtime`, `CFProvider`, `PackManager`, `Probe`,
-- `Clock`) are the record `Services`, over a state `W` of everything outside the manager's memory.
-- One reconciliation runs at a time (the `worker` mutex), so a call is one step.
pub mod Effects
pub mod Delete
pub mod Create
pub mod Loop
pub mod Held
pub mod Phases
pub mod Rounds
pub mod Removal
pub mod Retry
pub mod Success
pub mod Steps
pub mod Enrolled
pub mod Discovered
pub mod Fuel
pub mod Chain
pub mod Termination
pub mod Workers
pub mod Lifecycle
use cf_herdr_poc.Base.{
  ℕ, String, Bytes, Bool, Option, none, some, List, ◌∷◌, Assoc, Err, ltb, if◌then◌else◌, ◌==◌,
}
use cf_herdr_poc.Base.Exec.{Result, ok, err, Exec}
use cf_herdr_poc.Model.{Operation, Phase}
use cf_herdr_poc.Store.{File}

pub record Prepared : Type 0 where
  pub path : String
  pub revision : String

-- `expires_at` is `none` for the zero time.
pub record Enrollment : Type 0 where
  pub path : String
  pub expires_at : Option ℕ

pub record Config : Type 0 where
  pub work_root : String
  pub identity_domain : String
  pub manager_route_host : String
  pub manager_pack_host : String
  pub manager_app_guid : String
  pub cf_api : String
  pub cf_username : String
  pub cf_password : String
  pub cf_org : String
  pub cf_space : String
  pub poll_attempts : ℕ
  pub poll_interval : ℕ
  pub scan_interval : ℕ

pub record PushRequest : Type 0 where
  pub name : String
  pub expected_app_guid : String
  pub buildpack : String
  pub bits_path : String

pub record RouteRequest : Type 0 where
  pub app_name : String
  pub app_guid : String
  pub domain : String
  pub host : String
  pub source_app_guid : String

pub record RoutePolicyRequest : Type 0 where
  pub domain : String
  pub host : String
  pub source_app_guid : String

pub record EnrollmentConfig : Type 0 where
  pub token_app_path : String
  pub lead_address : String
  pub self_address : String
  pub cf_api : String
  pub cf_username : String
  pub cf_password : String
  pub cf_org : String
  pub cf_space : String

-- `Running` and `Ready` of `cf.App`, the fields that are read.
pub record App : Type 0 where
  pub running : Bool
  pub ready : Bool

-- A call of another component, with its arguments.
pub data Call : Type 0 where
  prepare : String → String → Call
  find_prepared : String → Call
  install_enrollment : String → String → Call
  cleanup : String → Call
  stage : PushRequest → Call
  ensure_app_absent : String → Call
  app_guid : String → Call
  configure_enrollment : String → EnrollmentConfig → Call
  start_app : String → Call
  inspect_app : String → Call
  secure_route : RouteRequest → Call
  add_route_policy : RoutePolicyRequest → Call
  remove_route_policy : RoutePolicyRequest → Call
  remove_route : RouteRequest → Call
  delete_app : String → String → Call
  prepare_enrollment : String → String → Call
  member_present : String → Call
  remove_member : String → Call
  cleanup_enrollment : Enrollment → Call
  reachable : String → Call
  trigger_enrollment : String → Call
  wait : ℕ → Call

-- The answers to the calls of each kind, the clock, and library functions on texts. A call that
-- returns an operation returns it beside the error.
pub record Services (W : Type 0) : Type 0 where
  pub now : W → ℕ
  pub act : Call → W → W × Option Err  -- calls with an error only
  pub operate : Call → W → W × Operation × Option Err  -- calls with an operation and an error
  pub ask_bool : Call → W → W × Result Err Bool
  pub ask_prepared : Call → W → W × Result Err Prepared
  pub ask_enrollment : Call → W → W × Result Err Enrollment
  pub ask_app : Call → W → W × Result Err App
  pub ask_guid : Call → W → W × String × Operation × Option Err
  pub redact : Bytes → Bytes
  pub join_path : String → String → String
  pub quote : String → Bytes

-- `calls` records the calls made, the latest first, each with the error that it returned.
pub record Reconciler (W : Type 0) : Type 0 where
  pub file : File W
  pub enrollments : Assoc Enrollment
  pub prepared : Assoc Prepared
  pub recovery_phase : Assoc Phase
  pub calls : List (Call × Option Err)

abbrev pub M : Type 0 → Type 0 → Type 0
M W A = Exec (Reconciler W) Err A

-- `New` sets the two defaults; a duration that is not positive is 0 here.
unfoldable pub new_config : Config → Config
new_config c = record c {
  poll_attempts = if ltb c.poll_attempts 1 then 1 else c.poll_attempts;
  scan_interval = if c.scan_interval == 0 then 2_000_000_000 else c.scan_interval;
}

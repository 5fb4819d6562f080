-- ===== src/Examples.antt =====
-- A sandbox that the examples share, and the examples of each part.
mod Stores
mod Reconciles
mod Providers
mod Imports
mod Texts
mod Children
mod Monitors
pub mod Bundles
mod Managers
mod Requests
mod Joins
mod Settings
mod Packs
mod Workers
use cf_herdr_poc.Base.{[]}
use cf_herdr_poc.Model.{Sandbox, present, staging, no_phase}

abbrev pub box : Sandbox
box = record {
  name = "blue";
  app_guid = "";
  repository = "https://example.com/blue";
  revision = "r1";
  buildpack = "go";
  desired = present;
  phase = staging;
  resume_phase = no_phase;
  internal_host = "";
  pack_member_id = "";
  last_error = [];
  operations = [];
  created_at = 3;
  updated_at = 4;
}

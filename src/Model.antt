-- ===== src/Model.antt =====
-- internal/model/sandbox.go.
use cf_herdr_poc.Base.{ℕ, String, Bytes, Bool, List}

-- `Phase`; any other string that a state file holds is `unknown`.
pub data Phase : Type 0 where
  no_phase creating preparing_invite staging discovering_app starting : Phase
  securing_route securing_manager_route configuring_enrollment : Phase
  waiting_for_app waiting_for_route triggering_enrollment joining_pack : Phase
  ready deleting failed : Phase
  unknown : String → Phase

-- The string of a phase.
unfoldable pub phase_text : Phase → String
phase_text no_phase = ""
phase_text creating = "creating"
phase_text preparing_invite = "preparing-invite"
phase_text staging = "staging"
phase_text discovering_app = "discovering-app"
phase_text starting = "starting"
phase_text securing_route = "securing-route"
phase_text securing_manager_route = "securing-manager-route"
phase_text configuring_enrollment = "configuring-enrollment"
phase_text waiting_for_app = "waiting-for-app"
phase_text waiting_for_route = "waiting-for-route"
phase_text triggering_enrollment = "triggering-enrollment"
phase_text joining_pack = "joining-pack"
phase_text ready = "ready"
phase_text deleting = "deleting"
phase_text failed = "failed"
phase_text (unknown s) = s

-- `Desired`; any other string that a state file holds is `other`.
pub data Desired : Type 0 where
  present deleted : Desired
  other : String → Desired

-- Instants and durations are counts of nanoseconds.
pub record Operation : Type 0 where
  pub name : Bytes
  pub command : Bytes
  pub summary : Bytes
  pub started_at : ℕ
  pub duration : ℕ
  pub success : Bool
  pub error : Bytes

pub record Sandbox : Type 0 where
  pub name : String
  pub app_guid : String
  pub repository : String
  pub revision : String
  pub buildpack : String
  pub desired : Desired
  pub phase : Phase
  pub resume_phase : Phase
  pub internal_host : String
  pub pack_member_id : String
  pub last_error : Bytes
  pub operations : List Operation
  pub created_at : ℕ
  pub updated_at : ℕ

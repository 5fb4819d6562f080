-- ===== src/Http/View.antt =====
-- internal/httpapi/sanitize.go: what a browser is shown of a sandbox.
use cf_herdr_poc.Base.{
  ℕ, String, Bytes, codes, Bool, not, ◌&&◌, Option, none, some, List, map, if◌then◌else◌, is_nil,
  has_any, starts,
}
use cf_herdr_poc.Model.{Phase, Desired, Operation, Sandbox}
use cf_herdr_poc.Sanitize.{sanitize}
use cf_herdr_poc.Http.{Library, Url}

pub record OperationView : Type 0 where
  pub name : Bytes
  pub summary : Bytes
  pub started_at : ℕ
  pub duration : ℕ
  pub success : Bool
  pub error : Bytes

pub record SandboxView : Type 0 where
  pub name : String
  pub repository : Bytes
  pub revision : String
  pub buildpack : String
  pub desired : Desired
  pub phase : Phase
  pub resume_phase : Phase
  pub pack_member_id : String
  pub last_error : Bytes
  pub operations : List OperationView
  pub created_at : ℕ
  pub updated_at : ℕ

abbrev redacted_url : Bytes
redacted_url = codes "[redacted repository URL]"

-- The text is no URL with a host.
unfoldable pub unparsed_repository : Bytes → Bytes
unparsed_repository value =
    if starts (codes "git@") value && not (has_any (codes "?#") value) then value else redacted_url

module _ (lib : Library) where
  -- The two tests on `@` and `git@` that come first give the same text as the last line.
  unfoldable pub parsed_repository : Option Url → Bytes → Bytes
  unfolding unparsed_repository
  parsed_repository none value = unparsed_repository value
  parsed_repository (some u) value = if is_nil u.host then unparsed_repository value else u.bare

  unfoldable pub public_repository : Bytes → Bytes
  unfolding parsed_repository
  public_repository value = parsed_repository (lib.parse_url value) value

  unfoldable pub public_operation : Operation → OperationView
  public_operation op = record {
    name = sanitize lib.redact op.name;
    summary = sanitize lib.redact op.summary;
    started_at = op.started_at;
    duration = op.duration;
    success = op.success;
    error = sanitize lib.redact op.error;
  }

  unfoldable pub public_sandbox : Sandbox → SandboxView
  unfolding public_repository public_operation
  public_sandbox b = record {
    name = b.name;
    repository = public_repository (codes b.repository);
    revision = b.revision;
    buildpack = b.buildpack;
    desired = b.desired;
    phase = b.phase;
    resume_phase = b.resume_phase;
    pack_member_id = b.pack_member_id;
    last_error = sanitize lib.redact b.last_error;
    operations = map public_operation b.operations;
    created_at = b.created_at;
    updated_at = b.updated_at;
  }

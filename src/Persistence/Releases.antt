-- ===== src/Persistence/Releases.antt =====
-- The rows of git_pull_requests.py and deployment_recovery.py. A `status` that those files keep as
-- a bare text is one here.
use eldridge.Prelude.{ℕ, String, Bool, List, Option}
use eldridge.Domain.{ApprovalDecision}
use eldridge.Deployment.Types.{EnvironmentClassification, DeploymentAttemptStatus, RollbackStatus}
use eldridge.Persistence.Json.{Fields}

pub record CiCheckEvidence : Type 0 where
  pub workflow_id : ℕ
  pub source : String
  pub delivery_id : String
  pub repository : String
  pub check_run_id : String
  pub check_name : String
  pub revision : String
  pub status : String
  pub conclusion : String
  pub details_url : Option String
  pub app_slug : Option String
  pub payload_digest : String

pub record PullRequestProposalRecord : Type 0 where
  pub workflow_id : ℕ
  pub actor_id : String
  pub idempotency_key : String
  pub request_digest : String
  pub repository : String
  pub head_branch : String
  pub base_branch : String
  pub revision : String
  pub title : String
  pub status : String
  pub pull_number : Option ℕ
  pub pull_url : Option String
  pub error_code : Option String
  pub completed_at : Option ℕ

pub record MergeReadinessAssessmentRecord : Type 0 where
  pub workflow_id : ℕ
  pub proposal_id : ℕ
  pub actor_id : String
  pub idempotency_key : String
  pub revision : String
  pub status : String
  pub ready : Option Bool
  pub reasons : List String
  pub checks : Fields
  pub policy_version : String
  pub error_code : Option String
  pub completed_at : Option ℕ

pub record MergeConfirmationRecord : Type 0 where
  pub workflow_id : ℕ
  pub proposal_id : ℕ
  pub assessment_id : ℕ
  pub actor_id : String
  pub idempotency_key : String
  pub revision : String
  pub status : String
  pub merge_commit_revision : Option String
  pub error_code : Option String
  pub completed_at : Option ℕ

-- The key of an environment is the text `id`.
pub record DeploymentEnvironment : Type 0 where
  pub id : String
  pub name : String
  pub classification : EnvironmentClassification
  pub provider : String
  pub account_scope : String
  pub region : String
  pub resource_scope : List String
  pub adapter_id : String
  pub policy_version : String
  pub repository : String
  pub base_branch : String
  pub required_checks : List String
  pub required_attestations : List String
  pub verification_policy : List String
  pub rollback_policy : String
  pub config_digest : String
  pub active : Bool
  pub created_by : String

pub record DeploymentPlanRecord : Type 0 where
  pub workflow_id : ℕ
  pub environment_id : String
  pub actor_id : String
  pub idempotency_key : String
  pub request_digest : String
  pub revision : String
  pub artifact_digests : List String
  pub operations : List Fields
  pub declared_impact : String
  pub verification_probes : List String
  pub rollback_reference : String
  pub policy_version : String
  pub digest : String

pub record DeploymentAttemptRecord : Type 0 where
  pub workflow_id : ℕ
  pub plan_id : ℕ
  pub approval_id : ℕ
  pub actor_id : String
  pub idempotency_key : String
  pub request_digest : String
  pub adapter_id : String
  pub status : DeploymentAttemptStatus
  pub operation_reference : Option String
  pub simulated : Bool
  pub result_json : Fields
  pub error_code : Option String
  pub completed_at : Option ℕ

pub record DeploymentVerificationRecord : Type 0 where
  pub workflow_id : ℕ
  pub attempt_id : ℕ
  pub passed : Bool
  pub observed_revision : String
  pub evidence : Fields

pub record DeploymentRollbackRecord : Type 0 where
  pub workflow_id : ℕ
  pub attempt_id : ℕ
  pub approval_id : ℕ
  pub actor_id : String
  pub idempotency_key : String
  pub request_digest : String
  pub rollback_reference : String
  pub decision : ApprovalDecision
  pub rationale : String
  pub status : RollbackStatus
  pub operation_reference : Option String
  pub evidence : Fields
  pub error_code : Option String
  pub recovery_duration_ms : Option ℕ
  pub completed_at : Option ℕ

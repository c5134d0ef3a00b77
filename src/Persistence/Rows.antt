-- ===== src/Persistence/Rows.antt =====
-- The tables, and the database as one record.
use eldridge.Prelude.{ℕ, String, Bool, List, Option}
use eldridge.Domain.{
  WorkflowState, TaskStatus, PrincipalType, AgentRole, Capability, ApprovalAction, ApprovalDecision,
  DispositionDecision, ReconciliationDecision, TaskKind,
}
use eldridge.Routing.Types.{DataClassification, RiskLevel, WorkCapability, Reason}
use eldridge.Strategy.Types.{ComplexityTier, InspectionSignal}
use eldridge.Persistence.Json.{Fields}
use eldridge.Persistence.Releases.{
  CiCheckEvidence, PullRequestProposalRecord, MergeReadinessAssessmentRecord,
  MergeConfirmationRecord, DeploymentEnvironment, DeploymentPlanRecord, DeploymentAttemptRecord,
  DeploymentVerificationRecord, DeploymentRollbackRecord,
}

pub record Principal : Type 0 where
  pub id : String
  pub principal_type : PrincipalType
  pub role : AgentRole
  pub active : Bool

-- What stands in the column `block_reason`.
pub data BlockReason : Type 0 where
  input_disposition_required input_rejected execution_reconciliation_required : BlockReason
  execution_reconciled_failed no_eligible_provider : BlockReason

unfoldable pub BlockReason-discrete : Discrete BlockReason
BlockReason-discrete = hlevel

pub record Workflow : Type 0 where
  pub title : String
  pub description : String
  pub state : WorkflowState
  pub version : ℕ
  pub risk_class : RiskLevel
  pub complexity_tier : ComplexityTier
  pub data_classification : DataClassification
  pub repository_scope : Option String
  pub inspection_signals : List InspectionSignal
  pub containment_required : Bool
  pub block_reason : Option BlockReason
  pub requester_id : String
  pub policy_version : String
  pub candidate_revision : Option String
  pub merged_revision : Option String

-- A lease token is a number that is drawn for it.
pub record Task : Type 0 where
  pub workflow_id : ℕ
  pub kind : TaskKind
  pub required_role : AgentRole
  pub required_capability : Capability
  pub work_capability : WorkCapability
  pub objective : String
  pub status : TaskStatus
  pub position : ℕ
  pub max_attempts : ℕ
  pub lease_owner : Option String
  pub lease_token : Option ℕ
  pub lease_expires_at : Option ℕ
  pub created_at : ℕ

pub record TaskAttempt : Type 0 where
  pub task_id : ℕ
  pub attempt_number : ℕ
  pub agent_id : String
  pub provider : String
  pub model : String
  pub status : TaskStatus
  pub output : Fields
  pub error_code : Option String
  pub completed_at : Option ℕ

pub record CapabilityGrant : Type 0 where
  pub principal_id : String
  pub workflow_id : ℕ
  pub task_id : ℕ
  pub capabilities : List Capability
  pub policy_version : String
  pub expires_at : ℕ
  pub active : Bool

pub record RoutingRecord : Type 0 where
  pub workflow_id : ℕ
  pub task_id : ℕ
  pub attempt_id : ℕ
  pub policy_version : String
  pub ranked_candidates : List String
  pub rejected_candidates : List (String × List Reason)
  pub selected_provider_id : Option String
  pub selected_provider_family : Option String
  pub selected_model_version : Option String

pub record ProviderObservation : Type 0 where
  pub workflow_id : ℕ
  pub task_id : ℕ
  pub attempt_id : ℕ
  pub provider_id : String
  pub provider_family : String
  pub model_version : String
  pub profile_version : String
  pub work_capability : WorkCapability
  pub succeeded : Bool
  pub validation_passed : Bool
  pub latency_ms : ℕ
  pub error_code : Option String
  pub created_at : ℕ

-- The columns of `EvaluationObservationRecord` that routing evidence is built from.
pub record EvaluationObservation : Type 0 where
  pub provider_id : String
  pub model_version : String
  pub profile_version : String
  pub work_capability : WorkCapability
  pub succeeded : Bool
  pub validation_passed : Bool
  pub latency_ms : ℕ
  pub created_at : ℕ

pub record Approval : Type 0 where
  pub workflow_id : ℕ
  pub action : ApprovalAction
  pub target : String
  pub revision : String
  pub policy_version : String
  pub environment_id : Option String
  pub plan_digest : Option String
  pub deployment_attempt_id : Option ℕ
  pub approver_id : String
  pub decision : ApprovalDecision
  pub rationale : String
  pub expires_at : ℕ
  pub consumed_at : Option ℕ
  pub created_at : ℕ

pub record WorkflowDisposition : Type 0 where
  pub workflow_id : ℕ
  pub actor_id : String
  pub decision : DispositionDecision
  pub original_signals : List InspectionSignal
  pub rationale : String

pub record ExecutionReconciliation : Type 0 where
  pub workflow_id : ℕ
  pub task_id : ℕ
  pub attempt_id : ℕ
  pub actor_id : String
  pub decision : ReconciliationDecision
  pub rationale : String

pub record Artifact : Type 0 where
  pub workflow_id : ℕ
  pub task_id : ℕ
  pub attempt_id : ℕ
  pub artifact_type : TaskKind
  pub digest : String
  pub revision : Option String
  pub metadata_json : Fields

pub record AuditEvent : Type 0 where
  pub workflow_id : ℕ
  pub sequence : ℕ
  pub event_type : String
  pub actor_id : String
  pub resource_type : String
  pub resource_id : ℕ
  pub outcome : String
  pub payload : Fields
  pub previous_hash : String
  pub event_hash : String

pub record IdempotencyRecord : Type 0 where
  pub principal_id : String
  pub command : String
  pub idempotency_key : String
  pub request_digest : String
  pub resource_id : ℕ

-- The database. `tokens_drawn` counts the lease tokens that were drawn.
pub record Session : Type 0 where
  pub principals : List Principal
  pub workflows : List Workflow
  pub tasks : List Task
  pub attempts : List TaskAttempt
  pub grants : List CapabilityGrant
  pub routing_records : List RoutingRecord
  pub observations : List ProviderObservation
  pub evaluation_observations : List EvaluationObservation
  pub approvals : List Approval
  pub dispositions : List WorkflowDisposition
  pub reconciliations : List ExecutionReconciliation
  pub artifacts : List Artifact
  pub ci_checks : List CiCheckEvidence
  pub pull_requests : List PullRequestProposalRecord
  pub assessments : List MergeReadinessAssessmentRecord
  pub confirmations : List MergeConfirmationRecord
  pub environments : List DeploymentEnvironment
  pub deployment_plans : List DeploymentPlanRecord
  pub deployment_attempts : List DeploymentAttemptRecord
  pub verifications : List DeploymentVerificationRecord
  pub rollbacks : List DeploymentRollbackRecord
  pub audit_events : List AuditEvent
  pub idempotency_records : List IdempotencyRecord
  pub tokens_drawn : ℕ

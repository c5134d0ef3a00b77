-- ===== src/Deployment/Types.antt =====
-- deployment.py: the enumerations and the dataclasses.
use eldridge.Prelude.{ℕ, String, Bool, List, Eq, discrete_eq}
use eldridge.Persistence.Json.{Fields}

pub data EnvironmentClassification : Type 0 where
  development staging production : EnvironmentClassification

unfoldable pub EnvironmentClassification-discrete : Discrete EnvironmentClassification
EnvironmentClassification-discrete = hlevel

instance abbrev pub environment_classification_eq : Eq EnvironmentClassification
environment_classification_eq = discrete_eq EnvironmentClassification-discrete

pub data DeploymentAttemptStatus : Type 0 where
  running verifying succeeded failed unknown rollback_required reconciled : DeploymentAttemptStatus

unfoldable pub DeploymentAttemptStatus-discrete : Discrete DeploymentAttemptStatus
DeploymentAttemptStatus-discrete = hlevel

instance abbrev pub deployment_attempt_status_eq : Eq DeploymentAttemptStatus
deployment_attempt_status_eq = discrete_eq DeploymentAttemptStatus-discrete

pub data RollbackStatus : Type 0 where
  running succeeded failed unknown : RollbackStatus

unfoldable pub RollbackStatus-discrete : Discrete RollbackStatus
RollbackStatus-discrete = hlevel

instance abbrev pub rollback_status_eq : Eq RollbackStatus
rollback_status_eq = discrete_eq RollbackStatus-discrete

-- `status.value`
unfoldable pub environment_classification_value : EnvironmentClassification → String
environment_classification_value EnvironmentClassification.development = "DEVELOPMENT"
environment_classification_value EnvironmentClassification.staging = "STAGING"
environment_classification_value EnvironmentClassification.production = "PRODUCTION"

unfoldable pub deployment_attempt_status_value : DeploymentAttemptStatus → String
deployment_attempt_status_value DeploymentAttemptStatus.running = "RUNNING"
deployment_attempt_status_value DeploymentAttemptStatus.verifying = "VERIFYING"
deployment_attempt_status_value DeploymentAttemptStatus.succeeded = "SUCCEEDED"
deployment_attempt_status_value DeploymentAttemptStatus.failed = "FAILED"
deployment_attempt_status_value DeploymentAttemptStatus.unknown = "UNKNOWN"
deployment_attempt_status_value DeploymentAttemptStatus.rollback_required = "ROLLBACK_REQUIRED"
deployment_attempt_status_value DeploymentAttemptStatus.reconciled = "RECONCILED"

unfoldable pub rollback_status_value : RollbackStatus → String
rollback_status_value RollbackStatus.running = "RUNNING"
rollback_status_value RollbackStatus.succeeded = "SUCCEEDED"
rollback_status_value RollbackStatus.failed = "FAILED"
rollback_status_value RollbackStatus.unknown = "UNKNOWN"

-- A plan's `plan_id` is the key of its row.
pub record DeploymentPlan : Type 0 where
  pub plan_id : ℕ
  pub workflow_id : ℕ
  pub environment_id : String
  pub revision : String
  pub artifact_digests : List String
  pub operations : List Fields
  pub verification_probes : List String
  pub rollback_reference : String
  pub policy_version : String
  pub digest : String

pub record DeploymentExecution : Type 0 where
  pub operation_reference : String
  pub simulated : Bool
  pub changed : Bool
  pub evidence : Fields

pub record DeploymentObservation : Type 0 where
  pub observed_revision : String
  pub evidence : Fields

pub record DeploymentVerification : Type 0 where
  pub passed : Bool
  pub observed_revision : String
  pub evidence : Fields

-- `CredentialedDeploymentRun`, and `CredentialedRollbackRun`, which has the same attributes.
pub record CredentialedRun : Type 0 where
  pub execution : DeploymentExecution
  pub observation : DeploymentObservation
  pub verification : DeploymentVerification

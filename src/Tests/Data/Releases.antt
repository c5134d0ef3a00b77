-- ===== src/Tests/Data/Releases.antt =====
-- A workflow between its merge and its deployment, for the runs.
use eldridge.Prelude.{String, true, false, [], ◌∷◌, none, some}
use eldridge.Domain.{WorkflowState, ApprovalAction, ApprovalDecision}
use eldridge.Result.{ok}
use eldridge.Persistence.Json.{Json, Fields}
use eldridge.Persistence.{
  Session, Workflow, Approval, DeploymentEnvironment, DeploymentPlanRecord, DeploymentAttemptRecord,
  PullRequestProposalRecord, MergeReadinessAssessmentRecord, MergeConfirmationRecord,
}
use eldridge.Deployment.Types.{
  EnvironmentClassification, DeploymentAttemptStatus, DeploymentPlan, CredentialedRun,
}
use eldridge.Deployment.Adapter.{DeploymentAdapter}
use eldridge.Deployment.Store.{Deployments}
use eldridge.Git.Store.{GitHubApp, MergeConfirmation}
use eldridge.Tests.Data.{empty, reviewed}

abbrev pub local_environment : DeploymentEnvironment
local_environment = record {
  id = "local";
  name = "Local";
  classification = EnvironmentClassification.development;
  provider = "local-k3d";
  account_scope = "local";
  region = "local";
  resource_scope = "web" ∷ [];
  adapter_id = "k3d";
  policy_version = "v1";
  repository = "o/r";
  base_branch = "main";
  required_checks = [];
  required_attestations = [];
  verification_policy = "ready" ∷ [];
  rollback_policy = "previous";
  config_digest = "{}";
  active = true;
  created_by = "approver";
}

-- 64 hexadecimal digits.
abbrev pub hex : String
hex = "0123456789abcdef0123456789abcdef0123456789abcdef0123456789abcdef"

abbrev pub artifact : String
artifact = "sha256:0123456789abcdef0123456789abcdef0123456789abcdef0123456789abcdef"

abbrev pub update : Fields
update = Fields.field "kind" (Json.text "UPDATE_SERVICE") (
    Fields.field "resource_id" (Json.text "web")
      (Fields.field "artifact_digest" (Json.text artifact) Fields.done))

abbrev pub plan_row : DeploymentPlanRecord
plan_row = record {
  workflow_id = 0;
  environment_id = "local";
  actor_id = "approver";
  idempotency_key = "p";
  request_digest = "{}";
  revision = "abc";
  artifact_digests = artifact ∷ [];
  operations = update ∷ [];
  declared_impact = "restart";
  verification_probes = "ready" ∷ [];
  rollback_reference = "previous";
  policy_version = "v1";
  digest = "{}";
}

abbrev pub deploy_approval : Approval
deploy_approval = record {
  workflow_id = 0;
  action = ApprovalAction.deploy;
  target = "local";
  revision = "abc";
  policy_version = "v1";
  environment_id = some "local";
  plan_digest = some "{}";
  deployment_attempt_id = none;
  approver_id = "approver";
  decision = ApprovalDecision.approved;
  rationale = "ready";
  expires_at = 2000;
  consumed_at = none;
  created_at = 900;
}

abbrev pub k3d : DeploymentAdapter
k3d = record {
  adapter_id = "k3d";
  requires_credentials = true;
  is_recoverable = true;
  validate_plan = λ p. ok tt;
}

abbrev pub local_deployments : Deployments
local_deployments = record {
  adapter_of = λ id. some k3d;
  enable_local_deployment = true;
  has_session_broker = true;
}

abbrev pub merged_workflow : Workflow
merged_workflow = record reviewed {
  state = WorkflowState.merged;
  version = 11;
  repository_scope = some "o/r";
  merged_revision = some "abc";
}

abbrev pub in_state : WorkflowState → Workflow
in_state t = record merged_workflow { state = t }

-- Merged, with an environment and no plan.
abbrev pub unplanned : Session
unplanned = record empty { workflows = merged_workflow ∷ []; environments = local_environment ∷ [] }

-- Planned and approved twice, so that two attempts may start.
abbrev pub releasable : Session
releasable = record unplanned {
  workflows = in_state WorkflowState.awaiting_deployment_approval ∷ [];
  deployment_plans = plan_row ∷ [];
  approvals = deploy_approval ∷ deploy_approval ∷ [];
}

abbrev pub running_attempt_row : DeploymentAttemptRecord
running_attempt_row = record {
  workflow_id = 0;
  plan_id = 0;
  approval_id = 0;
  actor_id = "approver";
  idempotency_key = "d";
  request_digest = "{}";
  adapter_id = "k3d";
  status = DeploymentAttemptStatus.running;
  operation_reference = none;
  simulated = false;
  result_json =
      Fields.field "execution"
        (Json.object (Fields.field "previous_release" (Json.object Fields.done) Fields.done))
        Fields.done;
  error_code = none;
  completed_at = none;
}

abbrev pub deploying : Session
deploying = record releasable { deployment_attempts = running_attempt_row ∷ [] }

abbrev pub plan_of_row : DeploymentPlan
plan_of_row = record {
  plan_id = 0;
  workflow_id = 0;
  environment_id = "local";
  revision = "abc";
  artifact_digests = artifact ∷ [];
  operations = update ∷ [];
  verification_probes = "ready" ∷ [];
  rollback_reference = "previous";
  policy_version = "v1";
  digest = "{}";
}

-- A run that changed the target and was verified.
abbrev pub good_run : CredentialedRun
good_run = record {
  execution = record {
    operation_reference = "op";
    simulated = false;
    changed = true;
    evidence = Fields.done;
  };
  observation = record { observed_revision = "abc"; evidence = Fields.done };
  verification = record { passed = true; observed_revision = "abc"; evidence = Fields.done };
}

-- A deployment to be undone, with the approval for it.
abbrev pub recoverable : Session
recoverable = record releasable {
  workflows = in_state WorkflowState.rollback_required ∷ [];
  deployment_attempts =
      record running_attempt_row { status = DeploymentAttemptStatus.rollback_required } ∷ [];
  approvals =
      record deploy_approval {
        action = ApprovalAction.rollback;
        target = "previous";
        deployment_attempt_id = some 0;
      }
      ∷ [];
}

abbrev pub app : GitHubApp
app = record {
  policy_version = "v1";
  validate_pull_request = λ repository head revision title body. ok title;
}

abbrev pub proposal : PullRequestProposalRecord
proposal = record {
  workflow_id = 0;
  actor_id = "approver";
  idempotency_key = "q";
  request_digest = "{}";
  repository = "o/r";
  head_branch = "work";
  base_branch = "main";
  revision = "abc";
  title = "t";
  status = "SUCCEEDED";
  pull_number = some 7;
  pull_url = none;
  error_code = none;
  completed_at = some 950;
}

abbrev pub assessment : MergeReadinessAssessmentRecord
assessment = record {
  workflow_id = 0;
  proposal_id = 0;
  actor_id = "approver";
  idempotency_key = "a";
  revision = "abc";
  status = "SUCCEEDED";
  ready = some true;
  reasons = [];
  checks = Fields.done;
  policy_version = "v1";
  error_code = none;
  completed_at = some 960;
}

-- Approved by a human, with a pull request that is ready to be merged.
abbrev pub mergeable : Session
mergeable = record empty {
  workflows = record reviewed { state = WorkflowState.approved; version = 10 } ∷ [];
  pull_requests = proposal ∷ [];
  assessments = assessment ∷ [];
  approvals =
      record deploy_approval {
        action = ApprovalAction.merge;
        target = "main";
        policy_version = "phase1-v1";
        environment_id = none;
        plan_digest = none;
        consumed_at = some 940;
      }
      ∷ [];
}

abbrev pub confirmation : MergeConfirmationRecord
confirmation = record {
  workflow_id = 0;
  proposal_id = 0;
  assessment_id = 0;
  actor_id = "approver";
  idempotency_key = "c";
  revision = "abc";
  status = "RUNNING";
  merge_commit_revision = none;
  error_code = none;
  completed_at = none;
}

abbrev pub confirming : Session
confirming = record mergeable { confirmations = confirmation ∷ [] }

abbrev pub answer : MergeConfirmation
answer = record {
  repository = "o/r";
  pull_number = 7;
  head_revision = "abc";
  base_branch = "main";
  merge_commit_revision = "def";
}

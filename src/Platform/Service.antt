-- ===== src/Platform/Service.antt =====
-- service.py: the transactions of the three services in any order, each at a time of its own.
-- What runs between two transactions of an operation, at GitHub or at a deployment's target, is
-- what the second transaction is given.
use eldridge.Prelude.{ℕ, String, Bool, false, ◌&&◌, ◌||◌, negate, ◌==◌, Option, List, [], ◌∷◌}
use eldridge.Domain.{WorkflowState, WorkflowState-discrete, workflow_state_eq, ApprovalDecision}
use eldridge.Persistence.Json.{Fields}
use eldridge.Persistence.{Session, PullRequestProposalRecord}
use eldridge.Env.{Env}
use eldridge.Tx.{Tx, commit}
use eldridge.Tasks.Preparation.{Service}
use eldridge.Tasks.Service.{Operation, transaction, discard, at_moment}
use eldridge.Git.Store.{GitHubApp, PullRequestProposal, MergeReadiness, MergeConfirmation}
use eldridge.Git.Checks.{CheckDelivery, ingest_ci_check_evidence}
use eldridge.Git.Proposals.{
  ProposalRequest, propose_pull_request, mark_pull_request_unknown, complete_pull_request,
  reconcile_pull_request, finish_reconciliation,
}
use eldridge.Git.Readiness.{
  ReadinessRequest, assess_merge_readiness, record_merge_readiness, mark_readiness_failed,
}
use eldridge.Git.Merges.{
  ConfirmationRequest, confirm_pull_request_merged, complete_merge_confirmation,
  mark_merge_confirmation_failed,
}
use eldridge.Deployment.Types.{
  DeploymentAttemptStatus, DeploymentAttemptStatus-discrete, deployment_attempt_status_eq,
  RollbackStatus, DeploymentPlan, CredentialedRun,
}
use eldridge.Deployment.Store.{Deployments}
use eldridge.Deployment.Environments.{EnvironmentRequest, register_deployment_environment}
use eldridge.Deployment.Plans.{PlanRequest, create_deployment_plan}
use eldridge.Deployment.Attempts.{
  ExecutionRequest, execute_deployment_dry_run, execute_local_deployment,
}
use eldridge.Deployment.Outcomes.{
  finish_dry_run, finish_local_deployment, fail_deployment_dry_run, fail_local_deployment,
}
use eldridge.Deployment.Rollbacks.{RollbackRequest, execute_local_rollback}
use eldridge.Deployment.Rollbacks.Endings.{finish_local_rollback, fail_local_rollback}

pub data GitOperation : Type 0 where
  ingest : CheckDelivery → GitOperation
  propose : ProposalRequest → GitOperation
  proposal_unknown : (id : ℕ) (error_code : String) → GitOperation
  proposal_completed : (id : ℕ) → PullRequestProposal → GitOperation
  reconcile : (wid id : ℕ) (actor : String) → GitOperation
  reconciled :
      (id : ℕ) (actor : String)
      → PullRequestProposalRecord
      → List PullRequestProposal
      → GitOperation
  assess : ReadinessRequest → GitOperation
  assessed : (id : ℕ) → MergeReadiness → GitOperation
  assessment_failed : (id : ℕ) (error_code : String) → GitOperation
  confirm : ConfirmationRequest → GitOperation
  confirmed : (id : ℕ) → MergeConfirmation → GitOperation
  confirmation_failed : (id : ℕ) (error_code : String) → GitOperation

pub data DeploymentOperation : Type 0 where
  register : EnvironmentRequest → DeploymentOperation
  plan : PlanRequest → DeploymentOperation
  dry_run : ExecutionRequest → DeploymentOperation
  dry_run_finished : (wid id : ℕ) → DeploymentPlan → CredentialedRun → DeploymentOperation
  dry_run_failed : (id : ℕ) (error_code : String) → DeploymentOperation
  deploy : ExecutionRequest → DeploymentOperation
  deployed :
      (wid id : ℕ)
      → DeploymentPlan
      → (reference : String) (credential : Fields) → CredentialedRun
      → DeploymentOperation
  deployment_failed :
      (id : ℕ)
      → DeploymentAttemptStatus
      → (error_code : String) (target_contacted : Bool) → DeploymentOperation
  roll_back : RollbackRequest → DeploymentOperation
  rolled_back :
      (wid attempt_id id : ℕ) (credential : Fields)
      → CredentialedRun
      → (duration_ms : ℕ) → DeploymentOperation
  rollback_failed :
      (id : ℕ)
      → RollbackStatus
      → (error_code : String) (target_contacted : Bool) (duration_ms : ℕ) → DeploymentOperation

pub data PlatformOperation : Type 0 where
  on_tasks : Operation → PlatformOperation
  on_git : GitOperation → PlatformOperation
  on_deployment : DeploymentOperation → PlatformOperation

-- What the three services are built with.
pub record Platform : Type 1 where
  pub tasks : Service
  pub github_app : Option GitHubApp
  pub deployments : Deployments

pub record PlatformCall : Type 0 where
  pub now : ℕ
  pub task_locked : ℕ → Bool
  pub operation : PlatformOperation

unfoldable pub git_transaction : Env → Option GitHubApp → GitOperation → Tx (Unit {0})
git_transaction env app (GitOperation.ingest d) = discard (ingest_ci_check_evidence env d)
git_transaction env app (GitOperation.propose r) = discard (propose_pull_request env app r)
git_transaction env app (GitOperation.proposal_unknown id code) =
    mark_pull_request_unknown env id code
git_transaction env app (GitOperation.proposal_completed id p) =
    discard (complete_pull_request env id p false)
git_transaction env app (GitOperation.reconcile wid id actor) =
    discard (reconcile_pull_request env app wid id actor)
git_transaction env app (GitOperation.reconciled id actor searched found) =
    discard (finish_reconciliation env id actor searched found)
git_transaction env app (GitOperation.assess r) = discard (assess_merge_readiness env app r)
git_transaction env app (GitOperation.assessed id result) = record_merge_readiness env id result
git_transaction env app (GitOperation.assessment_failed id code) = mark_readiness_failed env id code
git_transaction env app (GitOperation.confirm r) = discard (confirm_pull_request_merged env app r)
git_transaction env app (GitOperation.confirmed id result) =
    complete_merge_confirmation env id result
git_transaction env app (GitOperation.confirmation_failed id code) =
    mark_merge_confirmation_failed env id code

unfoldable pub deployment_transaction : Env → Deployments → DeploymentOperation → Tx (Unit {0})
deployment_transaction env d (DeploymentOperation.register r) =
    discard (register_deployment_environment env d r)
deployment_transaction env d (DeploymentOperation.plan r) = discard (create_deployment_plan env d r)
deployment_transaction env d (DeploymentOperation.dry_run r) =
    discard (execute_deployment_dry_run env d r)
deployment_transaction env d (DeploymentOperation.dry_run_finished wid id p run) =
    finish_dry_run env wid id p run
deployment_transaction env d (DeploymentOperation.dry_run_failed id code) =
    fail_deployment_dry_run env id code
deployment_transaction env d (DeploymentOperation.deploy r) =
    discard (execute_local_deployment env d r)
deployment_transaction env d (DeploymentOperation.deployed wid id p reference credential run) =
    finish_local_deployment env wid id p reference credential run
deployment_transaction env d (DeploymentOperation.deployment_failed id status code contacted) =
    fail_local_deployment env id status code contacted
deployment_transaction env d (DeploymentOperation.roll_back r) =
    discard (execute_local_rollback env d r)
deployment_transaction env d
      (DeploymentOperation.rolled_back wid attempt_id id credential run duration) =
    discard (finish_local_rollback env wid attempt_id id credential run duration)
deployment_transaction env d
      (DeploymentOperation.rollback_failed id status code contacted duration) =
    fail_local_rollback env id status code contacted duration

-- The states of a workflow that an operation may enter, of those that no other operation enters, in
-- the terms of the operation alone.
unfoldable pub decides : ApprovalDecision → WorkflowState → Bool
unfolding WorkflowState-discrete
decides ApprovalDecision.approved t = WorkflowState.approved == t
decides ApprovalDecision.rejected t = WorkflowState.rejected == t

unfoldable pub task_enters : Operation → WorkflowState → Bool
unfolding decides
task_enters (Operation.approval r) t = decides r.decision t
task_enters _ t = false

unfoldable pub git_enters : GitOperation → WorkflowState → Bool
unfolding WorkflowState-discrete
git_enters (GitOperation.confirmed id result) t = WorkflowState.merged == t
git_enters _ t = false

-- A run that was verified and not simulated, and a run that was verified, simulated, and changed
-- nothing.
unfoldable pub is_real : CredentialedRun → Bool
is_real run = run.verification.passed && negate run.execution.simulated

unfoldable pub is_dry : CredentialedRun → Bool
is_dry run = run.verification.passed && (negate run.execution.changed && run.execution.simulated)

unfoldable pub deployment_enters : DeploymentOperation → WorkflowState → Bool
unfolding WorkflowState-discrete DeploymentAttemptStatus-discrete is_real is_dry
deployment_enters (DeploymentOperation.plan r) t = WorkflowState.awaiting_deployment_approval == t
deployment_enters (DeploymentOperation.dry_run_finished wid id p run) t =
    negate (is_dry run) && WorkflowState.rollback_required == t
deployment_enters (DeploymentOperation.deployed wid id p reference credential run) t =
    (is_real run && WorkflowState.deployed == t)
    || (negate (is_real run) && WorkflowState.rollback_required == t)
deployment_enters (DeploymentOperation.deployment_failed id status code contacted) t =
    status == DeploymentAttemptStatus.rollback_required && WorkflowState.rollback_required == t
deployment_enters (DeploymentOperation.rolled_back wid attempt_id id credential run duration) t =
    is_real run && WorkflowState.rolled_back == t
deployment_enters _ t = false

unfoldable pub enters : PlatformOperation → WorkflowState → Bool
enters (PlatformOperation.on_tasks o) t = task_enters o t
enters (PlatformOperation.on_git o) t = git_enters o t
enters (PlatformOperation.on_deployment o) t = deployment_enters o t

unfoldable pub platform_transaction : Env → Platform → PlatformOperation → Tx (Unit {0})
platform_transaction env p (PlatformOperation.on_tasks o) = transaction env p.tasks o
platform_transaction env p (PlatformOperation.on_git o) = git_transaction env p.github_app o
platform_transaction env p (PlatformOperation.on_deployment o) =
    deployment_transaction env p.deployments o

abbrev pub at_platform : Env → PlatformCall → Env
at_platform env c = at_moment env c.now c.task_locked

-- The session after the calls, the failed ones rolled back.
unfoldable pub run_platform : Env → Platform → List PlatformCall → Session → Session
run_platform env p [] s = s
run_platform env p (c ∷ cs) s =
    run_platform env p cs (commit (platform_transaction (at_platform env c) p c.operation) s)

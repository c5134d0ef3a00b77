-- ===== src/Deployment/Attempts.antt =====
-- deployment_recovery.py: the first transactions of `execute_deployment_dry_run` and
-- `execute_local_deployment`, which differ in what a mode asks and records.
use eldridge.Prelude.{
  ℕ, String, Bool, true, false, ◌&&◌, ◌||◌, negate, [], ◌∷◌, Option, none, some, ◌==◌, ◌!=◌, nat_eq,
  string_eq, option_eq, ltb, leb, len,
}
use eldridge.Domain.{
  WorkflowState, WorkflowState-discrete, workflow_state_eq, ApprovalAction, ApprovalAction-discrete,
  approval_action_eq, ApprovalDecision, ApprovalDecision-discrete, approval_decision_eq, Capability,
  Error,
}
use eldridge.Result.{Begun}
use eldridge.Persistence.Json.{Json, Fields, fields}
use eldridge.Persistence.{
  Workflow, Approval, DeploymentEnvironment, DeploymentPlanRecord, DeploymentAttemptRecord, keyed,
  select_first, latest_by, get_elem?,
}
use eldridge.Env.{Env, digest}
use eldridge.Tx.{Tx, pure, gets, lift, or_raise, raise_if, ◌>>=◌, ◌>>◌}
use eldridge.Audit.{append_audit_event}
use eldridge.Policy.{unscoped, authorize}
use eldridge.Tasks.Store.{get_workflow}
use eldridge.Tasks.Human.{is_some, is_blank}
use eldridge.Tasks.Approvals.{consume}
use eldridge.Deployment.Types.{
  EnvironmentClassification, EnvironmentClassification-discrete, environment_classification_eq,
  DeploymentAttemptStatus, DeploymentAttemptStatus-discrete, deployment_attempt_status_eq,
}
use eldridge.Deployment.Adapter.{DeploymentAdapter}
use eldridge.Deployment.Store.{Deployments, add_deployment_attempt, find_environment, plan_value}

-- The keyword arguments of both operations.
pub record ExecutionRequest : Type 0 where
  pub workflow_id : ℕ
  pub plan_id : ℕ
  pub actor_id : String
  pub idempotency_key : String

-- What `"mode"` is in the hashed request.
pub data Mode : Type 0 where
  dry_run local_k3d : Mode

unfoldable pub mode_value : Mode → String
mode_value Mode.dry_run = "DRY_RUN"
mode_value Mode.local_k3d = "LOCAL_K3D"

unfoldable pub attempt_digest : Env → ExecutionRequest → Mode → String
unfolding mode_value
attempt_digest env r mode = digest env (
    fields (
      ("workflow_id", Json.number r.workflow_id)
      ∷ ("plan_id", Json.number r.plan_id)
      ∷ ("mode", Json.text (mode_value mode))
      ∷ []))

-- `not idempotency_key.strip() or len(idempotency_key) > 128`, then whether a broker is there
unfoldable pub check_local : Env → Deployments → String → Tx (Unit {0})
unfolding is_blank
check_local env d idempotency_key = do
  raise_if (is_blank env idempotency_key || ltb 128 (len idempotency_key)) Error.validation_error
  raise_if (negate d.enable_local_deployment || negate d.has_session_broker)
      Error.authorization_error

-- The environment of a plan, if it is an active local target.
unfoldable pub local_target : String → Tx DeploymentEnvironment
unfolding EnvironmentClassification-discrete
local_target id = do
  found ← find_environment id
  e ← or_raise found Error.authorization_error
  raise_if
      (negate e.active
        || (e.classification != EnvironmentClassification.development
            || (e.provider != "local-k3d" || (e.account_scope != "local" || e.region != "local"))))
      Error.authorization_error
  pure e

unfoldable pub target_of : Mode → String → Tx DeploymentEnvironment
unfolding local_target
target_of Mode.local_k3d id = local_target id
target_of Mode.dry_run id = do
  found ← find_environment id
  e ← or_raise found Error.conflict_error
  raise_if (negate e.active) Error.conflict_error
  pure e

needs_credentials : Mode → Bool
needs_credentials Mode.dry_run = false
needs_credentials Mode.local_k3d = true

negated_if : Bool → Bool → Bool
negated_if true b = negate b
negated_if false b = b

unfoldable pub adapter_for : Deployments → Mode → String → Tx DeploymentAdapter
unfolding needs_credentials negated_if
adapter_for d mode id = do
  adapter ← or_raise (d.adapter_of id) Error.authorization_error
  raise_if (negated_if (needs_credentials mode) adapter.requires_credentials)
      Error.authorization_error
  pure adapter

-- An approval of the deployment of exactly this plan, not consumed.
unfoldable pub permits_deployment :
    ℕ → DeploymentEnvironment → DeploymentPlanRecord → Approval → Bool
unfolding ApprovalAction-discrete ApprovalDecision-discrete is_some
permits_deployment wid e p a =
    a.workflow_id == wid
    && (a.action == ApprovalAction.deploy
        && (a.decision == ApprovalDecision.approved
            && (a.environment_id == some e.id
                && (a.plan_digest == some p.digest
                    && (a.revision == p.revision
                        && (a.policy_version == p.policy_version
                            && negate (is_some a.consumed_at)))))))

-- `order_by(Approval.created_at.desc()).limit(1)`, and its expiry
unfoldable pub usable_approval : Env → (Approval → Bool) → Tx (ℕ × Approval)
usable_approval env permits = do
  found ←
      gets (λ s.
        latest_by (λ (x : ℕ × Approval). x.1.created_at) (λ x. permits x.1) (keyed s.approvals))
  (id, approval) ← or_raise found Error.authorization_error
  raise_if (leb approval.expires_at env.now) Error.authorization_error
  pure (id, approval)

unfoldable pub plan_of : (wid plan_id : ℕ) → Tx DeploymentPlanRecord
plan_of wid plan_id = do
  found ← gets (λ s. get_elem? s.deployment_plans plan_id)
  plan ← or_raise found Error.not_found_error
  raise_if (plan.workflow_id != wid) Error.not_found_error
  pure plan

unfoldable pub new_deployment_attempt :
    Env → ExecutionRequest → Mode → (approval_id : ℕ) → DeploymentAdapter → DeploymentAttemptRecord
unfolding attempt_digest needs_credentials
new_deployment_attempt env r mode approval_id adapter = record {
  workflow_id = r.workflow_id;
  plan_id = r.plan_id;
  approval_id = approval_id;
  actor_id = r.actor_id;
  idempotency_key = r.idempotency_key;
  request_digest = attempt_digest env r mode;
  adapter_id = adapter.adapter_id;
  status = DeploymentAttemptStatus.running;
  operation_reference = none;
  simulated = negate (needs_credentials mode);
  result_json = fields (
      ("intent_committed", Json.boolean true)
      ∷ ("credential_requested", Json.boolean (needs_credentials mode))
      ∷ []);
  error_code = none;
  completed_at = none;
}

started_event : Mode → String
started_event Mode.dry_run = "deployment.dry_run_started"
started_event Mode.local_k3d = "deployment.local_started"

started_payload :
    Mode → ExecutionRequest → DeploymentPlanRecord → (approval_id : ℕ) → DeploymentAdapter → Fields
started_payload Mode.dry_run r p approval_id adapter = fields (
    ("plan_id", Json.number r.plan_id)
    ∷ ("plan_digest", Json.text p.digest)
    ∷ ("environment_id", Json.text p.environment_id)
    ∷ ("revision", Json.text p.revision)
    ∷ ("approval_id", Json.number approval_id)
    ∷ ("credential_requested", Json.boolean false)
    ∷ [])
started_payload Mode.local_k3d r p approval_id adapter = fields (
    ("adapter_id", Json.text adapter.adapter_id)
    ∷ ("approval_id", Json.number approval_id)
    ∷ ("environment_id", Json.text p.environment_id)
    ∷ ("plan_digest", Json.text p.digest)
    ∷ ("revision", Json.text p.revision)
    ∷ [])

-- The intent is committed and the approval is consumed.
unfoldable pub commit_attempt :
    Env
    → ExecutionRequest
    → Mode
    → DeploymentPlanRecord
    → (approval_id : ℕ) → DeploymentAdapter
    → Tx ℕ
unfolding new_deployment_attempt started_event started_payload
commit_attempt env r mode plan approval_id adapter = do
  id ← add_deployment_attempt (new_deployment_attempt env r mode approval_id adapter)
  consume env approval_id
  append_audit_event env r.workflow_id (started_event mode) r.actor_id "deployment_attempt" id
      "STARTED" (started_payload mode r plan approval_id adapter)
  pure id

unfoldable pub start_attempt : Env → Deployments → ExecutionRequest → Mode → Workflow → Tx ℕ
unfolding plan_value commit_attempt usable_approval permits_deployment plan_of target_of adapter_for
    WorkflowState-discrete
start_attempt env d r mode workflow = do
  raise_if (workflow.state != WorkflowState.awaiting_deployment_approval)
      Error.invalid_transition_error
  plan ← plan_of r.workflow_id r.plan_id
  environment ← target_of mode plan.environment_id
  adapter ← adapter_for d mode environment.adapter_id
  (approval_id, approval) ← usable_approval env (permits_deployment r.workflow_id environment plan)
  lift (adapter.validate_plan (plan_value r.plan_id plan))
  commit_attempt env r mode plan approval_id adapter

unfoldable pub replay_or_start :
    Env
    → Deployments
    → ExecutionRequest
    → Mode
    → Workflow
    → Option (ℕ × DeploymentAttemptRecord)
    → Tx Begun
unfolding attempt_digest start_attempt DeploymentAttemptStatus-discrete
replay_or_start env d r mode workflow (some x) = do
  raise_if (x.1.request_digest != attempt_digest env r mode) Error.conflict_error
  raise_if (x.1.status != DeploymentAttemptStatus.succeeded) Error.conflict_error
  pure (Begun.replayed x.0)
replay_or_start env d r mode workflow none = do
  id ← start_attempt env d r mode workflow
  pure (Begun.started id)

unfoldable pub begin_attempt : Env → Deployments → ExecutionRequest → Mode → Tx Begun
unfolding replay_or_start
begin_attempt env d r mode = do
  authorize env r.actor_id Capability.execute_deployment unscoped true
  workflow ← get_workflow r.workflow_id
  existing ← gets (λ s.
      select_first
        (λ (x : ℕ × DeploymentAttemptRecord).
          x.1.actor_id == r.actor_id && x.1.idempotency_key == r.idempotency_key)
        (keyed s.deployment_attempts))
  replay_or_start env d r mode workflow existing

-- The first transaction of `execute_deployment_dry_run`.
unfoldable pub execute_deployment_dry_run : Env → Deployments → ExecutionRequest → Tx Begun
unfolding begin_attempt
execute_deployment_dry_run env d r = begin_attempt env d r Mode.dry_run

-- The first transaction of `execute_local_deployment`.
unfoldable pub execute_local_deployment : Env → Deployments → ExecutionRequest → Tx Begun
unfolding begin_attempt check_local
execute_local_deployment env d r = do
  check_local env d r.idempotency_key
  begin_attempt env d r Mode.local_k3d

-- ===== src/Deployment/Rollbacks.antt =====
-- deployment_recovery.py: `execute_local_rollback`, its ends, and `_fail_local_rollback`.
pub mod Endings
use eldridge.Prelude.{
  ℕ, String, Bool, true, false, ◌&&◌, negate, [], ◌∷◌, Option, none, some, ◌==◌, ◌!=◌, ◌||◌, nat_eq,
  string_eq, option_eq, prefix, if◌then◌else◌,
}
use eldridge.Domain.{
  WorkflowState, WorkflowState-discrete, workflow_state_eq, ApprovalAction, ApprovalAction-discrete,
  approval_action_eq, ApprovalDecision, ApprovalDecision-discrete, approval_decision_eq, Capability,
  Error,
}
use eldridge.Result.{Result, ok, err, Begun}
use eldridge.Persistence.Json.{Json, Fields, fields}
use eldridge.Persistence.{
  Workflow, Approval, DeploymentEnvironment, DeploymentPlanRecord, DeploymentAttemptRecord,
  DeploymentRollbackRecord, keyed, select_first, get_elem?,
}
use eldridge.Env.{Env, digest}
use eldridge.Tx.{Tx, pure, gets, lift, or_raise, raise_if, ◌>>=◌, ◌>>◌}
use eldridge.Audit.{append_audit_event}
use eldridge.Policy.{unscoped, authorize}
use eldridge.Tasks.Store.{get_workflow}
use eldridge.Tasks.Steps.{transition}
use eldridge.Tasks.Human.{is_some}
use eldridge.Tasks.Approvals.{consume}
use eldridge.Deployment.Types.{
  DeploymentAttemptStatus, DeploymentAttemptStatus-discrete, deployment_attempt_status_eq,
  RollbackStatus, RollbackStatus-discrete, rollback_status_eq, rollback_status_value,
  CredentialedRun,
}
use eldridge.Deployment.Store.{Deployments, add_rollback, set_rollback, plan_value}
use eldridge.Deployment.Attempts.{check_local, local_target, usable_approval}

-- The keyword arguments of `execute_local_rollback`.
pub record RollbackRequest : Type 0 where
  pub workflow_id : ℕ
  pub attempt_id : ℕ
  pub actor_id : String
  pub idempotency_key : String

unfoldable pub rollback_digest : Env → RollbackRequest → String
rollback_digest env r = digest env (
    fields (
      ("workflow_id", Json.number r.workflow_id)
      ∷ ("attempt_id", Json.number r.attempt_id)
      ∷ ("mode", Json.text "LOCAL_ROLLBACK")
      ∷ []))

-- An approval of the rollback of exactly this attempt, not consumed.
unfoldable pub permits_rollback :
    RollbackRequest → DeploymentEnvironment → DeploymentPlanRecord → Approval → Bool
unfolding ApprovalAction-discrete ApprovalDecision-discrete is_some
permits_rollback r e p a =
    a.workflow_id == r.workflow_id
    && (a.action == ApprovalAction.rollback
        && (a.decision == ApprovalDecision.approved
            && (a.environment_id == some e.id
                && (a.plan_digest == some p.digest
                    && (a.deployment_attempt_id == some r.attempt_id
                        && (a.revision == p.revision
                            && (a.policy_version == p.policy_version
                                && (a.target == p.rollback_reference
                                    && negate (is_some a.consumed_at)))))))))

-- What stands under a key, if it is a dict.
unfoldable pub object_at : String → Fields → Option Fields
object_at k Fields.done = none
object_at k (Fields.field j (Json.object o) fs) =
    let rest = object_at k fs in if j == k then some o else rest
object_at k (Fields.field j v fs) = let rest = object_at k fs in if j == k then none else rest

unfoldable pub all_texts : Fields → Bool
all_texts Fields.done = true
all_texts (Fields.field k (Json.text v) fs) = all_texts fs
all_texts (Fields.field k v fs) = false

snapshot_of : Option Fields → Option Fields
snapshot_of none = none
snapshot_of (some execution) = object_at "previous_release" execution

-- `result_json["execution"]["previous_release"]`, if it is a dict of texts
unfoldable pub previous_release : Fields → Tx Fields
unfolding object_at all_texts snapshot_of
previous_release result_json = do
  release ← or_raise (snapshot_of (object_at "execution" result_json)) Error.conflict_error
  raise_if (negate (all_texts release)) Error.conflict_error
  pure release

new_rollback :
    Env
    → RollbackRequest
    → DeploymentPlanRecord
    → (approval_id : ℕ) → Approval
    → DeploymentRollbackRecord
unfolding rollback_digest
new_rollback env r plan approval_id approval = record {
  workflow_id = r.workflow_id;
  attempt_id = r.attempt_id;
  approval_id = approval_id;
  actor_id = r.actor_id;
  idempotency_key = r.idempotency_key;
  request_digest = rollback_digest env r;
  rollback_reference = plan.rollback_reference;
  decision = ApprovalDecision.approved;
  rationale = approval.rationale;
  status = RollbackStatus.running;
  operation_reference = none;
  evidence =
      fields (
        ("intent_committed", Json.boolean true) ∷ ("credential_requested", Json.boolean true) ∷ []);
  error_code = none;
  recovery_duration_ms = none;
  completed_at = none;
}

-- The attempt that is contained.
unfoldable pub contained : RollbackRequest → Tx DeploymentAttemptRecord
unfolding DeploymentAttemptStatus-discrete
contained r = do
  found ← gets (λ s. get_elem? s.deployment_attempts r.attempt_id)
  attempt ← or_raise found Error.conflict_error
  raise_if
      (attempt.workflow_id != r.workflow_id
        || attempt.status != DeploymentAttemptStatus.rollback_required)
      Error.conflict_error
  pure attempt

unfoldable pub commit_rollback :
    Env
    → RollbackRequest
    → DeploymentEnvironment
    → DeploymentPlanRecord
    → (approval_id : ℕ) → Approval
    → Tx ℕ
unfolding new_rollback
commit_rollback env r environment plan approval_id approval = do
  id ← add_rollback (new_rollback env r plan approval_id approval)
  consume env approval_id
  append_audit_event env r.workflow_id "deployment.rollback_started" r.actor_id
      "deployment_rollback" id "STARTED"
      (fields (
        ("approval_id", Json.number approval_id)
        ∷ ("deployment_attempt_id", Json.number r.attempt_id)
        ∷ ("environment_id", Json.text environment.id)
        ∷ ("plan_digest", Json.text plan.digest)
        ∷ ("rollback_reference", Json.text plan.rollback_reference)
        ∷ []))
  pure id

unfoldable pub start_rollback : Env → Deployments → RollbackRequest → Workflow → Tx ℕ
unfolding commit_rollback contained previous_release permits_rollback plan_value local_target
    usable_approval WorkflowState-discrete
start_rollback env d r workflow = do
  raise_if (workflow.state != WorkflowState.rollback_required) Error.invalid_transition_error
  attempt ← contained r
  found ← gets (λ s. get_elem? s.deployment_plans attempt.plan_id)
  plan ← or_raise found Error.conflict_error
  environment ← local_target plan.environment_id
  adapter ← or_raise (d.adapter_of environment.adapter_id) Error.authorization_error
  raise_if (negate adapter.is_recoverable) Error.authorization_error
  (approval_id, approval) ← usable_approval env (permits_rollback r environment plan)
  previous_release attempt.result_json
  lift (adapter.validate_plan (plan_value attempt.plan_id plan))
  commit_rollback env r environment plan approval_id approval

unfoldable pub replay_or_roll_back :
    Env
    → Deployments
    → RollbackRequest
    → Workflow
    → Option (ℕ × DeploymentRollbackRecord)
    → Tx Begun
unfolding rollback_digest start_rollback RollbackStatus-discrete
replay_or_roll_back env d r workflow (some x) = do
  raise_if (x.1.request_digest != rollback_digest env r) Error.conflict_error
  raise_if (x.1.status != RollbackStatus.succeeded) Error.conflict_error
  pure (Begun.replayed x.0)
replay_or_roll_back env d r workflow none = do
  id ← start_rollback env d r workflow
  pure (Begun.started id)

-- The first transaction of `execute_local_rollback`.
unfoldable pub execute_local_rollback : Env → Deployments → RollbackRequest → Tx Begun
unfolding check_local replay_or_roll_back
execute_local_rollback env d r = do
  check_local env d r.idempotency_key
  authorize env r.actor_id Capability.execute_rollback unscoped true
  workflow ← get_workflow r.workflow_id
  existing ← gets (λ s.
      select_first
        (λ (x : ℕ × DeploymentRollbackRecord).
          x.1.actor_id == r.actor_id && x.1.idempotency_key == r.idempotency_key)
        (keyed s.rollbacks))
  replay_or_roll_back env d r workflow existing

-- ===== src/Tasks/Approvals.antt =====
-- workflow_tasks.py: `approve`.
use eldridge.Prelude.{
  ℕ, ◌+◌, ◌*◌, String, Bool, true, false, ◌&&◌, ◌||◌, negate, [], ◌∷◌, Option, none, some, ◌==◌,
  ◌!=◌, nat_eq, string_eq, option_eq, ltb,
}
use eldridge.Domain.{
  WorkflowState, WorkflowState-discrete, workflow_state_eq, ApprovalAction, ApprovalDecision,
  Capability, Error, approval_decision_value,
}
use eldridge.Result.{ok}
use eldridge.Persistence.Json.{Json, fields, text_or_null, number_or_null}
use eldridge.Persistence.{
  Workflow, Approval, DeploymentPlanRecord, DeploymentAttemptRecord, append_row, length, modify,
  get_elem?, select_first,
}
use eldridge.Deployment.Types.{
  DeploymentAttemptStatus, DeploymentAttemptStatus-discrete, deployment_attempt_status_eq,
}
use eldridge.Env.{Env}
use eldridge.Tx.{Tx, pure, raise, gets, or_raise, raise_if, ◌>>=◌, ◌>>◌}
use eldridge.Audit.{append_audit_event}
use eldridge.Policy.{unscoped, authorize}
use eldridge.Tasks.Store.{get_workflow}
use eldridge.Tasks.Steps.{transition}
use eldridge.Tasks.Human.{is_blank}

-- The keyword arguments of `approve`.
pub record ApprovalRequest : Type 0 where
  pub workflow_id : ℕ
  pub approver_id : String
  pub action : ApprovalAction
  pub target : String
  pub revision : String
  pub decision : ApprovalDecision
  pub rationale : String
  pub expires_in_minutes : ℕ
  pub environment_id : Option String
  pub plan_digest : Option String
  pub deployment_attempt_id : Option ℕ

unfoldable pub approval_capability : ApprovalAction → Capability
approval_capability ApprovalAction.merge = Capability.approve_merge
approval_capability ApprovalAction.deploy = Capability.approve_deployment
approval_capability ApprovalAction.rollback = Capability.approve_rollback

is_some : {A : Type 0} → Option A → Bool
is_some none = false
is_some (some a) = true

-- `bool(text)` of a text that may be `None`
truthy : Option String → Bool
truthy none = false
truthy (some s) = s != ""

unfoldable pub check_merge : ApprovalRequest → Workflow → Tx String
unfolding truthy is_some WorkflowState-discrete
check_merge r workflow = do
  raise_if (is_some r.environment_id || (is_some r.plan_digest || is_some r.deployment_attempt_id))
      Error.validation_error
  raise_if (workflow.state != WorkflowState.awaiting_human_approval) Error.invalid_transition_error
  raise_if
      (negate (truthy workflow.candidate_revision)
        || some r.revision != workflow.candidate_revision)
      Error.conflict_error
  pure workflow.policy_version

unfoldable pub check_deploy : Env → ApprovalRequest → Workflow → Tx String
unfolding truthy is_some WorkflowState-discrete
check_deploy env r workflow = do
  raise_if (workflow.state != WorkflowState.awaiting_deployment_approval)
      Error.invalid_transition_error
  raise_if (is_some r.deployment_attempt_id) Error.validation_error
  raise_if (negate (truthy r.environment_id) || negate (truthy r.plan_digest))
      Error.validation_error
  found ← gets (λ s.
      select_first
        (λ (p : DeploymentPlanRecord).
          p.workflow_id == r.workflow_id
          && (some p.environment_id == r.environment_id && some p.digest == r.plan_digest))
        s.deployment_plans)
  plan ← or_raise found Error.conflict_error
  raise_if (some (env.strip r.target) != r.environment_id) Error.conflict_error
  raise_if (r.revision != plan.revision || some r.revision != workflow.merged_revision)
      Error.conflict_error
  pure plan.policy_version

-- The contained attempt that a rollback approval names. (`not deployment_attempt_id` is the
-- test for `None`: a key is never empty.)
unfoldable pub contained_attempt : ApprovalRequest → Option ℕ → Tx DeploymentAttemptRecord
unfolding DeploymentAttemptStatus-discrete
contained_attempt r none = raise Error.validation_error
contained_attempt r (some did) = do
  found ← gets (λ s. get_elem? s.deployment_attempts did)
  attempt ← or_raise found Error.conflict_error
  raise_if
      (attempt.workflow_id != r.workflow_id
        || attempt.status != DeploymentAttemptStatus.rollback_required)
      Error.conflict_error
  pure attempt

unfoldable pub check_rollback : Env → ApprovalRequest → Workflow → Tx String
unfolding truthy contained_attempt WorkflowState-discrete
check_rollback env r workflow = do
  raise_if (workflow.state != WorkflowState.rollback_required) Error.invalid_transition_error
  raise_if (negate (truthy r.environment_id) || negate (truthy r.plan_digest))
      Error.validation_error
  attempt ← contained_attempt r r.deployment_attempt_id
  found ← gets (λ s. get_elem? s.deployment_plans attempt.plan_id)
  plan ← or_raise found Error.conflict_error
  raise_if (some plan.environment_id != r.environment_id || some plan.digest != r.plan_digest)
      Error.conflict_error
  raise_if (env.strip r.target != plan.rollback_reference) Error.conflict_error
  raise_if (r.revision != plan.revision || some r.revision != workflow.merged_revision)
      Error.conflict_error
  pure plan.policy_version

-- The checks of each action; the result is the policy version of the approval.
unfoldable pub check_binding : Env → ApprovalRequest → Workflow → ApprovalAction → Tx String
unfolding check_merge check_deploy check_rollback
check_binding env r workflow ApprovalAction.merge = check_merge r workflow
check_binding env r workflow ApprovalAction.deploy = check_deploy env r workflow
check_binding env r workflow ApprovalAction.rollback = check_rollback env r workflow

unfoldable pub add_approval : Approval → Tx ℕ
add_approval a s = ok (length s.approvals, record s { approvals = append_row s.approvals a })

-- `approval.consumed_at = datetime.now(UTC)`
unfoldable pub consume : Env → ℕ → Tx (Unit {0})
consume env id s = ok (
  tt,
  record s { approvals = modify id (λ a. record a { consumed_at = some env.now }) s.approvals },
)

-- The transition of a decided merge, or of a rejected deployment.
unfoldable pub decided_state : ApprovalDecision → WorkflowState
decided_state ApprovalDecision.approved = WorkflowState.approved
decided_state ApprovalDecision.rejected = WorkflowState.rejected

decided_reason : ApprovalAction → ApprovalDecision → String
decided_reason ApprovalAction.merge ApprovalDecision.approved =
    "human approved merge for exact revision"
decided_reason ApprovalAction.merge ApprovalDecision.rejected =
    "human rejected merge for exact revision"
decided_reason _ _ = "human rejected deploy for exact revision"

unfoldable pub settle : Env → ApprovalRequest → ℕ → Tx (Unit {0})
unfolding decided_state decided_reason
settle env r id = do
  consume env id
  transition env r.workflow_id (decided_state r.decision) r.approver_id
      (decided_reason r.action r.decision)
      (fields (
        ("approval_id", Json.number id)
        ∷ ("revision", Json.text r.revision)
        ∷ ("target", Json.text r.target)
        ∷ []))

-- What follows the new approval, by action and decision.
unfoldable pub conclude :
    Env → ApprovalRequest → String → ℕ → ApprovalAction → ApprovalDecision → Tx (Unit {0})
unfolding settle
conclude env r policy_version id ApprovalAction.merge decision = settle env r id
conclude env r policy_version id ApprovalAction.deploy ApprovalDecision.rejected = settle env r id
conclude env r policy_version id ApprovalAction.deploy ApprovalDecision.approved =
    append_audit_event env r.workflow_id "deployment.approved" r.approver_id "approval" id
      "APPROVED"
      (fields (
        ("environment_id", text_or_null r.environment_id)
        ∷ ("plan_digest", text_or_null r.plan_digest)
        ∷ ("revision", Json.text r.revision)
        ∷ ("policy_version", Json.text policy_version)
        ∷ ("expires_at", Json.number (env.now + r.expires_in_minutes * 60))
        ∷ []))
conclude env r policy_version id ApprovalAction.rollback decision = do
  (elim decision [
    | ApprovalDecision.rejected ↦ consume env id
    | ApprovalDecision.approved ↦ pure tt
  ])
  append_audit_event env r.workflow_id
      (elim decision [
        | ApprovalDecision.approved ↦ "deployment.rollback_approved"
        | ApprovalDecision.rejected ↦ "deployment.rollback_rejected"
      ])
      r.approver_id "approval" id (approval_decision_value decision)
      (fields (
        ("deployment_attempt_id", number_or_null r.deployment_attempt_id)
        ∷ ("environment_id", text_or_null r.environment_id)
        ∷ ("plan_digest", text_or_null r.plan_digest)
        ∷ ("revision", Json.text r.revision)
        ∷ ("rollback_reference", Json.text (env.strip r.target))
        ∷ ("expires_at", Json.number (env.now + r.expires_in_minutes * 60))
        ∷ []))

unfoldable pub new_approval : Env → ApprovalRequest → String → Approval
new_approval env r policy_version = record {
  workflow_id = r.workflow_id;
  action = r.action;
  target = env.strip r.target;
  revision = r.revision;
  policy_version = policy_version;
  environment_id = r.environment_id;
  plan_digest = r.plan_digest;
  deployment_attempt_id = r.deployment_attempt_id;
  approver_id = r.approver_id;
  decision = r.decision;
  rationale = env.strip r.rationale;
  expires_at = env.now + r.expires_in_minutes * 60;
  consumed_at = none;
  created_at = env.now;
}

-- `approve`; the approval that it describes is found by the key that is returned.
unfoldable pub approve : Env → ApprovalRequest → Tx ℕ
unfolding new_approval
approve env r = do
  raise_if (ltb r.expires_in_minutes 1) Error.validation_error
  authorize env r.approver_id (approval_capability r.action) unscoped true
  workflow ← get_workflow r.workflow_id
  raise_if (is_blank env r.target || is_blank env r.rationale) Error.validation_error
  policy_version ← check_binding env r workflow r.action
  id ← add_approval (new_approval env r policy_version)
  conclude env r policy_version id r.action r.decision
  pure id

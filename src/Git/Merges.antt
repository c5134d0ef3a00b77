-- ===== src/Git/Merges.antt =====
-- git_pull_requests.py: `confirm_pull_request_merged` and its ends.
use eldridge.Prelude.{
  ℕ, String, Bool, true, ◌&&◌, ◌||◌, negate, [], ◌∷◌, Option, none, some, ◌==◌, ◌!=◌, nat_eq,
  string_eq, option_eq, prefix, if◌then◌else◌,
}
use eldridge.Domain.{
  WorkflowState, WorkflowState-discrete, workflow_state_eq, ApprovalAction, ApprovalAction-discrete,
  approval_action_eq, ApprovalDecision, ApprovalDecision-discrete, approval_decision_eq, Capability,
  Error,
}
use eldridge.Result.{Begun}
use eldridge.Persistence.Json.{Json, fields}
use eldridge.Persistence.{
  Workflow, Approval, PullRequestProposalRecord, MergeReadinessAssessmentRecord,
  MergeConfirmationRecord, keyed, select_first, latest_by, get_elem?,
}
use eldridge.Env.{Env}
use eldridge.Tx.{Tx, pure, raise, gets, or_raise, raise_if, ◌>>=◌, ◌>>◌}
use eldridge.Audit.{append_audit_event}
use eldridge.Policy.{unscoped, authorize}
use eldridge.Tasks.Store.{get_workflow, set_workflow}
use eldridge.Tasks.Steps.{transition}
use eldridge.Tasks.Human.{is_some}
use eldridge.Git.Store.{
  GitHubApp, MergeConfirmation, present, add_confirmation, set_confirmation, get_pull_request,
}

-- The keyword arguments of `confirm_pull_request_merged`.
pub record ConfirmationRequest : Type 0 where
  pub workflow_id : ℕ
  pub proposal_id : ℕ
  pub assessment_id : ℕ
  pub actor_id : String
  pub idempotency_key : String

unfoldable pub is_consent : ℕ → String → String → Approval → Bool
unfolding ApprovalAction-discrete ApprovalDecision-discrete is_some
is_consent wid revision policy_version a =
    a.workflow_id == wid
    && (a.action == ApprovalAction.merge
        && (a.decision == ApprovalDecision.approved
            && (a.revision == revision
                && (a.policy_version == policy_version && is_some a.consumed_at))))

unfoldable pub earlier_confirmation :
    ConfirmationRequest → Tx (Option (ℕ × MergeConfirmationRecord))
earlier_confirmation r = gets (λ s.
    select_first
      (λ (x : ℕ × MergeConfirmationRecord).
        x.1.actor_id == r.actor_id && x.1.idempotency_key == r.idempotency_key)
      (keyed s.confirmations))

-- The answer on a workflow that is MERGED.
unfoldable pub replay_merged : ConfirmationRequest → Option (ℕ × MergeConfirmationRecord) → Tx Begun
replay_merged r none = raise Error.invalid_transition_error
replay_merged r (some x) = do
  raise_if (x.1.workflow_id != r.workflow_id) Error.invalid_transition_error
  pure (Begun.replayed x.0)

new_confirmation : ConfirmationRequest → String → MergeConfirmationRecord
new_confirmation r revision = record {
  workflow_id = r.workflow_id;
  proposal_id = r.proposal_id;
  assessment_id = r.assessment_id;
  actor_id = r.actor_id;
  idempotency_key = r.idempotency_key;
  revision = revision;
  status = "RUNNING";
  merge_commit_revision = none;
  error_code = none;
  completed_at = none;
}

unfoldable pub replay_or_confirm :
    Env
    → ConfirmationRequest
    → String
    → (pull_number : ℕ) → Option (ℕ × MergeConfirmationRecord)
    → Tx Begun
unfolding new_confirmation
replay_or_confirm env r revision pull_number (some x) = do
  raise_if
      (x.1.workflow_id != r.workflow_id
        || (x.1.proposal_id != r.proposal_id
            || (x.1.assessment_id != r.assessment_id || x.1.revision != revision)))
      Error.conflict_error
  raise_if (x.1.status != "SUCCEEDED") Error.conflict_error
  pure (Begun.replayed x.0)
replay_or_confirm env r revision pull_number none = do
  id ← add_confirmation (new_confirmation r revision)
  append_audit_event env r.workflow_id "git.merge_confirmation_requested" r.actor_id
      "merge_confirmation" id "STARTED"
      (fields (("revision", Json.text revision) ∷ ("pull_number", Json.number pull_number) ∷ []))
  pure (Begun.started id)

-- The proposal that is confirmed, with its number.
unfoldable pub confirmed_proposal : (wid proposal_id : ℕ) → Tx (ℕ × PullRequestProposalRecord)
confirmed_proposal wid proposal_id = do
  proposal ← get_pull_request proposal_id Error.conflict_error
  raise_if (proposal.workflow_id != wid || proposal.status != "SUCCEEDED") Error.conflict_error
  pull_number ← or_raise proposal.pull_number Error.conflict_error
  pure (pull_number, proposal)

unfoldable pub ready_assessment :
    (wid proposal_id assessment_id : ℕ) → Tx MergeReadinessAssessmentRecord
ready_assessment wid proposal_id assessment_id = do
  found ← gets (λ s. get_elem? s.assessments assessment_id)
  assessment ← or_raise found Error.conflict_error
  raise_if
      (assessment.workflow_id != wid
        || (assessment.proposal_id != proposal_id || assessment.status != "SUCCEEDED"))
      Error.conflict_error
  ready ← or_raise assessment.ready Error.conflict_error
  raise_if (negate ready) Error.conflict_error
  pure assessment

-- What follows on a workflow that is not MERGED.
unfoldable pub begin_confirmation : Env → ConfirmationRequest → Workflow → Tx Begun
unfolding replay_or_confirm earlier_confirmation is_consent WorkflowState-discrete
begin_confirmation env r workflow = do
  raise_if (workflow.state != WorkflowState.approved) Error.invalid_transition_error
  (pull_number, proposal) ← confirmed_proposal r.workflow_id r.proposal_id
  assessment ← ready_assessment r.workflow_id r.proposal_id r.assessment_id
  revision ← present workflow.candidate_revision Error.conflict_error
  raise_if (proposal.revision != assessment.revision || assessment.revision != revision)
      Error.conflict_error
  approval ← gets (λ s.
      latest_by (λ a. a.created_at) (is_consent r.workflow_id revision workflow.policy_version)
        s.approvals)
  or_raise approval Error.conflict_error
  existing ← earlier_confirmation r
  replay_or_confirm env r revision pull_number existing

-- The first transaction of `confirm_pull_request_merged`.
unfoldable pub confirm_pull_request_merged : Env → Option GitHubApp → ConfirmationRequest → Tx Begun
unfolding begin_confirmation replay_merged earlier_confirmation WorkflowState-discrete
confirm_pull_request_merged env app r = do
  github ← or_raise app Error.integration_disabled_error
  authorize env r.actor_id Capability.confirm_git_merge unscoped true
  workflow ← get_workflow r.workflow_id
  (if workflow.state == WorkflowState.merged
      then (do existing ← earlier_confirmation r; replay_merged r existing)
      else begin_confirmation env r workflow)

unfoldable pub confirmed :
    Env → MergeConfirmation → MergeConfirmationRecord → MergeConfirmationRecord
confirmed env result r = record r {
  status = "SUCCEEDED";
  merge_commit_revision = some result.merge_commit_revision;
  completed_at = some env.now;
}

-- `record is None or record.status != "RUNNING"` raises
unfoldable pub pending_confirmation : ℕ → Tx MergeConfirmationRecord
pending_confirmation id = do
  found ← gets (λ s. get_elem? s.confirmations id)
  row ← or_raise found Error.conflict_error
  raise_if (row.status != "RUNNING") Error.conflict_error
  pure row

unfoldable pub matches_approved :
    MergeConfirmation
    → MergeConfirmationRecord
    → Workflow
    → (pull_number : ℕ) → PullRequestProposalRecord
    → Bool
unfolding WorkflowState-discrete
matches_approved result row workflow pull_number proposal =
    workflow.state == WorkflowState.approved
    && (workflow.candidate_revision == some row.revision
        && (result.repository == proposal.repository
            && (result.pull_number == pull_number
                && (result.head_revision == row.revision
                    && result.base_branch == proposal.base_branch))))

-- `_complete_merge_confirmation`
unfoldable pub complete_merge_confirmation : Env → ℕ → MergeConfirmation → Tx (Unit {0})
unfolding confirmed matches_approved pending_confirmation
complete_merge_confirmation env id result = do
  row ← pending_confirmation id
  workflow ← get_workflow row.workflow_id
  proposal ← get_pull_request row.proposal_id Error.conflict_error
  pull_number ← or_raise proposal.pull_number Error.conflict_error
  raise_if (negate (matches_approved result row workflow pull_number proposal)) Error.conflict_error
  set_confirmation id (confirmed env result)
  set_workflow row.workflow_id
      (λ w. record w { merged_revision = some result.merge_commit_revision })
  transition env row.workflow_id WorkflowState.merged row.actor_id
      "GitHub independently confirmed the protected pull-request merge"
      (fields (
        ("proposal_id", Json.number row.proposal_id)
        ∷ ("assessment_id", Json.number row.assessment_id)
        ∷ ("pull_number", Json.number result.pull_number)
        ∷ ("revision", Json.text row.revision)
        ∷ ("merge_commit_revision", Json.text result.merge_commit_revision)
        ∷ []))
  append_audit_event env row.workflow_id "git.merge_confirmed" row.actor_id "merge_confirmation" id
      "SUCCEEDED"
      (fields (
        ("revision", Json.text row.revision)
        ∷ ("merge_commit_revision", Json.text result.merge_commit_revision)
        ∷ []))

unfoldable pub mark_failed : Env → ℕ → String → Option MergeConfirmationRecord → Tx (Unit {0})
mark_failed env id error_code none = pure tt
mark_failed env id error_code (some row) = if row.status != "RUNNING" then pure tt else (do
  set_confirmation id (λ r. record r {
    status = "FAILED";
    error_code = some (prefix 64 error_code);
    completed_at = some env.now;
  })
  append_audit_event env row.workflow_id "git.merge_confirmation_failed" row.actor_id
      "merge_confirmation" id "FAILED"
      (fields (
        ("revision", Json.text row.revision)
        ∷ ("error_code", Json.text (prefix 64 error_code))
        ∷ [])))

-- `_mark_merge_confirmation_failed`
unfoldable pub mark_merge_confirmation_failed : Env → ℕ → String → Tx (Unit {0})
unfolding mark_failed
mark_merge_confirmation_failed env id error_code = do
  found ← gets (λ s. get_elem? s.confirmations id)
  mark_failed env id error_code found

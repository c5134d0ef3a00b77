-- ===== src/Tests/Git.antt =====
-- Runs of git_pull_requests.py.
use eldridge.Prelude.{◌≡◌, refl, true, some}
use eldridge.Domain.{
  Capability, PrincipalType, role_capabilities, Capability-discrete, PrincipalType-discrete,
  WorkflowState-discrete, ApprovalAction-discrete, ApprovalDecision-discrete, workflow_state_value,
}
use eldridge.Routing.Sort.{sort_by, insert_sorted}
use eldridge.Persistence.Json.{fields, join}
use eldridge.Persistence.{
  Session, Principal, Workflow, PullRequestProposalRecord, MergeConfirmationRecord, get_elem?,
  modify, select, select_first, append_row, keyed, latest_by,
}
use eldridge.Env.{digest}
use eldridge.Tx.{commit, ◌>>=◌, gets, pure, raise}
use eldridge.Audit.{append_audit_event, events_of, latest, chained_event}
use eldridge.Policy.{
  unscoped, authorize, decide, find_principal, is_task_scoped, needs_no_scope, active_grant,
}
use eldridge.Policy.Decision.{IsAuthorized}
use eldridge.StateMachine.{assert_transition_allowed, allowed_transitions}
use eldridge.Tasks.Store.{get_workflow, set_workflow}
use eldridge.Tasks.Steps.{transition}
use eldridge.Tasks.Human.{is_some}
use eldridge.Git.Store.{present, add_confirmation, set_confirmation, get_pull_request}
use eldridge.Git.Merges.{
  ConfirmationRequest, is_consent, earlier_confirmation, replay_or_confirm, confirmed_proposal,
  ready_assessment, begin_confirmation, confirm_pull_request_merged, confirmed,
  pending_confirmation, matches_approved, complete_merge_confirmation,
}
use eldridge.Git.Consent.{IsConfirmable}
use eldridge.Git.Consent.Begin.{merge_confirmation_needs_consent}
use eldridge.Git.Consent.Completion.{Matches, merged_row, merge_completes_only_approved}
use eldridge.Tests.Data.{noon}
use eldridge.Tests.Data.Releases.{app, mergeable, confirming, answer}

abbrev request : ConfirmationRequest
request = record {
  workflow_id = 0;
  proposal_id = 0;
  assessment_id = 0;
  actor_id = "approver";
  idempotency_key = "c";
}

merge_confirmation_needs_consent_example :
    ((p : Principal) × IsAuthorized noon "approver" Capability.confirm_git_merge unscoped true
        mergeable p
      × (p.principal_type ≡ PrincipalType.human))
    × ((w : Workflow) × (get_elem? mergeable.workflows 0 ≡ some w)
        × IsConfirmable request mergeable w)
unfolding authorize decide select_first ◌>>=◌ get_workflow get_elem? append_audit_event commit
    role_capabilities Capability-discrete PrincipalType-discrete WorkflowState-discrete fields join
    digest append_row modify select find_principal is_task_scoped needs_no_scope insert_sorted
    sort_by gets pure raise chained_event events_of latest active_grant confirm_pull_request_merged
    begin_confirmation replay_or_confirm confirmed_proposal ready_assessment present
    get_pull_request latest_by is_consent is_some earlier_confirmation keyed add_confirmation
    ApprovalAction-discrete ApprovalDecision-discrete
merge_confirmation_needs_consent_example =
    merge_confirmation_needs_consent noon (some app) request mergeable
      (commit (confirm_pull_request_merged noon (some app) request) mergeable) 0 refl

abbrev completed : Session
completed = commit (complete_merge_confirmation noon 0 answer) confirming

merge_completes_only_approved_example :
    (row : MergeConfirmationRecord) × (w : Workflow) × (p : PullRequestProposalRecord) × (get_elem?
        confirming.confirmations 0
      ≡ some row)
    × (row.status ≡ "RUNNING")
    × (get_elem? confirming.workflows row.workflow_id ≡ some w)
    × (get_elem? confirming.pull_requests row.proposal_id ≡ some p)
    × Matches answer row w p
    × (get_elem? completed.workflows row.workflow_id ≡ some (merged_row answer w))
unfolding authorize decide select_first ◌>>=◌ get_workflow get_elem? append_audit_event commit
    role_capabilities Capability-discrete PrincipalType-discrete WorkflowState-discrete fields join
    digest append_row modify select find_principal is_task_scoped needs_no_scope insert_sorted
    sort_by gets pure raise chained_event events_of latest active_grant complete_merge_confirmation
    pending_confirmation get_pull_request matches_approved set_confirmation confirmed set_workflow
    transition assert_transition_allowed allowed_transitions workflow_state_value
merge_completes_only_approved_example =
    merge_completes_only_approved noon 0 answer confirming completed refl

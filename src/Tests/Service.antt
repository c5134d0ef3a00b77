-- ===== src/Tests/Service.antt =====
-- Runs of workflow_tasks.py, audit.py and policy.py.
use eldridge.Prelude.{◌≡◌, refl, ◌↔◌, ◌<◌, ℕ, ◌+◌, true, false, List, [], ◌∷◌, none, some}
use eldridge.Domain.{
  WorkflowState, TaskStatus, Capability, PrincipalType, ApprovalAction, ApprovalDecision, Error,
}
use eldridge.Result.{ok, err}
use eldridge.StateMachine.Graph.{Walk}
use eldridge.Routing.Types.{RoutingObjective, RiskLevel, DataClassification}
use eldridge.Persistence.Json.{Fields}
use eldridge.Persistence.{Session, Principal, Workflow, Task, get_elem?, modify}
use eldridge.Env.{digest}
use eldridge.Tx.{commit, ◌>>=◌, gets, pure, raise}
use eldridge.Audit.{
  append_audit_event, verify_audit_chain, check_from, events_of, latest, chained_event,
}
use eldridge.Routing.Sort.{sort_by, insert_sorted}
use eldridge.Persistence.Json.{fields, join, text_or_null, number_or_null}
use eldridge.Persistence.{select, select_first, append_row, keyed}
use eldridge.Domain.{
  role_capabilities, Capability-discrete, PrincipalType-discrete, WorkflowState-discrete,
  TaskStatus-discrete, workflow_state_value, approval_decision_value,
}
use eldridge.StateMachine.{assert_transition_allowed, allowed_transitions}
use eldridge.Strategy.{plan}
use eldridge.Strategy.Types.{ComplexityTier}
use eldridge.Tasks.Store.{
  get_workflow, set_workflow, set_task, draw_token, add_workflow, add_task, set_grants,
}
use eldridge.Tasks.Human.{is_blank}
use eldridge.Tasks.Intake.{
  Submission, create_workflow, earlier_request, request_digest, new_workflow, strategy_of, begin,
  submit, replay_or_submit, add_idempotency_record, normalized_repository,
}
use eldridge.Audit.Chain.{IsSound, append_audit_event-IsSound}
use eldridge.Policy.{
  unscoped, authorize, decide, find_principal, is_task_scoped, needs_no_scope, active_grant,
}
use eldridge.Policy.Decision.{IsAuthorized, authorize_iff}
use eldridge.Tasks.Steps.{validate_lease, transition, schedule_task}
use eldridge.Tasks.Leasing.{
  in_scope, is_ready, is_earlier, leased_to, lease_next_task, take_lease, earliest, leasable,
}
use eldridge.Tasks.Leases.{validate_lease_iff}
use eldridge.Tasks.Leases.Next.{IsCandidate, IsBefore, lease_next_task_takes_first}
use eldridge.Tasks.Preparation.{Service}
use eldridge.Tasks.Approvals.{
  ApprovalRequest, decided_state, approve, approval_capability, check_binding, add_approval,
  conclude, consume, check_merge, check_deploy, check_rollback, contained_attempt, new_approval,
  settle,
}
use eldridge.Tasks.Consent.{merge_needs_human}
use eldridge.Tasks.Service.{Operation, Call, run, transaction}
use eldridge.Tasks.History.Transition.{moved}
use eldridge.Tasks.History.Walks.{walk_length}
use eldridge.Tasks.History.Progress.{service_starts_at_created, final_stays}
use eldridge.Tests.Data.{noon, planned, plan_task, empty, queued, awaiting}
use eldridge.Tests.Routing.{numbers}

abbrev pub service : Service
service = record {
  lease_seconds = 300;
  floats = numbers;
  provider_bindings = [];
  evidence_window = 100;
  allowed_egress = [];
  high_risk_min_evidence_samples = 20;
  provider_policy_version = "v1";
  routing_objective = RoutingObjective.balanced;
}

abbrev cancels : List Call
cancels =
    record { now = 1000; task_locked = λ i. false; operation = Operation.cancel 0 "approver" } ∷ []

abbrev cancelled : Workflow
cancelled = record planned { state = WorkflowState.cancelled; version = 3 }

final_stays_example :
    (w' : Workflow) × (get_elem?
        (run noon service cancels (record queued { workflows = cancelled ∷ [] })).workflows
        0
      ≡ some w')
    × (w'.state ≡ cancelled.state)
    × (w'.version ≡ cancelled.version)
unfolding get_elem?
final_stays_example =
    final_stays noon service cancels (record queued { workflows = cancelled ∷ [] }) 0 cancelled refl
      refl

no_events : IsSound noon []
unfolding check_from events_of sort_by select
no_events = λ wid. refl

abbrev appended : Session
appended =
    commit
      (append_audit_event noon 0 "workflow.created" "approver" "workflow" 0 "SUCCEEDED" Fields.done)
      empty

append_audit_event-IsSound_example :
    IsSound noon appended.audit_events × (verify_audit_chain noon appended.audit_events 0 ≡ true)
unfolding append_audit_event commit
append_audit_event-IsSound_example =
    append_audit_event-IsSound noon 0 "workflow.created" "approver" "workflow" 0 "SUCCEEDED"
      Fields.done empty appended no_events refl

authorize_iff_example :
    ((p : Principal)
      → (authorize noon "approver" Capability.approve_merge unscoped true awaiting
          ≡ ok (p, awaiting))
        ↔ IsAuthorized noon "approver" Capability.approve_merge unscoped true awaiting p)
    × ((p : Principal) (t : Session)
        → authorize noon "approver" Capability.approve_merge unscoped true awaiting ≡ ok (p, t)
        → t ≡ awaiting)
    × ((e : Error)
        → authorize noon "approver" Capability.approve_merge unscoped true awaiting ≡ err e
        → e ≡ Error.authorization_error)
authorize_iff_example =
    authorize_iff noon "approver" Capability.approve_merge unscoped awaiting true

abbrev merge_request : ApprovalRequest
merge_request = record {
  workflow_id = 0;
  approver_id = "approver";
  action = ApprovalAction.merge;
  target = "main";
  revision = "abc";
  decision = ApprovalDecision.approved;
  rationale = "reviewed";
  expires_in_minutes = 30;
  environment_id = none;
  plan_digest = none;
  deployment_attempt_id = none;
}

abbrev merged : Session
merged = commit (approve noon merge_request) awaiting

merge_needs_human_example :
    ((p : Principal) × IsAuthorized noon "approver" Capability.approve_merge unscoped true awaiting
        p
      × (p.principal_type ≡ PrincipalType.human))
    × ((w : Workflow) × (get_elem? awaiting.workflows 0 ≡ some w)
        × (w.state ≡ WorkflowState.awaiting_human_approval)
        × (w.candidate_revision ≡ some "abc")
        × (ApprovalDecision.approved ≡ ApprovalDecision.approved
            → get_elem? merged.workflows 0 ≡ some (moved WorkflowState.approved w))
        × (ApprovalDecision.approved ≡ ApprovalDecision.rejected
            → get_elem? merged.workflows 0 ≡ some (moved WorkflowState.rejected w)))
unfolding authorize decide select_first ◌>>=◌ get_workflow get_elem? append_audit_event commit
    role_capabilities Capability-discrete PrincipalType-discrete WorkflowState-discrete fields join
    digest append_row modify select find_principal is_task_scoped needs_no_scope insert_sorted
    sort_by gets pure raise chained_event events_of latest active_grant transition
    assert_transition_allowed allowed_transitions set_workflow workflow_state_value approve
    approval_capability is_blank check_binding add_approval conclude consume decided_state
    check_merge check_deploy check_rollback contained_attempt new_approval settle text_or_null
    number_or_null approval_decision_value
merge_needs_human_example = merge_needs_human noon merge_request awaiting merged 0 refl refl

abbrev after_lease : Session
after_lease = commit (lease_next_task noon 300 "worker" none) queued

lease_next_task_takes_first_example :
    (old : Task) × (get_elem? queued.tasks 0 ≡ some old)
    × IsCandidate noon none 0 old
    × ((i : ℕ) (u : Task)
        → get_elem? queued.tasks i ≡ some u
        → IsCandidate noon none i u
        → IsBefore old u)
    × (after_lease.tasks
        ≡ modify 0
            (λ u. record u {
              status = TaskStatus.leased;
              lease_owner = some "worker";
              lease_token = some 0;
              lease_expires_at = some 1300;
            })
            queued.tasks)
unfolding authorize decide select_first ◌>>=◌ get_workflow get_elem? append_audit_event commit
    role_capabilities Capability-discrete PrincipalType-discrete WorkflowState-discrete fields join
    digest append_row modify select find_principal is_task_scoped needs_no_scope insert_sorted
    sort_by gets pure raise chained_event events_of latest active_grant lease_next_task take_lease
    earliest leasable in_scope is_ready is_earlier leased_to keyed draw_token set_task
    TaskStatus-discrete
lease_next_task_takes_first_example =
    lease_next_task_takes_first noon 300 "worker" none queued after_lease 0 refl

abbrev leased : Task
leased = leased_to "worker" 0 1300 plan_task

validate_lease_iff_example :
    (validate_lease noon TaskStatus.leased leased 0 "worker" queued ≡ ok (tt, queued)) ↔ (
      (queued ≡ queued)
      × (leased.status ≡ TaskStatus.leased)
      × (leased.lease_owner ≡ some "worker")
      × (leased.lease_token ≡ some 0)
      × ((expiry : ℕ) × (leased.lease_expires_at ≡ some expiry) × (noon.now < expiry)))
validate_lease_iff_example =
    validate_lease_iff noon TaskStatus.leased leased 0 "worker" queued queued

abbrev request : Submission
request = record {
  requester_id = "approver";
  title = "t";
  description = "d";
  idempotency_key = "k";
  complexity = ComplexityTier.simple;
  risk = RiskLevel.low;
  data_classification = DataClassification.public;
  repository_scope = none;
  inspection_signals = [];
}

abbrev submits : List Call
submits = record { now = 1000; task_locked = λ i. false; operation = Operation.create request } ∷ []

abbrev submitted : Workflow
submitted = record planned { requester_id = "approver" }

submits-lem : get_elem? (run noon service submits empty).workflows 0 ≡ some submitted
unfolding run transaction authorize decide select_first ◌>>=◌ get_workflow get_elem?
    append_audit_event commit role_capabilities Capability-discrete PrincipalType-discrete
    WorkflowState-discrete fields join digest append_row modify select find_principal is_task_scoped
    needs_no_scope insert_sorted sort_by gets pure raise chained_event events_of latest active_grant
    transition assert_transition_allowed allowed_transitions set_workflow workflow_state_value
    create_workflow is_blank earlier_request request_digest new_workflow strategy_of plan begin
    submit replay_or_submit add_idempotency_record add_workflow schedule_task normalized_repository
    add_task set_grants
submits-lem = refl

service_starts_at_created_example :
    (p : Walk WorkflowState.created submitted.state) × (submitted.version ≡ 1 + walk_length p)
service_starts_at_created_example =
    service_starts_at_created noon service submits empty 0 submitted refl submits-lem

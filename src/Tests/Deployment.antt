-- ===== src/Tests/Deployment.antt =====
-- Runs of deployment_recovery.py and deployment.py.
use eldridge.Prelude.{◌≡◌, ◌≢◌, refl, true, false, List, [], ◌∷◌, some, inr, all_chars, has_char}
use eldridge.Domain.{
  Capability, PrincipalType, role_capabilities, Capability-discrete, PrincipalType-discrete,
  WorkflowState-discrete, ApprovalAction-discrete, ApprovalDecision-discrete, workflow_state_value,
}
use eldridge.Routing.{all_distinct, text_lt}
use eldridge.Routing.Sort.{sort_by, insert_sorted}
use eldridge.Persistence.Json.{Json, Fields, fields, join, texts}
use eldridge.Persistence.{
  Session, Principal, Workflow, get_elem?, modify, select, select_first, append_row, keyed,
  latest_by,
}
use eldridge.Persistence.{DeploymentAttemptRecord}
use eldridge.Env.{digest}
use eldridge.Tx.{commit, ◌>>=◌, gets, pure, raise}
use eldridge.Audit.{append_audit_event, events_of, latest, chained_event}
use eldridge.Policy.{
  unscoped, authorize, decide, find_principal, is_task_scoped, needs_no_scope, active_grant,
}
use eldridge.Policy.Decision.{IsAuthorized}
use eldridge.StateMachine.{assert_transition_allowed, allowed_transitions}
use eldridge.Tasks.Store.{get_workflow, set_workflow}
use eldridge.Tasks.Steps.{transition}
use eldridge.Tasks.Human.{is_some, is_blank}
use eldridge.Tasks.Approvals.{consume}
use eldridge.Deployment.Types.{
  EnvironmentClassification, EnvironmentClassification-discrete, DeploymentAttemptStatus-discrete,
  deployment_attempt_status_value, environment_classification_value,
}
use eldridge.Deployment.Store.{
  add_environment, add_deployment_attempt, set_deployment_attempt, add_verification, add_rollback,
  find_environment, plan_value, any_bad_item, is_bad_item,
}
use eldridge.Deployment.Environments.{
  EnvironmentRequest, environment_fields, environment_of, is_incomplete, exceeds_boundary,
  bad_collection, check_adapter_target, check_environment, bind_environment, sorted_set, unique,
  register_deployment_environment,
}
use eldridge.Deployment.Environments.Limits.{
  IsWithinLimits, IsEnrolled, registered_environment_is_limited,
}
use eldridge.Deployment.Plans.{PlanRequest, create_deployment_plan}
use eldridge.Deployment.Attempts.{
  ExecutionRequest, Mode, attempt_digest, check_local, local_target, target_of, adapter_for,
  permits_deployment, usable_approval, plan_of, new_deployment_attempt, commit_attempt,
  start_attempt, replay_or_start, begin_attempt, mode_value,
}
use eldridge.Deployment.Outcomes.{
  running_attempt, local_status, local_finished, verification_of, local_state,
  finish_local_deployment,
}
use eldridge.Deployment.Rollbacks.{
  RollbackRequest, rollback_digest, permits_rollback, object_at, all_texts, previous_release,
  contained, commit_rollback, start_rollback, replay_or_roll_back, execute_local_rollback,
}
use eldridge.Deployment.Consent.Starting.{
  IsStarted, deployment_needs_consent, approval_starts_one_attempt,
}
use eldridge.Deployment.Consent.Rollbacks.{IsRecoverable, rollback_needs_consent}
use eldridge.Deployment.Finality.{IsFinal, attempt_finishes_once}
use eldridge.Git.Merges.{mark_failed, mark_merge_confirmation_failed}
use eldridge.Platform.Service.{
  GitOperation, PlatformOperation, PlatformCall, platform_transaction, git_transaction,
  run_platform,
}
use eldridge.Tests.Data.{noon}
use eldridge.Tests.Platform.{platform}
use eldridge.Tests.Data.Releases.{
  running_attempt_row, local_deployments, unplanned, releasable, deploying, recoverable,
  plan_of_row, good_run, artifact, update,
}

abbrev deploys : ExecutionRequest
deploys = record { workflow_id = 0; plan_id = 0; actor_id = "approver"; idempotency_key = "d" }

abbrev started : Session
started = commit (begin_attempt noon local_deployments deploys Mode.local_k3d) releasable

deployment_needs_consent_example :
    ((p : Principal) × IsAuthorized noon "approver" Capability.execute_deployment unscoped true
        releasable p
      × (p.principal_type ≡ PrincipalType.human))
    × ((w : Workflow) × (get_elem? releasable.workflows 0 ≡ some w)
        × IsStarted noon local_deployments deploys Mode.local_k3d releasable started w 0)
unfolding authorize decide select_first ◌>>=◌ get_workflow get_elem? append_audit_event commit
    role_capabilities Capability-discrete PrincipalType-discrete WorkflowState-discrete fields join
    digest append_row modify select find_principal is_task_scoped needs_no_scope insert_sorted
    sort_by gets pure raise chained_event events_of latest active_grant begin_attempt
    replay_or_start start_attempt plan_of target_of local_target find_environment adapter_for
    usable_approval permits_deployment is_some keyed latest_by plan_value commit_attempt
    add_deployment_attempt new_deployment_attempt attempt_digest mode_value consume
    ApprovalAction-discrete ApprovalDecision-discrete EnvironmentClassification-discrete
deployment_needs_consent_example =
    deployment_needs_consent noon local_deployments deploys Mode.local_k3d releasable started 0 refl

-- A report on a merge that nobody confirms, between the two attempts.
abbrev reports : List PlatformCall
reports =
    record {
      now = 1000;
      task_locked = λ i. false;
      operation = PlatformOperation.on_git (GitOperation.confirmation_failed 0 "timeout");
    }
    ∷ []

abbrev between : Session
between = run_platform noon platform reports started

abbrev deploys_again : ExecutionRequest
deploys_again = record deploys { idempotency_key = "e" }

abbrev started_again : Session
started_again = commit (begin_attempt noon local_deployments deploys_again Mode.local_k3d) between

abbrev first : DeploymentAttemptRecord
first = record running_attempt_row {
  approval_id = 1;
  result_json =
      Fields.field "intent_committed" (Json.boolean true)
        (Fields.field "credential_requested" (Json.boolean true) Fields.done);
}

abbrev second : DeploymentAttemptRecord
second = record first { approval_id = 0; idempotency_key = "e" }

approval_starts_one_attempt_example : first.approval_id ≢ second.approval_id
unfolding authorize decide select_first ◌>>=◌ get_workflow get_elem? append_audit_event commit
    role_capabilities Capability-discrete PrincipalType-discrete WorkflowState-discrete fields join
    digest append_row modify select find_principal is_task_scoped needs_no_scope insert_sorted
    sort_by gets pure raise chained_event events_of latest active_grant begin_attempt
    replay_or_start start_attempt plan_of target_of local_target find_environment adapter_for
    usable_approval permits_deployment is_some keyed latest_by plan_value commit_attempt
    add_deployment_attempt new_deployment_attempt attempt_digest mode_value consume
    ApprovalAction-discrete ApprovalDecision-discrete EnvironmentClassification-discrete
    run_platform platform_transaction git_transaction mark_merge_confirmation_failed mark_failed
approval_starts_one_attempt_example =
    approval_starts_one_attempt noon noon platform reports local_deployments local_deployments
      deploys deploys_again Mode.local_k3d Mode.local_k3d releasable started started_again 0 1 first
      second refl refl refl refl

abbrev undoes : RollbackRequest
undoes = record { workflow_id = 0; attempt_id = 0; actor_id = "approver"; idempotency_key = "r" }

abbrev undone : Session
undone = commit (execute_local_rollback noon local_deployments undoes) recoverable

rollback_needs_consent_example :
    (local_deployments.enable_local_deployment ≡ true)
    × ((p : Principal) × IsAuthorized noon "approver" Capability.execute_rollback unscoped true
          recoverable p
        × (p.principal_type ≡ PrincipalType.human))
    × ((w : Workflow) × (get_elem? recoverable.workflows 0 ≡ some w)
        × IsRecoverable noon local_deployments undoes recoverable undone w)
unfolding authorize decide select_first ◌>>=◌ get_workflow get_elem? append_audit_event commit
    role_capabilities Capability-discrete PrincipalType-discrete WorkflowState-discrete fields join
    digest append_row modify select find_principal is_task_scoped needs_no_scope insert_sorted
    sort_by gets pure raise chained_event events_of latest active_grant execute_local_rollback
    check_local is_blank replay_or_roll_back start_rollback contained local_target find_environment
    usable_approval permits_rollback is_some keyed latest_by plan_value commit_rollback add_rollback
    rollback_digest previous_release object_at all_texts consume ApprovalAction-discrete
    ApprovalDecision-discrete EnvironmentClassification-discrete DeploymentAttemptStatus-discrete
rollback_needs_consent_example =
    rollback_needs_consent noon local_deployments undoes recoverable undone 0 refl

abbrev plans : PlanRequest
plans = record {
  workflow_id = 0;
  actor_id = "approver";
  environment_id = "local";
  artifact_digests = artifact ∷ [];
  operations = update ∷ [];
  declared_impact = "restart";
  verification_probes = "ready" ∷ [];
  rollback_reference = "previous";
  idempotency_key = "p";
}

abbrev planned : Session
planned = commit (create_deployment_plan noon local_deployments plans) unplanned

abbrev registers : EnvironmentRequest
registers = record {
  actor_id = "approver";
  environment_id = "dev";
  name = "Dev";
  classification = EnvironmentClassification.development;
  repository = "o/r";
  base_branch = "main";
  resource_scope = "web" ∷ [];
  required_checks = [];
  required_attestations = [];
  verification_policy = "ready" ∷ [];
  rollback_policy = "previous";
  policy_version = "v1";
  provider = "local-k3d";
  account_scope = "local";
  region = "local";
  adapter_id = "k3d";
}

abbrev registered : Session
registered = commit (register_deployment_environment noon local_deployments registers) unplanned

registered_environment_is_limited_example :
    ((p : Principal) × IsAuthorized noon "approver" Capability.manage_deployment_environments
        unscoped true unplanned p
      × (p.principal_type ≡ PrincipalType.human))
    × IsWithinLimits local_deployments registers
    × IsEnrolled noon registers unplanned registered (environment_of noon registers)
    × ((environment_of noon registers).config_digest
        ≡ digest noon (environment_fields noon registers))
unfolding authorize decide select_first ◌>>=◌ get_workflow get_elem? append_audit_event commit
    role_capabilities Capability-discrete PrincipalType-discrete WorkflowState-discrete fields join
    digest append_row modify select find_principal is_task_scoped needs_no_scope insert_sorted
    sort_by gets pure raise chained_event events_of latest active_grant
    register_deployment_environment check_environment is_incomplete exceeds_boundary bad_collection
    any_bad_item is_bad_item all_distinct check_adapter_target find_environment bind_environment
    add_environment environment_of environment_fields sorted_set unique text_lt texts
    EnvironmentClassification-discrete environment_classification_value all_chars has_char
registered_environment_is_limited_example =
    registered_environment_is_limited noon local_deployments registers unplanned registered
      (environment_of noon registers) refl

abbrev finished : Session
finished =
    commit (finish_local_deployment noon 0 0 plan_of_row "cred" Fields.done good_run) deploying

attempt_finishes_once_example : IsFinal 0 finished
unfolding authorize decide select_first ◌>>=◌ get_workflow get_elem? append_audit_event commit
    role_capabilities Capability-discrete PrincipalType-discrete WorkflowState-discrete fields join
    digest append_row modify select find_principal is_task_scoped needs_no_scope insert_sorted
    sort_by gets pure raise chained_event events_of latest active_grant finish_local_deployment
    running_attempt set_deployment_attempt local_finished local_status add_verification
    verification_of transition local_state assert_transition_allowed allowed_transitions
    set_workflow workflow_state_value DeploymentAttemptStatus-discrete
    deployment_attempt_status_value
attempt_finishes_once_example =
    attempt_finishes_once noon 0 0 plan_of_row "cred" Fields.done good_run deploying finished
      (inr refl)

-- ===== src/Deployment/Outcomes.antt =====
-- deployment_recovery.py: how an attempt ends: the last transactions of
-- `execute_deployment_dry_run` and `execute_local_deployment`, and the two failures.
use eldridge.Prelude.{
  ℕ, String, Bool, true, false, ◌&&◌, negate, [], ◌∷◌, Option, none, some, ◌==◌, ◌!=◌, nat_eq,
  prefix, if◌then◌else◌,
}
use eldridge.Domain.{WorkflowState, Error}
use eldridge.Persistence.Json.{Json, Fields, fields}
use eldridge.Persistence.{DeploymentAttemptRecord, DeploymentVerificationRecord, get_elem?}
use eldridge.Env.{Env}
use eldridge.Tx.{Tx, pure, gets, or_raise, raise_if, ◌>>=◌, ◌>>◌}
use eldridge.Audit.{append_audit_event}
use eldridge.Tasks.Store.{get_workflow}
use eldridge.Tasks.Steps.{transition}
use eldridge.Deployment.Types.{
  DeploymentAttemptStatus, DeploymentAttemptStatus-discrete, deployment_attempt_status_eq,
  deployment_attempt_status_value, DeploymentPlan, DeploymentVerification, CredentialedRun,
}
use eldridge.Deployment.Store.{set_deployment_attempt, add_verification}

-- The attempt, if it is RUNNING.
unfoldable pub running_attempt : ℕ → Tx DeploymentAttemptRecord
unfolding DeploymentAttemptStatus-discrete
running_attempt id = do
  found ← gets (λ s. get_elem? s.deployment_attempts id)
  row ← or_raise found Error.conflict_error
  raise_if (row.status != DeploymentAttemptStatus.running) Error.conflict_error
  pure row

unfoldable pub dry_run_status : CredentialedRun → DeploymentAttemptStatus
dry_run_status run =
    if run.verification.passed && (negate run.execution.changed && run.execution.simulated)
    then DeploymentAttemptStatus.succeeded
    else DeploymentAttemptStatus.rollback_required

unfoldable pub local_status : CredentialedRun → DeploymentAttemptStatus
local_status run =
    if run.verification.passed && negate run.execution.simulated
    then DeploymentAttemptStatus.succeeded
    else DeploymentAttemptStatus.rollback_required

unfoldable pub dry_run_finished :
    Env → CredentialedRun → DeploymentAttemptRecord → DeploymentAttemptRecord
unfolding dry_run_status
dry_run_finished env run a = record a {
  operation_reference = some run.execution.operation_reference;
  simulated = run.execution.simulated;
  result_json = fields (
      ("execution", Json.object run.execution.evidence)
      ∷ ("observation", Json.object run.observation.evidence)
      ∷ ("changed", Json.boolean run.execution.changed)
      ∷ []);
  completed_at = some env.now;
  status = dry_run_status run;
}

unfoldable pub local_finished :
    Env → Fields → CredentialedRun → DeploymentAttemptRecord → DeploymentAttemptRecord
unfolding local_status
local_finished env credential run a = record a {
  operation_reference = some run.execution.operation_reference;
  result_json = fields (
      ("credential", Json.object credential)
      ∷ ("execution", Json.object run.execution.evidence)
      ∷ ("observation", Json.object run.observation.evidence)
      ∷ ("changed", Json.boolean run.execution.changed)
      ∷ []);
  completed_at = some env.now;
  status = local_status run;
}

unfoldable pub verification_of :
    (wid id : ℕ) → DeploymentVerification → DeploymentVerificationRecord
verification_of wid id v = record {
  workflow_id = wid;
  attempt_id = id;
  passed = v.passed;
  observed_revision = v.observed_revision;
  evidence = v.evidence;
}

attempt_extra : ℕ → Fields
attempt_extra id = fields (("deployment_attempt_id", Json.number id) ∷ [])

-- `if status is ROLLBACK_REQUIRED: self._transition(...)` of a dry run
unfoldable pub contain_dry_run : Env → (wid id : ℕ) → DeploymentAttemptStatus → Tx (Unit {0})
unfolding attempt_extra
contain_dry_run env wid id DeploymentAttemptStatus.rollback_required =
    transition env wid WorkflowState.rollback_required "orchestrator"
      "deployment dry-run evidence violated its no-change invariant" (attempt_extra id)
contain_dry_run env wid id _ = pure tt

-- The last transaction of `execute_deployment_dry_run`.
unfoldable pub finish_dry_run :
    Env → (wid id : ℕ) → DeploymentPlan → CredentialedRun → Tx (Unit {0})
unfolding dry_run_finished verification_of contain_dry_run dry_run_status running_attempt
    deployment_attempt_status_value
finish_dry_run env wid id plan run = do
  running_attempt id
  get_workflow wid
  set_deployment_attempt id (dry_run_finished env run)
  add_verification (verification_of wid id run.verification)
  contain_dry_run env wid id (dry_run_status run)
  append_audit_event env wid "deployment.dry_run_completed" "orchestrator" "deployment_attempt" id
      (deployment_attempt_status_value (dry_run_status run))
      (fields (
        ("plan_digest", Json.text plan.digest)
        ∷ ("revision", Json.text plan.revision)
        ∷ ("verification_passed", Json.boolean run.verification.passed)
        ∷ ("simulated", Json.boolean run.execution.simulated)
        ∷ ("changed", Json.boolean run.execution.changed)
        ∷ ("credential_requested", Json.boolean false)
        ∷ []))

unfoldable pub local_state : CredentialedRun → WorkflowState
unfolding local_status
local_state run = elim (local_status run) [
  | DeploymentAttemptStatus.succeeded ↦ WorkflowState.deployed
  | _ ↦ WorkflowState.rollback_required
]

-- The last transaction of `execute_local_deployment`; `credential` is the handle as a dict.
unfoldable pub finish_local_deployment :
    Env
    → (wid id : ℕ) → DeploymentPlan
    → (reference : String) (credential : Fields) → CredentialedRun
    → Tx (Unit {0})
unfolding local_finished verification_of local_status local_state running_attempt attempt_extra
    deployment_attempt_status_value
finish_local_deployment env wid id plan reference credential run = do
  running_attempt id
  get_workflow wid
  set_deployment_attempt id (local_finished env credential run)
  add_verification (verification_of wid id run.verification)
  transition env wid (local_state run) "orchestrator" "local deployment verification completed"
      (attempt_extra id)
  append_audit_event env wid "deployment.local_completed" "orchestrator" "deployment_attempt" id
      (deployment_attempt_status_value (local_status run))
      (fields (
        ("changed", Json.boolean run.execution.changed)
        ∷ ("credential_reference", Json.text reference)
        ∷ ("plan_digest", Json.text plan.digest)
        ∷ ("revision", Json.text plan.revision)
        ∷ ("verification_passed", Json.boolean run.verification.passed)
        ∷ []))

-- `None` where the attempt is not RUNNING: then the failure is not recorded.
unfoldable pub if_running : Option DeploymentAttemptRecord → Option DeploymentAttemptRecord
unfolding DeploymentAttemptStatus-discrete
if_running none = none
if_running (some a) = if a.status == DeploymentAttemptStatus.running then some a else none

unfoldable pub fail_dry_run : Env → ℕ → String → Option DeploymentAttemptRecord → Tx (Unit {0})
fail_dry_run env id error_code none = pure tt
fail_dry_run env id error_code (some row) = do
  set_deployment_attempt id (λ a. record a {
    status = DeploymentAttemptStatus.failed;
    error_code = some (prefix 64 error_code);
    completed_at = some env.now;
    result_json = fields (
        ("credential_requested", Json.boolean false)
        ∷ ("external_target_contacted", Json.boolean false)
        ∷ ("error", Json.text "dry-run adapter failed before any target change")
        ∷ []);
  })
  append_audit_event env row.workflow_id "deployment.dry_run_failed" "orchestrator"
      "deployment_attempt" id "FAILED"
      (fields (
        ("error_code", Json.text (prefix 64 error_code))
        ∷ ("credential_requested", Json.boolean false)
        ∷ ("external_target_contacted", Json.boolean false)
        ∷ []))

-- `_fail_deployment_dry_run`
unfoldable pub fail_deployment_dry_run : Env → ℕ → String → Tx (Unit {0})
unfolding fail_dry_run if_running
fail_deployment_dry_run env id error_code = do
  found ← gets (λ s. if_running (get_elem? s.deployment_attempts id))
  fail_dry_run env id error_code found

unfoldable pub is_failure : DeploymentAttemptStatus → Bool
is_failure DeploymentAttemptStatus.failed = true
is_failure DeploymentAttemptStatus.unknown = true
is_failure DeploymentAttemptStatus.rollback_required = true
is_failure _ = false

unfoldable pub contain_local : Env → (wid id : ℕ) → DeploymentAttemptStatus → Tx (Unit {0})
unfolding attempt_extra
contain_local env wid id DeploymentAttemptStatus.rollback_required = do
  get_workflow wid
  transition env wid WorkflowState.rollback_required "orchestrator"
      "local deployment changed but verification was not established" (attempt_extra id)
contain_local env wid id _ = pure tt

unfoldable pub fail_local :
    Env
    → ℕ
    → DeploymentAttemptStatus
    → String
    → (target_contacted : Bool) → Option DeploymentAttemptRecord
    → Tx (Unit {0})
unfolding contain_local deployment_attempt_status_value
fail_local env id status error_code target_contacted none = pure tt
fail_local env id status error_code target_contacted (some row) = do
  set_deployment_attempt id (λ a. record a {
    status = status;
    error_code = some (prefix 64 error_code);
    completed_at = some env.now;
    result_json = fields (
        ("credential_requested", Json.boolean true)
        ∷ ("error", Json.text "local deployment did not produce verified success")
        ∷ ("target_contacted", Json.boolean target_contacted)
        ∷ []);
  })
  contain_local env row.workflow_id id status
  append_audit_event env row.workflow_id "deployment.local_failed" "orchestrator"
      "deployment_attempt" id (deployment_attempt_status_value status)
      (fields (
        ("error_code", Json.text (prefix 64 error_code))
        ∷ ("target_contacted", Json.boolean target_contacted)
        ∷ []))

-- `_fail_local_deployment`
unfoldable pub fail_local_deployment :
    Env → ℕ → DeploymentAttemptStatus → String → (target_contacted : Bool) → Tx (Unit {0})
unfolding fail_local is_failure if_running
fail_local_deployment env id status error_code target_contacted = do
  raise_if (negate (is_failure status)) Error.value_error
  found ← gets (λ s. if_running (get_elem? s.deployment_attempts id))
  fail_local env id status error_code target_contacted found

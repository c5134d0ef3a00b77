-- ===== src/Deployment/Rollbacks/Endings.antt =====
-- deployment_recovery.py: the last transaction of `execute_local_rollback`, and
-- `_fail_local_rollback`.
use eldridge.Prelude.{
  ℕ, String, Bool, true, false, ◌&&◌, negate, [], ◌∷◌, Option, none, some, ◌==◌, ◌!=◌, nat_eq,
  string_eq, option_eq, prefix, if◌then◌else◌,
}
use eldridge.Domain.{
  WorkflowState, workflow_state_eq, approval_action_eq, approval_decision_eq, Error,
}
use eldridge.Result.{Result, ok, err}
use eldridge.Persistence.Json.{Json, Fields, fields}
use eldridge.Persistence.{DeploymentRollbackRecord, get_elem?}
use eldridge.Env.{Env}
use eldridge.Tx.{Tx, pure, gets, or_raise, raise_if, ◌>>=◌, ◌>>◌}
use eldridge.Audit.{append_audit_event}
use eldridge.Tasks.Store.{get_workflow}
use eldridge.Tasks.Steps.{transition}
use eldridge.Deployment.Types.{
  deployment_attempt_status_eq, RollbackStatus, RollbackStatus-discrete, rollback_status_eq,
  rollback_status_value, CredentialedRun,
}
use eldridge.Deployment.Store.{set_rollback}

unfoldable pub recovered : CredentialedRun → Bool
recovered run = run.verification.passed && negate run.execution.simulated

unfoldable pub rollback_status : CredentialedRun → RollbackStatus
unfolding recovered
rollback_status run = if recovered run then RollbackStatus.succeeded else RollbackStatus.failed

unfoldable pub rollback_finished :
    Env
    → Fields
    → CredentialedRun
    → (duration_ms : ℕ) → DeploymentRollbackRecord
    → DeploymentRollbackRecord
unfolding rollback_status
rollback_finished env credential run duration_ms b = record b {
  operation_reference = some run.execution.operation_reference;
  completed_at = some env.now;
  recovery_duration_ms = some duration_ms;
  evidence = fields (
      ("credential", Json.object credential)
      ∷ ("execution", Json.object run.execution.evidence)
      ∷ ("observation", Json.object run.observation.evidence)
      ∷ ("verification", Json.object run.verification.evidence)
      ∷ ("changed", Json.boolean run.execution.changed)
      ∷ []);
  status = rollback_status run;
}

unfoldable pub running_rollback : ℕ → Tx DeploymentRollbackRecord
unfolding RollbackStatus-discrete
running_rollback id = do
  found ← gets (λ s. get_elem? s.rollbacks id)
  row ← or_raise found Error.conflict_error
  raise_if (row.status != RollbackStatus.running) Error.conflict_error
  pure row

unfoldable pub conclude_recovery :
    Env → (wid attempt_id id duration_ms : ℕ) → (recovers : Bool) → Tx (Unit {0})
conclude_recovery env wid attempt_id id duration_ms false = pure tt
conclude_recovery env wid attempt_id id duration_ms true =
    transition env wid WorkflowState.rolled_back "orchestrator"
      "approved local rollback independently verified recovery"
      (fields (
        ("deployment_attempt_id", Json.number attempt_id)
        ∷ ("deployment_rollback_id", Json.number id)
        ∷ ("recovery_duration_ms", Json.number duration_ms)
        ∷ []))

-- The last transaction of `execute_local_rollback`. A rollback that did not recover is committed,
-- and the error is raised after it: so the answer of the transaction is a result.
unfoldable pub finish_local_rollback :
    Env
    → (wid attempt_id id : ℕ) → (credential : Fields) → CredentialedRun
    → (duration_ms : ℕ) → Tx (Result ℕ)
unfolding rollback_finished recovered rollback_status running_rollback conclude_recovery
    rollback_status_value
finish_local_rollback env wid attempt_id id credential run duration_ms = do
  running_rollback id
  get_workflow wid
  set_rollback id (rollback_finished env credential run duration_ms)
  conclude_recovery env wid attempt_id id duration_ms (recovered run)
  append_audit_event env wid "deployment.rollback_completed" "orchestrator" "deployment_rollback" id
      (rollback_status_value (rollback_status run))
      (fields (
        ("changed", Json.boolean run.execution.changed)
        ∷ ("deployment_attempt_id", Json.number attempt_id)
        ∷ ("recovery_duration_ms", Json.number duration_ms)
        ∷ ("verification_passed", Json.boolean run.verification.passed)
        ∷ []))
  pure (if recovered run then ok id else err Error.deployment_verification_error)

-- `None` where the rollback is not RUNNING: then the failure is not recorded.
unfoldable pub if_running : Option DeploymentRollbackRecord → Option DeploymentRollbackRecord
unfolding RollbackStatus-discrete
if_running none = none
if_running (some b) = if b.status == RollbackStatus.running then some b else none

unfoldable pub is_failure : RollbackStatus → Bool
is_failure RollbackStatus.failed = true
is_failure RollbackStatus.unknown = true
is_failure _ = false

unfoldable pub fail_rollback :
    Env
    → ℕ
    → RollbackStatus
    → String
    → (target_contacted : Bool) → (recovery_duration_ms : ℕ) → Option DeploymentRollbackRecord
    → Tx (Unit {0})
unfolding rollback_status_value
fail_rollback env id status error_code target_contacted recovery_duration_ms none = pure tt
fail_rollback env id status error_code target_contacted recovery_duration_ms (some row) = do
  set_rollback id (λ b. record b {
    status = status;
    error_code = some (prefix 64 error_code);
    completed_at = some env.now;
    recovery_duration_ms = some recovery_duration_ms;
    evidence = fields (
        ("credential_requested", Json.boolean true)
        ∷ ("error", Json.text "local rollback did not produce verified recovery")
        ∷ ("target_contacted", Json.boolean target_contacted)
        ∷ []);
  })
  append_audit_event env row.workflow_id "deployment.rollback_failed" "orchestrator"
      "deployment_rollback" id (rollback_status_value status)
      (fields (
        ("error_code", Json.text (prefix 64 error_code))
        ∷ ("recovery_duration_ms", Json.number recovery_duration_ms)
        ∷ ("target_contacted", Json.boolean target_contacted)
        ∷ []))

-- `_fail_local_rollback`; a duration is not below 0.
unfoldable pub fail_local_rollback :
    Env
    → ℕ
    → RollbackStatus
    → String
    → (target_contacted : Bool) → (recovery_duration_ms : ℕ) → Tx (Unit {0})
unfolding fail_rollback is_failure if_running
fail_local_rollback env id status error_code target_contacted recovery_duration_ms = do
  raise_if (negate (is_failure status)) Error.value_error
  found ← gets (λ s. if_running (get_elem? s.rollbacks id))
  fail_rollback env id status error_code target_contacted recovery_duration_ms found

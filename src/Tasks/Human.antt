-- ===== src/Tasks/Human.antt =====
-- workflow_tasks.py: `disposition_workflow`, `reconcile_execution`, `cancel_workflow`.
use eldridge.Prelude.{
  ℕ, String, Bool, true, false, ◌&&◌, ◌||◌, List, [], ◌∷◌, Option, none, some, Eq, ◌==◌, ◌!=◌,
  nat_eq, string_eq, option_eq, discrete_eq, if◌then◌else◌,
}
use eldridge.Domain.{
  WorkflowState, WorkflowState-discrete, workflow_state_eq, TaskStatus, TaskStatus-discrete,
  task_status_eq, TaskKind, Capability, DispositionDecision, ReconciliationDecision, Error,
  reconciliation_decision_value,
}
use eldridge.Result.{ok}
use eldridge.Persistence.Json.{Json, Fields, fields}
use eldridge.Persistence.{
  Task, TaskAttempt, get_elem?, BlockReason, BlockReason-discrete, WorkflowDisposition,
  ExecutionReconciliation, append_row, length, keyed, select_first,
}
use eldridge.Env.{Env}
use eldridge.Tx.{Tx, pure, gets, or_raise, raise_if, ◌>>=◌, ◌>>◌}
use eldridge.Audit.{append_audit_event}
use eldridge.Policy.{unscoped, authorize}
use eldridge.Tasks.Store.{get_workflow, set_workflow, set_task}
use eldridge.Tasks.Steps.{transition, schedule_task, deactivate_task_grant, task_workflow_state}
use eldridge.Tasks.Leasing.{latest_attempt}

instance abbrev block_reason_eq : Eq BlockReason
block_reason_eq = discrete_eq BlockReason-discrete

-- `not text.strip()`
unfoldable pub is_blank : Env → String → Bool
is_blank env text = env.strip text == ""

unfoldable pub is_some : {A : Type 0} → Option A → Bool
is_some none = false
is_some (some a) = true

unfoldable pub add_disposition : WorkflowDisposition → Tx ℕ
add_disposition d s =
    ok (length s.dispositions, record s { dispositions = append_row s.dispositions d })

unfoldable pub add_reconciliation : ExecutionReconciliation → Tx ℕ
add_reconciliation r s =
    ok (length s.reconciliations, record s { reconciliations = append_row s.reconciliations r })

unfoldable pub dispose : Env → ℕ → String → ℕ → DispositionDecision → Tx (Unit {0})
dispose env wid actor did DispositionDecision.reject = do
  set_workflow wid (λ w. record w { block_reason = some BlockReason.input_rejected })
  transition env wid WorkflowState.rejected actor "human rejected contained input"
      (fields (("disposition_id", Json.number did) ∷ []))
dispose env wid actor did DispositionDecision.resume_contained = do
  set_workflow wid (λ w. record w { block_reason = none; containment_required = true })
  transition env wid WorkflowState.planning actor "human authorized contained planning"
      (fields (("disposition_id", Json.number did) ∷ []))
  schedule_task env wid TaskKind.plan
  pure tt

-- `disposition_workflow`
unfoldable pub disposition_workflow :
    Env → ℕ → String → DispositionDecision → String → Tx (Unit {0})
unfolding dispose is_some WorkflowState-discrete BlockReason-discrete
disposition_workflow env wid actor decision rationale = do
  raise_if (is_blank env rationale) Error.validation_error
  authorize env actor Capability.disposition_workflow unscoped true
  workflow ← get_workflow wid
  raise_if (workflow.state != WorkflowState.blocked) Error.conflict_error
  raise_if (workflow.block_reason != some BlockReason.input_disposition_required)
      Error.conflict_error
  existing ←
      gets (λ s. select_first (λ (d : WorkflowDisposition). d.workflow_id == wid) s.dispositions)
  raise_if (is_some existing) Error.conflict_error
  did ← add_disposition (record {
    workflow_id = wid;
    actor_id = actor;
    decision = decision;
    original_signals = workflow.inspection_signals;
    rationale = env.strip rationale;
  })
  dispose env wid actor did decision

unfoldable pub resolve :
    Env → ℕ → TaskKind → String → ℕ → ℕ → ReconciliationDecision → Tx (Unit {0})
unfolding task_workflow_state
resolve env wid kind actor rid aid ReconciliationDecision.retry = do
  set_workflow wid (λ w. record w { block_reason = none })
  transition env wid (task_workflow_state kind) actor
      "human reconciled abandoned execution for retry"
      (fields
        (("reconciliation_id", Json.number rid) ∷ ("abandoned_attempt_id", Json.number aid) ∷ []))
  schedule_task env wid kind
  pure tt
resolve env wid kind actor rid aid ReconciliationDecision.fail = do
  set_workflow wid (λ w. record w { block_reason = some BlockReason.execution_reconciled_failed })
  transition env wid WorkflowState.failed actor "human reconciled abandoned execution as failed" (
      fields
        (("reconciliation_id", Json.number rid) ∷ ("abandoned_attempt_id", Json.number aid) ∷ []))

abandoned : ℕ → TaskAttempt → Bool
unfolding TaskStatus-discrete
abandoned tid a =
    a.task_id == tid && (a.status == TaskStatus.timed_out && a.error_code == some "LeaseExpired")

-- The task of the workflow with the key, if it is BLOCKED.
unfoldable pub blocked_task : ℕ → ℕ → Tx Task
unfolding TaskStatus-discrete
blocked_task wid tid = do
  found ← gets (λ s. get_elem? s.tasks tid)
  task ← or_raise found Error.conflict_error
  raise_if (task.workflow_id != wid || task.status != TaskStatus.blocked) Error.conflict_error
  pure task

-- `reconcile_execution`
unfoldable pub reconcile_execution :
    Env → ℕ → ℕ → String → ReconciliationDecision → String → Tx (Unit {0})
unfolding resolve abandoned blocked_task is_some WorkflowState-discrete BlockReason-discrete
reconcile_execution env wid tid actor decision rationale = do
  raise_if (is_blank env rationale) Error.validation_error
  authorize env actor Capability.reconcile_execution unscoped true
  workflow ← get_workflow wid
  raise_if
      (workflow.state != WorkflowState.blocked
        || workflow.block_reason != some BlockReason.execution_reconciliation_required)
      Error.conflict_error
  task ← blocked_task wid tid
  attempt ← gets (λ s. latest_attempt (abandoned tid) (keyed s.attempts))
  (aid, a) ← or_raise attempt Error.conflict_error
  existing ←
      gets
        (λ s. select_first (λ (r : ExecutionReconciliation). r.attempt_id == aid) s.reconciliations)
  raise_if (is_some existing) Error.conflict_error
  rid ← add_reconciliation (record {
    workflow_id = wid;
    task_id = tid;
    attempt_id = aid;
    actor_id = actor;
    decision = decision;
    rationale = env.strip rationale;
  })
  set_task tid (λ t. record t { status = TaskStatus.reconciled })
  resolve env wid task.kind actor rid aid decision
  append_audit_event env wid "execution.reconciled" actor "task_attempt" aid
      (reconciliation_decision_value decision)
      (fields (
        ("reconciliation_id", Json.number rid)
        ∷ ("task_id", Json.number tid)
        ∷ ("decision", Json.text (reconciliation_decision_value decision))
        ∷ []))

unfoldable pub is_unfinished : TaskStatus → Bool
is_unfinished TaskStatus.pending = true
is_unfinished TaskStatus.ready = true
is_unfinished TaskStatus.leased = true
is_unfinished TaskStatus.running = true
is_unfinished _ = false

-- The loop of `cancel_workflow` over the tasks of the workflow.
unfoldable pub cancel_tasks : ℕ → List (ℕ × Task) → Tx (Unit {0})
unfolding is_unfinished
cancel_tasks wid [] = pure tt
cancel_tasks wid ((tid, t) ∷ rest) = do
  (if t.workflow_id == wid && is_unfinished t.status
      then (do
        set_task tid (λ u. record u { status = TaskStatus.cancelled })
        deactivate_task_grant tid)
      else pure tt)
  cancel_tasks wid rest

-- `cancel_workflow`
unfoldable pub cancel_workflow : Env → ℕ → String → Tx (Unit {0})
cancel_workflow env wid principal = do
  authorize env principal Capability.cancel_workflow unscoped false
  get_workflow wid
  transition env wid WorkflowState.cancelled principal "human cancellation requested" Fields.done
  tasks ← gets (λ s. keyed s.tasks)
  cancel_tasks wid tasks

-- ===== src/Tasks/Service.antt =====
-- workflow_tasks.py: `WorkflowTaskService` as its callers see it: transactions in any order, each
-- at a time of its own and beside other transactions that hold tasks locked.
use eldridge.Prelude.{ℕ, String, Bool, Option, List, [], ◌∷◌}
use eldridge.Domain.{DispositionDecision, ReconciliationDecision}
use eldridge.Persistence.{Session}
use eldridge.Env.{Env}
use eldridge.Tx.{Tx, ◌>>◌, pure, commit}
use eldridge.Tasks.Leasing.{lease_next_task, heartbeat_task, reclaim_expired_tasks}
use eldridge.Tasks.Execution.{
  PreparedExecution, ProviderResult, ExecutionResult, Failure, finalize_execution_success,
  finalize_execution_failure,
}
use eldridge.Tasks.Preparation.{Service, prepare_execution}
use eldridge.Tasks.Human.{disposition_workflow, reconcile_execution, cancel_workflow}
use eldridge.Tasks.Approvals.{ApprovalRequest, approve}
use eldridge.Tasks.Intake.{Submission, create_workflow}

-- The transactions of the service. `execute_task` is `prepare`, then `heartbeat`s, then `succeed`
-- or `fail`, with transactions of others between them.
pub data Operation : Type 0 where
  create : Submission → Operation
  lease : (worker : String) (scope : Option ℕ) → Operation
  heartbeat : (tid token : ℕ) (worker : String) → Operation
  prepare : (tid token : ℕ) (worker : String) → Operation
  succeed :
      PreparedExecution
      → ProviderResult
      → ExecutionResult
      → (candidate : Option String) (latency_ms : ℕ) → Operation
  fail : PreparedExecution → Failure → (validation_passed : Bool) (latency_ms : ℕ) → Operation
  reclaim : (worker : String) → Operation
  dispose : (wid : ℕ) (actor : String) → DispositionDecision → (rationale : String) → Operation
  reconcile :
      (wid tid : ℕ) (actor : String) → ReconciliationDecision → (rationale : String) → Operation
  cancel : (wid : ℕ) (principal : String) → Operation
  approval : ApprovalRequest → Operation

pub record Call : Type 0 where
  pub now : ℕ
  pub task_locked : ℕ → Bool
  pub operation : Operation

abbrev pub discard : {A : Type 0} → Tx A → Tx (Unit {0})
discard m = m >> pure tt

unfoldable pub transaction : Env → Service → Operation → Tx (Unit {0})
transaction env svc (Operation.create r) = discard (create_workflow env r)
transaction env svc (Operation.lease worker scope) =
    discard (lease_next_task env svc.lease_seconds worker scope)
transaction env svc (Operation.heartbeat tid token worker) =
    heartbeat_task env svc.lease_seconds tid token worker
transaction env svc (Operation.prepare tid token worker) =
    discard (prepare_execution env svc tid token worker)
transaction env svc (Operation.succeed p result execution candidate latency_ms) =
    finalize_execution_success env p result execution candidate latency_ms
transaction env svc (Operation.fail p failure valid latency_ms) =
    finalize_execution_failure env p failure valid latency_ms
transaction env svc (Operation.reclaim worker) = discard (reclaim_expired_tasks env worker)
transaction env svc (Operation.dispose wid actor d rationale) =
    disposition_workflow env wid actor d rationale
transaction env svc (Operation.reconcile wid tid actor d rationale) =
    reconcile_execution env wid tid actor d rationale
transaction env svc (Operation.cancel wid principal) = cancel_workflow env wid principal
transaction env svc (Operation.approval r) = discard (approve env r)

abbrev pub at_moment : Env → (now : ℕ) (task_locked : ℕ → Bool) → Env
at_moment env now task_locked = record env { now = now; task_locked = task_locked }

abbrev pub at_call : Env → Call → Env
at_call env c = at_moment env c.now c.task_locked

-- The session after the calls, the failed ones rolled back.
unfoldable pub run : Env → Service → List Call → Session → Session
run env svc [] s = s
run env svc (c ∷ cs) s = run env svc cs (commit (transaction (at_call env c) svc c.operation) s)

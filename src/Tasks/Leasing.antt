-- ===== src/Tasks/Leasing.antt =====
-- workflow_tasks.py: `lease_next_task`, `heartbeat_task`, `reclaim_expired_tasks`.
use eldridge.Prelude.{
  ℕ, suc, ◌+◌, String, Bool, true, false, ◌&&◌, ◌||◌, negate, List, [], ◌∷◌, Option, none, some,
  ◌==◌, nat_eq, ltb, leb, if◌then◌else◌,
}
use eldridge.Domain.{WorkflowState, TaskStatus, TaskStatus-discrete, task_status_eq, Capability}
use eldridge.Persistence.Json.{Json, fields, join, text_or_null, number_or_null}
use eldridge.Persistence.{Task, TaskAttempt, BlockReason, keyed}
use eldridge.Env.{Env}
use eldridge.Tx.{Tx, pure, gets, ◌>>=◌, ◌>>◌}
use eldridge.Audit.{append_audit_event}
use eldridge.Policy.{unscoped, authorize}
use eldridge.Tasks.Store.{get_workflow, get_task, set_workflow, set_task, set_attempt, draw_token}
use eldridge.Tasks.Steps.{transition, deactivate_task_grant, validate_lease}

unfoldable pub in_scope : Option ℕ → Task → Bool
in_scope none t = true
in_scope (some wid) t = t.workflow_id == wid

unfoldable pub is_ready : Task → Bool
unfolding TaskStatus-discrete
is_ready t = t.status == TaskStatus.ready

-- The rows that `lease_next_task` may take: READY, of the asked workflow, not locked.
unfoldable pub leasable : Env → Option ℕ → List (ℕ × Task) → List (ℕ × Task)
unfolding in_scope is_ready
leasable env scope [] = []
leasable env scope ((tid, t) ∷ rest) =
    let others = leasable env scope rest in
    if is_ready t && (in_scope scope t && negate (env.task_locked tid))
    then (tid, t) ∷ others
    else others

-- `order_by(Task.created_at, Task.position)`
unfoldable pub is_earlier : Task → Task → Bool
is_earlier a b =
    ltb a.created_at b.created_at || (a.created_at == b.created_at && leb a.position b.position)

-- `.limit(1)` of that order
unfoldable pub earliest : List (ℕ × Task) → Option (ℕ × Task)
unfolding is_earlier
earliest [] = none
earliest ((tid, t) ∷ rest) = elim (earliest rest) [
  | none ↦ some (tid, t)
  | some (tid', t') ↦ if is_earlier t t' then some (tid, t) else some (tid', t')
]

-- The assignments of `lease_next_task`.
unfoldable pub leased_to : String → ℕ → ℕ → Task → Task
leased_to worker token expiry t = record t {
  status = TaskStatus.leased;
  lease_owner = some worker;
  lease_token = some token;
  lease_expires_at = some expiry;
}

unfoldable pub take_lease : Env → ℕ → String → Option (ℕ × Task) → Tx (Option ℕ)
unfolding leased_to
take_lease env lease_seconds worker none = pure none
take_lease env lease_seconds worker (some (tid, t)) = do
  token ← draw_token
  set_task tid (leased_to worker token (env.now + lease_seconds))
  get_workflow t.workflow_id
  append_audit_event env t.workflow_id "task.leased" worker "task" tid "SUCCEEDED"
      (fields (("lease_expires_at", Json.number (env.now + lease_seconds)) ∷ []))
  pure (some tid)

-- `lease_next_task`; the row that it describes is found by the key that is returned.
unfoldable pub lease_next_task : Env → ℕ → String → Option ℕ → Tx (Option ℕ)
unfolding take_lease
lease_next_task env lease_seconds worker scope = do
  authorize env worker Capability.lease_task unscoped false
  chosen ← gets (λ s. earliest (leasable env scope (keyed s.tasks)))
  take_lease env lease_seconds worker chosen

-- `heartbeat_task`
unfoldable pub heartbeat_task : Env → ℕ → ℕ → ℕ → String → Tx (Unit {0})
heartbeat_task env lease_seconds tid token worker = do
  authorize env worker Capability.lease_task unscoped false
  task ← get_task tid
  validate_lease env TaskStatus.running task token worker
  set_task tid (λ t. record t { lease_expires_at = some (env.now + lease_seconds) })
  get_workflow task.workflow_id
  append_audit_event env task.workflow_id "task.lease_heartbeat" worker "task" tid "SUCCEEDED"
      (fields (("lease_expires_at", Json.number (env.now + lease_seconds)) ∷ []))

-- `task.lease_owner = task.lease_token = task.lease_expires_at = None`, with a new status
unfoldable pub released : TaskStatus → Task → Task
released status t = record t {
  status = status;
  lease_owner = none;
  lease_token = none;
  lease_expires_at = none;
}

expired_at : ℕ → Option ℕ → Bool
expired_at now none = false
expired_at now (some t) = ltb t now

-- The leases that have run out, of tasks that are not locked.
unfoldable pub expired_leases : Env → List (ℕ × Task) → List (ℕ × Task)
unfolding expired_at TaskStatus-discrete
expired_leases env [] = []
expired_leases env ((tid, t) ∷ rest) =
    let others = expired_leases env rest in
    if (t.status == TaskStatus.leased || t.status == TaskStatus.running)
      && (expired_at env.now t.lease_expires_at && negate (env.task_locked tid))
    then (tid, t) ∷ others
    else others

-- The attempt of a task with a status that has the highest number.
unfoldable pub latest_attempt :
    (TaskAttempt → Bool) → List (ℕ × TaskAttempt) → Option (ℕ × TaskAttempt)
latest_attempt p [] = none
latest_attempt p ((aid, a) ∷ rest) = elim (latest_attempt p rest) [
  | none ↦ if p a then some (aid, a) else none
  | some (bid, b) ↦
      if p a && ltb b.attempt_number a.attempt_number then some (aid, a) else some (bid, b)
]

running_attempt_of : ℕ → TaskAttempt → Bool
unfolding TaskStatus-discrete
running_attempt_of tid a = a.task_id == tid && a.status == TaskStatus.running

unfoldable pub time_out : Env → Option (ℕ × TaskAttempt) → Tx (Unit {0})
time_out env none = pure tt
time_out env (some (aid, a)) = set_attempt aid (λ b. record b {
  status = TaskStatus.timed_out;
  error_code = some "LeaseExpired";
  output = join b.output (
      fields (
        (
          "reconciliation",
          Json.object
              (fields (("error", Json.text "execution outcome requires reconciliation") ∷ [])),
        )
        ∷ []));
  completed_at = some env.now;
})

key_of : Option (ℕ × TaskAttempt) → Option ℕ
key_of none = none
key_of (some (aid, a)) = some aid

-- One round of the loop of `reclaim_expired_tasks`.
unfoldable pub reclaim_task : Env → String → ℕ → Task → Tx (Unit {0})
unfolding running_attempt_of time_out key_of TaskStatus-discrete
reclaim_task env worker tid task = do
  get_workflow task.workflow_id
  if task.status == TaskStatus.leased
      then (do
        set_task tid (released TaskStatus.ready)
        append_audit_event env task.workflow_id "task.lease_reclaimed" worker "task" tid "SUCCEEDED"
            (fields (
              ("prior_owner", text_or_null task.lease_owner)
              ∷ ("execution_started", Json.boolean false)
              ∷ [])))
      else (do
        set_task tid (released TaskStatus.blocked)
        attempt ← gets (λ s. latest_attempt (running_attempt_of tid) (keyed s.attempts))
        time_out env attempt
        deactivate_task_grant tid
        set_workflow task.workflow_id
            (λ w. record w { block_reason = some BlockReason.execution_reconciliation_required })
        transition env task.workflow_id WorkflowState.blocked worker
            "running task lease expired with unknown external outcome"
            (fields
              (("task_id", Json.number tid) ∷ ("attempt_id", number_or_null (key_of attempt)) ∷ []))
        append_audit_event env task.workflow_id "task.reconciliation_required" worker "task" tid
            "BLOCKED"
            (fields (
              ("prior_owner", text_or_null task.lease_owner)
              ∷ ("execution_started", Json.boolean true)
              ∷ ("attempt_id", number_or_null (key_of attempt))
              ∷ [])))

unfoldable pub reclaim_all : Env → String → List (ℕ × Task) → Tx ℕ
reclaim_all env worker [] = pure 0
reclaim_all env worker ((tid, t) ∷ rest) = do
  reclaim_task env worker tid t
  n ← reclaim_all env worker rest
  pure (suc n)

-- `reclaim_expired_tasks`
unfoldable pub reclaim_expired_tasks : Env → String → Tx ℕ
reclaim_expired_tasks env worker = do
  authorize env worker Capability.lease_task unscoped false
  expired ← gets (λ s. expired_leases env (keyed s.tasks))
  reclaim_all env worker expired

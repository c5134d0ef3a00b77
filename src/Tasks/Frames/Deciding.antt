-- ===== src/Tasks/Frames/Deciding.antt =====
-- workflow_tasks.py: a frame that supports the steps holds of the requests of humans.
use eldridge.Prelude.{ℕ, String, true, false, ◌≡◌, refl, List, [], ◌∷◌, Option, none, some}
use eldridge.Domain.{
  WorkflowState, TaskKind, ApprovalAction, ApprovalDecision, DispositionDecision,
  ReconciliationDecision,
}
use eldridge.Persistence.{
  Workflow, Task, WorkflowDisposition, ExecutionReconciliation, IdempotencyRecord, BlockReason,
}
use eldridge.Env.{Env}
use eldridge.Tx.Frame.{Frame, Ensures, Ensures-pure, Ensures-bind}
use eldridge.Tasks.Store.{set_workflow, add_workflow}
use eldridge.Persistence.Json.{Fields}
use eldridge.Tasks.Steps.{task_workflow_state, transition, schedule_task}
use eldridge.Tasks.Human.{
  add_disposition, add_reconciliation, dispose, disposition_workflow, resolve, blocked_task,
  reconcile_execution, cancel_tasks, cancel_workflow,
}
use eldridge.Tasks.Approvals.{
  ApprovalRequest, check_merge, check_deploy, contained_attempt, check_rollback, check_binding,
  add_approval, new_approval, decided_state, settle, conclude, approve,
}
use eldridge.Tasks.Intake.{
  Submission, new_workflow, add_idempotency_record, replay, begin, submit, replay_or_submit,
  create_workflow,
}
use eldridge.Tasks.Frames.{Supports, is_reserved, row_rules, Ensures-quiet}
use eldridge.Tasks.Frames.Running.{
  Ensures-transition, Ensures-set_block_reason, Ensures-schedule_task,
}

module _ (env : Env) {f : Frame} {Target : WorkflowState → Type 0} (sup : Supports env f Target)
    (most : (t : WorkflowState) → is_reserved t ≡ false → Target t) where
  moves :
      (wid : ℕ) (target : WorkflowState) (actor reason : String) (extra : Fields)
      → is_reserved target ≡ false
      → Ensures f (transition env wid target actor reason extra)
  moves = Ensures-transition env sup most

  schedules : (wid : ℕ) (kind : TaskKind) → Ensures f (schedule_task env wid kind)
  schedules = Ensures-schedule_task env sup most

  blocks :
      (wid : ℕ) (reason : Option BlockReason)
      → Ensures f (set_workflow wid (λ w. record w { block_reason = reason }))
  blocks = Ensures-set_block_reason env sup most

  contains :
      (wid : ℕ)
      → Ensures f
          (set_workflow wid (λ w. record w { block_reason = none; containment_required = true }))
  contains wid = sup.rewrites wid _ (λ w. (refl, refl))

  Ensures-add_disposition : (d : WorkflowDisposition) → Ensures f (add_disposition d)
  unfolding add_disposition
  Ensures-add_disposition d = Ensures-quiet _ _ (λ s. (refl, refl, refl))

  Ensures-add_reconciliation : (r : ExecutionReconciliation) → Ensures f (add_reconciliation r)
  unfolding add_reconciliation
  Ensures-add_reconciliation r = Ensures-quiet _ _ (λ s. (refl, refl, refl))

  Ensures-dispose :
      (wid : ℕ) (actor : String) (did : ℕ) (d : DispositionDecision)
      → Ensures f (dispose env wid actor did d)
  unfolding dispose is_reserved
  Ensures-dispose wid actor did DispositionDecision.reject =
      search (row_rules, blocks, moves) depth 12
  Ensures-dispose wid actor did DispositionDecision.resume_contained =
      search (row_rules, contains, moves, schedules) depth 12

  pub Ensures-disposition_workflow :
      (wid : ℕ) (actor : String) (d : DispositionDecision) (rationale : String)
      → Ensures f (disposition_workflow env wid actor d rationale)
  unfolding disposition_workflow
  Ensures-disposition_workflow wid actor d rationale =
      search (row_rules, Ensures-add_disposition, Ensures-dispose) depth 20

  task_workflow_state-lem : (kind : TaskKind) → is_reserved (task_workflow_state kind) ≡ false
  unfolding task_workflow_state is_reserved
  task_workflow_state-lem TaskKind.plan = refl
  task_workflow_state-lem TaskKind.architecture_review = refl
  task_workflow_state-lem TaskKind.implement = refl
  task_workflow_state-lem TaskKind.test = refl
  task_workflow_state-lem TaskKind.security_review = refl
  task_workflow_state-lem TaskKind.code_review = refl

  Ensures-resolve :
      (wid : ℕ) (kind : TaskKind) (actor : String) (rid aid : ℕ) (d : ReconciliationDecision)
      → Ensures f (resolve env wid kind actor rid aid d)
  unfolding resolve is_reserved
  Ensures-resolve wid kind actor rid aid ReconciliationDecision.retry =
      search (row_rules, blocks, moves, task_workflow_state-lem, schedules) depth 12
  Ensures-resolve wid kind actor rid aid ReconciliationDecision.fail =
      search (row_rules, blocks, moves) depth 12

  Ensures-blocked_task : (wid tid : ℕ) → Ensures f (blocked_task wid tid)
  unfolding blocked_task
  Ensures-blocked_task wid tid = search row_rules depth 12

  pub Ensures-reconcile_execution :
      (wid tid : ℕ) (actor : String) (d : ReconciliationDecision) (rationale : String)
      → Ensures f (reconcile_execution env wid tid actor d rationale)
  unfolding reconcile_execution
  Ensures-reconcile_execution wid tid actor d rationale =
      search
        (row_rules, sup.appends, Ensures-blocked_task, Ensures-add_reconciliation, Ensures-resolve)
        depth 24

  Ensures-cancel_tasks : (wid : ℕ) (ts : List (ℕ × Task)) → Ensures f (cancel_tasks wid ts)
  unfolding cancel_tasks
  Ensures-cancel_tasks wid [] = Ensures-pure _
  Ensures-cancel_tasks wid ((tid, t) ∷ rest) =
      Ensures-bind _ _ (search row_rules depth 8) (λ _. Ensures-cancel_tasks wid rest)

  pub Ensures-cancel_workflow :
      (wid : ℕ) (principal : String) → Ensures f (cancel_workflow env wid principal)
  unfolding cancel_workflow is_reserved
  Ensures-cancel_workflow wid principal = search (row_rules, moves, Ensures-cancel_tasks) depth 12

  Ensures-replay : (r : Submission) (i : IdempotencyRecord) → Ensures f (replay env r i)
  unfolding replay
  Ensures-replay r i = search row_rules depth 12

  Ensures-begin : (r : Submission) (wid : ℕ) → Ensures f (begin env r wid)
  unfolding begin is_reserved
  Ensures-begin r wid = search (row_rules, moves, schedules) depth 12

  Ensures-add_idempotency_record : (r : IdempotencyRecord) → Ensures f (add_idempotency_record r)
  unfolding add_idempotency_record
  Ensures-add_idempotency_record r = Ensures-quiet _ _ (λ s. (refl, refl, refl))

  creates : (r : Submission) → Ensures f (add_workflow (new_workflow env r))
  unfolding new_workflow
  creates r = sup.creates (new_workflow env r) refl refl

  Ensures-submit : (r : Submission) → Ensures f (submit env r)
  unfolding submit
  Ensures-submit r =
      search (row_rules, sup.appends, creates, Ensures-add_idempotency_record, Ensures-begin) depth
        12

  Ensures-replay_or_submit :
      (r : Submission) (o : Option IdempotencyRecord) → Ensures f (replay_or_submit env r o)
  unfolding replay_or_submit
  Ensures-replay_or_submit r none = Ensures-submit r
  Ensures-replay_or_submit r (some i) = Ensures-replay r i

  pub Ensures-create_workflow : (r : Submission) → Ensures f (create_workflow env r)
  unfolding create_workflow
  Ensures-create_workflow r = search (row_rules, Ensures-replay_or_submit) depth 12

  Ensures-check_merge : (r : ApprovalRequest) (w : Workflow) → Ensures f (check_merge r w)
  unfolding check_merge
  Ensures-check_merge r w = search row_rules depth 12

  Ensures-check_deploy : (r : ApprovalRequest) (w : Workflow) → Ensures f (check_deploy env r w)
  unfolding check_deploy
  Ensures-check_deploy r w = search row_rules depth 16

  Ensures-contained_attempt :
      (r : ApprovalRequest) (o : Option ℕ) → Ensures f (contained_attempt r o)
  unfolding contained_attempt
  Ensures-contained_attempt r none = search row_rules
  Ensures-contained_attempt r (some did) = search row_rules depth 12

  Ensures-check_rollback : (r : ApprovalRequest) (w : Workflow) → Ensures f (check_rollback env r w)
  unfolding check_rollback
  Ensures-check_rollback r w = search (row_rules, Ensures-contained_attempt) depth 20

  Ensures-check_binding :
      (r : ApprovalRequest) (w : Workflow) (a : ApprovalAction)
      → Ensures f (check_binding env r w a)
  unfolding check_binding
  Ensures-check_binding r w ApprovalAction.merge = Ensures-check_merge r w
  Ensures-check_binding r w ApprovalAction.deploy = Ensures-check_deploy r w
  Ensures-check_binding r w ApprovalAction.rollback = Ensures-check_rollback r w

  Ensures-new_approval :
      (r : ApprovalRequest) (v : String) → Ensures f (add_approval (new_approval env r v))
  unfolding new_approval
  Ensures-new_approval r v = sup.approves (new_approval env r v) refl

  Ensures-settle :
      (r : ApprovalRequest) (id : ℕ)
      → Target (decided_state r.decision)
      → Ensures f (settle env r id)
  unfolding settle
  Ensures-settle r id h =
      let decide = sup.moves in search (row_rules, sup.consumes, decide) depth 12

  Ensures-conclude :
      (r : ApprovalRequest) (policy_version : String) (id : ℕ) (a : ApprovalAction)
      (d : ApprovalDecision)
      → Target (decided_state r.decision)
      → Ensures f (conclude env r policy_version id a d)
  unfolding conclude
  Ensures-conclude r v id ApprovalAction.merge d h = Ensures-settle r id h
  Ensures-conclude r v id ApprovalAction.deploy ApprovalDecision.rejected h = Ensures-settle r id h
  Ensures-conclude r v id ApprovalAction.deploy ApprovalDecision.approved h =
      search (row_rules, sup.appends)
  Ensures-conclude r v id ApprovalAction.rollback ApprovalDecision.approved h =
      search (row_rules, sup.appends, sup.consumes)
  Ensures-conclude r v id ApprovalAction.rollback ApprovalDecision.rejected h =
      search (row_rules, sup.appends, sup.consumes)

  pub Ensures-approve :
      (r : ApprovalRequest) → Target (decided_state r.decision) → Ensures f (approve env r)
  unfolding approve
  Ensures-approve r h =
      let ends = λ (v : String) (id : ℕ) (a : ApprovalAction) (d : ApprovalDecision).
        Ensures-conclude r v id a d h in
      search (row_rules, Ensures-check_binding, Ensures-new_approval, ends) depth 20

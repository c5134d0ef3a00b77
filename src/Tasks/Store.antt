-- ===== src/Tasks/Store.antt =====
-- workflow_tasks.py: reading and writing one row inside a transaction.
use eldridge.Prelude.{ℕ, suc, nat_eq, List}
use eldridge.Domain.{Error}
use eldridge.Result.{ok}
use eldridge.Persistence.{
  Workflow, Task, TaskAttempt, CapabilityGrant, get_elem?, modify, append_row, length,
}
use eldridge.Tx.{Tx, gets, or_raise, ◌>>=◌}

-- `_get_workflow`
unfoldable pub get_workflow : ℕ → Tx Workflow
get_workflow wid = do
  found ← gets (λ s. get_elem? s.workflows wid)
  or_raise found Error.not_found_error

-- `session.scalar(select(Task).where(Task.id == task_id))`, and the error where there is none
unfoldable pub get_task : ℕ → Tx Task
get_task tid = do found ← gets (λ s. get_elem? s.tasks tid); or_raise found Error.not_found_error

unfoldable pub get_attempt : ℕ → Tx TaskAttempt
get_attempt aid = do
  found ← gets (λ s. get_elem? s.attempts aid)
  or_raise found Error.not_found_error

-- Assignments to the attributes of a row.
unfoldable pub set_workflow : ℕ → (Workflow → Workflow) → Tx (Unit {0})
set_workflow wid f s = ok (tt, record s { workflows = modify wid f s.workflows })

unfoldable pub set_task : ℕ → (Task → Task) → Tx (Unit {0})
set_task tid f s = ok (tt, record s { tasks = modify tid f s.tasks })

unfoldable pub set_attempt : ℕ → (TaskAttempt → TaskAttempt) → Tx (Unit {0})
set_attempt aid f s = ok (tt, record s { attempts = modify aid f s.attempts })

-- `session.add` of a row whose key is read afterwards
unfoldable pub add_workflow : Workflow → Tx ℕ
add_workflow w s = ok (length s.workflows, record s { workflows = append_row s.workflows w })

unfoldable pub add_task : Task → Tx ℕ
add_task t s = ok (length s.tasks, record s { tasks = append_row s.tasks t })

unfoldable pub add_attempt : TaskAttempt → Tx ℕ
add_attempt a s = ok (length s.attempts, record s { attempts = append_row s.attempts a })

-- A change of the tables other than those of workflows, tasks and audit events.
unfoldable pub set_grants : (List CapabilityGrant → List CapabilityGrant) → Tx (Unit {0})
set_grants f s = ok (tt, record s { grants = f s.grants })

-- `str(uuid4())` for a lease
unfoldable pub draw_token : Tx ℕ
draw_token s = ok (s.tokens_drawn, record s { tokens_drawn = suc s.tokens_drawn })

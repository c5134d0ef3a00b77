-- ===== src/Tasks/History.antt =====
-- workflow_tasks.py: what every sequence of the service's transactions keeps, one frame at a time.
pub mod Transition
pub mod Chain
pub mod Walks
pub mod Progress
pub mod Entries
use eldridge.Prelude.{ℕ, String, Bool, true, false, ◌≡◌, refl, List, [], ◌∷◌, arith}
use eldridge.Domain.{WorkflowState}
use eldridge.Persistence.{Session}
use eldridge.Env.{Env}
use eldridge.Tx.{Tx, pure, ◌>>=◌, commit}
use eldridge.Tx.Frame.{Frame, Ensures, Ensures-bind, Ensures-pure, Ensures-commit}
use eldridge.Tasks.Approvals.{ApprovalRequest, decided_state}
use eldridge.Tasks.Preparation.{Service}
use eldridge.Tasks.Service.{Operation, Call, discard, transaction, at_call, run}
use eldridge.Tasks.Frames.{Supports, is_reserved}
use eldridge.Tasks.Frames.Running.{
  Ensures-lease_next_task, Ensures-heartbeat_task, Ensures-reclaim_expired_tasks,
  Ensures-finalize_execution_success, Ensures-finalize_execution_failure,
}
use eldridge.Tasks.Frames.Preparing.{Ensures-prepare_execution}
use eldridge.Tasks.Frames.Deciding.{
  Ensures-create_workflow, Ensures-disposition_workflow, Ensures-reconcile_execution,
  Ensures-cancel_workflow, Ensures-approve,
}

-- The approvals among the operations go to states of `Target`.
abbrev pub Settles : (WorkflowState → Type 0) → Operation → Type 0
Settles Target (Operation.approval r) = Target (decided_state r.decision)
Settles Target _ = Unit

module _ {f : Frame} {A : Type 0} where
  pub Ensures-discard : (m : Tx A) → Ensures f m → Ensures f (discard m)
  Ensures-discard m h = Ensures-bind _ _ h (λ _. Ensures-pure tt)

module _ (env : Env) {f : Frame} {Target : WorkflowState → Type 0} (sup : Supports env f Target)
    (most : (t : WorkflowState) → is_reserved t ≡ false → Target t) (svc : Service) where
  pub Ensures-transaction : (o : Operation) → Settles Target o → Ensures f (transaction env svc o)
  unfolding transaction
  Ensures-transaction (Operation.create r) _ =
      Ensures-discard _ (Ensures-create_workflow env sup most r)
  Ensures-transaction (Operation.lease worker scope) _ =
      Ensures-discard _ (Ensures-lease_next_task env sup most _ worker scope)
  Ensures-transaction (Operation.heartbeat tid token worker) _ =
      Ensures-heartbeat_task env sup most _ tid token worker
  Ensures-transaction (Operation.prepare tid token worker) _ =
      Ensures-discard _ (Ensures-prepare_execution env sup most svc tid token worker)
  Ensures-transaction (Operation.succeed p r x candidate latency) _ =
      Ensures-finalize_execution_success env sup most p r x candidate latency
  Ensures-transaction (Operation.fail p failure valid latency) _ =
      Ensures-finalize_execution_failure env sup most p failure valid latency
  Ensures-transaction (Operation.reclaim worker) _ =
      Ensures-discard _ (Ensures-reclaim_expired_tasks env sup most worker)
  Ensures-transaction (Operation.dispose wid actor d rationale) _ =
      Ensures-disposition_workflow env sup most wid actor d rationale
  Ensures-transaction (Operation.reconcile wid tid actor d rationale) _ =
      Ensures-reconcile_execution env sup most wid tid actor d rationale
  Ensures-transaction (Operation.cancel wid principal) _ =
      Ensures-cancel_workflow env sup most wid principal
  Ensures-transaction (Operation.approval r) h =
      Ensures-discard _ (Ensures-approve env sup most r h)

-- Every call of a list.
pub data Every (P : Operation → Type 0) : List Call → Type 0 where
  none_left : Every P []
  and_then : (c : Call) (cs : List Call) → P c.operation → Every P cs → Every P (c ∷ cs)

-- A frame that every moment supports relates the sessions before and after a run.
pub run-Rel :
    (env : Env) {f : Frame} {Target : WorkflowState → Type 0}
    (sup : (c : Call) → Supports (at_call env c) f Target)
    (most : (t : WorkflowState) → is_reserved t ≡ false → Target t) (svc : Service) (cs : List Call)
    → Every (Settles Target) cs
    → (s : Session) → f.Rel s (run env svc cs s)
unfolding run
run-Rel env {f} sup most svc [] h s = f.local s s refl refl refl
run-Rel env {f} sup most svc (c ∷ cs) (Every.and_then _ _ h hs) s =
    f.transitive _ _ _
      (Ensures-commit _ (Ensures-transaction (at_call env c) (sup c) most svc c.operation h) s)
      (run-Rel env sup most svc cs hs _)

module _ {Target : WorkflowState → Type 0} (total : (t : WorkflowState) → Target t) where
  settles : (o : Operation) → Settles Target o
  settles (Operation.create _) = tt
  settles (Operation.lease _ _) = tt
  settles (Operation.heartbeat _ _ _) = tt
  settles (Operation.prepare _ _ _) = tt
  settles (Operation.succeed _ _ _ _ _) = tt
  settles (Operation.fail _ _ _ _) = tt
  settles (Operation.reclaim _) = tt
  settles (Operation.dispose _ _ _ _) = tt
  settles (Operation.reconcile _ _ _ _ _) = tt
  settles (Operation.cancel _ _) = tt
  settles (Operation.approval r) = total (decided_state r.decision)

  pub Every-Settles : (cs : List Call) → Every (Settles Target) cs
  Every-Settles [] = Every.none_left
  Every-Settles (c ∷ cs) = Every.and_then c cs (settles c.operation) (Every-Settles cs)

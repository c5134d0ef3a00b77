-- ===== src/Deployment/Frames/Rollbacks.antt =====
-- deployment_recovery.py: what the transactions of a rollback ensure.
use eldridge.Prelude.{ℕ, String, Bool, true, false, ◌≡◌, refl, Option, none, some}
use eldridge.Domain.{WorkflowState}
use eldridge.Persistence.Json.{Fields}
use eldridge.Persistence.{
  Workflow, Approval, DeploymentEnvironment, DeploymentPlanRecord, DeploymentRollbackRecord,
}
use eldridge.Env.{Env}
use eldridge.Tx.Frame.{Frame, Ensures, Ensures-bind}
use eldridge.Tasks.Frames.{Supports, Ensures-get_workflow}
use eldridge.Deployment.Types.{RollbackStatus, CredentialedRun}
use eldridge.Deployment.Store.{Deployments}
use eldridge.Deployment.Rollbacks.{
  RollbackRequest, commit_rollback, start_rollback, replay_or_roll_back, execute_local_rollback,
}
use eldridge.Deployment.Rollbacks.Endings.{
  recovered, conclude_recovery, finish_local_rollback, fail_rollback, fail_local_rollback,
}
use eldridge.Deployment.Frames.{deployment_rules, Ensures-running_rollback, Ensures-set_rollback}

module _ (env : Env) {f : Frame} {Target : WorkflowState → Type 0}
    (sup : Supports env f Target) where
  Ensures-commit_rollback :
      (r : RollbackRequest) (e : DeploymentEnvironment) (p : DeploymentPlanRecord) (aid : ℕ)
      (a : Approval)
      → Ensures f (commit_rollback env r e p aid a)
  unfolding commit_rollback
  Ensures-commit_rollback r e p aid a = search (deployment_rules, sup.appends, sup.consumes) depth 8

  Ensures-start_rollback :
      (d : Deployments) (r : RollbackRequest) (w : Workflow) → Ensures f (start_rollback env d r w)
  unfolding start_rollback
  Ensures-start_rollback d r w = search (deployment_rules, Ensures-commit_rollback) depth 24

  Ensures-replay_or_roll_back :
      (d : Deployments) (r : RollbackRequest) (w : Workflow)
      (o : Option (ℕ × DeploymentRollbackRecord))
      → Ensures f (replay_or_roll_back env d r w o)
  unfolding replay_or_roll_back
  Ensures-replay_or_roll_back d r w none = search (deployment_rules, Ensures-start_rollback)
  Ensures-replay_or_roll_back d r w (some x) = search deployment_rules

  pub Ensures-execute_local_rollback :
      (d : Deployments) (r : RollbackRequest) → Ensures f (execute_local_rollback env d r)
  unfolding execute_local_rollback
  Ensures-execute_local_rollback d r =
      search (deployment_rules, Ensures-replay_or_roll_back) depth 12

  Ensures-conclude_recovery :
      (wid attempt id duration : ℕ) (recovers : Bool)
      → (recovers ≡ true → Target WorkflowState.rolled_back)
      → Ensures f (conclude_recovery env wid attempt id duration recovers)
  unfolding conclude_recovery
  Ensures-conclude_recovery wid attempt id duration false h = search deployment_rules
  Ensures-conclude_recovery wid attempt id duration true h = sup.moves _ _ _ _ _ (h refl)

  pub Ensures-finish_local_rollback :
      (wid attempt id : ℕ) (credential : Fields) (run : CredentialedRun) (duration : ℕ)
      → (recovered run ≡ true → Target WorkflowState.rolled_back)
      → Ensures f (finish_local_rollback env wid attempt id credential run duration)
  unfolding finish_local_rollback recovered
  Ensures-finish_local_rollback wid attempt id credential run duration h =
      Ensures-bind _ _ (Ensures-running_rollback id) (λ _.
        Ensures-bind _ _ (Ensures-get_workflow wid) (λ _.
          Ensures-bind _ _ (Ensures-set_rollback id _) (λ _.
            Ensures-bind _ _ (Ensures-conclude_recovery wid attempt id duration (recovered run) h)
              (λ _. search (deployment_rules, sup.appends) depth 4))))

  Ensures-fail_rollback :
      (id : ℕ) (status : RollbackStatus) (error_code : String) (contacted : Bool) (duration : ℕ)
      (o : Option DeploymentRollbackRecord)
      → Ensures f (fail_rollback env id status error_code contacted duration o)
  unfolding fail_rollback
  Ensures-fail_rollback id status error_code contacted duration none = search deployment_rules
  Ensures-fail_rollback id status error_code contacted duration (some row) =
      search (deployment_rules, sup.appends) depth 8

  pub Ensures-fail_local_rollback :
      (id : ℕ) (status : RollbackStatus) (error_code : String) (contacted : Bool) (duration : ℕ)
      → Ensures f (fail_local_rollback env id status error_code contacted duration)
  unfolding fail_local_rollback
  Ensures-fail_local_rollback id status error_code contacted duration =
      search (deployment_rules, Ensures-fail_rollback) depth 8

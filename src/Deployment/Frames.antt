-- ===== src/Deployment/Frames.antt =====
-- deployment_recovery.py: a frame that supports the steps holds of its transactions.
pub mod Rollbacks
use eldridge.Prelude.{ℕ, String, Bool, true, false, ◌≡◌, refl, Option, none, some}
use eldridge.Domain.{WorkflowState, Error}
use eldridge.Persistence.Json.{Fields}
use eldridge.Persistence.{
  Workflow, Approval, DeploymentEnvironment, DeploymentPlanRecord, DeploymentAttemptRecord,
  DeploymentVerificationRecord, DeploymentRollbackRecord,
}
use eldridge.Env.{Env}
use eldridge.Tx.Frame.{Frame, Ensures, Ensures-bind}
use eldridge.Tasks.Frames.{Supports, row_rules, Ensures-quiet, Ensures-get_workflow}
use eldridge.Git.Frames.{Ensures-present}
use eldridge.Deployment.Types.{
  DeploymentAttemptStatus, RollbackStatus, DeploymentPlan, CredentialedRun,
}
use eldridge.Deployment.Adapter.{DeploymentAdapter}
use eldridge.Deployment.Store.{
  Deployments, add_environment, add_plan, add_deployment_attempt, set_deployment_attempt,
  add_verification, add_rollback, set_rollback, find_environment,
}
use eldridge.Deployment.Environments.{
  EnvironmentRequest, check_adapter_target, check_environment, bind_environment,
  register_deployment_environment,
}
use eldridge.Deployment.Plans.{
  PlanRequest, check_plan, check_scope, replay_or_plan, active_environment, create_deployment_plan,
}
use eldridge.Deployment.Attempts.{
  ExecutionRequest, Mode, check_local, local_target, target_of, adapter_for, usable_approval,
  plan_of, commit_attempt, start_attempt, replay_or_start, begin_attempt,
  execute_deployment_dry_run, execute_local_deployment,
}
use eldridge.Deployment.Outcomes.{
  dry_run_status, running_attempt, contain_dry_run, finish_dry_run, local_state,
  finish_local_deployment, fail_dry_run, fail_deployment_dry_run, contain_local, fail_local,
  fail_local_deployment,
}
use eldridge.Deployment.Rollbacks.{
  RollbackRequest, contained, previous_release, commit_rollback, start_rollback,
  replay_or_roll_back, execute_local_rollback,
}
use eldridge.Deployment.Rollbacks.Endings.{
  recovered, running_rollback, conclude_recovery, finish_local_rollback, fail_rollback,
  fail_local_rollback,
}

module _ {f : Frame} where
  Ensures-add_environment : (e : DeploymentEnvironment) → Ensures f (add_environment e)
  unfolding add_environment
  Ensures-add_environment e = Ensures-quiet _ _ (λ s. (refl, refl, refl))

  Ensures-add_plan : (p : DeploymentPlanRecord) → Ensures f (add_plan p)
  unfolding add_plan
  Ensures-add_plan p = Ensures-quiet _ _ (λ s. (refl, refl, refl))

  Ensures-add_deployment_attempt :
      (a : DeploymentAttemptRecord) → Ensures f (add_deployment_attempt a)
  unfolding add_deployment_attempt
  Ensures-add_deployment_attempt a = Ensures-quiet _ _ (λ s. (refl, refl, refl))

  Ensures-set_deployment_attempt :
      (id : ℕ) (g : DeploymentAttemptRecord → DeploymentAttemptRecord)
      → Ensures f (set_deployment_attempt id g)
  unfolding set_deployment_attempt
  Ensures-set_deployment_attempt id g = Ensures-quiet _ _ (λ s. (refl, refl, refl))

  Ensures-add_verification : (v : DeploymentVerificationRecord) → Ensures f (add_verification v)
  unfolding add_verification
  Ensures-add_verification v = Ensures-quiet _ _ (λ s. (refl, refl, refl))

  Ensures-add_rollback : (b : DeploymentRollbackRecord) → Ensures f (add_rollback b)
  unfolding add_rollback
  Ensures-add_rollback b = Ensures-quiet _ _ (λ s. (refl, refl, refl))

  Ensures-set_rollback :
      (id : ℕ) (g : DeploymentRollbackRecord → DeploymentRollbackRecord)
      → Ensures f (set_rollback id g)
  unfolding set_rollback
  Ensures-set_rollback id g = Ensures-quiet _ _ (λ s. (refl, refl, refl))

  Ensures-find_environment : (id : String) → Ensures f (find_environment id)
  unfolding find_environment
  Ensures-find_environment id = search row_rules

  Ensures-active_environment : (id : String) (e : Error) → Ensures f (active_environment id e)
  unfolding active_environment
  Ensures-active_environment id e = search (row_rules, Ensures-find_environment) depth 8

  Ensures-check_local :
      (env : Env) (d : Deployments) (key : String) → Ensures f (check_local env d key)
  unfolding check_local
  Ensures-check_local env d key = search row_rules

  Ensures-local_target : (id : String) → Ensures f (local_target id)
  unfolding local_target
  Ensures-local_target id = search (row_rules, Ensures-find_environment) depth 8

  Ensures-target_of : (mode : Mode) (id : String) → Ensures f (target_of mode id)
  unfolding target_of
  Ensures-target_of Mode.dry_run id = search (row_rules, Ensures-find_environment) depth 8
  Ensures-target_of Mode.local_k3d id = Ensures-local_target id

  Ensures-adapter_for :
      (d : Deployments) (mode : Mode) (id : String) → Ensures f (adapter_for d mode id)
  unfolding adapter_for
  Ensures-adapter_for d mode id = search row_rules depth 8

  Ensures-usable_approval :
      (env : Env) (permits : Approval → Bool) → Ensures f (usable_approval env permits)
  unfolding usable_approval
  Ensures-usable_approval env permits = search row_rules depth 8

  Ensures-plan_of : (wid id : ℕ) → Ensures f (plan_of wid id)
  unfolding plan_of
  Ensures-plan_of wid id = search row_rules depth 8

  Ensures-running_attempt : (id : ℕ) → Ensures f (running_attempt id)
  unfolding running_attempt
  Ensures-running_attempt id = search row_rules depth 8

  Ensures-running_rollback : (id : ℕ) → Ensures f (running_rollback id)
  unfolding running_rollback
  Ensures-running_rollback id = search row_rules depth 8

  Ensures-contained : (r : RollbackRequest) → Ensures f (contained r)
  unfolding contained
  Ensures-contained r = search row_rules depth 8

  Ensures-previous_release : (result : Fields) → Ensures f (previous_release result)
  unfolding previous_release
  Ensures-previous_release result = search row_rules depth 8

  Ensures-check_adapter_target :
      (d : Deployments) (r : EnvironmentRequest) (a : DeploymentAdapter)
      → Ensures f (check_adapter_target d r a)
  unfolding check_adapter_target
  Ensures-check_adapter_target d r a = search row_rules

  Ensures-check_environment :
      (env : Env) (d : Deployments) (r : EnvironmentRequest) → Ensures f (check_environment env d r)
  unfolding check_environment
  Ensures-check_environment env d r = search (row_rules, Ensures-check_adapter_target) depth 20

  Ensures-check_plan : (env : Env) (r : PlanRequest) → Ensures f (check_plan env r)
  unfolding check_plan
  Ensures-check_plan env r = search row_rules depth 12

  Ensures-check_scope :
      (env : Env) (r : PlanRequest) (w : Workflow) (e : DeploymentEnvironment)
      → Ensures f (check_scope env r w e)
  unfolding check_scope
  Ensures-check_scope env r w e = search row_rules depth 12

ruleset deployment_rules = (
  row_rules, Ensures-present, Ensures-add_environment, Ensures-add_plan,
  Ensures-add_deployment_attempt, Ensures-set_deployment_attempt, Ensures-add_verification,
  Ensures-add_rollback, Ensures-set_rollback, Ensures-find_environment, Ensures-active_environment,
  Ensures-check_local, Ensures-local_target, Ensures-target_of, Ensures-adapter_for,
  Ensures-usable_approval, Ensures-plan_of, Ensures-running_attempt, Ensures-running_rollback,
  Ensures-contained, Ensures-previous_release, Ensures-check_environment, Ensures-check_plan,
  Ensures-check_scope,
)

module _ (env : Env) {f : Frame} {Target : WorkflowState → Type 0}
    (sup : Supports env f Target) where
  Ensures-bind_environment :
      (r : EnvironmentRequest) (o : Option DeploymentEnvironment)
      → Ensures f (bind_environment env r o)
  unfolding bind_environment
  Ensures-bind_environment r none = search deployment_rules
  Ensures-bind_environment r (some e) = search deployment_rules

  pub Ensures-register_deployment_environment :
      (d : Deployments) (r : EnvironmentRequest)
      → Ensures f (register_deployment_environment env d r)
  unfolding register_deployment_environment
  Ensures-register_deployment_environment d r =
      search (deployment_rules, Ensures-bind_environment) depth 12

  Ensures-replay_or_plan :
      (d : Deployments) (r : PlanRequest) (w : Workflow) (e : DeploymentEnvironment)
      (o : Option (ℕ × DeploymentPlanRecord))
      → Target WorkflowState.awaiting_deployment_approval
      → Ensures f (replay_or_plan env d r w e o)
  unfolding replay_or_plan
  Ensures-replay_or_plan d r w e none h =
      let moves = sup.moves in search (deployment_rules, moves) depth 20
  Ensures-replay_or_plan d r w e (some x) h = search deployment_rules

  pub Ensures-create_deployment_plan :
      (d : Deployments) (r : PlanRequest)
      → Target WorkflowState.awaiting_deployment_approval
      → Ensures f (create_deployment_plan env d r)
  unfolding create_deployment_plan
  Ensures-create_deployment_plan d r h =
      let plans =
        λ (w : Workflow) (e : DeploymentEnvironment) (o : Option (ℕ × DeploymentPlanRecord)).
          Ensures-replay_or_plan d r w e o h in
      search (deployment_rules, plans) depth 16

  Ensures-commit_attempt :
      (r : ExecutionRequest) (mode : Mode) (p : DeploymentPlanRecord) (aid : ℕ)
      (a : DeploymentAdapter)
      → Ensures f (commit_attempt env r mode p aid a)
  unfolding commit_attempt
  Ensures-commit_attempt r mode p aid a =
      search (deployment_rules, sup.appends, sup.consumes) depth 8

  Ensures-start_attempt :
      (d : Deployments) (r : ExecutionRequest) (mode : Mode) (w : Workflow)
      → Ensures f (start_attempt env d r mode w)
  unfolding start_attempt
  Ensures-start_attempt d r mode w = search (deployment_rules, Ensures-commit_attempt) depth 20

  Ensures-replay_or_start :
      (d : Deployments) (r : ExecutionRequest) (mode : Mode) (w : Workflow)
      (o : Option (ℕ × DeploymentAttemptRecord))
      → Ensures f (replay_or_start env d r mode w o)
  unfolding replay_or_start
  Ensures-replay_or_start d r mode w none = search (deployment_rules, Ensures-start_attempt)
  Ensures-replay_or_start d r mode w (some x) = search deployment_rules

  Ensures-begin_attempt :
      (d : Deployments) (r : ExecutionRequest) (mode : Mode)
      → Ensures f (begin_attempt env d r mode)
  unfolding begin_attempt
  Ensures-begin_attempt d r mode = search (deployment_rules, Ensures-replay_or_start) depth 12

  pub Ensures-execute_deployment_dry_run :
      (d : Deployments) (r : ExecutionRequest) → Ensures f (execute_deployment_dry_run env d r)
  unfolding execute_deployment_dry_run
  Ensures-execute_deployment_dry_run d r = Ensures-begin_attempt d r Mode.dry_run

  pub Ensures-execute_local_deployment :
      (d : Deployments) (r : ExecutionRequest) → Ensures f (execute_local_deployment env d r)
  unfolding execute_local_deployment
  Ensures-execute_local_deployment d r = search (deployment_rules, Ensures-begin_attempt)

  Ensures-contain_dry_run :
      (wid id : ℕ) (status : DeploymentAttemptStatus)
      → (status ≡ DeploymentAttemptStatus.rollback_required
          → Target WorkflowState.rollback_required)
      → Ensures f (contain_dry_run env wid id status)
  unfolding contain_dry_run
  Ensures-contain_dry_run wid id DeploymentAttemptStatus.rollback_required h =
      sup.moves _ _ _ _ _ (h refl)
  Ensures-contain_dry_run wid id DeploymentAttemptStatus.running h = search deployment_rules
  Ensures-contain_dry_run wid id DeploymentAttemptStatus.verifying h = search deployment_rules
  Ensures-contain_dry_run wid id DeploymentAttemptStatus.succeeded h = search deployment_rules
  Ensures-contain_dry_run wid id DeploymentAttemptStatus.failed h = search deployment_rules
  Ensures-contain_dry_run wid id DeploymentAttemptStatus.unknown h = search deployment_rules
  Ensures-contain_dry_run wid id DeploymentAttemptStatus.reconciled h = search deployment_rules

  pub Ensures-finish_dry_run :
      (wid id : ℕ) (p : DeploymentPlan) (run : CredentialedRun)
      → (dry_run_status run ≡ DeploymentAttemptStatus.rollback_required
          → Target WorkflowState.rollback_required)
      → Ensures f (finish_dry_run env wid id p run)
  unfolding finish_dry_run dry_run_status
  Ensures-finish_dry_run wid id p run h = Ensures-bind _ _ (Ensures-running_attempt id) (λ _.
      Ensures-bind _ _ (Ensures-get_workflow wid) (λ _.
        Ensures-bind _ _ (Ensures-set_deployment_attempt id _) (λ _.
          Ensures-bind _ _ (Ensures-add_verification _) (λ _.
            Ensures-bind _ _ (Ensures-contain_dry_run wid id (dry_run_status run) h)
              (λ _. sup.appends _ _ _ _ _ _ _)))))

  pub Ensures-finish_local_deployment :
      (wid id : ℕ) (p : DeploymentPlan) (reference : String) (credential : Fields)
      (run : CredentialedRun)
      → Target (local_state run)
      → Ensures f (finish_local_deployment env wid id p reference credential run)
  unfolding finish_local_deployment
  Ensures-finish_local_deployment wid id p reference credential run h =
      let moves = sup.moves in search (deployment_rules, sup.appends, moves) depth 12

  Ensures-fail_dry_run :
      (id : ℕ) (error_code : String) (o : Option DeploymentAttemptRecord)
      → Ensures f (fail_dry_run env id error_code o)
  unfolding fail_dry_run
  Ensures-fail_dry_run id error_code none = search deployment_rules
  Ensures-fail_dry_run id error_code (some row) = search (deployment_rules, sup.appends) depth 8

  pub Ensures-fail_deployment_dry_run :
      (id : ℕ) (error_code : String) → Ensures f (fail_deployment_dry_run env id error_code)
  unfolding fail_deployment_dry_run
  Ensures-fail_deployment_dry_run id error_code = search (deployment_rules, Ensures-fail_dry_run)

  Ensures-contain_local :
      (wid id : ℕ) (status : DeploymentAttemptStatus)
      → (status ≡ DeploymentAttemptStatus.rollback_required
          → Target WorkflowState.rollback_required)
      → Ensures f (contain_local env wid id status)
  unfolding contain_local
  Ensures-contain_local wid id DeploymentAttemptStatus.rollback_required h =
      let moves = λ (actor reason : String) (extra : Fields).
        sup.moves wid WorkflowState.rollback_required actor reason extra (h refl) in
      search (deployment_rules, moves) depth 8
  Ensures-contain_local wid id DeploymentAttemptStatus.running h = search deployment_rules
  Ensures-contain_local wid id DeploymentAttemptStatus.verifying h = search deployment_rules
  Ensures-contain_local wid id DeploymentAttemptStatus.succeeded h = search deployment_rules
  Ensures-contain_local wid id DeploymentAttemptStatus.failed h = search deployment_rules
  Ensures-contain_local wid id DeploymentAttemptStatus.unknown h = search deployment_rules
  Ensures-contain_local wid id DeploymentAttemptStatus.reconciled h = search deployment_rules

  Ensures-fail_local :
      (id : ℕ) (status : DeploymentAttemptStatus) (error_code : String) (contacted : Bool)
      (o : Option DeploymentAttemptRecord)
      → (status ≡ DeploymentAttemptStatus.rollback_required
          → Target WorkflowState.rollback_required)
      → Ensures f (fail_local env id status error_code contacted o)
  unfolding fail_local
  Ensures-fail_local id status error_code contacted none h = search deployment_rules
  Ensures-fail_local id status error_code contacted (some row) h =
      let contains = λ (wid : ℕ). Ensures-contain_local wid id status h in
      search (deployment_rules, sup.appends, contains) depth 12

  pub Ensures-fail_local_deployment :
      (id : ℕ) (status : DeploymentAttemptStatus) (error_code : String) (contacted : Bool)
      → (status ≡ DeploymentAttemptStatus.rollback_required
          → Target WorkflowState.rollback_required)
      → Ensures f (fail_local_deployment env id status error_code contacted)
  unfolding fail_local_deployment
  Ensures-fail_local_deployment id status error_code contacted h =
      let fails = λ (o : Option DeploymentAttemptRecord).
        Ensures-fail_local id status error_code contacted o h in
      search (deployment_rules, fails) depth 8

-- ===== src/Tasks/Frames/Running.antt =====
-- workflow_tasks.py: a frame that supports the steps holds of the lease operations and of the
-- finalizers.
use eldridge.Prelude.{ℕ, String, Bool, false, ◌≡◌, refl, List, [], ◌∷◌, Option, none, some, arith}
use eldridge.Domain.{WorkflowState, workflow_state_eq, TaskKind}
use eldridge.Persistence.Json.{Fields}
use eldridge.Persistence.{BlockReason, Task, TaskAttempt, ProviderObservation, Artifact}
use eldridge.Env.{Env}
use eldridge.Tx.Frame.{Frame, Ensures, Ensures-bind, Ensures-pure}
use eldridge.Tasks.Store.{set_workflow}
use eldridge.Tasks.Steps.{transition, schedule_task, advance_after_task}
use eldridge.Tasks.Leasing.{
  take_lease, lease_next_task, heartbeat_task, time_out, reclaim_task, reclaim_all,
  reclaim_expired_tasks,
}
use eldridge.Tasks.Execution.{
  PreparedExecution, ProviderResult, ExecutionResult, Failure, with_candidate, add_observation,
  add_artifact, record_provider_observation, checked_task, finalize_execution_success,
  record_attempt_failure, finalize_execution_failure,
}
use eldridge.Tasks.Frames.{Supports, is_reserved, row_rules, Ensures-quiet}

module _ (env : Env) {f : Frame} {Target : WorkflowState → Type 0} (sup : Supports env f Target)
    (most : (t : WorkflowState) → is_reserved t ≡ false → Target t) where
  pub Ensures-schedule_task : (wid : ℕ) (kind : TaskKind) → Ensures f (schedule_task env wid kind)
  unfolding schedule_task
  Ensures-schedule_task wid kind = search (row_rules, sup.appends) depth 12

  pub Ensures-transition :
      (wid : ℕ) (target : WorkflowState) (actor reason : String) (extra : Fields)
      → is_reserved target ≡ false
      → Ensures f (transition env wid target actor reason extra)
  Ensures-transition wid target actor reason extra h =
      sup.moves wid target actor reason extra (most target h)

  pub Ensures-advance_after_task :
      (wid : ℕ) (kind : TaskKind) → Ensures f (advance_after_task env wid kind)
  unfolding advance_after_task is_reserved
  Ensures-advance_after_task wid TaskKind.plan =
      search (row_rules, Ensures-transition, Ensures-schedule_task) depth 12
  Ensures-advance_after_task wid TaskKind.architecture_review =
      search (row_rules, Ensures-transition, Ensures-schedule_task) depth 12
  Ensures-advance_after_task wid TaskKind.implement =
      search (row_rules, Ensures-transition, Ensures-schedule_task) depth 12
  Ensures-advance_after_task wid TaskKind.test =
      search (row_rules, Ensures-transition, Ensures-schedule_task) depth 12
  Ensures-advance_after_task wid TaskKind.security_review =
      search (row_rules, Ensures-transition, Ensures-schedule_task) depth 12
  Ensures-advance_after_task wid TaskKind.code_review =
      search (row_rules, Ensures-transition, Ensures-schedule_task) depth 12

  Ensures-take_lease :
      (lease_seconds : ℕ) (worker : String) (o : Option (ℕ × Task))
      → Ensures f (take_lease env lease_seconds worker o)
  unfolding take_lease
  Ensures-take_lease n worker none = search row_rules
  Ensures-take_lease n worker (some (tid, t)) = search (row_rules, sup.appends) depth 12

  pub Ensures-lease_next_task :
      (lease_seconds : ℕ) (worker : String) (scope : Option ℕ)
      → Ensures f (lease_next_task env lease_seconds worker scope)
  unfolding lease_next_task
  Ensures-lease_next_task n worker scope = search (row_rules, Ensures-take_lease)

  pub Ensures-heartbeat_task :
      (lease_seconds tid token : ℕ) (worker : String)
      → Ensures f (heartbeat_task env lease_seconds tid token worker)
  unfolding heartbeat_task
  Ensures-heartbeat_task n tid token worker = search (row_rules, sup.appends) depth 12

  Ensures-time_out : (o : Option (ℕ × TaskAttempt)) → Ensures f (time_out env o)
  unfolding time_out
  Ensures-time_out none = search row_rules
  Ensures-time_out (some (aid, a)) = search row_rules

  pub Ensures-set_block_reason :
      (wid : ℕ) (reason : Option BlockReason)
      → Ensures f (set_workflow wid (λ w. record w { block_reason = reason }))
  Ensures-set_block_reason wid reason = sup.rewrites wid _ (λ w. (refl, refl))

  Ensures-reclaim_task :
      (worker : String) (tid : ℕ) (task : Task) → Ensures f (reclaim_task env worker tid task)
  unfolding reclaim_task is_reserved
  Ensures-reclaim_task worker tid task =
      search
        (row_rules, sup.appends, Ensures-set_block_reason, Ensures-time_out, Ensures-transition)
        depth 16

  Ensures-reclaim_all :
      (worker : String) (ts : List (ℕ × Task)) → Ensures f (reclaim_all env worker ts)
  unfolding reclaim_all
  Ensures-reclaim_all worker [] = search row_rules
  Ensures-reclaim_all worker ((tid, t) ∷ rest) =
      Ensures-bind _ _ (Ensures-reclaim_task worker tid t)
        (λ _. Ensures-bind _ _ (Ensures-reclaim_all worker rest) (λ n. Ensures-pure _))

  pub Ensures-reclaim_expired_tasks :
      (worker : String) → Ensures f (reclaim_expired_tasks env worker)
  unfolding reclaim_expired_tasks
  Ensures-reclaim_expired_tasks worker = search (row_rules, Ensures-reclaim_all)

  Ensures-add_observation : (o : ProviderObservation) → Ensures f (add_observation o)
  unfolding add_observation
  Ensures-add_observation o = Ensures-quiet _ _ (λ s. (refl, refl, refl))

  Ensures-add_artifact : (a : Artifact) → Ensures f (add_artifact a)
  unfolding add_artifact
  Ensures-add_artifact a = Ensures-quiet _ _ (λ s. (refl, refl, refl))

  Ensures-record_provider_observation :
      (p : PreparedExecution) (task : Task) (succeeded valid : Bool) (latency : ℕ)
      (error : Option String)
      → Ensures f (record_provider_observation env p task succeeded valid latency error)
  unfolding record_provider_observation
  Ensures-record_provider_observation p task succeeded valid latency error =
      Ensures-add_observation _

  Ensures-checked_task : (p : PreparedExecution) → Ensures f (checked_task env p)
  unfolding checked_task
  Ensures-checked_task p = search row_rules depth 12

  Ensures-with_candidate :
      (wid : ℕ) (kind : TaskKind) (candidate : Option String)
      → Ensures f (set_workflow wid (with_candidate kind candidate))
  unfolding with_candidate
  Ensures-with_candidate wid kind candidate = sup.rewrites wid _ (λ w. ground arith)

  pub Ensures-finalize_execution_success :
      (p : PreparedExecution) (result : ProviderResult) (execution : ExecutionResult)
      (candidate : Option String) (latency : ℕ)
      → Ensures f (finalize_execution_success env p result execution candidate latency)
  unfolding finalize_execution_success
  Ensures-finalize_execution_success p result execution candidate latency =
      search
        (
          row_rules, sup.appends, Ensures-checked_task, Ensures-with_candidate,
          Ensures-add_artifact, Ensures-record_provider_observation, Ensures-advance_after_task,
        )
        depth 16

  Ensures-record_attempt_failure :
      (wid tid aid : ℕ) (failure : Failure) (worker : String)
      → Ensures f (record_attempt_failure env wid tid aid failure worker)
  unfolding record_attempt_failure is_reserved
  Ensures-record_attempt_failure wid tid aid failure worker =
      search (row_rules, sup.appends, Ensures-transition) depth 16

  pub Ensures-finalize_execution_failure :
      (p : PreparedExecution) (failure : Failure) (valid : Bool) (latency : ℕ)
      → Ensures f (finalize_execution_failure env p failure valid latency)
  unfolding finalize_execution_failure
  Ensures-finalize_execution_failure p failure valid latency =
      search
        (
          row_rules, Ensures-checked_task, Ensures-record_provider_observation,
          Ensures-record_attempt_failure,
        )
        depth 12

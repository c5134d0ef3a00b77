-- ===== src/Tasks/Execution.antt =====
-- workflow_tasks.py: `_finalize_execution_success`, `_finalize_execution_failure` and what they
-- call. A provider's and an executor's answer is an argument.
use eldridge.Prelude.{
  ℕ, String, Bool, true, false, ◌&&◌, negate, List, [], ◌∷◌, Option, none, some, ◌==◌, ◌!=◌, nat_eq,
  string_eq, ltb, if◌then◌else◌,
}
use eldridge.Domain.{
  WorkflowState, TaskStatus, TaskStatus-discrete, task_status_eq, TaskKind, TaskKind-discrete,
  task_kind_eq, Error,
}
use eldridge.Result.{ok}
use eldridge.Routing.Types.{DataClassification}
use eldridge.Persistence.Json.{Json, Fields, fields, join, text_or_null, texts}
use eldridge.Persistence.{Workflow, Task, TaskAttempt, ProviderObservation, Artifact, append_row}
use eldridge.Env.{Env, digest}
use eldridge.Tx.{Tx, pure, raise_if, ◌>>=◌, ◌>>◌}
use eldridge.Audit.{append_audit_event}
use eldridge.Tasks.Store.{get_workflow, get_task, get_attempt, set_workflow, set_task, set_attempt}
use eldridge.Tasks.Steps.{transition, advance_after_task, deactivate_task_grant, validate_lease}
use eldridge.Tasks.Leasing.{released}

-- `PreparedExecution`: the lease, what it says of the routed profile, and what its request and its
-- context take from the workflow, the task and the output under review.
pub record PreparedExecution : Type 0 where
  pub workflow_id : ℕ
  pub task_id : ℕ
  pub attempt_id : ℕ
  pub lease_token : ℕ
  pub worker_id : String
  pub agent_id : String
  pub task_kind : TaskKind
  pub provider_id : String
  pub provider_family : String
  pub model_version : String
  pub profile_version : String
  pub objective : String
  pub workflow_title : String
  pub workflow_description : String
  pub candidate_revision : Option String
  pub data_classification : DataClassification
  pub repository_scope : Option String
  pub containment_required : Bool
  pub producer_output : Option Fields

pub record ProviderResult : Type 0 where
  pub output : Fields
  pub provider : String
  pub model : String

pub record ExecutionResult : Type 0 where
  pub evidence : Fields
  pub commands_executed : List String

-- An exception as `_record_attempt_failure` reads it: `type(exc).__name__`, and the output if it
-- is a `ProviderReviewRejectedError`.
pub record Failure : Type 0 where
  pub name : String
  pub review : Option Fields

unfoldable pub add_observation : ProviderObservation → Tx (Unit {0})
add_observation o s = ok (tt, record s { observations = append_row s.observations o })

unfoldable pub add_artifact : Artifact → Tx (Unit {0})
add_artifact a s = ok (tt, record s { artifacts = append_row s.artifacts a })

-- `_record_provider_observation`; a latency is not negative.
unfoldable pub record_provider_observation :
    Env → PreparedExecution → Task → Bool → Bool → ℕ → Option String → Tx (Unit {0})
record_provider_observation env prepared task succeeded validation_passed latency_ms error_code =
    add_observation (record {
      workflow_id = prepared.workflow_id;
      task_id = prepared.task_id;
      attempt_id = prepared.attempt_id;
      provider_id = prepared.provider_id;
      provider_family = prepared.provider_family;
      model_version = prepared.model_version;
      profile_version = prepared.profile_version;
      work_capability = task.work_capability;
      succeeded = succeeded;
      validation_passed = validation_passed;
      latency_ms = latency_ms;
      error_code = error_code;
      created_at = env.now;
    })

-- The head of both finalizers: the task, after the checks of its lease and of its attempt.
unfoldable pub checked_task : Env → PreparedExecution → Tx Task
unfolding TaskStatus-discrete
checked_task env prepared = do
  task ← get_task prepared.task_id
  attempt ← get_attempt prepared.attempt_id
  validate_lease env TaskStatus.running task prepared.lease_token prepared.worker_id
  raise_if (attempt.status != TaskStatus.running) Error.conflict_error
  get_workflow prepared.workflow_id
  pure task

attempt_output : TaskKind → ProviderResult → ExecutionResult → Fields
unfolding TaskKind-discrete
attempt_output kind result execution =
    let output =
      join result.output (fields (("execution_evidence", Json.object execution.evidence) ∷ [])) in
    if kind == TaskKind.test
    then join output
        (fields (("tests_passed", Json.boolean true) ∷ ("failures", Json.array (texts [])) ∷ []))
    else output

succeeded_with : Env → String → Fields → TaskAttempt → TaskAttempt
succeeded_with env model output a = record a {
  model = model;
  output = output;
  status = TaskStatus.succeeded;
  completed_at = some env.now;
}

unfoldable pub with_candidate : TaskKind → Option String → Workflow → Workflow
unfolding TaskKind-discrete
with_candidate kind candidate w =
    if kind == TaskKind.implement then record w { candidate_revision = candidate } else w

-- `_finalize_execution_success`
unfoldable pub finalize_execution_success :
    Env → PreparedExecution → ProviderResult → ExecutionResult → Option String → ℕ → Tx (Unit {0})
unfolding attempt_output succeeded_with with_candidate
finalize_execution_success env prepared result execution candidate latency_ms = do
  task ← checked_task env prepared
  let output = attempt_output prepared.task_kind result execution
  set_attempt prepared.attempt_id (succeeded_with env result.model output)
  set_task prepared.task_id (released TaskStatus.succeeded)
  deactivate_task_grant prepared.task_id
  record_provider_observation env prepared task true true latency_ms none
  set_workflow prepared.workflow_id (with_candidate prepared.task_kind candidate)
  workflow ← get_workflow prepared.workflow_id
  add_artifact (record {
    workflow_id = prepared.workflow_id;
    task_id = prepared.task_id;
    attempt_id = prepared.attempt_id;
    artifact_type = task.kind;
    digest = digest env output;
    revision = workflow.candidate_revision;
    metadata_json = fields (
        ("provider", Json.text prepared.provider_id)
        ∷ ("provider_reported", Json.text result.provider)
        ∷ ("model", Json.text result.model)
        ∷ ("commands_executed", Json.array (texts execution.commands_executed))
        ∷ []);
  })
  append_audit_event env prepared.workflow_id "task.succeeded" prepared.agent_id "task"
      prepared.task_id "SUCCEEDED"
      (fields (
        ("attempt_id", Json.number prepared.attempt_id)
        ∷ ("artifact_digest", Json.text (digest env output))
        ∷ ("candidate_revision", text_or_null workflow.candidate_revision)
        ∷ ("commands_executed", Json.array (texts execution.commands_executed))
        ∷ []))
  advance_after_task env prepared.workflow_id prepared.task_kind

is_rejection : Failure → Bool
is_rejection f = elim f.review [ none ↦ false | some r ↦ true ]

failure_output : Failure → Fields
failure_output f = elim f.review [
  | none ↦ fields (("error", Json.text "provider or executor operation failed") ∷ [])
  | some r ↦
      fields
        (("error", Json.text "provider review rejected candidate") ∷ ("review", Json.object r) ∷ [])
]

failed_with : Env → Failure → TaskAttempt → TaskAttempt
unfolding failure_output
failed_with env f a = record a {
  status = TaskStatus.failed;
  model = if a.model == "pending" then "unknown" else a.model;
  error_code = some f.name;
  output = failure_output f;
  completed_at = some env.now;
}

-- `_record_attempt_failure`
unfoldable pub record_attempt_failure : Env → ℕ → ℕ → ℕ → Failure → String → Tx (Unit {0})
unfolding is_rejection failed_with
record_attempt_failure env wid tid aid failure worker = do
  task ← get_task tid
  attempt ← get_attempt aid
  let retrying = negate (is_rejection failure) && ltb attempt.attempt_number task.max_attempts
  set_attempt aid (failed_with env failure)
  set_task tid (released (if retrying then TaskStatus.ready else TaskStatus.failed))
  (if retrying then pure tt else deactivate_task_grant tid)
  append_audit_event env wid (if retrying then "task.retry_scheduled" else "task.failed") worker
      "task" tid "FAILED"
      (fields (
        ("attempt_id", Json.number aid)
        ∷ ("attempt_number", Json.number attempt.attempt_number)
        ∷ ("error_code", Json.text failure.name)
        ∷ ("review_rejected", Json.boolean (is_rejection failure))
        ∷ ("retrying", Json.boolean retrying)
        ∷ []))
  (if retrying
      then pure tt
      else transition env wid WorkflowState.failed "orchestrator"
          (if is_rejection failure
            then "provider review rejected candidate"
            else "task retry limit exhausted")
          Fields.done)

-- `_finalize_execution_failure`
unfoldable pub finalize_execution_failure :
    Env → PreparedExecution → Failure → Bool → ℕ → Tx (Unit {0})
finalize_execution_failure env prepared failure validation_passed latency_ms = do
  task ← checked_task env prepared
  record_provider_observation env prepared task false validation_passed latency_ms
      (some failure.name)
  record_attempt_failure env prepared.workflow_id prepared.task_id prepared.attempt_id failure
      prepared.worker_id

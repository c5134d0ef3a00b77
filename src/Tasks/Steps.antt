-- ===== src/Tasks/Steps.antt =====
-- workflow_tasks.py: the steps that its operations share: `_transition`, `_schedule_task`,
-- `_advance_after_task`, `_deactivate_task_grant`, the lease checks.
use eldridge.Prelude.{
  ℕ, ◌+◌, String, Bool, true, false, ◌||◌, negate, List, [], ◌∷◌, map, Option, none, some, ◌==◌,
  ◌!=◌, nat_eq, string_eq, option_eq, leb, if◌then◌else◌,
}
use eldridge.Domain.{
  WorkflowState, TaskStatus, TaskStatus-discrete, task_status_eq, AgentRole, TaskKind, Error,
  task_capability, task_role, workflow_state_value, agent_role_value, task_kind_value,
}
use eldridge.StateMachine.{assert_transition_allowed}
use eldridge.Routing.Types.{WorkCapability}
use eldridge.Persistence.Json.{Json, Fields, fields, join}
use eldridge.Persistence.{Workflow, Task, CapabilityGrant, select, length, append_row}
use eldridge.Env.{Env}
use eldridge.Tx.{Tx, pure, gets, lift, raise_if, ◌>>=◌, ◌>>◌}
use eldridge.Audit.{append_audit_event}
use eldridge.Tasks.Store.{get_workflow, set_workflow, add_task, set_grants}

-- `AGENT_FOR_ROLE`; the code has no entry for the other roles.
unfoldable pub agent_for_role : AgentRole → Option String
agent_for_role AgentRole.architect = some "architect-agent"
agent_for_role AgentRole.reviewer = some "reviewer-agent"
agent_for_role AgentRole.implementer = some "implementer-agent"
agent_for_role AgentRole.test_agent = some "test-agent"
agent_for_role AgentRole.security_agent = some "security-agent"
agent_for_role _ = none

-- `AGENT_FOR_ROLE[TASK_ROLE[kind]]`
unfoldable pub agent_for_kind : TaskKind → String
agent_for_kind TaskKind.plan = "architect-agent"
agent_for_kind TaskKind.architecture_review = "reviewer-agent"
agent_for_kind TaskKind.implement = "implementer-agent"
agent_for_kind TaskKind.test = "test-agent"
agent_for_kind TaskKind.security_review = "security-agent"
agent_for_kind TaskKind.code_review = "reviewer-agent"

-- `TASK_OBJECTIVES`
unfoldable pub task_objective : TaskKind → String
task_objective TaskKind.plan = "Create a bounded engineering plan and declare assumptions."
task_objective TaskKind.architecture_review =
    "Independently challenge the plan for security, operational, and failure risks."
task_objective TaskKind.implement =
    "Produce the assigned change artifact without executing host commands."
task_objective TaskKind.test =
    "Validate the candidate revision and produce structured test evidence."
task_objective TaskKind.security_review =
    "Evaluate the candidate revision against the security policy."
task_objective TaskKind.code_review =
    "Perform final independent review and identify blocking findings."

-- `TASK_WORK_CAPABILITY`
unfoldable pub task_work_capability : TaskKind → WorkCapability
task_work_capability TaskKind.plan = WorkCapability.planning
task_work_capability TaskKind.architecture_review = WorkCapability.architecture
task_work_capability TaskKind.implement = WorkCapability.code_generation
task_work_capability TaskKind.test = WorkCapability.test_execution
task_work_capability TaskKind.security_review = WorkCapability.security_analysis
task_work_capability TaskKind.code_review = WorkCapability.code_review

-- `REVIEW_PRODUCER_KIND`
unfoldable pub review_producer_kind : TaskKind → Option TaskKind
review_producer_kind TaskKind.architecture_review = some TaskKind.plan
review_producer_kind TaskKind.test = some TaskKind.implement
review_producer_kind TaskKind.security_review = some TaskKind.implement
review_producer_kind TaskKind.code_review = some TaskKind.implement
review_producer_kind _ = none

-- `TASK_WORKFLOW_STATE`
unfoldable pub task_workflow_state : TaskKind → WorkflowState
task_workflow_state TaskKind.plan = WorkflowState.planning
task_workflow_state TaskKind.architecture_review = WorkflowState.architecture_review
task_workflow_state TaskKind.implement = WorkflowState.implementing
task_workflow_state TaskKind.test = WorkflowState.testing
task_workflow_state TaskKind.security_review = WorkflowState.security_review
task_workflow_state TaskKind.code_review = WorkflowState.code_review

-- `_transition`
unfoldable pub transition : Env → ℕ → WorkflowState → String → String → Fields → Tx (Unit {0})
transition env wid target actor reason extra = do
  workflow ← get_workflow wid
  lift (assert_transition_allowed workflow.state target)
  set_workflow wid (λ w. record w { state = target; version = w.version + 1 })
  append_audit_event env wid "workflow.transitioned" actor "workflow" wid "SUCCEEDED" (
      join
        (fields (
          ("from_state", Json.text (workflow_state_value workflow.state))
          ∷ ("to_state", Json.text (workflow_state_value target))
          ∷ ("reason", Json.text reason)
          ∷ ("workflow_version", Json.number (workflow.version + 1))
          ∷ []))
        extra)

tasks_of : ℕ → List Task → List Task
tasks_of wid = select (λ t. t.workflow_id == wid)

new_task : Env → ℕ → TaskKind → ℕ → Task
new_task env wid kind position = record {
  workflow_id = wid;
  kind = kind;
  required_role = task_role kind;
  required_capability = task_capability kind;
  work_capability = task_work_capability kind;
  objective = task_objective kind;
  status = TaskStatus.ready;
  position = position;
  max_attempts = 2;
  lease_owner = none;
  lease_token = none;
  lease_expires_at = none;
  created_at = env.now;
}

new_grant : Env → Workflow → ℕ → TaskKind → ℕ → CapabilityGrant
new_grant env workflow wid kind tid = record {
  principal_id = agent_for_kind kind;
  workflow_id = wid;
  task_id = tid;
  capabilities = task_capability kind ∷ [];
  policy_version = workflow.policy_version;
  expires_at = env.now + 3600;
  active = true;
}

-- `_schedule_task`
unfoldable pub schedule_task : Env → ℕ → TaskKind → Tx ℕ
unfolding tasks_of new_task new_grant
schedule_task env wid kind = do
  workflow ← get_workflow wid
  siblings ← gets (λ s. length (tasks_of wid s.tasks))
  tid ← add_task (new_task env wid kind (siblings + 1))
  set_grants (λ grants. append_row grants (new_grant env workflow wid kind tid))
  append_audit_event env wid "task.scheduled" "orchestrator" "task" tid "SUCCEEDED" (
      fields (
        ("kind", Json.text (task_kind_value kind))
        ∷ ("role", Json.text (agent_role_value (task_role kind)))
        ∷ ("agent_id", Json.text (agent_for_kind kind))
        ∷ []))
  pure tid

is_set : Option String → Bool
is_set none = false
is_set (some s) = s != ""

-- `_require_candidate_revision`
unfoldable pub require_candidate_revision : ℕ → Tx (Unit {0})
unfolding is_set
require_candidate_revision wid = do
  workflow ← get_workflow wid
  raise_if (negate (is_set workflow.candidate_revision)) Error.conflict_error

-- `_advance_after_task`
unfoldable pub advance_after_task : Env → ℕ → TaskKind → Tx (Unit {0})
advance_after_task env wid TaskKind.plan = do
  transition env wid WorkflowState.architecture_review "orchestrator" "plan evidence recorded"
      Fields.done
  schedule_task env wid TaskKind.architecture_review
  pure tt
advance_after_task env wid TaskKind.architecture_review = do
  transition env wid WorkflowState.approved_for_implementation "orchestrator"
      "independent critique completed with no blocking findings" Fields.done
  transition env wid WorkflowState.implementing "orchestrator"
      "implementation task scoped and granted" Fields.done
  schedule_task env wid TaskKind.implement
  pure tt
advance_after_task env wid TaskKind.implement = do
  transition env wid WorkflowState.testing "orchestrator"
      "candidate revision and change evidence recorded" Fields.done
  schedule_task env wid TaskKind.test
  pure tt
advance_after_task env wid TaskKind.test = do
  require_candidate_revision wid
  transition env wid WorkflowState.security_review "orchestrator"
      "test evidence passed for candidate revision" Fields.done
  schedule_task env wid TaskKind.security_review
  pure tt
advance_after_task env wid TaskKind.security_review = do
  require_candidate_revision wid
  transition env wid WorkflowState.code_review "orchestrator"
      "security evidence passed for candidate revision" Fields.done
  schedule_task env wid TaskKind.code_review
  pure tt
advance_after_task env wid TaskKind.code_review = do
  require_candidate_revision wid
  transition env wid WorkflowState.awaiting_human_approval "orchestrator"
      "all deterministic evidence recorded for one revision" Fields.done

deactivated : ℕ → CapabilityGrant → CapabilityGrant
deactivated tid g = if g.task_id == tid then record g { active = false } else g

-- `_deactivate_task_grant`
unfoldable pub deactivate_task_grant : ℕ → Tx (Unit {0})
unfolding deactivated
deactivate_task_grant tid = set_grants (map (deactivated tid))

unfoldable pub not_before : Option ℕ → ℕ → Bool
not_before none now = true
not_before (some t) now = leb t now

-- `_validate_lease` and `_validate_running_lease`, which differ in the status alone
unfoldable pub validate_lease : Env → TaskStatus → Task → ℕ → String → Tx (Unit {0})
unfolding TaskStatus-discrete not_before
validate_lease env status task token worker = do
  raise_if (task.status != status) Error.conflict_error
  raise_if (task.lease_owner != some worker || task.lease_token != some token)
      Error.authorization_error
  raise_if (not_before task.lease_expires_at env.now) Error.conflict_error

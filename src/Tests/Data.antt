-- ===== src/Tests/Data.antt =====
-- A database and a moment for the runs.
pub mod Releases
use eldridge.Prelude.{true, false, [], ◌∷◌, none, some}
use eldridge.Domain.{WorkflowState, TaskStatus, TaskKind, PrincipalType, AgentRole, Capability}
use eldridge.Routing.Types.{RiskLevel, DataClassification, WorkCapability}
use eldridge.Strategy.Types.{ComplexityTier}
use eldridge.Persistence.{Session, Principal, Workflow, Task}
use eldridge.Env.{Env}

abbrev pub noon : Env
noon = record {
  now = 1000;
  json_dumps = λ f. "{}";
  sha256 = λ s. s;
  strip = λ s. s;
  repr = λ j. "{}";
  task_locked = λ i. false;
}

abbrev pub worker : Principal
worker = record {
  id = "worker";
  principal_type = PrincipalType.service;
  role = AgentRole.orchestrator;
  active = true;
}

abbrev pub approver : Principal
approver = record {
  id = "approver";
  principal_type = PrincipalType.human;
  role = AgentRole.human_approver;
  active = true;
}

abbrev pub planned : Workflow
planned = record {
  title = "t";
  description = "d";
  state = WorkflowState.planning;
  version = 2;
  risk_class = RiskLevel.low;
  complexity_tier = ComplexityTier.simple;
  data_classification = DataClassification.public;
  repository_scope = none;
  inspection_signals = [];
  containment_required = false;
  block_reason = none;
  requester_id = "requester";
  policy_version = "phase1-v1";
  candidate_revision = none;
  merged_revision = none;
}

abbrev pub reviewed : Workflow
reviewed = record planned {
  state = WorkflowState.awaiting_human_approval;
  version = 9;
  candidate_revision = some "abc";
}

abbrev pub plan_task : Task
plan_task = record {
  workflow_id = 0;
  kind = TaskKind.plan;
  required_role = AgentRole.architect;
  required_capability = Capability.produce_plan;
  work_capability = WorkCapability.planning;
  objective = "plan";
  status = TaskStatus.ready;
  position = 1;
  max_attempts = 2;
  lease_owner = none;
  lease_token = none;
  lease_expires_at = none;
  created_at = 900;
}

abbrev pub empty : Session
empty = record {
  principals = worker ∷ approver ∷ [];
  workflows = [];
  tasks = [];
  attempts = [];
  grants = [];
  routing_records = [];
  observations = [];
  evaluation_observations = [];
  approvals = [];
  dispositions = [];
  reconciliations = [];
  artifacts = [];
  ci_checks = [];
  pull_requests = [];
  assessments = [];
  confirmations = [];
  environments = [];
  deployment_plans = [];
  deployment_attempts = [];
  verifications = [];
  rollbacks = [];
  audit_events = [];
  idempotency_records = [];
  tokens_drawn = 0;
}

abbrev pub queued : Session
queued = record empty { workflows = planned ∷ []; tasks = plan_task ∷ [] }

abbrev pub awaiting : Session
awaiting = record empty { workflows = reviewed ∷ [] }

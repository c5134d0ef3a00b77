-- ===== src/Domain/Values.antt =====
-- The `.value` of the enumerations, where it goes into an audit event's payload or a dictionary.
use eldridge.Prelude.{String}
use eldridge.Domain.Types.{
  WorkflowState, AgentRole, TaskKind, ReconciliationDecision, ApprovalDecision,
}

unfoldable pub workflow_state_value : WorkflowState → String
workflow_state_value WorkflowState.created = "CREATED"
workflow_state_value WorkflowState.planning = "PLANNING"
workflow_state_value WorkflowState.architecture_review = "ARCHITECTURE_REVIEW"
workflow_state_value WorkflowState.approved_for_implementation = "APPROVED_FOR_IMPLEMENTATION"
workflow_state_value WorkflowState.implementing = "IMPLEMENTING"
workflow_state_value WorkflowState.testing = "TESTING"
workflow_state_value WorkflowState.security_review = "SECURITY_REVIEW"
workflow_state_value WorkflowState.code_review = "CODE_REVIEW"
workflow_state_value WorkflowState.awaiting_human_approval = "AWAITING_HUMAN_APPROVAL"
workflow_state_value WorkflowState.approved = "APPROVED"
workflow_state_value WorkflowState.merged = "MERGED"
workflow_state_value WorkflowState.awaiting_deployment_approval = "AWAITING_DEPLOYMENT_APPROVAL"
workflow_state_value WorkflowState.deployed = "DEPLOYED"
workflow_state_value WorkflowState.failed = "FAILED"
workflow_state_value WorkflowState.rejected = "REJECTED"
workflow_state_value WorkflowState.blocked = "BLOCKED"
workflow_state_value WorkflowState.cancelled = "CANCELLED"
workflow_state_value WorkflowState.rollback_required = "ROLLBACK_REQUIRED"
workflow_state_value WorkflowState.rolled_back = "ROLLED_BACK"

unfoldable pub agent_role_value : AgentRole → String
agent_role_value AgentRole.architect = "ARCHITECT"
agent_role_value AgentRole.reviewer = "REVIEWER"
agent_role_value AgentRole.implementer = "IMPLEMENTER"
agent_role_value AgentRole.test_agent = "TEST_AGENT"
agent_role_value AgentRole.security_agent = "SECURITY_AGENT"
agent_role_value AgentRole.documentation_agent = "DOCUMENTATION_AGENT"
agent_role_value AgentRole.orchestrator = "ORCHESTRATOR"
agent_role_value AgentRole.human_approver = "HUMAN_APPROVER"
agent_role_value AgentRole.auditor = "AUDITOR"
agent_role_value AgentRole.ide_integration = "IDE_INTEGRATION"
agent_role_value AgentRole.ci_integration = "CI_INTEGRATION"
agent_role_value AgentRole.remote_agent_integration = "REMOTE_AGENT_INTEGRATION"

unfoldable pub task_kind_value : TaskKind → String
task_kind_value TaskKind.plan = "PLAN"
task_kind_value TaskKind.architecture_review = "ARCHITECTURE_REVIEW"
task_kind_value TaskKind.implement = "IMPLEMENT"
task_kind_value TaskKind.test = "TEST"
task_kind_value TaskKind.security_review = "SECURITY_REVIEW"
task_kind_value TaskKind.code_review = "CODE_REVIEW"

unfoldable pub approval_decision_value : ApprovalDecision → String
approval_decision_value ApprovalDecision.approved = "APPROVED"
approval_decision_value ApprovalDecision.rejected = "REJECTED"

unfoldable pub reconciliation_decision_value : ReconciliationDecision → String
reconciliation_decision_value ReconciliationDecision.retry = "RETRY"
reconciliation_decision_value ReconciliationDecision.fail = "FAIL"

-- ===== src/Domain/Types.antt =====
-- domain.py (src/control_plane/domain.py): the enumerations and the exceptions.
use eldridge.Prelude.{Eq, discrete_eq}

pub data WorkflowState : Type 0 where
  created planning architecture_review approved_for_implementation : WorkflowState
  implementing testing security_review code_review awaiting_human_approval : WorkflowState
  approved merged awaiting_deployment_approval deployed failed rejected : WorkflowState
  blocked cancelled rollback_required rolled_back : WorkflowState

unfoldable pub WorkflowState-discrete : Discrete WorkflowState
WorkflowState-discrete = hlevel

instance abbrev pub workflow_state_eq : Eq WorkflowState
workflow_state_eq = discrete_eq WorkflowState-discrete

pub data TaskStatus : Type 0 where
  pending ready leased running succeeded failed timed_out cancelled blocked : TaskStatus
  reconciled : TaskStatus

unfoldable pub TaskStatus-discrete : Discrete TaskStatus
TaskStatus-discrete = hlevel

instance abbrev pub task_status_eq : Eq TaskStatus
task_status_eq = discrete_eq TaskStatus-discrete

pub data PrincipalType : Type 0 where
  human agent service integration : PrincipalType

unfoldable pub PrincipalType-discrete : Discrete PrincipalType
PrincipalType-discrete = hlevel

instance abbrev pub principal_type_eq : Eq PrincipalType
principal_type_eq = discrete_eq PrincipalType-discrete

pub data AgentRole : Type 0 where
  architect reviewer implementer test_agent security_agent documentation_agent : AgentRole
  orchestrator human_approver auditor ide_integration ci_integration : AgentRole
  remote_agent_integration : AgentRole

unfoldable pub AgentRole-discrete : Discrete AgentRole
AgentRole-discrete = hlevel

instance abbrev pub agent_role_eq : Eq AgentRole
agent_role_eq = discrete_eq AgentRole-discrete

pub data Capability : Type 0 where
  submit_workflow read_workflow cancel_workflow lease_task produce_plan : Capability
  review_architecture implement_change run_tests run_security_review : Capability
  run_code_review approve_merge approve_deployment read_audit : Capability
  disposition_workflow reconcile_execution claim_ide_task heartbeat_ide_task : Capability
  submit_ide_evidence submit_ci_evidence propose_pull_request : Capability
  assess_merge_readiness reconcile_git_operation confirm_git_merge : Capability
  manage_deployment_environments create_deployment_plan execute_deployment : Capability
  approve_rollback execute_rollback read_deployment create_evaluation : Capability
  submit_evaluation_evidence read_evaluation execute_evaluation : Capability
  validate_evaluation reconcile_evaluation plan_evaluation_repair : Capability
  recover_evaluation promote_evaluation dispatch_remote_agent : Capability

unfoldable pub Capability-discrete : Discrete Capability
Capability-discrete = hlevel

instance abbrev pub capability_eq : Eq Capability
capability_eq = discrete_eq Capability-discrete

pub data ApprovalAction : Type 0 where
  merge deploy rollback : ApprovalAction

unfoldable pub ApprovalAction-discrete : Discrete ApprovalAction
ApprovalAction-discrete = hlevel

instance abbrev pub approval_action_eq : Eq ApprovalAction
approval_action_eq = discrete_eq ApprovalAction-discrete

pub data ApprovalDecision : Type 0 where
  approved rejected : ApprovalDecision

unfoldable pub ApprovalDecision-discrete : Discrete ApprovalDecision
ApprovalDecision-discrete = hlevel

instance abbrev pub approval_decision_eq : Eq ApprovalDecision
approval_decision_eq = discrete_eq ApprovalDecision-discrete

pub data DispositionDecision : Type 0 where
  resume_contained reject : DispositionDecision

unfoldable pub DispositionDecision-discrete : Discrete DispositionDecision
DispositionDecision-discrete = hlevel

instance abbrev pub disposition_decision_eq : Eq DispositionDecision
disposition_decision_eq = discrete_eq DispositionDecision-discrete

pub data ReconciliationDecision : Type 0 where
  retry fail : ReconciliationDecision

unfoldable pub ReconciliationDecision-discrete : Discrete ReconciliationDecision
ReconciliationDecision-discrete = hlevel

instance abbrev pub reconciliation_decision_eq : Eq ReconciliationDecision
reconciliation_decision_eq = discrete_eq ReconciliationDecision-discrete

pub data TaskKind : Type 0 where
  plan architecture_review implement test security_review code_review : TaskKind

unfoldable pub TaskKind-discrete : Discrete TaskKind
TaskKind-discrete = hlevel

instance abbrev pub task_kind_eq : Eq TaskKind
task_kind_eq = discrete_eq TaskKind-discrete

-- The exception classes that the modelled code raises. The text of a message is not modelled.
-- `value_error` and `assertion_error` are Python's own.
pub data Error : Type 0 where
  authorization_error invalid_transition_error conflict_error not_found_error : Error
  validation_error provider_review_rejected_error value_error : Error
  integration_disabled_error deployment_outcome_unknown_error : Error
  deployment_verification_error assertion_error : Error

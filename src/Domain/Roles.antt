-- ===== src/Domain/Roles.antt =====
-- domain.py: the capabilities of each role, and what each kind of task requires.
use eldridge.Prelude.{List, [], ◌∷◌}
use eldridge.Domain.Types.{AgentRole, Capability, TaskKind}

-- `ROLE_CAPABILITIES`
unfoldable pub role_capabilities : AgentRole → List Capability
role_capabilities AgentRole.architect = Capability.produce_plan ∷ Capability.read_workflow ∷ []
role_capabilities AgentRole.reviewer =
    Capability.review_architecture ∷ Capability.run_code_review ∷ Capability.read_workflow ∷ []
role_capabilities AgentRole.implementer =
    Capability.implement_change ∷ Capability.read_workflow ∷ []
role_capabilities AgentRole.test_agent = Capability.run_tests ∷ Capability.read_workflow ∷ []
role_capabilities AgentRole.security_agent =
    Capability.run_security_review ∷ Capability.read_workflow ∷ []
role_capabilities AgentRole.documentation_agent = Capability.read_workflow ∷ []
role_capabilities AgentRole.orchestrator = Capability.lease_task ∷ Capability.read_workflow ∷ []
role_capabilities AgentRole.human_approver =
    Capability.submit_workflow ∷ Capability.read_workflow ∷ Capability.cancel_workflow
    ∷ Capability.approve_merge ∷ Capability.approve_deployment ∷ Capability.read_audit
    ∷ Capability.disposition_workflow ∷ Capability.reconcile_execution
    ∷ Capability.propose_pull_request ∷ Capability.assess_merge_readiness
    ∷ Capability.reconcile_git_operation ∷ Capability.confirm_git_merge
    ∷ Capability.manage_deployment_environments ∷ Capability.create_deployment_plan
    ∷ Capability.execute_deployment ∷ Capability.approve_rollback ∷ Capability.execute_rollback
    ∷ Capability.read_deployment ∷ Capability.create_evaluation
    ∷ Capability.submit_evaluation_evidence ∷ Capability.read_evaluation
    ∷ Capability.execute_evaluation ∷ Capability.validate_evaluation
    ∷ Capability.reconcile_evaluation ∷ Capability.plan_evaluation_repair
    ∷ Capability.recover_evaluation ∷ Capability.promote_evaluation
    ∷ Capability.dispatch_remote_agent ∷ []
role_capabilities AgentRole.auditor =
    Capability.read_workflow ∷ Capability.read_audit ∷ Capability.read_deployment
    ∷ Capability.read_evaluation ∷ []
role_capabilities AgentRole.ide_integration =
    Capability.claim_ide_task ∷ Capability.heartbeat_ide_task ∷ Capability.submit_ide_evidence ∷ []
role_capabilities AgentRole.ci_integration = Capability.submit_ci_evidence ∷ []
role_capabilities AgentRole.remote_agent_integration = []

-- `TASK_CAPABILITY`
unfoldable pub task_capability : TaskKind → Capability
task_capability TaskKind.plan = Capability.produce_plan
task_capability TaskKind.architecture_review = Capability.review_architecture
task_capability TaskKind.implement = Capability.implement_change
task_capability TaskKind.test = Capability.run_tests
task_capability TaskKind.security_review = Capability.run_security_review
task_capability TaskKind.code_review = Capability.run_code_review

-- `TASK_ROLE`
unfoldable pub task_role : TaskKind → AgentRole
task_role TaskKind.plan = AgentRole.architect
task_role TaskKind.architecture_review = AgentRole.reviewer
task_role TaskKind.implement = AgentRole.implementer
task_role TaskKind.test = AgentRole.test_agent
task_role TaskKind.security_review = AgentRole.security_agent
task_role TaskKind.code_review = AgentRole.reviewer

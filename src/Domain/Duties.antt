-- ===== src/Domain/Duties.antt =====
-- Separation of duties in the tables of domain.py (`ROLE_CAPABILITIES`, `TASK_ROLE`,
-- `TASK_CAPABILITY`).
use eldridge.Prelude.{◌≡◌, refl, true, false, List, [], ◌∷◌, arith, contains}
use eldridge.Domain.Types.{AgentRole, Capability, capability_eq, Capability-discrete, TaskKind}
use eldridge.Domain.Roles.{role_capabilities, task_capability, task_role}

-- The capabilities by which a person decides, or changes something outside the control plane.
privileged : List Capability
privileged =
    Capability.submit_workflow ∷ Capability.cancel_workflow ∷ Capability.approve_merge
    ∷ Capability.approve_deployment ∷ Capability.approve_rollback ∷ Capability.disposition_workflow
    ∷ Capability.reconcile_execution ∷ Capability.reconcile_git_operation
    ∷ Capability.confirm_git_merge ∷ Capability.propose_pull_request ∷ Capability.execute_deployment
    ∷ Capability.execute_rollback ∷ Capability.manage_deployment_environments
    ∷ Capability.promote_evaluation ∷ Capability.dispatch_remote_agent ∷ []

privileged_role :
    (r : AgentRole) (c : Capability)
    → contains c privileged ≡ true
    → contains c (role_capabilities r) ≡ true
    → r ≡ AgentRole.human_approver
unfolding role_capabilities privileged Capability-discrete
privileged_role AgentRole.human_approver c p h = refl
privileged_role _ c p h = ground arith

-- The role of every kind of task holds the capability that the task requires; the role that
-- holds `LEASE_TASK` holds the capability of no kind of task; and a capability of the list
-- `privileged` is held by `HUMAN_APPROVER` alone.
duties :
    ((k : TaskKind) → contains (task_capability k) (role_capabilities (task_role k)) ≡ true)
    × ((r : AgentRole) (k : TaskKind)
        → contains Capability.lease_task (role_capabilities r) ≡ true
        → contains (task_capability k) (role_capabilities r) ≡ false)
    × ((r : AgentRole) (c : Capability)
        → contains c privileged ≡ true
        → contains c (role_capabilities r) ≡ true
        → r ≡ AgentRole.human_approver)
unfolding role_capabilities task_capability task_role Capability-discrete
duties = (λ k. ground arith, λ r k h. ground arith, privileged_role)

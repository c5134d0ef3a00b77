-- ===== src/Deployment/Plans/Limits.antt =====
-- deployment_recovery.py: which deployment plans are made.
use eldridge.Prelude.{
  ℕ, String, true, ◌≡◌, contains, len, all_chars, has_char, after_prefix, some, string_eq,
  option_eq,
}
use eldridge.Domain.{WorkflowState, workflow_state_eq}
use eldridge.Persistence.Json.{Fields}
use eldridge.Persistence.{Session, Workflow, DeploymentEnvironment, DeploymentPlanRecord, get_elem?}
use eldridge.Env.{Env}
use eldridge.Tasks.History.Transition.{moved}
use eldridge.Deployment.Plans.{PlanRequest}
use eldridge.Routing.Sort.{All}
use eldridge.Persistence.Json.{Fields}
use eldridge.Deployment.Adapter.{field_text}
use eldridge.Deployment.Consent.{IsListed}
use eldridge.Deployment.Plans.Lists.{IsWithin}

-- `sha256:` and 64 hexadecimal digits.
abbrev pub IsDigest : String → Type 0
IsDigest d =
    (suffix : String) × (after_prefix "sha256:" d ≡ some suffix)
    × (len suffix ≡ 64)
    × (all_chars (has_char "0123456789abcdef") suffix ≡ true)

-- The plan stays within its environment.
abbrev pub IsInScope : Env → PlanRequest → Workflow → DeploymentEnvironment → Type 0
IsInScope env r w e =
    (w.repository_scope ≡ some e.repository)
    × All (λ o. contains (env.strip (field_text env "resource_id" o)) e.resource_scope ≡ true)
        r.operations
    × IsWithin r.verification_probes e.verification_policy
    × (env.strip r.rollback_reference ≡ e.rollback_policy)

-- The row says what was asked for, in this environment and at this revision.
abbrev pub IsPlanOf :
    Env → PlanRequest → DeploymentEnvironment → String → DeploymentPlanRecord → Type 0
IsPlanOf env r e revision row =
    (row.workflow_id ≡ r.workflow_id)
    × (row.environment_id ≡ r.environment_id)
    × (row.actor_id ≡ r.actor_id)
    × (row.revision ≡ revision)
    × (row.operations ≡ r.operations)
    × (row.verification_probes ≡ r.verification_probes)
    × (row.rollback_reference ≡ env.strip r.rollback_reference)
    × (row.policy_version ≡ e.policy_version)

-- What a new plan starts from, and what it leaves.
pub record IsPlanned (env : Env) (r : PlanRequest) (s t : Session) (w : Workflow) (id : ℕ)
    : Type 0 where
  pub environment : DeploymentEnvironment
  pub revision : String
  pub merged : w.state ≡ WorkflowState.merged
  pub confirmed : w.merged_revision ≡ some revision
  pub named : IsListed r.environment_id s environment
  pub active : environment.active ≡ true
  pub in_scope : IsInScope env r w environment
  pub row : DeploymentPlanRecord
  pub recorded : get_elem? t.deployment_plans id ≡ some row
  pub says : IsPlanOf env r environment revision row
  pub waits :
      get_elem? t.workflows r.workflow_id
      ≡ some (moved WorkflowState.awaiting_deployment_approval w)

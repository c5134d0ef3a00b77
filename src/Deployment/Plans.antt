-- ===== src/Deployment/Plans.antt =====
-- deployment_recovery.py: `create_deployment_plan`.
pub mod Lists
pub mod Limits
use eldridge.Prelude.{
  ℕ, String, Bool, true, false, ◌&&◌, ◌||◌, negate, List, [], ◌∷◌, Option, none, some, ◌==◌, ◌!=◌,
  nat_eq, string_eq, option_eq, contains, ltb, len, all_chars, has_char, after_prefix,
}
use eldridge.Domain.{WorkflowState, WorkflowState-discrete, workflow_state_eq, Capability, Error}
use eldridge.Result.{Begun}
use eldridge.Routing.{all_distinct, text_lt}
use eldridge.Routing.Sort.{sort_by}
use eldridge.Persistence.Json.{Json, Fields, fields, texts, text_or_null}
use eldridge.Persistence.{
  Workflow, DeploymentEnvironment, DeploymentPlanRecord, length, keyed, select_first,
}
use eldridge.Env.{Env, digest}
use eldridge.Tx.{Tx, pure, gets, lift, or_raise, raise_if, ◌>>=◌, ◌>>◌}
use eldridge.Policy.{unscoped, authorize}
use eldridge.Tasks.Store.{get_workflow}
use eldridge.Tasks.Steps.{transition}
use eldridge.Tasks.Human.{is_blank}
use eldridge.Git.Store.{present}
use eldridge.Deployment.Adapter.{DeploymentAdapter, field_text}
use eldridge.Deployment.Store.{
  Deployments, add_plan, find_environment, plan_value, objects, any_bad_item,
}

-- The keyword arguments of `create_deployment_plan`.
pub record PlanRequest : Type 0 where
  pub workflow_id : ℕ
  pub actor_id : String
  pub environment_id : String
  pub artifact_digests : List String
  pub operations : List Fields
  pub declared_impact : String
  pub verification_probes : List String
  pub rollback_reference : String
  pub idempotency_key : String

unfoldable pub is_hex : Option String → Bool
is_hex none = false
is_hex (some suffix) = len suffix == 64 && all_chars (has_char "0123456789abcdef") suffix

-- `_is_sha256_digest`; a text of these characters is its own `lower()`.
unfoldable pub is_sha256_digest : String → Bool
unfolding is_hex
is_sha256_digest value = is_hex (after_prefix "sha256:" value)

unfoldable pub all_digests : List String → Bool
all_digests [] = true
all_digests (x ∷ xs) = is_sha256_digest x && all_digests xs

-- `set(items).issubset(set(scope))`
unfoldable pub subset : List String → List String → Bool
subset [] scope = true
subset (x ∷ xs) scope = contains x scope && subset xs scope

-- `{str(operation.get("resource_id", "")).strip() for operation in operations}`
unfoldable pub operation_resources : Env → List Fields → List String
operation_resources env [] = []
operation_resources env (o ∷ os) =
    env.strip (field_text env "resource_id" o) ∷ operation_resources env os

-- The tests before the transaction.
unfoldable pub check_plan : Env → PlanRequest → Tx (Unit {0})
unfolding all_distinct all_digests is_blank
check_plan env r = do
  raise_if
      (is_blank env r.idempotency_key
        || (is_blank env r.declared_impact || is_blank env r.rollback_reference))
      Error.validation_error
  raise_if
      (ltb 128 (len r.idempotency_key)
        || (ltb 4000 (len r.declared_impact)
            || (ltb 256 (len r.rollback_reference)
                || (ltb 100 (length r.artifact_digests)
                    || (ltb 100 (length r.operations)
                        || (ltb 100 (length r.verification_probes)
                            || any_bad_item env r.verification_probes))))))
      Error.validation_error
  raise_if (length r.artifact_digests == 0 || negate (all_distinct r.artifact_digests))
      Error.validation_error
  raise_if (length r.operations == 0 || length r.verification_probes == 0) Error.validation_error
  raise_if (negate (all_digests r.artifact_digests)) Error.validation_error

-- `request_payload`
unfoldable pub plan_fields : Env → PlanRequest → DeploymentEnvironment → Option String → Fields
unfolding text_lt
plan_fields env r environment revision = fields (
    ("workflow_id", Json.number r.workflow_id)
    ∷ ("environment_id", Json.text r.environment_id)
    ∷ ("environment_config_digest", Json.text environment.config_digest)
    ∷ ("revision", text_or_null revision)
    ∷ ("artifact_digests", Json.array (texts (sort_by text_lt r.artifact_digests)))
    ∷ ("operations", Json.array (objects r.operations))
    ∷ ("declared_impact", Json.text (env.strip r.declared_impact))
    ∷ ("verification_probes", Json.array (texts r.verification_probes))
    ∷ ("rollback_reference", Json.text (env.strip r.rollback_reference))
    ∷ ("policy_version", Json.text environment.policy_version)
    ∷ [])

unfoldable pub plan_digest : Env → PlanRequest → DeploymentEnvironment → Option String → String
unfolding plan_fields
plan_digest env r environment revision = digest env (plan_fields env r environment revision)

unfoldable pub plan_record :
    Env → PlanRequest → DeploymentEnvironment → String → DeploymentPlanRecord
unfolding plan_digest text_lt
plan_record env r environment revision = record {
  workflow_id = r.workflow_id;
  environment_id = r.environment_id;
  actor_id = r.actor_id;
  idempotency_key = r.idempotency_key;
  request_digest = plan_digest env r environment (some revision);
  revision = revision;
  artifact_digests = sort_by text_lt r.artifact_digests;
  operations = r.operations;
  declared_impact = env.strip r.declared_impact;
  verification_probes = r.verification_probes;
  rollback_reference = env.strip r.rollback_reference;
  policy_version = environment.policy_version;
  digest = plan_digest env r environment (some revision);
}

-- What the environment permits of a plan.
unfoldable pub check_scope : Env → PlanRequest → Workflow → DeploymentEnvironment → Tx (Unit {0})
unfolding subset operation_resources
check_scope env r workflow environment = do
  raise_if (workflow.repository_scope != some environment.repository) Error.conflict_error
  raise_if (negate (subset (operation_resources env r.operations) environment.resource_scope))
      Error.authorization_error
  raise_if (negate (subset r.verification_probes environment.verification_policy))
      Error.authorization_error
  raise_if (env.strip r.rollback_reference != environment.rollback_policy) Error.conflict_error

unfoldable pub replay_or_plan :
    Env
    → Deployments
    → PlanRequest
    → Workflow
    → DeploymentEnvironment
    → Option (ℕ × DeploymentPlanRecord)
    → Tx Begun
unfolding check_scope plan_record plan_digest plan_value WorkflowState-discrete
replay_or_plan env d r workflow environment (some x) = do
  raise_if (x.1.request_digest != plan_digest env r environment workflow.merged_revision)
      Error.conflict_error
  pure (Begun.replayed x.0)
replay_or_plan env d r workflow environment none = do
  raise_if (workflow.state != WorkflowState.merged) Error.invalid_transition_error
  revision ← present workflow.merged_revision Error.conflict_error
  check_scope env r workflow environment
  id ← gets (λ s. length s.deployment_plans)
  adapter ← or_raise (d.adapter_of environment.adapter_id) Error.authorization_error
  lift (adapter.validate_plan (plan_value id (plan_record env r environment revision)))
  add_plan (plan_record env r environment revision)
  transition env r.workflow_id WorkflowState.awaiting_deployment_approval r.actor_id
      "immutable deployment plan created for confirmed merge revision"
      (fields (
        ("deployment_plan_id", Json.number id)
        ∷ ("environment_id", Json.text r.environment_id)
        ∷ ("plan_digest", Json.text (plan_digest env r environment (some revision)))
        ∷ ("revision", Json.text revision)
        ∷ ("simulated", Json.boolean (negate adapter.requires_credentials))
        ∷ []))
  pure (Begun.started id)

-- `session.get(...)` of an environment that is active
unfoldable pub active_environment : String → Error → Tx DeploymentEnvironment
active_environment id e = do
  found ← find_environment id
  environment ← or_raise found e
  raise_if (negate environment.active) e
  pure environment

-- `create_deployment_plan`
unfoldable pub create_deployment_plan : Env → Deployments → PlanRequest → Tx Begun
unfolding check_plan replay_or_plan active_environment
create_deployment_plan env d r = do
  check_plan env r
  authorize env r.actor_id Capability.create_deployment_plan unscoped true
  workflow ← get_workflow r.workflow_id
  existing ← gets (λ s.
      select_first
        (λ (x : ℕ × DeploymentPlanRecord).
          x.1.actor_id == r.actor_id && x.1.idempotency_key == r.idempotency_key)
        (keyed s.deployment_plans))
  environment ← active_environment r.environment_id Error.not_found_error
  replay_or_plan env d r workflow environment existing

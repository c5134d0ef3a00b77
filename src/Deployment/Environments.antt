-- ===== src/Deployment/Environments.antt =====
-- deployment_recovery.py: `register_deployment_environment`.
pub mod Limits
use eldridge.Prelude.{
  ℕ, String, Bool, true, false, ◌&&◌, ◌||◌, negate, List, [], ◌∷◌, Option, none, some, ◌==◌, ◌!=◌,
  string_eq, contains, ltb, len, all_chars, has_char, if◌then◌else◌,
}
use eldridge.Domain.{Capability, Error}
use eldridge.Routing.{all_distinct, text_lt}
use eldridge.Routing.Sort.{sort_by}
use eldridge.Persistence.Json.{Json, Fields, fields, texts}
use eldridge.Persistence.{DeploymentEnvironment, length}
use eldridge.Env.{Env, digest}
use eldridge.Tx.{Tx, pure, or_raise, raise_if, ◌>>=◌, ◌>>◌}
use eldridge.Policy.{unscoped, authorize}
use eldridge.Deployment.Types.{
  EnvironmentClassification, EnvironmentClassification-discrete, environment_classification_eq,
  environment_classification_value,
}
use eldridge.Deployment.Adapter.{DeploymentAdapter}
use eldridge.Deployment.Store.{Deployments, add_environment, find_environment, any_bad_item}

-- The keyword arguments of `register_deployment_environment`.
pub record EnvironmentRequest : Type 0 where
  pub actor_id : String
  pub environment_id : String
  pub name : String
  pub classification : EnvironmentClassification
  pub repository : String
  pub base_branch : String
  pub resource_scope : List String
  pub required_checks : List String
  pub required_attestations : List String
  pub verification_policy : List String
  pub rollback_policy : String
  pub policy_version : String
  pub provider : String
  pub account_scope : String
  pub region : String
  pub adapter_id : String

-- `set(items)`
unfoldable pub unique : List String → List String
unique [] = []
unique (x ∷ xs) = let rest = unique xs in if contains x rest then rest else x ∷ rest

-- `sorted(set(items))`
unfoldable pub sorted_set : List String → List String
unfolding unique text_lt
sorted_set xs = sort_by text_lt (unique xs)

-- `values`, as it is hashed
unfoldable pub environment_fields : Env → EnvironmentRequest → Fields
unfolding environment_classification_value sorted_set
environment_fields env r = fields (
    ("environment_id", Json.text (env.strip r.environment_id))
    ∷ ("name", Json.text (env.strip r.name))
    ∷ ("classification", Json.text (environment_classification_value r.classification))
    ∷ ("provider", Json.text (env.strip r.provider))
    ∷ ("account_scope", Json.text (env.strip r.account_scope))
    ∷ ("region", Json.text (env.strip r.region))
    ∷ ("resource_scope", Json.array (texts (sorted_set r.resource_scope)))
    ∷ ("adapter_id", Json.text (env.strip r.adapter_id))
    ∷ ("policy_version", Json.text (env.strip r.policy_version))
    ∷ ("repository", Json.text (env.strip r.repository))
    ∷ ("base_branch", Json.text (env.strip r.base_branch))
    ∷ ("required_checks", Json.array (texts (sorted_set r.required_checks)))
    ∷ ("required_attestations", Json.array (texts (sorted_set r.required_attestations)))
    ∷ ("verification_policy", Json.array (texts r.verification_policy))
    ∷ ("rollback_policy", Json.text (env.strip r.rollback_policy))
    ∷ [])

-- `DeploymentEnvironment(...)`
unfoldable pub environment_of : Env → EnvironmentRequest → DeploymentEnvironment
unfolding sorted_set environment_fields
environment_of env r = record {
  id = env.strip r.environment_id;
  name = env.strip r.name;
  classification = r.classification;
  provider = env.strip r.provider;
  account_scope = env.strip r.account_scope;
  region = env.strip r.region;
  resource_scope = sorted_set r.resource_scope;
  adapter_id = env.strip r.adapter_id;
  policy_version = env.strip r.policy_version;
  repository = env.strip r.repository;
  base_branch = env.strip r.base_branch;
  required_checks = sorted_set r.required_checks;
  required_attestations = sorted_set r.required_attestations;
  verification_policy = r.verification_policy;
  rollback_policy = env.strip r.rollback_policy;
  config_digest = digest env (environment_fields env r);
  active = true;
  created_by = r.actor_id;
}

-- `not all(values[key] for key in ...)`
unfoldable pub is_incomplete : Env → EnvironmentRequest → Bool
is_incomplete env r = contains "" (
    env.strip r.environment_id
    ∷ env.strip r.name
    ∷ env.strip r.repository
    ∷ env.strip r.base_branch
    ∷ env.strip r.policy_version
    ∷ env.strip r.rollback_policy
    ∷ [])

unfoldable pub exceeds_boundary : EnvironmentRequest → Bool
exceeds_boundary r =
    ltb 128 (len r.environment_id)
    || (ltb 200 (len r.name)
        || (ltb 500 (len r.repository)
            || (ltb 200 (len r.base_branch)
                || (ltb 64 (len r.policy_version)
                    || (ltb 256 (len r.rollback_policy)
                        || negate (
                            all_chars (has_char "abcdefghijklmnopqrstuvwxyz0123456789._-")
                              r.environment_id))))))

-- A collection of more than 100 items, or with an item that is blank or too long.
unfoldable pub bad_collection : Env → List String → Bool
bad_collection env items = ltb 100 (length items) || any_bad_item env items

-- What an adapter asks of an environment: with credentials the local target, else none.
unfoldable pub check_adapter_target :
    Deployments → EnvironmentRequest → DeploymentAdapter → Tx (Unit {0})
unfolding EnvironmentClassification-discrete
check_adapter_target d r adapter =
    if adapter.requires_credentials
    then raise_if
        (negate d.enable_local_deployment
          || (r.classification != EnvironmentClassification.development
              || (r.provider != "local-k3d"
                  || (r.account_scope != "local" || r.region != "local"))))
        Error.authorization_error
    else raise_if (r.provider != "dry-run" || (r.account_scope != "none" || r.region != "none"))
        Error.authorization_error

-- The tests before the transaction.
unfoldable pub check_environment : Env → Deployments → EnvironmentRequest → Tx (Unit {0})
unfolding is_incomplete exceeds_boundary bad_collection check_adapter_target all_distinct
    EnvironmentClassification-discrete
check_environment env d r = do
  raise_if (is_incomplete env r) Error.validation_error
  raise_if (exceeds_boundary r) Error.validation_error
  raise_if
      (bad_collection env r.resource_scope
        || (bad_collection env r.required_checks
            || (bad_collection env r.required_attestations
                || bad_collection env r.verification_policy)))
      Error.validation_error
  raise_if (negate (all_distinct r.resource_scope)) Error.validation_error
  raise_if
      (negate (all_distinct r.required_checks) || negate (all_distinct r.required_attestations))
      Error.validation_error
  raise_if (negate (all_distinct r.verification_policy)) Error.validation_error
  raise_if (r.classification == EnvironmentClassification.production) Error.authorization_error
  adapter ← or_raise (d.adapter_of r.adapter_id) Error.authorization_error
  check_adapter_target d r adapter

unfoldable pub bind_environment :
    Env → EnvironmentRequest → Option DeploymentEnvironment → Tx DeploymentEnvironment
unfolding environment_of environment_fields
bind_environment env r none = do add_environment (environment_of env r); pure (environment_of env r)
bind_environment env r (some e) = do
  raise_if (e.config_digest != digest env (environment_fields env r)) Error.conflict_error
  pure e

-- `register_deployment_environment`
unfoldable pub register_deployment_environment :
    Env → Deployments → EnvironmentRequest → Tx DeploymentEnvironment
unfolding check_environment bind_environment
register_deployment_environment env d r = do
  check_environment env d r
  authorize env r.actor_id Capability.manage_deployment_environments unscoped true
  existing ← find_environment r.environment_id
  bind_environment env r existing

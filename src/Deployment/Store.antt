-- ===== src/Deployment/Store.antt =====
-- deployment_recovery.py: its rows, its settings, and `_deployment_plan_value`.
use eldridge.Prelude.{
  ℕ, String, Bool, false, ◌||◌, List, [], ◌∷◌, Option, ◌==◌, string_eq, ltb, len,
}
use eldridge.Result.{ok}
use eldridge.Persistence.Json.{Json, Items, Fields}
use eldridge.Persistence.{
  DeploymentEnvironment, DeploymentPlanRecord, DeploymentAttemptRecord,
  DeploymentVerificationRecord, DeploymentRollbackRecord, append_row, length, modify, select_first,
}
use eldridge.Env.{Env}
use eldridge.Tx.{Tx, gets}
use eldridge.Deployment.Types.{DeploymentPlan}
use eldridge.Deployment.Adapter.{DeploymentAdapter}

-- The attributes of `DeploymentRecoveryService`. `has_session_broker` is whether there is a broker
-- factory, or the broker is a `CredentialSessionBroker`.
pub record Deployments : Type 0 where
  pub adapter_of : String → Option DeploymentAdapter
  pub enable_local_deployment : Bool
  pub has_session_broker : Bool

unfoldable pub add_environment : DeploymentEnvironment → Tx (Unit {0})
add_environment e s = ok (tt, record s { environments = append_row s.environments e })

unfoldable pub add_plan : DeploymentPlanRecord → Tx (Unit {0})
add_plan p s = ok (tt, record s { deployment_plans = append_row s.deployment_plans p })

unfoldable pub add_deployment_attempt : DeploymentAttemptRecord → Tx ℕ
add_deployment_attempt a s = ok (
  length s.deployment_attempts,
  record s { deployment_attempts = append_row s.deployment_attempts a },
)

unfoldable pub set_deployment_attempt :
    ℕ → (DeploymentAttemptRecord → DeploymentAttemptRecord) → Tx (Unit {0})
set_deployment_attempt id f s =
    ok (tt, record s { deployment_attempts = modify id f s.deployment_attempts })

unfoldable pub add_verification : DeploymentVerificationRecord → Tx (Unit {0})
add_verification v s = ok (tt, record s { verifications = append_row s.verifications v })

unfoldable pub add_rollback : DeploymentRollbackRecord → Tx ℕ
add_rollback r s = ok (length s.rollbacks, record s { rollbacks = append_row s.rollbacks r })

unfoldable pub set_rollback :
    ℕ → (DeploymentRollbackRecord → DeploymentRollbackRecord) → Tx (Unit {0})
set_rollback id f s = ok (tt, record s { rollbacks = modify id f s.rollbacks })

-- `session.get(DeploymentEnvironment, environment_id)`
unfoldable pub find_environment : String → Tx (Option DeploymentEnvironment)
find_environment id = gets (λ s. select_first (λ e. e.id == id) s.environments)

-- `_deployment_plan_value`
unfoldable pub plan_value : ℕ → DeploymentPlanRecord → DeploymentPlan
plan_value id p = record {
  plan_id = id;
  workflow_id = p.workflow_id;
  environment_id = p.environment_id;
  revision = p.revision;
  artifact_digests = p.artifact_digests;
  operations = p.operations;
  verification_probes = p.verification_probes;
  rollback_reference = p.rollback_reference;
  policy_version = p.policy_version;
  digest = p.digest;
}

-- A list of dicts.
unfoldable pub objects : List Fields → Items
objects [] = Items.end
objects (o ∷ os) = Items.item (Json.object o) (objects os)

-- `not item.strip() or len(item) > 256`
unfoldable pub is_bad_item : Env → String → Bool
is_bad_item env item = env.strip item == "" || ltb 256 (len item)

unfoldable pub any_bad_item : Env → List String → Bool
unfolding is_bad_item
any_bad_item env [] = false
any_bad_item env (x ∷ xs) = is_bad_item env x || any_bad_item env xs

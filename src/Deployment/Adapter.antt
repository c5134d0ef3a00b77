-- ===== src/Deployment/Adapter.antt =====
-- deployment.py: what the service knows of an adapter, and `DryRunDeploymentAdapter`.
use eldridge.Prelude.{
  ℕ, String, Bool, true, false, ◌&&◌, ◌||◌, negate, List, [], ◌∷◌, some, ◌==◌, string_eq, option_eq,
  contains, ltb, len, text_append, if◌then◌else◌,
}
use eldridge.Domain.{Error}
use eldridge.Result.{Result, ok, err, ◌>>=◌, ◌>>◌, raise_if}
use eldridge.Persistence.{length}
use eldridge.Persistence.Json.{Json, Fields, fields, texts}
use eldridge.Env.{Env, text_at}
use eldridge.Deployment.Types.{
  DeploymentPlan, DeploymentExecution, DeploymentObservation, DeploymentVerification,
  CredentialedRun,
}

-- `DeploymentAdapter` and `CredentialedDeploymentAdapter`: the attributes that both have, and
-- whether the adapter is a `RecoverableDeploymentAdapter`.
pub record DeploymentAdapter : Type 0 where
  pub adapter_id : String
  pub requires_credentials : Bool
  pub is_recoverable : Bool
  pub validate_plan : DeploymentPlan → Result (Unit {0})

-- `str(operation.get(key, ""))`
unfoldable pub field_text : Env → String → Fields → String
field_text env k Fields.done = ""
field_text env k (Fields.field j (Json.text v) fs) =
    let rest = field_text env k fs in if j == k then v else rest
field_text env k (Fields.field j v fs) =
    let rest = field_text env k fs in if j == k then env.repr v else rest

-- `set(operation) - keys` is empty
unfoldable pub keys_within : List String → Fields → Bool
keys_within keys Fields.done = true
keys_within keys (Fields.field k v fs) = contains k keys && keys_within keys fs

-- The values of `DeploymentOperationKind`.
abbrev pub operation_kinds : List String
operation_kinds = "VERIFY_ARTIFACT" ∷ "APPLY_RELEASE" ∷ "UPDATE_SERVICE" ∷ []

unfoldable pub validate_operation : Env → DeploymentPlan → Fields → Result (Unit {0})
unfolding field_text keys_within
validate_operation env plan operation = do
  raise_if (negate (contains (field_text env "kind" operation) operation_kinds))
      Error.validation_error
  raise_if (negate (keys_within ("kind" ∷ "resource_id" ∷ "artifact_digest" ∷ []) operation))
      Error.validation_error
  let resource_id = env.strip (field_text env "resource_id" operation)
  raise_if (resource_id == "" || ltb 256 (len resource_id)) Error.validation_error
  raise_if (negate (contains (field_text env "artifact_digest" operation) plan.artifact_digests))
      Error.validation_error

unfoldable pub validate_operations : Env → DeploymentPlan → List Fields → Result (Unit {0})
validate_operations env plan [] = ok tt
validate_operations env plan (o ∷ os) =
    validate_operation env plan o >> validate_operations env plan os

-- `validate_plan`
unfoldable pub validate_plan : Env → DeploymentPlan → Result (Unit {0})
validate_plan env plan = elim plan.operations [
  | [] ↦ err Error.validation_error
  | o ∷ os ↦ validate_operations env plan (o ∷ os)
]

-- `execute`
unfoldable pub execute : Env → DeploymentPlan → ℕ → Result DeploymentExecution
execute env plan idempotency_key = do
  validate_plan env plan
  ok (record {
    operation_reference =
        text_append "dry-run:"
          (text_append plan.digest (text_append ":" (env.repr (Json.number idempotency_key))));
    simulated = true;
    changed = false;
    evidence = fields (
        ("adapter_id", Json.text "dry-run-v1")
        ∷ ("credential_requested", Json.boolean false)
        ∷ ("external_target_contacted", Json.boolean false)
        ∷ ("operation_count", Json.number (length plan.operations))
        ∷ ("plan_digest", Json.text plan.digest)
        ∷ []);
  })

-- `observe`
unfoldable pub observe : DeploymentPlan → DeploymentExecution → Result DeploymentObservation
observe plan execution = do
  raise_if (negate execution.simulated || execution.changed) Error.validation_error
  ok (record {
    observed_revision = plan.revision;
    evidence = fields (
        ("simulated", Json.boolean true)
        ∷ ("external_target_contacted", Json.boolean false)
        ∷ ("observed_plan_digest", Json.text plan.digest)
        ∷ []);
  })

-- `verify`
unfoldable pub verify : DeploymentPlan → DeploymentObservation → DeploymentVerification
verify plan observation =
    let revision_matches = observation.observed_revision == plan.revision in
    let digest_matches = text_at "observed_plan_digest" observation.evidence == some plan.digest in
    record {
      passed = revision_matches && digest_matches;
      observed_revision = observation.observed_revision;
      evidence = fields (
          ("simulated", Json.boolean true)
          ∷ ("revision_matches", Json.boolean revision_matches)
          ∷ ("plan_digest_matches", Json.boolean digest_matches)
          ∷ ("probes", Json.array (texts plan.verification_probes))
          ∷ []);
    }

-- The three calls of `execute_deployment_dry_run`.
unfoldable pub dry_run : Env → DeploymentPlan → ℕ → Result CredentialedRun
unfolding execute observe verify
dry_run env plan key = do
  execution ← execute env plan key
  observation ← observe plan execution
  ok (record {
    execution = execution;
    observation = observation;
    verification = verify plan observation;
  })

abbrev pub dry_run_adapter : Env → DeploymentAdapter
dry_run_adapter env = record {
  adapter_id = "dry-run-v1";
  requires_credentials = false;
  is_recoverable = false;
  validate_plan = validate_plan env;
}

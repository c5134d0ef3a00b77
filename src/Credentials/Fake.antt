-- ===== src/Credentials/Fake.antt =====
-- credentials.py: `DenyCredentialBroker` and `FakeCredentialBroker`.
use eldridge.Prelude.{
  ℕ, ◌+◌, String, true, ◌||◌, negate, List, [], ◌∷◌, ◌==◌, ◌!=◌, string_eq, nat_eq, contains, ltb,
  text_append,
}
use eldridge.Domain.{Error}
use eldridge.Result.{Result, ok, err, ◌>>◌, raise_if}
use eldridge.Routing.{all_distinct, text_lt}
use eldridge.Routing.Sort.{sort_by}
use eldridge.Persistence.{length}
use eldridge.Persistence.Json.{Json, Fields, fields, texts}
use eldridge.Env.{Env, digest}
use eldridge.Deployment.Plans.{subset}
use eldridge.Credentials.Types.{
  CredentialOperation, CredentialOperation-discrete, credential_operation_eq,
  credential_operation_value, WorkloadCredentialRequest, WorkloadCredentialHandle, is_sha256,
}

-- `DenyCredentialBroker.issue`
unfoldable pub deny_issue : WorkloadCredentialRequest → Result WorkloadCredentialHandle
deny_issue request = err Error.authorization_error

pub record FakeCredentialBroker : Type 0 where
  pub environment_id : String
  pub adapter_id : String
  pub audience : String
  pub subject : String
  pub resource_scope : List String
  pub allowed_operations : List CredentialOperation
  pub max_lifetime_seconds : ℕ

-- `__init__`: the broker with the given attributes, if they make a policy
unfoldable pub fake_broker : Env → FakeCredentialBroker → Result FakeCredentialBroker
fake_broker env b = do
  raise_if
      (contains "" (
        env.strip b.environment_id
        ∷ env.strip b.adapter_id
        ∷ env.strip b.audience
        ∷ env.strip b.subject
        ∷ []))
      Error.validation_error
  raise_if (length b.resource_scope == 0 || length b.allowed_operations == 0) Error.validation_error
  raise_if (ltb b.max_lifetime_seconds 1 || ltb 900 b.max_lifetime_seconds) Error.validation_error
  ok b

-- `_authorize`
unfoldable pub authorize_fake : FakeCredentialBroker → WorkloadCredentialRequest → Result (Unit {0})
unfolding CredentialOperation-discrete is_sha256 all_distinct subset
authorize_fake b r = do
  raise_if (r.environment_id != b.environment_id) Error.authorization_error
  raise_if (r.adapter_id != b.adapter_id) Error.authorization_error
  raise_if (r.audience != b.audience || r.subject != b.subject) Error.authorization_error
  raise_if (negate (contains r.operation b.allowed_operations)) Error.authorization_error
  raise_if (length r.resource_scope == 0 || negate (all_distinct r.resource_scope))
      Error.validation_error
  raise_if (negate (subset r.resource_scope b.resource_scope)) Error.authorization_error
  raise_if (ltb r.lifetime_seconds 1 || ltb b.max_lifetime_seconds r.lifetime_seconds)
      Error.authorization_error
  raise_if (negate (is_sha256 r.plan_digest)) Error.validation_error

-- `request_payload`
request_fields : Env → WorkloadCredentialRequest → Fields
unfolding credential_operation_value
request_fields env r = fields (
    ("environment_id", Json.text r.environment_id)
    ∷ ("adapter_id", Json.text r.adapter_id)
    ∷ ("plan_digest", Json.text r.plan_digest)
    ∷ ("operation", Json.text (credential_operation_value r.operation))
    ∷ ("audience", Json.text r.audience)
    ∷ ("subject", Json.text r.subject)
    ∷ ("resource_scope", Json.array (texts r.resource_scope))
    ∷ ("lifetime_seconds", Json.number r.lifetime_seconds)
    ∷ ("issued_at", Json.number env.now)
    ∷ [])

-- `issue`
unfoldable pub fake_issue :
    Env → FakeCredentialBroker → WorkloadCredentialRequest → Result WorkloadCredentialHandle
unfolding authorize_fake request_fields text_lt
fake_issue env b r = do
  authorize_fake b r
  ok (record {
    reference = text_append "fake-credential:" (digest env (request_fields env r));
    broker_id = "fake-local-v1";
    environment_id = r.environment_id;
    plan_digest = r.plan_digest;
    operation = r.operation;
    audience = r.audience;
    subject = r.subject;
    resource_scope = sort_by text_lt r.resource_scope;
    issued_at = env.now;
    expires_at = env.now + r.lifetime_seconds;
    simulated = true;
  })

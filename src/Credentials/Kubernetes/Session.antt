-- ===== src/Credentials/Kubernetes/Session.antt =====
-- credentials.py: what `KubernetesTokenRequestBroker` does with a token, and its factory.
use eldridge.Prelude.{
  String, Bool, true, false, ◌&&◌, negate, List, [], ◌∷◌, string_eq, nat_eq, option_eq, contains,
  text_append, if◌then◌else◌,
}
use eldridge.Domain.{Error}
use eldridge.Result.{Result, ok, err, ◌>>=◌, ◌>>◌, raise_if}
use eldridge.Routing.{text_lt}
use eldridge.Routing.Sort.{sort_by}
use eldridge.Env.{Env}
use eldridge.Credentials.Types.{
  CredentialOperation, CredentialOperation-discrete, credential_operation_eq,
  WorkloadCredentialRequest, WorkloadCredentialHandle, is_sha256,
}
use eldridge.Credentials.Kubernetes.{
  TokenService, KubernetesTokenRequestBroker, subject_of, kubernetes_broker, authorize_kubernetes,
  or_error, validate_claims, decode_jwt_claims,
}

-- The end of `_issue_material`, from the token.
unfoldable pub issue_token :
    Env
    → TokenService
    → KubernetesTokenRequestBroker
    → WorkloadCredentialRequest
    → String
    → Result (String × WorkloadCredentialHandle)
unfolding validate_claims decode_jwt_claims text_lt
issue_token env service b r token = do
  claims ← decode_jwt_claims service token
  (issued, expires) ← validate_claims env b claims
  ok (
    token,
    record {
      reference = text_append "kubernetes-token:" service.uuid;
      broker_id = "kubernetes-token-request-v1";
      environment_id = r.environment_id;
      plan_digest = r.plan_digest;
      operation = r.operation;
      audience = r.audience;
      subject = r.subject;
      resource_scope = sort_by text_lt r.resource_scope;
      issued_at = issued;
      expires_at = expires;
      simulated = false;
    },
  )

-- `_issue_material`
unfoldable pub issue_material :
    Env
    → TokenService
    → KubernetesTokenRequestBroker
    → WorkloadCredentialRequest
    → Result (String × WorkloadCredentialHandle)
unfolding authorize_kubernetes issue_token or_error
issue_material env service b r = do
  raise_if (negate b.enabled) Error.authorization_error
  authorize_kubernetes b r
  token ←
      or_error (service.create_token b.namespace b.service_account b.audience b.lifetime_seconds)
        Error.validation_error
  issue_token env service b r token

-- `issue`
unfoldable pub kubernetes_issue :
    Env
    → TokenService
    → KubernetesTokenRequestBroker
    → WorkloadCredentialRequest
    → Result WorkloadCredentialHandle
unfolding issue_material
kubernetes_issue env service b r = do (token, handle) ← issue_material env service b r; ok handle

-- The exceptions that `run` lets through, where their text does not hold the token.
unfoldable pub is_passed_on : Error → Bool
is_passed_on Error.deployment_outcome_unknown_error = true
is_passed_on Error.deployment_verification_error = true
is_passed_on Error.validation_error = true
is_passed_on _ = false

module _ {A : Type 0} (shows : A → String → Bool) (tells : Error → String → Bool) where
  -- `token in repr(result)` and `token in str(exc)`
  unfoldable pub guarded :
      String → WorkloadCredentialHandle → Result A → Result (WorkloadCredentialHandle × A)
  unfolding is_passed_on
  guarded token handle (ok result) =
      if shows result token then err Error.validation_error else ok (handle, result)
  guarded token handle (err e) =
      if is_passed_on e && negate (tells e token) then err e else err Error.validation_error

  -- `run`
  unfoldable pub kubernetes_run :
      Env
      → TokenService
      → KubernetesTokenRequestBroker
      → WorkloadCredentialRequest
      → (String → WorkloadCredentialHandle → Result A)
      → Result (WorkloadCredentialHandle × A)
  unfolding guarded issue_material
  kubernetes_run env service b r consumer = do
    (token, handle) ← issue_material env service b r
    guarded token handle (consumer token handle)

-- The attributes of `KubernetesTokenRequestBrokerFactory`: a broker without a plan and an operation
-- of its own, and the operations that are allowed.
pub record KubernetesTokenRequestBrokerFactory : Type 0 where
  pub policy : KubernetesTokenRequestBroker
  pub allowed_operations : List CredentialOperation

-- `for_request`
unfoldable pub for_request :
    Env
    → TokenService
    → KubernetesTokenRequestBrokerFactory
    → WorkloadCredentialRequest
    → Result KubernetesTokenRequestBroker
unfolding kubernetes_broker is_sha256 CredentialOperation-discrete
for_request env service f r = do
  raise_if (negate (is_sha256 r.plan_digest)) Error.validation_error
  raise_if (negate (contains r.operation f.allowed_operations)) Error.authorization_error
  kubernetes_broker env service
      (record f.policy { plan_digest = r.plan_digest; operation = r.operation })

-- `__init__`: the factory with the given attributes, if it makes a broker for its first operation
unfoldable pub kubernetes_broker_factory :
    Env
    → TokenService
    → KubernetesTokenRequestBrokerFactory
    → Result KubernetesTokenRequestBrokerFactory
unfolding for_request subject_of
kubernetes_broker_factory env service f = elim f.allowed_operations [
  | [] ↦ err Error.validation_error
  | o ∷ os ↦ (do
    broker ← for_request env service f (record {
      environment_id = f.policy.environment_id;
      adapter_id = f.policy.adapter_id;
      plan_digest = "0000000000000000000000000000000000000000000000000000000000000000";
      operation = o;
      audience = f.policy.audience;
      subject = subject_of f.policy.namespace f.policy.service_account;
      resource_scope = f.policy.resource_scope;
      lifetime_seconds = f.policy.lifetime_seconds;
    })
    ok f)
]

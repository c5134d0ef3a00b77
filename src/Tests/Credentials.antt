-- ===== src/Tests/Credentials.antt =====
-- Runs of credentials.py.
use eldridge.Prelude.{
  ◌≡◌, refl, ℕ, ◌+◌, ◌≤◌, String, Bool, true, false, [], ◌∷◌, some, all_chars, has_char,
  text_append,
}
use eldridge.Domain.{Error}
use eldridge.Result.{Result, ok}
use eldridge.Routing.{all_distinct, text_lt}
use eldridge.Routing.Sort.{sort_by, insert_sorted}
use eldridge.Persistence.Json.{Json, Fields, fields, join, texts}
use eldridge.Env.{digest, text_at}
use eldridge.Deployment.Plans.{subset}
use eldridge.Deployment.Rollbacks.{object_at}
use eldridge.Credentials.Types.{
  CredentialOperation, CredentialOperation-discrete, WorkloadCredentialRequest,
  WorkloadCredentialHandle, is_sha256,
}
use eldridge.Credentials.Fake.{FakeCredentialBroker, fake_broker, authorize_fake, fake_issue}
use eldridge.Credentials.Kubernetes.{
  TokenService, KubernetesTokenRequestBroker, subject_of, same_texts, authorize_kubernetes,
  is_audience, value_at, number_of, is_truthy, or_error, validate_times, validate_claims,
  decode_jwt_claims,
}
use eldridge.Credentials.Kubernetes.Session.{issue_token, issue_material, guarded, kubernetes_run}
use eldridge.Credentials.Limits.{IsPermitted, fake_credential_is_limited}
use eldridge.Credentials.Limits.Claims.{IsBound, IsExact}
use eldridge.Credentials.Containment.{kubernetes_run_contains_token}
use eldridge.Tests.Data.{noon}
use eldridge.Tests.Data.Releases.{hex}

abbrev fake : FakeCredentialBroker
fake = record {
  environment_id = "local";
  adapter_id = "k3d";
  audience = "api";
  subject = "deployer";
  resource_scope = "web" ∷ [];
  allowed_operations = CredentialOperation.apply_plan ∷ [];
  max_lifetime_seconds = 600;
}

abbrev asks : WorkloadCredentialRequest
asks = record {
  environment_id = "local";
  adapter_id = "k3d";
  plan_digest = hex;
  operation = CredentialOperation.apply_plan;
  audience = "api";
  subject = "deployer";
  resource_scope = "web" ∷ [];
  lifetime_seconds = 300;
}

abbrev issued : WorkloadCredentialHandle
issued = record {
  reference = "fake-credential:{}";
  broker_id = "fake-local-v1";
  environment_id = "local";
  plan_digest = hex;
  operation = CredentialOperation.apply_plan;
  audience = "api";
  subject = "deployer";
  resource_scope = "web" ∷ [];
  issued_at = 1000;
  expires_at = 1300;
  simulated = true;
}

fake_credential_is_limited_example :
    IsPermitted fake asks
    × (issued.simulated ≡ true)
    × (issued.plan_digest ≡ hex)
    × (issued.issued_at + 1 ≤ issued.expires_at)
    × (issued.expires_at ≤ issued.issued_at + 900)
unfolding fake_broker fake_issue authorize_fake CredentialOperation-discrete is_sha256 all_distinct
    subset digest text_lt sort_by insert_sorted all_chars has_char text_append fields join texts
fake_credential_is_limited_example = fake_credential_is_limited noon fake fake asks issued refl refl

abbrev account : Fields
account =
    Fields.field "name" (Json.text "deployer") (Fields.field "uid" (Json.text "u") Fields.done)

abbrev claims : Fields
claims = Fields.field "aud" (Json.text "api") (
    Fields.field "sub" (Json.text "system:serviceaccount:apps:deployer") (
      Fields.field "iss" (Json.text "cluster") (
        Fields.field "kubernetes.io"
          (Json.object (
            Fields.field "namespace" (Json.text "apps")
              (Fields.field "serviceaccount" (Json.object account) Fields.done)))
          (Fields.field "iat" (Json.number 1000)
            (Fields.field "exp" (Json.number 1600) Fields.done)))))

abbrev tokens : TokenService
tokens = record {
  create_token = λ namespace service_account audience duration. some "a.b.c";
  is_name = λ s. true;
  split = λ s. "a" ∷ "b" ∷ "c" ∷ [];
  decode = λ s. some claims;
  uuid = "1";
}

abbrev broker : KubernetesTokenRequestBroker
broker = record {
  environment_id = "local";
  adapter_id = "k3d";
  plan_digest = hex;
  namespace = "apps";
  service_account = "deployer";
  audience = "api";
  issuer = "cluster";
  resource_scope = "web" ∷ [];
  operation = CredentialOperation.apply_plan;
  enabled = true;
  lifetime_seconds = 600;
}

abbrev exact : WorkloadCredentialRequest
exact = record asks { subject = "system:serviceaccount:apps:deployer"; lifetime_seconds = 600 }

abbrev bearer : WorkloadCredentialHandle
bearer = record issued {
  reference = "kubernetes-token:1";
  broker_id = "kubernetes-token-request-v1";
  subject = "system:serviceaccount:apps:deployer";
  expires_at = 1600;
  simulated = false;
}

-- A consumer that counts, and whose results show nothing.
abbrev hides : ℕ → String → Bool
hides n token = false

abbrev silent : Error → String → Bool
silent e token = false

abbrev consumer : String → WorkloadCredentialHandle → Result ℕ
consumer token handle = ok 3

kubernetes_run_contains_token_example :
    (broker.enabled ≡ true)
    × IsExact broker exact
    × ((token : String) × (c : Fields) × (decode_jwt_claims tokens token ≡ ok c)
        × IsBound noon broker c bearer.issued_at bearer.expires_at
        × (consumer token bearer ≡ ok 3)
        × (hides 3 token ≡ false))
unfolding kubernetes_run issue_material authorize_kubernetes issue_token decode_jwt_claims
    validate_claims validate_times is_audience value_at number_of is_truthy or_error object_at
    text_at subject_of same_texts guarded CredentialOperation-discrete text_lt sort_by insert_sorted
    text_append
kubernetes_run_contains_token_example =
    kubernetes_run_contains_token hides silent noon tokens broker exact consumer (bearer, 3) refl

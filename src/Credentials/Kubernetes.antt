-- ===== src/Credentials/Kubernetes.antt =====
-- credentials.py: `KubernetesTokenRequestBroker` and its factory. The token service, the decoding
-- of base64 and JSON, the drawing of a UUID, `repr` and `str` are parameters.
pub mod Session
use eldridge.Prelude.{
  ℕ, ◌+◌, ◌-◌, String, Bool, true, false, ◌&&◌, ◌||◌, negate, List, [], ◌∷◌, Option, none, some,
  ◌==◌, ◌!=◌, string_eq, nat_eq, option_eq, contains, ltb, leb, len, text_append, if◌then◌else◌,
}
use eldridge.Domain.{Error}
use eldridge.Result.{Result, ok, err, ◌>>=◌, ◌>>◌, raise_if}
use eldridge.Routing.{all_distinct, text_lt}
use eldridge.Routing.Sort.{sort_by}
use eldridge.Persistence.{length}
use eldridge.Persistence.Json.{Json, Fields, Items}
use eldridge.Env.{Env, text_at}
use eldridge.Deployment.Rollbacks.{object_at}
use eldridge.Credentials.Types.{
  CredentialOperation, CredentialOperation-discrete, credential_operation_eq,
  WorkloadCredentialRequest, WorkloadCredentialHandle, is_sha256,
}

-- What the broker calls outside the repository. `is_name` is the match of the pattern for names in
-- `_is_kubernetes_name`, `split` is `token.split(".")`, and `decode` is the decoding of the middle
-- part of a token, if it is a dict.
pub record TokenService : Type 0 where
  pub create_token : (namespace service_account audience : String) (duration : ℕ) → Option String
  pub is_name : String → Bool
  pub split : String → List String
  pub decode : String → Option Fields
  pub uuid : String

pub record KubernetesTokenRequestBroker : Type 0 where
  pub environment_id : String
  pub adapter_id : String
  pub plan_digest : String
  pub namespace : String
  pub service_account : String
  pub audience : String
  pub issuer : String
  pub resource_scope : List String
  pub operation : CredentialOperation
  pub enabled : Bool
  pub lifetime_seconds : ℕ

-- `self.subject`
unfoldable pub subject_of : (namespace service_account : String) → String
subject_of namespace service_account =
    text_append "system:serviceaccount:" (text_append namespace (text_append ":" service_account))

-- `_is_kubernetes_name`
unfoldable pub is_kubernetes_name : TokenService → String → Bool
is_kubernetes_name service value = leb (len value) 63 && service.is_name value

-- `__init__`: the broker with the given attributes, if they make a policy
unfoldable pub kubernetes_broker :
    Env → TokenService → KubernetesTokenRequestBroker → Result KubernetesTokenRequestBroker
unfolding is_kubernetes_name is_sha256 all_distinct text_lt
kubernetes_broker env service b = do
  raise_if
      (contains "" (
        env.strip b.environment_id
        ∷ env.strip b.adapter_id
        ∷ env.strip b.plan_digest
        ∷ env.strip b.namespace
        ∷ env.strip b.service_account
        ∷ env.strip b.audience
        ∷ env.strip b.issuer
        ∷ []))
      Error.validation_error
  raise_if
      (negate (is_kubernetes_name service b.namespace)
        || negate (is_kubernetes_name service b.service_account))
      Error.validation_error
  raise_if (length b.resource_scope == 0 || negate (all_distinct b.resource_scope))
      Error.validation_error
  raise_if (b.lifetime_seconds != 600) Error.validation_error
  raise_if (negate (is_sha256 b.plan_digest)) Error.validation_error
  ok (record b { resource_scope = sort_by text_lt b.resource_scope })

-- `==` of lists of texts
unfoldable pub same_texts : List String → List String → Bool
same_texts [] [] = true
same_texts [] (y ∷ ys) = false
same_texts (x ∷ xs) [] = false
same_texts (x ∷ xs) (y ∷ ys) = x == y && same_texts xs ys

-- `_authorize`
unfoldable pub authorize_kubernetes :
    KubernetesTokenRequestBroker → WorkloadCredentialRequest → Result (Unit {0})
unfolding CredentialOperation-discrete same_texts subject_of text_lt
authorize_kubernetes b r = do
  raise_if (r.environment_id != b.environment_id) Error.authorization_error
  raise_if (r.adapter_id != b.adapter_id) Error.authorization_error
  raise_if (r.audience != b.audience || r.subject != subject_of b.namespace b.service_account)
      Error.authorization_error
  raise_if (r.operation != b.operation) Error.authorization_error
  raise_if (negate (same_texts (sort_by text_lt r.resource_scope) b.resource_scope))
      Error.authorization_error
  raise_if (r.lifetime_seconds != b.lifetime_seconds) Error.authorization_error
  raise_if (r.plan_digest != b.plan_digest) Error.authorization_error

-- What stands under a key.
unfoldable pub value_at : String → Fields → Option Json
value_at k Fields.done = none
value_at k (Fields.field j v fs) = let rest = value_at k fs in if j == k then some v else rest

-- `audiences == [self.audience]`, of a text or of a list
unfoldable pub is_audience : String → Option Json → Bool
is_audience audience (some (Json.text t)) = t == audience
is_audience audience (some (Json.array (Items.item (Json.text t) Items.end))) = t == audience
is_audience audience _ = false

-- A number that is no Boolean; the numbers of the model are not negative.
unfoldable pub number_of : Option Json → Option ℕ
number_of (some (Json.number n)) = some n
number_of _ = none

-- `bool(value)`
unfoldable pub is_truthy : Option Json → Bool
is_truthy none = false
is_truthy (some Json.null) = false
is_truthy (some (Json.boolean b)) = b
is_truthy (some (Json.number n)) = n != 0
is_truthy (some (Json.text t)) = t != ""
is_truthy (some (Json.array Items.end)) = false
is_truthy (some (Json.array _)) = true
is_truthy (some (Json.object Fields.done)) = false
is_truthy (some (Json.object _)) = true

unfoldable pub or_error : {A : Type 0} → Option A → Error → Result A
or_error none e = err e
or_error (some a) e = ok a

-- The last second that `datetime.fromtimestamp` takes.
abbrev pub latest_timestamp : ℕ
latest_timestamp = 253402300799

-- The end of `_validate_claims`, from the two times that the claims name.
unfoldable pub validate_times : Env → (lifetime : ℕ) → (iat exp : Option ℕ) → Result (ℕ × ℕ)
unfolding or_error
validate_times env lifetime iat exp = do
  issued ← or_error iat Error.validation_error
  expires ← or_error exp Error.validation_error
  raise_if (expires != issued + lifetime) Error.authorization_error
  raise_if (ltb latest_timestamp expires) Error.validation_error
  raise_if (ltb 60 (env.now - issued) || (ltb 60 (issued - env.now) || leb expires env.now))
      Error.authorization_error
  ok (issued, expires)

-- `_validate_claims`: when the credential was issued and when it expires
unfoldable pub validate_claims : Env → KubernetesTokenRequestBroker → Fields → Result (ℕ × ℕ)
unfolding is_audience number_of is_truthy value_at or_error object_at text_at subject_of
    validate_times
validate_claims env b claims = do
  raise_if
      (negate (is_audience b.audience (value_at "aud" claims))
        || (text_at "sub" claims != some (subject_of b.namespace b.service_account)
            || text_at "iss" claims != some b.issuer))
      Error.authorization_error
  workload ← or_error (object_at "kubernetes.io" claims) Error.authorization_error
  raise_if (text_at "namespace" workload != some b.namespace) Error.authorization_error
  account ← or_error (object_at "serviceaccount" workload) Error.authorization_error
  raise_if
      (text_at "name" account != some b.service_account
        || negate (is_truthy (value_at "uid" account)))
      Error.authorization_error
  validate_times env b.lifetime_seconds (number_of (value_at "iat" claims))
      (number_of (value_at "exp" claims))

-- `_decode_jwt_claims`
unfoldable pub decode_jwt_claims : TokenService → String → Result Fields
unfolding or_error
decode_jwt_claims service token = middle (service.split token)
  where
    middle : List String → Result Fields
    middle (a ∷ (b ∷ (c ∷ []))) = do
      raise_if (contains "" (a ∷ b ∷ c ∷ [])) Error.validation_error
      or_error (service.decode b) Error.validation_error
    middle _ = err Error.validation_error

-- ===== src/Credentials/Limits.antt =====
-- credentials.py: which credentials are issued, and for how long.
pub mod Claims
use eldridge.Prelude.{
  all_chars, has_char, len, ℕ, ap, inl, inr, ◌⊎◌, and-true, List, ◌+◌, ◌-◌, ◌≤◌, ◌<◌, String, Bool,
  true, false, ◌||◌, negate, [], ◌∷◌, Option, none, some, ◌==◌, ◌!=◌, string_eq, nat_eq, option_eq,
  contains, ltb, leb, ◌≡◌, refl, arith, or-false, unequal-false, negate-false,
}
use eldridge.Domain.{Error}
use eldridge.Result.{ok, raise_if}
use eldridge.Result.Inversion.{test-ok, chain-ok, value-ok}
use eldridge.Routing.{all_distinct, text_lt}
use eldridge.Routing.Sort.{sort_by}
use eldridge.Persistence.{length}
use eldridge.Persistence.Json.{Json, Fields, Items}
use eldridge.Env.{Env, text_at}
use eldridge.Deployment.Plans.{subset}
use eldridge.Deployment.Rollbacks.{object_at}
use eldridge.Deployment.Plans.Lists.{IsDistinct, all_distinct-IsDistinct, IsWithin, subset-IsWithin}
use eldridge.Credentials.Types.{
  WorkloadCredentialRequest, WorkloadCredentialHandle, credential_operation_eq, is_sha256,
}
use eldridge.Credentials.Fake.{FakeCredentialBroker, fake_broker, authorize_fake, fake_issue}
use eldridge.Credentials.Kubernetes.{
  TokenService, KubernetesTokenRequestBroker, is_audience, value_at, number_of, same_texts,
  subject_of, or_error, validate_claims, validate_times, latest_timestamp, authorize_kubernetes,
  decode_jwt_claims,
}
use eldridge.Credentials.Kubernetes.Session.{issue_token, issue_material}

-- What the policy of the broker permits.
pub record IsPermitted (b : FakeCredentialBroker) (r : WorkloadCredentialRequest) : Type 0 where
  pub environment : r.environment_id ≡ b.environment_id
  pub adapter : r.adapter_id ≡ b.adapter_id
  pub audience : r.audience ≡ b.audience
  pub subject : r.subject ≡ b.subject
  pub operation : contains r.operation b.allowed_operations ≡ true
  pub distinct : IsDistinct r.resource_scope
  pub scope : IsWithin r.resource_scope b.resource_scope
  pub at_least : 1 ≤ r.lifetime_seconds
  pub at_most : r.lifetime_seconds ≤ b.max_lifetime_seconds
  pub size : len r.plan_digest ≡ 64
  pub digits : all_chars (has_char "0123456789abcdef") r.plan_digest ≡ true

within : (n m : ℕ) → ltb n m ≡ false → m ≤ n
within n m h = ground arith

end-ok : (c : Bool) (e : Error) (u : Unit {0}) → raise_if c e ≡ ok u → c ≡ false
end-ok true e u h = absurd (cc h)
end-ok false e u h = refl

is_sha256-ok :
    (d : String)
    → is_sha256 d ≡ true
    → (len d ≡ 64) × (all_chars (has_char "0123456789abcdef") d ≡ true)
unfolding is_sha256
is_sha256-ok d h =
    let (size, digits) = and-true (len d == 64) _ h in
    ((nat_eq.equals_iff (len d) 64).0 size, digits)

authorize_fake-ok :
    (b : FakeCredentialBroker) (r : WorkloadCredentialRequest) (u : Unit {0})
    → authorize_fake b r ≡ ok u
    → IsPermitted b r
unfolding authorize_fake
authorize_fake-ok b r u h =
    let (a1, h1) = test-ok _ _ _ _ h in
    let (a2, h2) = test-ok _ _ _ _ h1 in
    let (a3, h3) = test-ok _ _ _ _ h2 in
    let (a4, h4) = test-ok _ _ _ _ h3 in
    let (a5, h5) = test-ok _ _ _ _ h4 in
    let (a6, h6) = test-ok _ _ _ _ h5 in
    let (a7, h7) = test-ok _ _ _ _ h6 in
    let (aud, sub) = or-false _ _ a3 in
    let (low, high) = or-false _ _ a7 in
    let sha = is_sha256-ok r.plan_digest (negate-false _ (end-ok _ _ u h7)) in
    record {
      environment = unequal-false r.environment_id b.environment_id a1;
      adapter = unequal-false r.adapter_id b.adapter_id a2;
      audience = unequal-false r.audience b.audience aud;
      subject = unequal-false r.subject b.subject sub;
      operation = negate-false _ a4;
      distinct = all_distinct-IsDistinct r.resource_scope (negate-false _ (or-false _ _ a5).1);
      scope = subset-IsWithin r.resource_scope b.resource_scope (negate-false _ a6);
      at_least = within _ _ low;
      at_most = within _ _ high;
      size = sha.0;
      digits = sha.1;
    }

fake_broker-ok :
    (env : Env) (b c : FakeCredentialBroker)
    → fake_broker env b ≡ ok c
    → (b.max_lifetime_seconds ≤ 900) × (c ≡ b)
unfolding fake_broker
fake_broker-ok env b c h =
    let blank = contains "" (
      env.strip b.environment_id
      ∷ env.strip b.adapter_id
      ∷ env.strip b.audience
      ∷ env.strip b.subject
      ∷ []) in
    let unused = length b.resource_scope == 0 || length b.allowed_operations == 0 in
    let low = ltb b.max_lifetime_seconds 1 in
    let (a1, h1) = test-ok blank Error.validation_error _ c h in
    let (a2, h2) = test-ok unused Error.validation_error _ c h1 in
    let (a3, h3) =
      test-ok (low || ltb 900 b.max_lifetime_seconds) Error.validation_error (ok b) c h2 in
    (within _ _ (or-false low _ a3).1, value-ok b c h3)

-- A handle that a constructed fake broker issues is for a request that its policy permits: bound to
-- its environment, adapter, audience and subject, an allowed operation, distinct resources of its
-- scope, and a plan digest of 64 hexadecimal digits. It carries the digest of that plan, is marked
-- as simulated, and expires between one second and fifteen minutes after it was issued.
pub fake_credential_is_limited :
    (env : Env) (b c : FakeCredentialBroker) (r : WorkloadCredentialRequest)
    (handle : WorkloadCredentialHandle)
    → fake_broker env b ≡ ok c
    → fake_issue env c r ≡ ok handle
    → IsPermitted b r
      × (handle.simulated ≡ true)
      × (handle.plan_digest ≡ r.plan_digest)
      × (handle.issued_at + 1 ≤ handle.expires_at)
      × (handle.expires_at ≤ handle.issued_at + 900)
unfolding fake_issue
fake_credential_is_limited env b c r handle made h =
    let (bounded, same) = fake_broker-ok env b c made in
    let (u, authorized, h') = chain-ok _ _ _ h in
    let permitted : IsPermitted b r = rw same at (authorize_fake-ok c r u authorized) in
    let at_most = permitted.at_most in
    let at_least = permitted.at_least in
    let e = value-ok _ handle h' in
    (
      permitted,
      rw e refl,
      rw e refl,
      rw e (omega (arith, at_least)),
      rw e (omega (arith, at_most, bounded)),
    )

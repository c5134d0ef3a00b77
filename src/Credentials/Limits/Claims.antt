-- ===== src/Credentials/Limits/Claims.antt =====
-- credentials.py: what the claims of a token must be, and for which requests it is issued.
use eldridge.Prelude.{
  ℕ, ap, inl, inr, ◌⊎◌, and-true, List, ◌+◌, ◌-◌, ◌≤◌, ◌<◌, String, true, false, ◌||◌, negate, [],
  ◌∷◌, Option, none, some, ◌==◌, ◌!=◌, string_eq, nat_eq, option_eq, ltb, leb, ◌≡◌, refl, arith,
  or-false, unequal-false, negate-false,
}
use eldridge.Domain.{Error}
use eldridge.Result.{ok}
use eldridge.Result.Inversion.{test-ok, chain-ok, value-ok}
use eldridge.Routing.{text_lt}
use eldridge.Routing.Sort.{sort_by}
use eldridge.Persistence.Json.{Json, Fields, Items}
use eldridge.Env.{Env, text_at}
use eldridge.Deployment.Rollbacks.{object_at}
use eldridge.Credentials.Types.{
  WorkloadCredentialRequest, WorkloadCredentialHandle, credential_operation_eq,
}
use eldridge.Credentials.Kubernetes.{
  TokenService, KubernetesTokenRequestBroker, is_audience, value_at, number_of, same_texts,
  subject_of, or_error, validate_claims, validate_times, latest_timestamp, authorize_kubernetes,
  decode_jwt_claims,
}
use eldridge.Credentials.Kubernetes.Session.{issue_token, issue_material}
use eldridge.Credentials.Limits.{end-ok, within}

-- The audience, or a list of it alone.
abbrev pub IsAudience : String → Option Json → Type 0
IsAudience audience v =
    (v ≡ some (Json.text audience))
    ⊎ (v ≡ some (Json.array (Items.item (Json.text audience) Items.end)))

is_audience-IsAudience : (a : String) (v : Option Json) → is_audience a v ≡ true → IsAudience a v
unfolding is_audience
is_audience-IsAudience a none h = absurd (cc h)
is_audience-IsAudience a (some Json.null) h = absurd (cc h)
is_audience-IsAudience a (some (Json.boolean b)) h = absurd (cc h)
is_audience-IsAudience a (some (Json.number n)) h = absurd (cc h)
is_audience-IsAudience a (some (Json.text t)) h =
    inl (ap (λ x. some (Json.text x)) ((string_eq.equals_iff t a).0 h))
is_audience-IsAudience a (some (Json.object o)) h = absurd (cc h)
is_audience-IsAudience a (some (Json.array Items.end)) h = absurd (cc h)
is_audience-IsAudience a (some (Json.array (Items.item Json.null js))) h = absurd (cc h)
is_audience-IsAudience a (some (Json.array (Items.item (Json.boolean b) js))) h = absurd (cc h)
is_audience-IsAudience a (some (Json.array (Items.item (Json.number n) js))) h = absurd (cc h)
is_audience-IsAudience a (some (Json.array (Items.item (Json.array k) js))) h = absurd (cc h)
is_audience-IsAudience a (some (Json.array (Items.item (Json.object o) js))) h = absurd (cc h)
is_audience-IsAudience a (some (Json.array (Items.item (Json.text t) (Items.item j js)))) h =
    absurd (cc h)
is_audience-IsAudience a (some (Json.array (Items.item (Json.text t) Items.end))) h = inr (
    ap (λ x. some (Json.array (Items.item (Json.text x) Items.end)))
      ((string_eq.equals_iff t a).0 h))

number_of-ok : (v : Option Json) (n : ℕ) → number_of v ≡ some n → v ≡ some (Json.number n)
unfolding number_of
number_of-ok none n h = absurd (cc h)
number_of-ok (some Json.null) n h = absurd (cc h)
number_of-ok (some (Json.boolean b)) n h = absurd (cc h)
number_of-ok (some (Json.number m)) n h = cc
number_of-ok (some (Json.text t)) n h = absurd (cc h)
number_of-ok (some (Json.array k)) n h = absurd (cc h)
number_of-ok (some (Json.object o)) n h = absurd (cc h)

-- The request is the one that the policy was made for.
pub record IsExact (b : KubernetesTokenRequestBroker) (r : WorkloadCredentialRequest) : Type 0 where
  pub environment : r.environment_id ≡ b.environment_id
  pub adapter : r.adapter_id ≡ b.adapter_id
  pub audience : r.audience ≡ b.audience
  pub subject : r.subject ≡ subject_of b.namespace b.service_account
  pub operation : r.operation ≡ b.operation
  pub scope : sort_by text_lt r.resource_scope ≡ b.resource_scope
  pub lifetime : r.lifetime_seconds ≡ b.lifetime_seconds
  pub plan : r.plan_digest ≡ b.plan_digest

same_texts-ok : (xs ys : List String) → same_texts xs ys ≡ true → xs ≡ ys
unfolding same_texts
same_texts-ok [] [] h = refl
same_texts-ok [] (y ∷ ys) h = absurd (cc h)
same_texts-ok (x ∷ xs) [] h = absurd (cc h)
same_texts-ok (x ∷ xs) (y ∷ ys) h =
    let (first, rest) = and-true (x == y) _ h in
    let e : x ≡ y = (string_eq.equals_iff x y).0 first in
    let es : xs ≡ ys = same_texts-ok xs ys rest in cc

authorize_kubernetes-ok :
    (b : KubernetesTokenRequestBroker) (r : WorkloadCredentialRequest) (u : Unit {0})
    → authorize_kubernetes b r ≡ ok u
    → IsExact b r
unfolding authorize_kubernetes
authorize_kubernetes-ok b r u h =
    let (a1, h1) = test-ok _ _ _ _ h in
    let (a2, h2) = test-ok _ _ _ _ h1 in
    let (a3, h3) = test-ok _ _ _ _ h2 in
    let (a4, h4) = test-ok _ _ _ _ h3 in
    let (a5, h5) = test-ok _ _ _ _ h4 in
    let (a6, h6) = test-ok _ _ _ _ h5 in
    let (aud, sub) = or-false _ _ a3 in
    record {
      environment = unequal-false r.environment_id b.environment_id a1;
      adapter = unequal-false r.adapter_id b.adapter_id a2;
      audience = unequal-false r.audience b.audience aud;
      subject = unequal-false r.subject (subject_of b.namespace b.service_account) sub;
      operation = unequal-false r.operation b.operation a4;
      scope = same_texts-ok (sort_by text_lt r.resource_scope) b.resource_scope (negate-false _ a5);
      lifetime = unequal-false r.lifetime_seconds b.lifetime_seconds a6;
      plan = unequal-false r.plan_digest b.plan_digest (end-ok _ _ u h6);
    }

-- What the claims of a token say that is accepted.
pub record IsBound (env : Env) (b : KubernetesTokenRequestBroker) (claims : Fields)
    (issued expires : ℕ) : Type 0 where
  pub workload : Fields
  pub account : Fields
  pub audience : IsAudience b.audience (value_at "aud" claims)
  pub issued_then : value_at "iat" claims ≡ some (Json.number issued)
  pub expires_then : value_at "exp" claims ≡ some (Json.number expires)
  pub subject : text_at "sub" claims ≡ some (subject_of b.namespace b.service_account)
  pub issuer : text_at "iss" claims ≡ some b.issuer
  pub names_workload : object_at "kubernetes.io" claims ≡ some workload
  pub namespace : text_at "namespace" workload ≡ some b.namespace
  pub names_account : object_at "serviceaccount" workload ≡ some account
  pub service_account : text_at "name" account ≡ some b.service_account
  pub lifetime : expires ≡ issued + b.lifetime_seconds
  pub not_stale : env.now ≤ issued + 60
  pub not_ahead : issued ≤ env.now + 60
  pub not_expired : env.now < expires

or_error-ok : {A : Type 0} (o : Option A) (e : Error) (a : A) → or_error o e ≡ ok a → o ≡ some a
unfolding or_error
or_error-ok none e a h = absurd (cc h)
or_error-ok (some x) e a h = cc

window :
    (now issued expires : ℕ)
    → (ltb 60 (now - issued) || (ltb 60 (issued - now) || leb expires now)) ≡ false
    → (now ≤ issued + 60) × (issued ≤ now + 60) × (now < expires)
window now issued expires h =
    let (stale, r) = or-false (ltb 60 (now - issued)) _ h in
    let (ahead, over) = or-false (ltb 60 (issued - now)) (leb expires now) r in
    (
      near now issued (within 60 (now - issued) stale),
      near issued now (within 60 (issued - now) ahead),
      later expires now over,
    )
  where
    near : (a b : ℕ) → a - b ≤ 60 → a ≤ b + 60
    near a b h = omega (arith, h)

    later : (a b : ℕ) → leb a b ≡ false → b < a
    later a b h = ground arith

-- What is accepted of the times that the claims name.
record IsTimely (env : Env) (seconds issued expires : ℕ) : Type 0 where
  pub lifetime : expires ≡ issued + seconds
  pub window : (env.now ≤ issued + 60) × (issued ≤ env.now + 60) × (env.now < expires)

validate_times-ok :
    (env : Env) (lifetime : ℕ) (iat exp : Option ℕ) (x : ℕ × ℕ)
    → validate_times env lifetime iat exp ≡ ok x
    → (iat ≡ some x.0) × (exp ≡ some x.1) × IsTimely env lifetime x.0 x.1
unfolding validate_times or_error
validate_times-ok env lifetime none exp x h = absurd (cc h)
validate_times-ok env lifetime (some issued) none x h = absurd (cc h)
validate_times-ok env lifetime (some issued) (some expires) x h =
    let off = ltb 60 (env.now - issued) || (ltb 60 (issued - env.now) || leb expires env.now) in
    let (a1, h1) = test-ok (expires != issued + lifetime) Error.authorization_error _ x h in
    let (a2, h2) = test-ok (ltb latest_timestamp expires) Error.validation_error _ x h1 in
    let (a3, h3) = test-ok off Error.authorization_error (ok (issued, expires)) x h2 in
    rw (value-ok (issued, expires) x h3) (
      refl,
      refl,
      record {
        lifetime = unequal-false expires (issued + lifetime) a1;
        window = window env.now issued expires a3;
      },
    )

validate_claims-ok :
    (env : Env) (b : KubernetesTokenRequestBroker) (claims : Fields) (x : ℕ × ℕ)
    → validate_claims env b claims ≡ ok x
    → IsBound env b claims x.0 x.1
unfolding validate_claims
validate_claims-ok env b claims x h =
    let (a1, h1) = test-ok _ _ _ _ h in
    let (workload, w, h2) = chain-ok _ _ _ h1 in
    let (a3, h3) = test-ok _ _ _ _ h2 in
    let (account, s, h4) = chain-ok _ _ _ h3 in
    let (a5, h5) = test-ok _ _ _ _ h4 in
    let (iat, exp, timely) = validate_times-ok env b.lifetime_seconds _ _ x h5 in
    let (aud, ids) = or-false _ _ a1 in
    let (sub, iss) = or-false _ _ ids in
    let (fresh, ahead, valid) = timely.window in
    record {
      workload = workload;
      account = account;
      audience = is_audience-IsAudience b.audience (value_at "aud" claims) (negate-false _ aud);
      issued_then = number_of-ok (value_at "iat" claims) x.0 iat;
      expires_then = number_of-ok (value_at "exp" claims) x.1 exp;
      subject = unequal-false (text_at "sub" claims) _ sub;
      issuer = unequal-false (text_at "iss" claims) _ iss;
      names_workload = or_error-ok _ _ workload w;
      namespace = unequal-false (text_at "namespace" workload) _ a3;
      names_account = or_error-ok _ _ account s;
      service_account = unequal-false (text_at "name" account) _ (or-false _ _ a5).0;
      lifetime = timely.lifetime;
      not_stale = fresh;
      not_ahead = ahead;
      not_expired = valid;
    }

issue_token-ok :
    (env : Env) (service : TokenService) (b : KubernetesTokenRequestBroker)
    (r : WorkloadCredentialRequest) (token : String) (x : String × WorkloadCredentialHandle)
    → issue_token env service b r token ≡ ok x
    → ((claims : Fields) × (decode_jwt_claims service x.0 ≡ ok claims)
        × IsBound env b claims x.1.issued_at x.1.expires_at)
      × (x.1.simulated ≡ false)
unfolding issue_token
issue_token-ok env service b r token x h =
    let (claims, c, h4) = chain-ok (decode_jwt_claims service token) _ x h in
    let (times, v, h5) = chain-ok (validate_claims env b claims) _ x h4 in
    let e = value-ok _ x h5 in
    let bound = validate_claims-ok env b claims times v in rw e ((claims, c, bound), refl)

pub issue_material-ok :
    (env : Env) (service : TokenService) (b : KubernetesTokenRequestBroker)
    (r : WorkloadCredentialRequest) (x : String × WorkloadCredentialHandle)
    → issue_material env service b r ≡ ok x
    → (b.enabled ≡ true)
      × IsExact b r
      × ((claims : Fields) × (decode_jwt_claims service x.0 ≡ ok claims)
          × IsBound env b claims x.1.issued_at x.1.expires_at)
      × (x.1.simulated ≡ false)
unfolding issue_material
issue_material-ok env service b r x h =
    let (a1, h1) = test-ok (negate b.enabled) Error.authorization_error _ x h in
    let (u, authorized, h2) = chain-ok (authorize_kubernetes b r) _ x h1 in
    let (token, t, h3) =
      chain-ok {A = String}
        (or_error (service.create_token b.namespace b.service_account b.audience b.lifetime_seconds)
          Error.validation_error)
        (issue_token env service b r) x h2 in
    let (bound, real) = issue_token-ok env service b r token x h3 in
    (negate-false b.enabled a1, authorize_kubernetes-ok b r u authorized, bound, real)

-- ===== src/Credentials/Containment.antt =====
-- credentials.py: what `KubernetesTokenRequestBroker` lets out.
use eldridge.Prelude.{String, Bool, true, false, ◌&&◌, negate, ◌≡◌, inl, inr, refl, Bool-cases}
use eldridge.Domain.{Error}
use eldridge.Result.{Result, ok, err}
use eldridge.Result.Inversion.{chain-ok, value-ok}
use eldridge.Persistence.Json.{Fields}
use eldridge.Env.{Env}
use eldridge.Credentials.Types.{WorkloadCredentialRequest, WorkloadCredentialHandle}
use eldridge.Credentials.Kubernetes.{TokenService, KubernetesTokenRequestBroker, decode_jwt_claims}
use eldridge.Credentials.Kubernetes.Session.{kubernetes_run, guarded, is_passed_on}
use eldridge.Credentials.Limits.Claims.{IsBound, IsExact, issue_material-ok}

module _ {A : Type 0} (shows : A → String → Bool) (tells : Error → String → Bool) where
  guarded-ok :
      (token : String) (handle : WorkloadCredentialHandle) (r : Result A)
      (x : WorkloadCredentialHandle × A)
      → guarded shows tells token handle r ≡ ok x
      → (x.0 ≡ handle) × (r ≡ ok x.1) × (shows x.1 token ≡ false)
  unfolding guarded
  guarded-ok token handle (ok result) x h = elim (Bool-cases (shows result token)) [
    | inl leaks ↦ let h' = rw leaks at h in absurd (cc h')
    | inr hides ↦
        let h' = rw hides at h in let e = value-ok (handle, result) x h' in rw e (refl, refl, hides)
  ]
  guarded-ok token handle (err e) x h =
      elim (Bool-cases (is_passed_on e && negate (tells e token))) [
        | inl passes ↦ let h' = rw passes at h in absurd (cc h')
        | inr stays ↦ let h' = rw stays at h in absurd (cc h')
      ]

  -- A run of the broker that returns was enabled, and its request was the one of the policy:
  -- environment, adapter, audience, subject, operation, resources, lifetime and plan digest. The
  -- token that its consumer was given claims the audience, the subject, the issuer, the namespace
  -- and the service account of the policy; it claims the times that the handle has, which are
  -- exactly the lifetime of the policy apart, and was valid at that moment with a clock that
  -- differs by at most a minute. What is returned is the handle and the consumer's result, and that
  -- result does not show the token.
  pub kubernetes_run_contains_token :
      (env : Env) (service : TokenService) (b : KubernetesTokenRequestBroker)
      (r : WorkloadCredentialRequest) (consumer : String → WorkloadCredentialHandle → Result A)
      (x : WorkloadCredentialHandle × A)
      → kubernetes_run shows tells env service b r consumer ≡ ok x
      → (b.enabled ≡ true)
        × IsExact b r
        × ((token : String) × (claims : Fields) × (decode_jwt_claims service token ≡ ok claims)
            × IsBound env b claims x.0.issued_at x.0.expires_at
            × (consumer token x.0 ≡ ok x.1)
            × (shows x.1 token ≡ false))
  unfolding kubernetes_run
  kubernetes_run_contains_token env service b r consumer x h =
      let ((token, handle), issued, h1) = chain-ok _ _ _ h in
      let (same, result, hides) = guarded-ok token handle (consumer token handle) x h1 in
      let (enabled, exact, (claims, decoded, bound), _) =
        issue_material-ok env service b r (token, handle) issued in
      rw same (enabled, exact, (token, claims, decoded, bound, result, hides))

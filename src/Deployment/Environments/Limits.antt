-- ===== src/Deployment/Environments/Limits.antt =====
-- deployment_recovery.py: which environments are registered.
use eldridge.Prelude.{
  ℕ, true, false, ◌≤◌, ltb, len, ◌≡◌, ◌≢◌, refl, ◌⊎◌, inl, inr, Option, none, some, ◌==◌, string_eq,
  arith, unequal-false, or-false, negate-false, Bool-cases,
}
use eldridge.Domain.{PrincipalType, Capability}
use eldridge.Result.{ok}
use eldridge.Persistence.{Session, Principal, DeploymentEnvironment}
use eldridge.Env.{Env, digest}
use eldridge.Tx.Inversion.{
  Reads, bind-ok, read-ok, gets-ok, raise_if-ok, raise_if-end, or_raise-ok, pure-ok,
}
use eldridge.Policy.{unscoped}
use eldridge.Policy.Decision.{IsAuthorized}
use eldridge.Tasks.Reading.{authorize-ok}
use eldridge.Deployment.Types.{EnvironmentClassification, environment_classification_eq}
use eldridge.Deployment.Adapter.{DeploymentAdapter}
use eldridge.Deployment.Store.{Deployments, find_environment}
use eldridge.Deployment.Environments.{
  EnvironmentRequest, environment_fields, environment_of, exceeds_boundary, check_adapter_target,
  check_environment, bind_environment, register_deployment_environment,
}
use eldridge.Persistence.{append_row, select_first}
use eldridge.Deployment.Store.{add_environment}
use eldridge.Deployment.Consent.{IsListed, environment-IsListed}
use eldridge.Deployment.Plans.Lists.{IsDistinct, all_distinct-IsDistinct}

-- An adapter with credentials reaches the local cluster alone; another reaches nothing.
abbrev pub IsReachable : Deployments → EnvironmentRequest → DeploymentAdapter → Type 0
IsReachable d r a =
    ((a.requires_credentials ≡ true)
      × (d.enable_local_deployment ≡ true)
      × (r.classification ≡ EnvironmentClassification.development)
      × (r.provider ≡ "local-k3d")
      × (r.account_scope ≡ "local")
      × (r.region ≡ "local"))
    ⊎ ((a.requires_credentials ≡ false)
        × (r.provider ≡ "dry-run")
        × (r.account_scope ≡ "none")
        × (r.region ≡ "none"))

check_adapter_target-ok :
    (d : Deployments) (r : EnvironmentRequest) (a : DeploymentAdapter) (s : Session)
    → Reads (check_adapter_target d r a) s (λ _. IsReachable d r a)
unfolding check_adapter_target
check_adapter_target-ok d r a s x t h = elim (Bool-cases a.requires_credentials) [
  | inl needs ↦
      let h' = rw needs at h in
      let (same, fine) = raise_if-end _ _ s x t h' in
      let (e1, r1) = or-false _ _ fine in
      let (e2, r2) = or-false _ _ r1 in
      let (e3, r3) = or-false _ _ r2 in
      let (e4, e5) = or-false _ _ r3 in
      (
        same,
        inl (
          needs,
          negate-false d.enable_local_deployment e1,
          unequal-false r.classification EnvironmentClassification.development e2,
          unequal-false r.provider "local-k3d" e3,
          unequal-false r.account_scope "local" e4,
          unequal-false r.region "local" e5,
        ),
      )
  | inr free ↦
      let h' = rw free at h in
      let (same, fine) = raise_if-end _ _ s x t h' in
      let (e1, r1) = or-false _ _ fine in
      let (e2, e3) = or-false _ _ r1 in
      (
        same,
        inr (
          free,
          unequal-false r.provider "dry-run" e1,
          unequal-false r.account_scope "none" e2,
          unequal-false r.region "none" e3,
        ),
      )
]

-- What the tests before the transaction leave.
pub record IsWithinLimits (d : Deployments) (r : EnvironmentRequest) : Type 0 where
  pub adapter : DeploymentAdapter
  pub id_length : len r.environment_id ≤ 128
  pub not_production : r.classification ≢ EnvironmentClassification.production
  pub resources_distinct : IsDistinct r.resource_scope
  pub probes_distinct : IsDistinct r.verification_policy
  pub adapted : d.adapter_of r.adapter_id ≡ some adapter
  pub reachable : IsReachable d r adapter

differs :
    {c : EnvironmentClassification}
    → (c == EnvironmentClassification.production) ≡ false
    → c ≢ EnvironmentClassification.production
differs {c} h e =
    let yes' =
      (environment_classification_eq.equals_iff c EnvironmentClassification.production).1 e in
    absurd (cc)

within : (n m : ℕ) → ltb n m ≡ false → m ≤ n
within n m h = ground arith

check_environment-ok :
    (env : Env) (d : Deployments) (r : EnvironmentRequest) (s : Session)
    → Reads (check_environment env d r) s (λ _. IsWithinLimits d r)
unfolding check_environment exceeds_boundary
check_environment-ok env d r s x t h =
    let (complete, h1) = raise_if-ok _ _ _ s t x h in
    let (bounded, h2) = raise_if-ok _ _ _ s t x h1 in
    let (collections, h3) = raise_if-ok _ _ _ s t x h2 in
    let (resources, h4) = raise_if-ok _ _ _ s t x h3 in
    let (requirements, h5) = raise_if-ok _ _ _ s t x h4 in
    let (probes, h6) = raise_if-ok _ _ _ s t x h5 in
    let (safe, h7) = raise_if-ok _ _ _ s t x h6 in
    let (a, adapted, h8) = or_raise-ok _ _ _ s t x h7 in
    let (same, reachable) = check_adapter_target-ok d r a s x t h8 in
    (
      same,
      record {
        adapter = a;
        id_length = within 128 (len r.environment_id) (or-false _ _ bounded).0;
        not_production = differs safe;
        resources_distinct = all_distinct-IsDistinct r.resource_scope (negate-false _ resources);
        probes_distinct = all_distinct-IsDistinct r.verification_policy (negate-false _ probes);
        adapted = adapted;
        reachable = reachable;
      },
    )

-- The row says what was asked for.
abbrev pub IsAsAsked : Env → EnvironmentRequest → DeploymentEnvironment → Type 0
IsAsAsked env r e =
    (e.id ≡ env.strip r.environment_id)
    × (e.classification ≡ r.classification)
    × (e.provider ≡ env.strip r.provider)
    × (e.account_scope ≡ env.strip r.account_scope)
    × (e.region ≡ env.strip r.region)
    × (e.adapter_id ≡ env.strip r.adapter_id)
    × (e.active ≡ true)
    × (e.created_by ≡ r.actor_id)

-- The row that was registered before under the id, or the new row of what was asked for.
pub data IsEnrolled (env : Env) (r : EnvironmentRequest) (s t : Session) (e : DeploymentEnvironment)
    : Type 0 where
  before : t ≡ s → IsListed r.environment_id s e → IsEnrolled env r s t e
  now : t.environments ≡ append_row s.environments e → IsAsAsked env r e → IsEnrolled env r s t e

bind_environment-ok :
    (env : Env) (r : EnvironmentRequest) (o : Option DeploymentEnvironment) (s t : Session)
    (e : DeploymentEnvironment)
    → select_first (λ x. x.id == r.environment_id) s.environments ≡ o
    → bind_environment env r o s ≡ ok (e, t)
    → IsEnrolled env r s t e × (e.config_digest ≡ digest env (environment_fields env r))
unfolding bind_environment environment_of add_environment
bind_environment-ok env r none s t e looked h =
    let (u, s1, e1, h1) = bind-ok _ _ s t e h in
    let (same, v) = pure-ok (environment_of env r) e s1 t h1 in
    let rows : s1.environments ≡ append_row s.environments (environment_of env r) = cc in
    rw v (IsEnrolled.now (rw same rows) (refl, refl, refl, refl, refl, refl, refl, refl), refl)
bind_environment-ok env r (some x) s t e looked h =
    let (bound, h1) = raise_if-ok _ _ _ s t e h in
    let (same, v) = pure-ok x e s t h1 in
    rw v (
      IsEnrolled.before same (environment-IsListed r.environment_id s x looked),
      unequal-false x.config_digest (digest env (environment_fields env r)) bound,
    )

-- An environment that is registered was asked for by an active human whose role has the capability
-- MANAGE_DEPLOYMENT_ENVIRONMENTS. What was asked for is not a production environment, its id has at
-- most 128 characters, its resources and its probes are distinct; an adapter with credentials makes
-- it a development environment of the local cluster, with local deployment enabled, and any other
-- adapter makes it an environment without an external target. Either the row that is returned stood
-- in the table under that id and nothing changes, or it is added to the table, active, with the
-- classification, provider, account, region and adapter that were asked for. In both cases it has
-- the digest of exactly this configuration.
pub registered_environment_is_limited :
    (env : Env) (d : Deployments) (r : EnvironmentRequest) (s t : Session)
    (e : DeploymentEnvironment)
    → register_deployment_environment env d r s ≡ ok (e, t)
    → ((p : Principal) × IsAuthorized env r.actor_id Capability.manage_deployment_environments
          unscoped true s p
        × (p.principal_type ≡ PrincipalType.human))
      × IsWithinLimits d r
      × IsEnrolled env r s t e
      × (e.config_digest ≡ digest env (environment_fields env r))
unfolding register_deployment_environment find_environment
registered_environment_is_limited env d r s t e h =
    let (_, limits, h1) = read-ok _ _ s t e _ (check_environment-ok env d r s) h in
    let (p, who, h2) =
      read-ok _ _ s t e _
        (authorize-ok env r.actor_id Capability.manage_deployment_environments true s) h1 in
    let h3 = gets-ok _ _ s t e h2 in
    let (registered, digests) = bind_environment-ok env r _ s t e refl h3 in
    ((p, who, who.human refl), limits, registered, digests)

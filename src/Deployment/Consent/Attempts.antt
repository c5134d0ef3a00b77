-- ===== src/Deployment/Consent/Attempts.antt =====
-- deployment_recovery.py: an attempt uses up the approval of exactly its plan.
use eldridge.Prelude.{
  ℕ, String, true, ◌≡◌, refl, none, some, nat_eq, string_eq, unequal-false, or-false, negate-false,
}
use eldridge.Domain.{workflow_state_eq}
use eldridge.Result.{ok}
use eldridge.Persistence.{
  Session, Approval, DeploymentEnvironment, DeploymentPlanRecord, DeploymentAttemptRecord,
  get_elem?, modify, append_row, length, get_elem?-new, get_elem?-length,
}
use eldridge.Env.{Env}
use eldridge.Tx.Inversion.{Reads, bind-ok, gets-ok, raise_if-ok, or_raise-ok, pure-ok}
use eldridge.Tasks.Approvals.{consume}
use eldridge.Platform.Approvals.{consumed_as}
use eldridge.Deployment.Types.{
  DeploymentAttemptStatus, EnvironmentClassification, environment_classification_eq,
}
use eldridge.Deployment.Adapter.{DeploymentAdapter}
use eldridge.Deployment.Store.{Deployments, add_deployment_attempt, find_environment}
use eldridge.Deployment.Attempts.{
  ExecutionRequest, Mode, target_of, local_target, adapter_for, new_deployment_attempt,
  commit_attempt,
}
use eldridge.Deployment.Consent.{IsListed, environment-IsListed, approvals-append, consumed-row}

-- An active environment, for a local deployment one of the local cluster.
abbrev pub IsTarget : Mode → DeploymentEnvironment → Type 0
IsTarget Mode.dry_run e = e.active ≡ true
IsTarget Mode.local_k3d e =
    (e.active ≡ true)
    × (e.classification ≡ EnvironmentClassification.development)
    × (e.provider ≡ "local-k3d")
    × (e.account_scope ≡ "local")
    × (e.region ≡ "local")

pub target_of-ok :
    (mode : Mode) (id : String) (s : Session)
    → Reads (target_of mode id) s (λ e. IsTarget mode e × IsListed id s e)
unfolding target_of local_target find_environment
target_of-ok Mode.dry_run id s e t h =
    let h0 = gets-ok _ _ s t e h in
    let (x, found, h1) = or_raise-ok _ _ _ s t e h0 in
    let (active, h2) = raise_if-ok _ _ _ s t e h1 in
    let (same, v) = pure-ok x e s t h2 in
    (same, rw v (negate-false x.active active, environment-IsListed id s x found))
target_of-ok Mode.local_k3d id s e t h =
    let h0 = gets-ok _ _ s t e h in
    let (x, found, h1) = or_raise-ok _ _ _ s t e h0 in
    let (fine, h2) = raise_if-ok _ _ _ s t e h1 in
    let (same, v) = pure-ok x e s t h2 in
    let (a, r1) = or-false _ _ fine in
    let (b, r2) = or-false _ _ r1 in
    let (c, r3) = or-false _ _ r2 in
    let (d, f) = or-false _ _ r3 in
    (
      same,
      rw v (
        (
          negate-false x.active a,
          unequal-false x.classification EnvironmentClassification.development b,
          unequal-false x.provider "local-k3d" c,
          unequal-false x.account_scope "local" d,
          unequal-false x.region "local" f,
        ),
        environment-IsListed id s x found,
      ),
    )

pub adapter_for-ok :
    (d : Deployments) (mode : Mode) (id : String) (s : Session)
    → Reads (adapter_for d mode id) s (λ a. d.adapter_of id ≡ some a)
unfolding adapter_for
adapter_for-ok d mode id s a t h =
    let (x, found, h1) = or_raise-ok _ _ _ s t a h in
    let (fine, h2) = raise_if-ok _ _ _ s t a h1 in
    let (same, v) = pure-ok x a s t h2 in (same, rw v found)

-- The new row, which is RUNNING and names its workflow, plan, approval and actor, and the approval
-- that is used up.
abbrev pub IsCommitted :
    Env
    → ExecutionRequest
    → Mode
    → (aid : ℕ) → Approval
    → DeploymentAdapter
    → Session
    → Session
    → ℕ
    → Type 0
IsCommitted env r mode aid a adapter s t id =
    (get_elem? s.deployment_attempts id ≡ none)
    × ((row : DeploymentAttemptRecord) × (get_elem? t.deployment_attempts id ≡ some row)
        × (row.workflow_id ≡ r.workflow_id)
        × (row.plan_id ≡ r.plan_id)
        × (row.approval_id ≡ aid)
        × (row.actor_id ≡ r.actor_id)
        × (row.adapter_id ≡ adapter.adapter_id)
        × (row.status ≡ DeploymentAttemptStatus.running))
    × (get_elem? t.approvals aid ≡ some (consumed_as (some env.now) a))

pub commit_attempt-ok :
    (env : Env) (r : ExecutionRequest) (mode : Mode) (p : DeploymentPlanRecord) (aid : ℕ)
    (a : Approval) (adapter : DeploymentAdapter) (s t : Session) (id : ℕ)
    → get_elem? s.approvals aid ≡ some a
    → commit_attempt env r mode p aid adapter s ≡ ok (id, t)
    → IsCommitted env r mode aid a adapter s t id
unfolding commit_attempt add_deployment_attempt consume new_deployment_attempt
commit_attempt-ok env r mode p aid a adapter s t id found h =
    let (n, s1, e1, h1) = bind-ok _ _ s t id h in
    let (u2, s2, e2, h2) = bind-ok _ _ s1 t id h1 in
    let (u3, s3, e3, h3) = bind-ok _ _ s2 t id h2 in
    let (same, v) = pure-ok n id s3 t h3 in
    let (kept, rows, _) = approvals-append env _ _ _ _ _ _ _ s2 s3 u3 e3 in
    let n1 : n ≡ length s.deployment_attempts = cc in
    let a1 : s1.approvals ≡ s.approvals = cc in
    let r1 : s1.deployment_attempts
        ≡ append_row s.deployment_attempts (new_deployment_attempt env r mode aid adapter) =
      cc in
    let a2 : s2.approvals ≡ modify aid (consumed_as (some env.now)) s1.approvals = cc in
    let r2 : s2.deployment_attempts ≡ s1.deployment_attempts = cc in
    rw v (
      rw same (
        rw n1 (get_elem?-length s.deployment_attempts),
        (
          new_deployment_attempt env r mode aid adapter,
          rw rows (rw r2 (rw r1 (rw n1 (get_elem?-new s.deployment_attempts _)))),
          refl,
          refl,
          refl,
          refl,
          refl,
          refl,
        ),
        rw kept (rw a2 (rw a1 (consumed-row env aid s.approvals a found))),
      ))

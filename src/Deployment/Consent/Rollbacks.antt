-- ===== src/Deployment/Consent/Rollbacks.antt =====
-- deployment_recovery.py: who starts a rollback, on what, and that it uses up its approval.
use eldridge.Prelude.{
  ℕ, String, true, ◌≡◌, refl, Option, none, some, nat_eq, unequal-false, or-false, negate-false,
}
use eldridge.Domain.{WorkflowState, workflow_state_eq, ApprovalAction, PrincipalType, Capability}
use eldridge.Result.{ok, Begun}
use eldridge.Persistence.Json.{Fields}
use eldridge.Persistence.{
  Session, Principal, Workflow, Approval, DeploymentEnvironment, DeploymentPlanRecord,
  DeploymentAttemptRecord, DeploymentRollbackRecord, get_elem?, modify,
}
use eldridge.Env.{Env}
use eldridge.Tx.Inversion.{
  Reads, bind-ok, read-ok, gets-ok, raise_if-ok, raise_if-end, or_raise-ok, lift-ok, pure-ok,
}
use eldridge.Policy.{unscoped}
use eldridge.Policy.Decision.{IsAuthorized}
use eldridge.Tasks.Approvals.{consume}
use eldridge.Tasks.Reading.{workflow-ok, authorize-ok}
use eldridge.Platform.Approvals.{consumed_as}
use eldridge.Platform.Terms.{IsGrant, IsFresh, permits_rollback-IsGrant}
use eldridge.Deployment.Types.{DeploymentAttemptStatus, deployment_attempt_status_eq}
use eldridge.Deployment.Store.{Deployments, add_rollback}
use eldridge.Deployment.Attempts.{Mode, check_local, local_target, target_of}
use eldridge.Deployment.Rollbacks.{
  RollbackRequest, permits_rollback, previous_release, contained, commit_rollback, start_rollback,
  replay_or_roll_back, execute_local_rollback,
}
use eldridge.Deployment.Consent.{
  IsUsable, IsListed, usable_approval-ok, approvals-append, consumed-row,
}
use eldridge.Deployment.Consent.Attempts.{IsTarget, target_of-ok}

contained-ok :
    (r : RollbackRequest) (s : Session)
    → Reads (contained r) s (λ a.
      (get_elem? s.deployment_attempts r.attempt_id ≡ some a)
      × (a.workflow_id ≡ r.workflow_id)
      × (a.status ≡ DeploymentAttemptStatus.rollback_required))
unfolding contained
contained-ok r s x t h =
    let h0 = gets-ok _ _ s t x h in
    let (a, found, h1) = or_raise-ok _ _ _ s t x h0 in
    let (fine, h2) = raise_if-ok _ _ _ s t x h1 in
    let (same, v) = pure-ok a x s t h2 in
    let (mine, status) = or-false _ _ fine in
    (
      same,
      rw v (
        found,
        unequal-false a.workflow_id r.workflow_id mine,
        unequal-false a.status DeploymentAttemptStatus.rollback_required status,
      ),
    )

check_local-ok :
    (env : Env) (d : Deployments) (key : String) (s : Session)
    → Reads (check_local env d key) s (λ _. d.enable_local_deployment ≡ true)
unfolding check_local
check_local-ok env d key s x t h =
    let (filled, h1) = raise_if-ok _ _ _ s t x h in
    let (same, enabled) = raise_if-end _ _ s x t h1 in
    (same, negate-false d.enable_local_deployment (or-false _ _ enabled).0)

previous_release-ok :
    (result : Fields) (s : Session) → Reads (previous_release result) s (λ _. Unit)
unfolding previous_release
previous_release-ok result s x t h =
    let (release, found, h1) = or_raise-ok _ _ _ s t x h in
    let (fine, h2) = raise_if-ok _ _ _ s t x h1 in
    let (same, v) = pure-ok release x s t h2 in (same, tt)

-- What a rollback starts with: a contained attempt of the workflow, its plan, a local target, and
-- an approval that permits it, and is consumed.
pub record IsRecoverable (env : Env) (d : Deployments) (r : RollbackRequest) (s s' : Session)
    (w : Workflow) : Type 0 where
  pub attempt : DeploymentAttemptRecord
  pub plan : DeploymentPlanRecord
  pub environment : DeploymentEnvironment
  pub approval : ℕ × Approval
  pub in_state : w.state ≡ WorkflowState.rollback_required
  pub found : get_elem? s.deployment_attempts r.attempt_id ≡ some attempt
  pub attempt_workflow : attempt.workflow_id ≡ r.workflow_id
  pub attempt_contained : attempt.status ≡ DeploymentAttemptStatus.rollback_required
  pub planned : get_elem? s.deployment_plans attempt.plan_id ≡ some plan
  pub of_plan : IsListed plan.environment_id s environment
  pub target : IsTarget Mode.local_k3d environment
  pub usable : IsUsable env (permits_rollback r environment plan) s approval
  pub granted :
      IsGrant r.workflow_id ApprovalAction.rollback plan.revision plan.policy_version approval.1
  pub fresh : IsFresh environment plan approval.1
  pub names_attempt : approval.1.deployment_attempt_id ≡ some r.attempt_id
  pub names_release : approval.1.target ≡ plan.rollback_reference
  pub consumed : get_elem? s'.approvals approval.0 ≡ some (consumed_as (some env.now) approval.1)

local_target-ok :
    (id : String) (s : Session)
    → Reads (local_target id) s (λ e. IsTarget Mode.local_k3d e × IsListed id s e)
unfolding target_of
local_target-ok id s = target_of-ok Mode.local_k3d id s

commit_rollback-ok :
    (env : Env) (r : RollbackRequest) (e : DeploymentEnvironment) (p : DeploymentPlanRecord)
    (aid : ℕ) (a : Approval) (s t : Session) (id : ℕ)
    → get_elem? s.approvals aid ≡ some a
    → commit_rollback env r e p aid a s ≡ ok (id, t)
    → get_elem? t.approvals aid ≡ some (consumed_as (some env.now) a)
unfolding commit_rollback add_rollback consume
commit_rollback-ok env r e p aid a s t id found h =
    let (n, s1, e1, h1) = bind-ok _ _ s t id h in
    let (u2, s2, e2, h2) = bind-ok _ _ s1 t id h1 in
    let (u3, s3, e3, h3) = bind-ok _ _ s2 t id h2 in
    let (same, v) = pure-ok n id s3 t h3 in
    let (kept, _, _) = approvals-append env _ _ _ _ _ _ _ s2 s3 u3 e3 in
    let a1 : s1.approvals ≡ s.approvals = cc in
    let a2 : s2.approvals ≡ modify aid (consumed_as (some env.now)) s1.approvals = cc in
    rw same (rw kept (rw a2 (rw a1 (consumed-row env aid s.approvals a found))))

start_rollback-ok :
    (env : Env) (d : Deployments) (r : RollbackRequest) (w : Workflow) (s t : Session) (id : ℕ)
    → start_rollback env d r w s ≡ ok (id, t)
    → IsRecoverable env d r s t w
unfolding start_rollback
start_rollback-ok env d r w s t id h =
    let (in_state, h1) = raise_if-ok _ _ _ s t id h in
    let (a, (found, mine, status), h2) = read-ok _ _ s t id _ (contained-ok r s) h1 in
    let h3 = gets-ok _ _ s t id h2 in
    let (p, planned, h4) = or_raise-ok _ _ _ s t id h3 in
    let (e, (target, of_plan), h5) = read-ok _ _ s t id _ (local_target-ok p.environment_id s) h4 in
    let (adapter, adapted, h6) = or_raise-ok _ _ _ s t id h5 in
    let (able, h7) = raise_if-ok _ _ _ s t id h6 in
    let (x, usable, h8) =
      read-ok _ _ s t id _ (usable_approval-ok env (permits_rollback r e p) s) h7 in
    let (snapshot, _, h9) = read-ok _ _ s t id _ (previous_release-ok a.result_json s) h8 in
    let (u, valid, h10) = lift-ok _ _ s t id h9 in
    let (granted, fresh, attempt, release) = permits_rollback-IsGrant r e p x.1 usable.1 in
    record {
      attempt = a;
      plan = p;
      environment = e;
      approval = x;
      in_state = unequal-false w.state WorkflowState.rollback_required in_state;
      found = found;
      attempt_workflow = mine;
      attempt_contained = status;
      planned = planned;
      of_plan = of_plan;
      target = target;
      usable = usable;
      granted = granted;
      fresh = fresh;
      names_attempt = attempt;
      names_release = release;
      consumed = commit_rollback-ok env r e p x.0 x.1 s t id usable.0 h10;
    }

same_recovery :
    (env : Env) (d : Deployments) (r : RollbackRequest) (w : Workflow) (s t t' : Session)
    → t ≡ t'
    → IsRecoverable env d r s t' w
    → IsRecoverable env d r s t w
same_recovery env d r w s t t' same h = rw same h

replay_or_roll_back-ok :
    (env : Env) (d : Deployments) (r : RollbackRequest) (w : Workflow)
    (o : Option (ℕ × DeploymentRollbackRecord)) (s t : Session) (id : ℕ)
    → replay_or_roll_back env d r w o s ≡ ok (Begun.started id, t)
    → IsRecoverable env d r s t w
unfolding replay_or_roll_back
replay_or_roll_back-ok env d r w (some x) s t id h =
    let b = Begun.started id in
    let (same, h1) = raise_if-ok _ _ _ s t b h in
    let (finished, h2) = raise_if-ok _ _ _ s t b h1 in
    let (_, e) = pure-ok (Begun.replayed x.0) b s t h2 in absurd (cc e)
replay_or_roll_back-ok env d r w none s t id h =
    let (n, t', e1, h1) = bind-ok _ _ s t (Begun.started id) h in
    let (same, e) = pure-ok (Begun.started n) (Begun.started id) t' t h1 in
    same_recovery env d r w s t t' same (start_rollback-ok env d r w s t' n e1)

-- A rollback that starts needs local deployment to be enabled. It was asked for by an active human
-- whose role has the capability EXECUTE_ROLLBACK, on a workflow in ROLLBACK_REQUIRED, for an
-- attempt of that workflow with the status ROLLBACK_REQUIRED. The environment that the attempt's
-- plan names is in the table, and is an active development environment of the local cluster. It
-- consumes an approval that was not consumed, had not expired, and names this workflow,
-- environment, plan digest, attempt, revision, policy version and rollback reference.
pub rollback_needs_consent :
    (env : Env) (d : Deployments) (r : RollbackRequest) (s t : Session) (id : ℕ)
    → execute_local_rollback env d r s ≡ ok (Begun.started id, t)
    → (d.enable_local_deployment ≡ true)
      × ((p : Principal) × IsAuthorized env r.actor_id Capability.execute_rollback unscoped true s p
          × (p.principal_type ≡ PrincipalType.human))
      × ((w : Workflow) × (get_elem? s.workflows r.workflow_id ≡ some w)
          × IsRecoverable env d r s t w)
unfolding execute_local_rollback
rollback_needs_consent env d r s t id h =
    let b = Begun.started id in
    let (_, enabled, h0) = read-ok _ _ s t b _ (check_local-ok env d r.idempotency_key s) h in
    let (p, who, h1) =
      read-ok _ _ s t b _ (authorize-ok env r.actor_id Capability.execute_rollback true s) h0 in
    let (w, found, h2) = read-ok _ _ s t b _ (workflow-ok r.workflow_id s) h1 in
    let h3 = gets-ok _ _ s t b h2 in
    (enabled, (p, who, who.human refl), (w, found, replay_or_roll_back-ok env d r w _ s t id h3))

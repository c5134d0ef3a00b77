-- ===== src/Deployment/Consent/Starting.antt =====
-- deployment_recovery.py: who starts an attempt, on what, and that no approval starts two.
use eldridge.Prelude.{
  ℕ, true, false, ◌≡◌, ◌≢◌, refl, sym, ◌∙◌, ap, Option, none, some, List, nat_eq, string_eq,
  unequal-false,
}
use eldridge.Domain.{WorkflowState, workflow_state_eq, ApprovalAction, PrincipalType, Capability}
use eldridge.Result.{ok, Begun}
use eldridge.Persistence.{
  Session, Principal, Workflow, Approval, DeploymentEnvironment, DeploymentPlanRecord,
  DeploymentAttemptRecord, get_elem?,
}
use eldridge.Env.{Env}
use eldridge.Tx.Inversion.{bind-ok, read-ok, gets-ok, raise_if-ok, lift-ok, pure-ok}
use eldridge.Policy.{unscoped}
use eldridge.Policy.Decision.{IsAuthorized}
use eldridge.Tasks.Human.{is_some}
use eldridge.Tasks.Reading.{workflow-ok, authorize-ok}
use eldridge.Platform.Service.{Platform, PlatformCall, run_platform}
use eldridge.Platform.Approvals.{consumed_as, approvals_are_kept}
use eldridge.Platform.Terms.{IsGrant, IsFresh, permits_deployment-IsGrant}
use eldridge.Deployment.Adapter.{DeploymentAdapter}
use eldridge.Deployment.Store.{Deployments}
use eldridge.Deployment.Attempts.{
  ExecutionRequest, Mode, permits_deployment, start_attempt, replay_or_start, begin_attempt,
}
use eldridge.Deployment.Consent.{IsUsable, IsListed, usable_approval-ok, plan_of-ok}
use eldridge.Deployment.Consent.Attempts.{
  IsTarget, target_of-ok, adapter_for-ok, IsCommitted, commit_attempt-ok,
}

-- What an attempt starts with: the workflow and its plan, a target, and an approval that permits
-- it; and what it leaves: the row `id` and the consumed approval.
pub record IsStarted (env : Env) (d : Deployments) (r : ExecutionRequest) (mode : Mode)
    (s t : Session) (w : Workflow) (id : ℕ) : Type 0 where
  pub plan : DeploymentPlanRecord
  pub environment : DeploymentEnvironment
  pub adapter : DeploymentAdapter
  pub approval : ℕ × Approval
  pub awaiting : w.state ≡ WorkflowState.awaiting_deployment_approval
  pub planned : get_elem? s.deployment_plans r.plan_id ≡ some plan
  pub plan_workflow : plan.workflow_id ≡ r.workflow_id
  pub of_plan : IsListed plan.environment_id s environment
  pub target : IsTarget mode environment
  pub adapted : d.adapter_of environment.adapter_id ≡ some adapter
  pub usable : IsUsable env (permits_deployment r.workflow_id environment plan) s approval
  pub granted :
      IsGrant r.workflow_id ApprovalAction.deploy plan.revision plan.policy_version approval.1
  pub fresh : IsFresh environment plan approval.1
  pub committed : IsCommitted env r mode approval.0 approval.1 adapter s t id

start_attempt-ok :
    (env : Env) (d : Deployments) (r : ExecutionRequest) (mode : Mode) (w : Workflow)
    (s t : Session) (id : ℕ)
    → start_attempt env d r mode w s ≡ ok (id, t)
    → IsStarted env d r mode s t w id
unfolding start_attempt
start_attempt-ok env d r mode w s t id h =
    let (in_state, h1) = raise_if-ok _ _ _ s t id h in
    let (p, (planned, mine), h2) = read-ok _ _ s t id _ (plan_of-ok r.workflow_id r.plan_id s) h1 in
    let (e, (target, of_plan), h3) =
      read-ok _ _ s t id _ (target_of-ok mode p.environment_id s) h2 in
    let (a, adapted, h4) = read-ok _ _ s t id _ (adapter_for-ok d mode e.adapter_id s) h3 in
    let (x, usable, h5) =
      read-ok _ _ s t id _ (usable_approval-ok env (permits_deployment r.workflow_id e p) s) h4 in
    let (u, valid, h6) = lift-ok _ _ s t id h5 in
    let (granted, fresh) = permits_deployment-IsGrant r.workflow_id e p x.1 usable.1 in
    record {
      plan = p;
      environment = e;
      adapter = a;
      approval = x;
      awaiting = unequal-false w.state WorkflowState.awaiting_deployment_approval in_state;
      planned = planned;
      plan_workflow = mine;
      of_plan = of_plan;
      target = target;
      adapted = adapted;
      usable = usable;
      granted = granted;
      fresh = fresh;
      committed = commit_attempt-ok env r mode p x.0 x.1 a s t id usable.0 h6;
    }

same_start :
    (env : Env) (d : Deployments) (r : ExecutionRequest) (mode : Mode) (w : Workflow)
    (s t t' : Session) (n id : ℕ)
    → t ≡ t'
    → n ≡ id
    → IsStarted env d r mode s t' w n
    → IsStarted env d r mode s t w id
same_start env d r mode w s t t' n id same e h = rw same (rw (← e) h)

replay_or_start-ok :
    (env : Env) (d : Deployments) (r : ExecutionRequest) (mode : Mode) (w : Workflow)
    (o : Option (ℕ × DeploymentAttemptRecord)) (s t : Session) (id : ℕ)
    → replay_or_start env d r mode w o s ≡ ok (Begun.started id, t)
    → IsStarted env d r mode s t w id
unfolding replay_or_start
replay_or_start-ok env d r mode w (some x) s t id h =
    let b = Begun.started id in
    let (same, h1) = raise_if-ok _ _ _ s t b h in
    let (finished, h2) = raise_if-ok _ _ _ s t b h1 in
    let (_, e) = pure-ok (Begun.replayed x.0) b s t h2 in absurd (cc e)
replay_or_start-ok env d r mode w none s t id h =
    let (n, t', e1, h1) = bind-ok _ _ s t (Begun.started id) h in
    let (same, e) = pure-ok (Begun.started n) (Begun.started id) t' t h1 in
    let e' : n ≡ id = cc in
    same_start env d r mode w s t t' n id same e' (start_attempt-ok env d r mode w s t' n e1)

-- An attempt that starts, a dry run or a local deployment, was asked for by an active human whose
-- role has the capability EXECUTE_DEPLOYMENT, on a workflow that awaits deployment approval, for a
-- plan of that workflow. The environment that the plan names is in the table and active, and for a
-- local deployment it is a development environment of the local cluster. The attempt is RUNNING and
-- names an approval of the table, which it consumes: it was not consumed, had not expired, and
-- names this workflow, environment, plan digest, revision and policy version.
pub deployment_needs_consent :
    (env : Env) (d : Deployments) (r : ExecutionRequest) (mode : Mode) (s t : Session) (id : ℕ)
    → begin_attempt env d r mode s ≡ ok (Begun.started id, t)
    → ((p : Principal) × IsAuthorized env r.actor_id Capability.execute_deployment unscoped true s p
        × (p.principal_type ≡ PrincipalType.human))
      × ((w : Workflow) × (get_elem? s.workflows r.workflow_id ≡ some w)
          × IsStarted env d r mode s t w id)
unfolding begin_attempt
deployment_needs_consent env d r mode s t id h =
    let b = Begun.started id in
    let (p, who, h1) =
      read-ok _ _ s t b _ (authorize-ok env r.actor_id Capability.execute_deployment true s) h in
    let (w, found, h2) = read-ok _ _ s t b _ (workflow-ok r.workflow_id s) h1 in
    let h3 = gets-ok _ _ s t b h2 in
    ((p, who, who.human refl), (w, found, replay_or_start-ok env d r mode w _ s t id h3))

-- A consumed approval is not usable again.
different :
    (env env' : Env) (p : Platform) (cs : List PlatformCall) (d d' : Deployments)
    (r r' : ExecutionRequest) (mode mode' : Mode) (s t u : Session) (w w' : Workflow) (id id' : ℕ)
    (first : IsStarted env d r mode s t w id)
    (second : IsStarted env' d' r' mode' (run_platform env p cs t) u w' id')
    → first.approval.0 ≢ second.approval.0
unfolding is_some
different env env' p cs d d' r r' mode mode' s t u w w' id id' first second e =
    let (before, after, used) = first.committed in
    let (c, kept, stays) =
      approvals_are_kept env p cs t first.approval.0 (consumed_as (some env.now) first.approval.1)
        used in
    let found = second.usable.0 in
    let free = second.fresh.2 in
    let kept' = rw e at kept in
    let same : consumed_as c first.approval.1 ≡ second.approval.1 = cc in
    let same' : c ≡ second.approval.1.consumed_at = ap (λ x. x.consumed_at) same in
    let free' : is_some c ≡ false = rw same' (ap is_some free) in
    let taken : is_some c ≡ true = stays refl in absurd (cc)

-- Where an attempt starts, and later another one, with any sequence of the platform's transactions
-- between them, the two attempts name different approvals.
pub approval_starts_one_attempt :
    (env env' : Env) (p : Platform) (cs : List PlatformCall) (d d' : Deployments)
    (r r' : ExecutionRequest) (mode mode' : Mode) (s t u : Session) (id id' : ℕ)
    (a a' : DeploymentAttemptRecord)
    → begin_attempt env d r mode s ≡ ok (Begun.started id, t)
    → begin_attempt env' d' r' mode' (run_platform env p cs t) ≡ ok (Begun.started id', u)
    → get_elem? t.deployment_attempts id ≡ some a
    → get_elem? u.deployment_attempts id' ≡ some a'
    → a.approval_id ≢ a'.approval_id
approval_starts_one_attempt env env' p cs d d' r r' mode mode' s t u id id' a a' h h' there there' =
    let (_, (w, _, first)) = deployment_needs_consent env d r mode s t id h in
    let (_, (w', _, second)) =
      deployment_needs_consent env' d' r' mode' (run_platform env p cs t) u id' h' in
    let (_, (x, found, _, _, names, _, _, _), _) = first.committed in
    let (_, (x', found', _, _, names', _, _, _), _) = second.committed in
    let same : x ≡ a = cc in
    let same' : x' ≡ a' = cc in
    let e : a.approval_id ≡ first.approval.0 = rw same at names in
    let e' : a'.approval_id ≡ second.approval.0 = rw same' at names' in
    λ k.
      different env env' p cs d d' r r' mode mode' s t u w w' id id' first second (sym e ∙ (k ∙ e'))

-- ===== src/Platform/Terms.antt =====
-- The tests on an approval in git_pull_requests.py and deployment_recovery.py, and what an approval
-- that passes them says.
use eldridge.Prelude.{
  ℕ, String, true, negate, ◌≡◌, refl, Option, none, some, nat_eq, string_eq, option_eq, and-true,
}
use eldridge.Domain.{ApprovalAction, approval_action_eq, ApprovalDecision, approval_decision_eq}
use eldridge.Persistence.{Approval, DeploymentEnvironment, DeploymentPlanRecord}
use eldridge.Tasks.Human.{is_some}
use eldridge.Git.Merges.{is_consent}
use eldridge.Deployment.Attempts.{permits_deployment}
use eldridge.Deployment.Rollbacks.{RollbackRequest, permits_rollback}

-- A positive decision on an action of a workflow, for one revision under one policy version.
pub record IsGrant (wid : ℕ) (act : ApprovalAction) (named policy_version : String) (a : Approval)
    : Type 0 where
  pub workflow : a.workflow_id ≡ wid
  pub action : a.action ≡ act
  pub decision : a.decision ≡ ApprovalDecision.approved
  pub revision : a.revision ≡ named
  pub policy : a.policy_version ≡ policy_version

-- It names the environment and the digest of a plan, and was not consumed.
abbrev pub IsFresh : DeploymentEnvironment → DeploymentPlanRecord → Approval → Type 0
IsFresh e p a =
    (a.environment_id ≡ some e.id) × (a.plan_digest ≡ some p.digest) × (a.consumed_at ≡ none)

unset : {A : Type 0} (o : Option A) → negate (is_some o) ≡ true → o ≡ none
unfolding is_some
unset none h = refl
unset (some x) h = absurd (cc h)

set : {A : Type 0} (o : Option A) → is_some o ≡ true → (x : A) × (o ≡ some x)
unfolding is_some
set none h = absurd (cc h)
set (some x) h = (x, refl)

pub is_consent-IsGrant :
    (wid : ℕ) (revision policy_version : String) (a : Approval)
    → is_consent wid revision policy_version a ≡ true
    → IsGrant wid ApprovalAction.merge revision policy_version a
      × ((moment : ℕ) × (a.consumed_at ≡ some moment))
unfolding is_consent
is_consent-IsGrant wid revision policy_version a h =
    let (w, h1) = and-true _ _ h in
    let (action, h2) = and-true _ _ h1 in
    let (decision, h3) = and-true _ _ h2 in
    let (same, h4) = and-true _ _ h3 in
    let (policy, used) = and-true _ _ h4 in
    (
      record {
        workflow = (nat_eq.equals_iff a.workflow_id wid).0 w;
        action = (approval_action_eq.equals_iff a.action ApprovalAction.merge).0 action;
        decision =
            (approval_decision_eq.equals_iff a.decision ApprovalDecision.approved).0 decision;
        revision = (string_eq.equals_iff a.revision revision).0 same;
        policy = (string_eq.equals_iff a.policy_version policy_version).0 policy;
      },
      set a.consumed_at used,
    )

pub permits_deployment-IsGrant :
    (wid : ℕ) (e : DeploymentEnvironment) (p : DeploymentPlanRecord) (a : Approval)
    → permits_deployment wid e p a ≡ true
    → IsGrant wid ApprovalAction.deploy p.revision p.policy_version a × IsFresh e p a
unfolding permits_deployment
permits_deployment-IsGrant wid e p a h =
    let (w, h1) = and-true _ _ h in
    let (action, h2) = and-true _ _ h1 in
    let (decision, h3) = and-true _ _ h2 in
    let (environment, h4) = and-true _ _ h3 in
    let (plan, h5) = and-true _ _ h4 in
    let (same, h6) = and-true _ _ h5 in
    let (policy, free) = and-true _ _ h6 in
    (
      record {
        workflow = (nat_eq.equals_iff a.workflow_id wid).0 w;
        action = (approval_action_eq.equals_iff a.action ApprovalAction.deploy).0 action;
        decision =
            (approval_decision_eq.equals_iff a.decision ApprovalDecision.approved).0 decision;
        revision = (string_eq.equals_iff a.revision p.revision).0 same;
        policy = (string_eq.equals_iff a.policy_version p.policy_version).0 policy;
      },
      (
        (option_eq.equals_iff a.environment_id (some e.id)).0 environment,
        (option_eq.equals_iff a.plan_digest (some p.digest)).0 plan,
        unset a.consumed_at free,
      ),
    )

pub permits_rollback-IsGrant :
    (r : RollbackRequest) (e : DeploymentEnvironment) (p : DeploymentPlanRecord) (a : Approval)
    → permits_rollback r e p a ≡ true
    → IsGrant r.workflow_id ApprovalAction.rollback p.revision p.policy_version a
      × IsFresh e p a
      × (a.deployment_attempt_id ≡ some r.attempt_id)
      × (a.target ≡ p.rollback_reference)
unfolding permits_rollback
permits_rollback-IsGrant r e p a h =
    let (w, h1) = and-true _ _ h in
    let (action, h2) = and-true _ _ h1 in
    let (decision, h3) = and-true _ _ h2 in
    let (environment, h4) = and-true _ _ h3 in
    let (plan, h5) = and-true _ _ h4 in
    let (attempt, h6) = and-true _ _ h5 in
    let (same, h7) = and-true _ _ h6 in
    let (policy, h8) = and-true _ _ h7 in
    let (target, free) = and-true _ _ h8 in
    (
      record {
        workflow = (nat_eq.equals_iff a.workflow_id r.workflow_id).0 w;
        action = (approval_action_eq.equals_iff a.action ApprovalAction.rollback).0 action;
        decision =
            (approval_decision_eq.equals_iff a.decision ApprovalDecision.approved).0 decision;
        revision = (string_eq.equals_iff a.revision p.revision).0 same;
        policy = (string_eq.equals_iff a.policy_version p.policy_version).0 policy;
      },
      (
        (option_eq.equals_iff a.environment_id (some e.id)).0 environment,
        (option_eq.equals_iff a.plan_digest (some p.digest)).0 plan,
        unset a.consumed_at free,
      ),
      (option_eq.equals_iff a.deployment_attempt_id (some r.attempt_id)).0 attempt,
      (string_eq.equals_iff a.target p.rollback_reference).0 target,
    )

-- ===== src/Platform/History.antt =====
-- service.py: what every sequence of the platform's transactions keeps.
use eldridge.Prelude.{
  ℕ, ◌+◌, Bool, true, false, ◌&&◌, negate, Bool-cases, inl, inr, ◌⊎◌, ◌≡◌, refl, some, Option, List,
  [], ◌∷◌, ◌==◌, arith,
}
use eldridge.Domain.{WorkflowState, WorkflowState-discrete, workflow_state_eq, ApprovalDecision}
use eldridge.StateMachine.Graph.{Walk}
use eldridge.Persistence.{Session, Workflow, get_elem?}
use eldridge.Env.{Env}
use eldridge.Tx.Frame.{Frame, Ensures, Ensures-commit}
use eldridge.Audit.Chain.{IsSound}
use eldridge.Tasks.Service.{Operation}
use eldridge.Tasks.Approvals.{decided_state}
use eldridge.Tasks.Frames.{Supports, is_reserved}
use eldridge.Tasks.History.{Settles, Ensures-transaction, Ensures-discard}
use eldridge.Tasks.History.Walks.{walk_length, Reached}
use eldridge.Tasks.History.Progress.{walk_support}
use eldridge.Tasks.History.Chain.{chain_support}
use eldridge.Git.Store.{GitHubApp}
use eldridge.Git.Frames.{
  Ensures-ingest_ci_check_evidence, Ensures-propose_pull_request, Ensures-mark_pull_request_unknown,
  Ensures-complete_pull_request, Ensures-reconcile_pull_request, Ensures-finish_reconciliation,
  Ensures-assess_merge_readiness, Ensures-record_merge_readiness, Ensures-mark_readiness_failed,
  Ensures-confirm_pull_request_merged, Ensures-complete_merge_confirmation,
  Ensures-mark_merge_confirmation_failed,
}
use eldridge.Deployment.Types.{
  DeploymentAttemptStatus, DeploymentAttemptStatus-discrete, deployment_attempt_status_eq,
  CredentialedRun,
}
use eldridge.Deployment.Store.{Deployments}
use eldridge.Deployment.Outcomes.{local_state, local_status, dry_run_status}
use eldridge.Deployment.Rollbacks.Endings.{recovered}
use eldridge.Deployment.Frames.{
  Ensures-register_deployment_environment, Ensures-create_deployment_plan,
  Ensures-execute_deployment_dry_run, Ensures-finish_dry_run, Ensures-fail_deployment_dry_run,
  Ensures-execute_local_deployment, Ensures-finish_local_deployment, Ensures-fail_local_deployment,
}
use eldridge.Deployment.Frames.Rollbacks.{
  Ensures-execute_local_rollback, Ensures-finish_local_rollback, Ensures-fail_local_rollback,
}
use eldridge.Platform.Service.{
  GitOperation, DeploymentOperation, PlatformOperation, Platform, PlatformCall, task_enters,
  git_enters, deployment_enters, enters, decides, is_real, is_dry, git_transaction,
  deployment_transaction, platform_transaction, at_platform, run_platform,
}

abbrev Reaches : (WorkflowState → Bool) → (WorkflowState → Type 0) → Type 0
Reaches test Target = (t : WorkflowState) → test t ≡ true → Target t

-- A run that is no dry run, and the states in which local runs and rollbacks end.
not_dry :
    (run : CredentialedRun)
    → (dry_run_status run == DeploymentAttemptStatus.rollback_required) ≡ true
    → negate (is_dry run) ≡ true
unfolding dry_run_status is_dry DeploymentAttemptStatus-discrete
not_dry run h = ground arith

local_ends :
    (run : CredentialedRun)
    → ((is_real run ≡ true) × (local_state run ≡ WorkflowState.deployed))
      ⊎ ((is_real run ≡ false) × (local_state run ≡ WorkflowState.rollback_required))
unfolding local_state local_status is_real
local_ends run = elim (Bool-cases (run.verification.passed && negate run.execution.simulated)) [
  | inl real ↦ inl (real, ground (arith, real))
  | inr unreal ↦ inr (unreal, ground (arith, unreal))
]

recovered-is_real : (run : CredentialedRun) → recovered run ≡ true → is_real run ≡ true
unfolding recovered is_real
recovered-is_real run h = h

module _ {Target : WorkflowState → Type 0} where
  settles_decision : (d : ApprovalDecision) → Reaches (decides d) Target → Target (decided_state d)
  unfolding decides decided_state WorkflowState-discrete
  settles_decision ApprovalDecision.approved h = h WorkflowState.approved refl
  settles_decision ApprovalDecision.rejected h = h WorkflowState.rejected refl

  settles : (o : Operation) → Reaches (task_enters o) Target → Settles Target o
  unfolding task_enters
  settles (Operation.create _) h = tt
  settles (Operation.lease _ _) h = tt
  settles (Operation.heartbeat _ _ _) h = tt
  settles (Operation.prepare _ _ _) h = tt
  settles (Operation.succeed _ _ _ _ _) h = tt
  settles (Operation.fail _ _ _ _) h = tt
  settles (Operation.reclaim _) h = tt
  settles (Operation.dispose _ _ _ _) h = tt
  settles (Operation.reconcile _ _ _ _ _) h = tt
  settles (Operation.cancel _ _) h = tt
  settles (Operation.approval r) h = settles_decision r.decision h

module _ (env : Env) {f : Frame} {Target : WorkflowState → Type 0}
    (sup : Supports env f Target) where
  Ensures-git_transaction :
      (app : Option GitHubApp) (o : GitOperation)
      → Reaches (git_enters o) Target
      → Ensures f (git_transaction env app o)
  unfolding git_transaction git_enters WorkflowState-discrete
  Ensures-git_transaction app (GitOperation.ingest d) h =
      Ensures-discard _ (Ensures-ingest_ci_check_evidence env sup d)
  Ensures-git_transaction app (GitOperation.propose r) h =
      Ensures-discard _ (Ensures-propose_pull_request env sup app r)
  Ensures-git_transaction app (GitOperation.proposal_unknown id code) h =
      Ensures-mark_pull_request_unknown env sup id code
  Ensures-git_transaction app (GitOperation.proposal_completed id p) h =
      Ensures-discard _ (Ensures-complete_pull_request env sup id p false)
  Ensures-git_transaction app (GitOperation.reconcile wid id actor) h =
      Ensures-discard _ (Ensures-reconcile_pull_request env sup app wid id actor)
  Ensures-git_transaction app (GitOperation.reconciled id actor searched found) h =
      Ensures-discard _ (Ensures-finish_reconciliation env sup id actor searched found)
  Ensures-git_transaction app (GitOperation.assess r) h =
      Ensures-discard _ (Ensures-assess_merge_readiness env sup app r)
  Ensures-git_transaction app (GitOperation.assessed id result) h =
      Ensures-record_merge_readiness env sup id result
  Ensures-git_transaction app (GitOperation.assessment_failed id code) h =
      Ensures-mark_readiness_failed env sup id code
  Ensures-git_transaction app (GitOperation.confirm r) h =
      Ensures-discard _ (Ensures-confirm_pull_request_merged env sup app r)
  Ensures-git_transaction app (GitOperation.confirmed id result) h =
      Ensures-complete_merge_confirmation env sup id result (h WorkflowState.merged refl)
  Ensures-git_transaction app (GitOperation.confirmation_failed id code) h =
      Ensures-mark_merge_confirmation_failed env sup id code

  Ensures-deployment_transaction :
      (d : Deployments) (o : DeploymentOperation)
      → Reaches (deployment_enters o) Target
      → Ensures f (deployment_transaction env d o)
  unfolding deployment_transaction deployment_enters WorkflowState-discrete
  Ensures-deployment_transaction d (DeploymentOperation.register r) h =
      Ensures-discard _ (Ensures-register_deployment_environment env sup d r)
  Ensures-deployment_transaction d (DeploymentOperation.plan r) h = Ensures-discard _ (
      Ensures-create_deployment_plan env sup d r
        (h WorkflowState.awaiting_deployment_approval refl))
  Ensures-deployment_transaction d (DeploymentOperation.dry_run r) h =
      Ensures-discard _ (Ensures-execute_deployment_dry_run env sup d r)
  Ensures-deployment_transaction d (DeploymentOperation.dry_run_finished wid id p run) h =
      Ensures-finish_dry_run env sup wid id p run (λ e.
        let real =
          not_dry run ((deployment_attempt_status_eq.equals_iff (dry_run_status run) _).1 e) in
        h WorkflowState.rollback_required (rw real refl))
  Ensures-deployment_transaction d (DeploymentOperation.dry_run_failed id code) h =
      Ensures-fail_deployment_dry_run env sup id code
  Ensures-deployment_transaction d (DeploymentOperation.deploy r) h =
      Ensures-discard _ (Ensures-execute_local_deployment env sup d r)
  Ensures-deployment_transaction d (DeploymentOperation.deployed wid id p reference c run) h =
      Ensures-finish_local_deployment env sup wid id p reference c run (elim (local_ends run) [
        | inl (real, e) ↦ rw e (h WorkflowState.deployed (rw real refl))
        | inr (unreal, e) ↦ rw e (h WorkflowState.rollback_required (rw unreal refl))
      ])
  Ensures-deployment_transaction d (DeploymentOperation.deployment_failed id status code b) h =
      Ensures-fail_local_deployment env sup id status code b (λ e.
        let e' = (deployment_attempt_status_eq.equals_iff status _).1 e in
        h WorkflowState.rollback_required (rw e' refl))
  Ensures-deployment_transaction d (DeploymentOperation.roll_back r) h =
      Ensures-discard _ (Ensures-execute_local_rollback env sup d r)
  Ensures-deployment_transaction d (DeploymentOperation.rolled_back wid aid id c run n) h =
      Ensures-discard _ (
        Ensures-finish_local_rollback env sup wid aid id c run n
          (λ e. let real = recovered-is_real run e in h WorkflowState.rolled_back (rw real refl)))
  Ensures-deployment_transaction d (DeploymentOperation.rollback_failed id status code b n) h =
      Ensures-fail_local_rollback env sup id status code b n

module _ (env : Env) {f : Frame} {Target : WorkflowState → Type 0} (sup : Supports env f Target)
    (most : (t : WorkflowState) → is_reserved t ≡ false → Target t) (p : Platform) where
  Ensures-platform_transaction :
      (o : PlatformOperation) → Reaches (enters o) Target → Ensures f (platform_transaction env p o)
  unfolding platform_transaction enters
  Ensures-platform_transaction (PlatformOperation.on_tasks o) h =
      Ensures-transaction env sup most p.tasks o (settles o h)
  Ensures-platform_transaction (PlatformOperation.on_git o) h =
      Ensures-git_transaction env sup p.github_app o h
  Ensures-platform_transaction (PlatformOperation.on_deployment o) h =
      Ensures-deployment_transaction env sup p.deployments o h

-- What every call of a list may enter is a target.
abbrev pub AllReach : (WorkflowState → Type 0) → List PlatformCall → Type 0
AllReach Target [] = Unit
AllReach Target (c ∷ cs) = Reaches (enters c.operation) Target × AllReach Target cs

-- A frame that every moment supports relates the sessions before and after a run.
pub run_platform-Rel :
    (env : Env) {f : Frame} {Target : WorkflowState → Type 0}
    (sup : (c : PlatformCall) → Supports (at_platform env c) f Target)
    (most : (t : WorkflowState) → is_reserved t ≡ false → Target t) (p : Platform)
    (cs : List PlatformCall)
    → AllReach Target cs
    → (s : Session) → f.Rel s (run_platform env p cs s)
unfolding run_platform
run_platform-Rel env {f} sup most p [] h s = f.local s s refl refl refl
run_platform-Rel env {f} sup most p (c ∷ cs) h s =
    f.transitive _ _ _
      (Ensures-commit _
        (Ensures-platform_transaction (at_platform env c) (sup c) most p c.operation h.0) s)
      (run_platform-Rel env sup most p cs h.1 _)

module _ {Target : WorkflowState → Type 0} (total : (t : WorkflowState) → Target t) where
  pub AllReach-total : (cs : List PlatformCall) → AllReach Target cs
  AllReach-total [] = tt
  AllReach-total (c ∷ cs) = ((λ t _. total t), AllReach-total cs)

-- Over any sequence of the platform's transactions, those of the task, pull request and deployment
-- services in any order, a workflow stays in the table under its key, its state moves only along
-- transitions that `assert_transition_allowed` lets through, and its version grows by one with each
-- of them.
pub platform_follows_transitions :
    (env : Env) (p : Platform) (cs : List PlatformCall) (s : Session) (wid : ℕ) (w : Workflow)
    → get_elem? s.workflows wid ≡ some w
    → (w' : Workflow) × (get_elem? (run_platform env p cs s).workflows wid ≡ some w')
      × (walk : Walk w.state w'.state) × (w'.version ≡ w.version + walk_length walk)
unfolding Reached
platform_follows_transitions env p cs s wid w h =
    let walks =
      run_platform-Rel env (λ c. walk_support (at_platform env c)) (λ t h. tt) p cs
        (AllReach-total (λ t. tt) cs) s in
    let (w', h', (walk, e)) = walks.0 wid w h in (w', h', walk, e)

-- If the hashes and sequence numbers of every workflow's audit events form a chain, as
-- `verify_audit_chain` checks them event by event, they do after any sequence of the platform's
-- transactions too, refused ones included.
pub platform_keeps_chains :
    (env : Env) (p : Platform) (cs : List PlatformCall) (s : Session)
    → IsSound env s.audit_events
    → IsSound env (run_platform env p cs s).audit_events
platform_keeps_chains env p cs s =
    run_platform-Rel env (λ c. chain_support env c.now c.task_locked) (λ t h. tt) p cs
      (AllReach-total (λ t. tt) cs) s

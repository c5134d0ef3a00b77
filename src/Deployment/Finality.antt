-- ===== src/Deployment/Finality.antt =====
-- deployment_recovery.py: an attempt ends once.
use eldridge.Prelude.{
  ℕ, String, Bool, true, false, ◌≡◌, refl, ◌∙◌, ◌⊎◌, inl, inr, some, none, ◌==◌, nat_eq, arith,
}
use eldridge.Domain.{Error}
use eldridge.Result.{ok, err}
use eldridge.Persistence.Json.{Fields}
use eldridge.Persistence.{
  Session, DeploymentAttemptRecord, DeploymentVerificationRecord, get_elem?, modify,
  get_elem?-modify,
}
use eldridge.Env.{Env}
use eldridge.Tx.{gets, pure, raise, ◌>>=◌}
use eldridge.Tx.Inversion.{Reads, bind-ok, read-ok, gets-ok, raise_if-ok, or_raise-ok, pure-ok}
use eldridge.Tasks.Reading.{workflow-ok}
use eldridge.Tasks.History.Transition.{transition-keeps}
use eldridge.Deployment.Types.{
  DeploymentAttemptStatus, DeploymentAttemptStatus-discrete, deployment_attempt_status_eq,
  DeploymentPlan, CredentialedRun,
}
use eldridge.Deployment.Store.{set_deployment_attempt, add_verification}
use eldridge.Deployment.Outcomes.{
  running_attempt, if_running, is_failure, dry_run_status, local_status, dry_run_finished,
  local_finished, contain_dry_run, finish_dry_run, finish_local_deployment, fail_dry_run,
  fail_local, fail_deployment_dry_run, fail_local_deployment,
}
use eldridge.Deployment.Consent.{approvals-append}

-- The attempt is there and not RUNNING.
abbrev pub IsEnded : ℕ → Session → Type 0
IsEnded id s =
    (row : DeploymentAttemptRecord) × (get_elem? s.deployment_attempts id ≡ some row)
    × ((row.status == DeploymentAttemptStatus.running) ≡ false)

-- What every attempt to end it again gives.
abbrev pub IsFinal : ℕ → Session → Type 0
IsFinal id s =
    ((env : Env) (wid : ℕ) (p : DeploymentPlan) (run : CredentialedRun)
      → finish_dry_run env wid id p run s ≡ err Error.conflict_error)
    × ((env : Env) (wid : ℕ) (p : DeploymentPlan) (reference : String) (credential : Fields)
          (run : CredentialedRun)
        → finish_local_deployment env wid id p reference credential run s
          ≡ err Error.conflict_error)
    × ((env : Env) (code : String) → fail_deployment_dry_run env id code s ≡ ok (tt, s))
    × ((env : Env) (status : DeploymentAttemptStatus) (code : String) (contacted : Bool)
        → is_failure status ≡ true
        → fail_local_deployment env id status code contacted s ≡ ok (tt, s))

module _ (id : ℕ) (s : Session) (row : DeploymentAttemptRecord)
    (found : get_elem? s.deployment_attempts id ≡ some row)
    (ended : (row.status == DeploymentAttemptStatus.running) ≡ false) where
  no_longer_running : running_attempt id s ≡ err Error.conflict_error
  unfolding running_attempt gets ◌>>=◌ raise pure
  no_longer_running = rw found (rw ended refl)

  nothing_running : if_running (get_elem? s.deployment_attempts id) ≡ none
  unfolding if_running
  nothing_running = rw found (rw ended refl)

  refuses_dry_run :
      (env : Env) (wid : ℕ) (p : DeploymentPlan) (run : CredentialedRun)
      → finish_dry_run env wid id p run s ≡ err Error.conflict_error
  unfolding finish_dry_run ◌>>=◌
  refuses_dry_run env wid p run = rw no_longer_running refl

  refuses_local :
      (env : Env) (wid : ℕ) (p : DeploymentPlan) (reference : String) (credential : Fields)
      (run : CredentialedRun)
      → finish_local_deployment env wid id p reference credential run s ≡ err Error.conflict_error
  unfolding finish_local_deployment ◌>>=◌
  refuses_local env wid p reference credential run = rw no_longer_running refl

  passes_dry_run : (env : Env) (code : String) → fail_deployment_dry_run env id code s ≡ ok (tt, s)
  unfolding fail_deployment_dry_run fail_dry_run gets ◌>>=◌ pure
  passes_dry_run env code = rw nothing_running refl

  passes_local :
      (env : Env) (status : DeploymentAttemptStatus) (code : String) (contacted : Bool)
      → is_failure status ≡ true
      → fail_local_deployment env id status code contacted s ≡ ok (tt, s)
  unfolding fail_local_deployment fail_local gets ◌>>=◌ pure raise
  passes_local env status code contacted h = rw h (rw nothing_running refl)

  IsEnded-IsFinal : IsFinal id s
  IsEnded-IsFinal = (refuses_dry_run, refuses_local, passes_dry_run, passes_local)

modify-IsEnded :
    (id : ℕ) (g : DeploymentAttemptRecord → DeploymentAttemptRecord) (s t : Session)
    (row : DeploymentAttemptRecord)
    → get_elem? s.deployment_attempts id ≡ some row
    → ((g row).status == DeploymentAttemptStatus.running) ≡ false
    → t.deployment_attempts ≡ modify id g s.deployment_attempts
    → IsEnded id t
modify-IsEnded id g s t row found over e =
    let there : get_elem? (modify id g s.deployment_attempts) id ≡ some (g row) = ground (
      arith,
      get_elem?-modify id g s.deployment_attempts id,
      found,
      (nat_eq.equals_iff id id).1 refl,
    ) in
    (g row, rw e there, over)

running_attempt-ok :
    (id : ℕ) (s : Session)
    → Reads (running_attempt id) s (λ a. get_elem? s.deployment_attempts id ≡ some a)
unfolding running_attempt
running_attempt-ok id s x t h =
    let h0 = gets-ok _ _ s t x h in
    let (a, found, h1) = or_raise-ok _ _ _ s t x h0 in
    let (running, h2) = raise_if-ok _ _ _ s t x h1 in
    let (same, v) = pure-ok a x s t h2 in (same, rw v found)

over_dry_run :
    (run : CredentialedRun) → (dry_run_status run == DeploymentAttemptStatus.running) ≡ false
unfolding dry_run_status DeploymentAttemptStatus-discrete
over_dry_run run = ground arith

over_local : (run : CredentialedRun) → (local_status run == DeploymentAttemptStatus.running) ≡ false
unfolding local_status DeploymentAttemptStatus-discrete
over_local run = ground arith

contain_dry_run-keeps :
    (env : Env) (wid id : ℕ) (status : DeploymentAttemptStatus) (s t : Session) (u : Unit {0})
    → contain_dry_run env wid id status s ≡ ok (u, t)
    → t.deployment_attempts ≡ s.deployment_attempts
unfolding contain_dry_run pure
contain_dry_run-keeps env wid id DeploymentAttemptStatus.rollback_required s t tt h =
    (transition-keeps env wid _ _ _ _ s t h).0
contain_dry_run-keeps env wid id DeploymentAttemptStatus.running s t u h = cc
contain_dry_run-keeps env wid id DeploymentAttemptStatus.verifying s t u h = cc
contain_dry_run-keeps env wid id DeploymentAttemptStatus.succeeded s t u h = cc
contain_dry_run-keeps env wid id DeploymentAttemptStatus.failed s t u h = cc
contain_dry_run-keeps env wid id DeploymentAttemptStatus.unknown s t u h = cc
contain_dry_run-keeps env wid id DeploymentAttemptStatus.reconciled s t u h = cc

set-rows :
    (id : ℕ) (g : DeploymentAttemptRecord → DeploymentAttemptRecord) (s t : Session) (u : Unit {0})
    → set_deployment_attempt id g s ≡ ok (u, t)
    → t.deployment_attempts ≡ modify id g s.deployment_attempts
unfolding set_deployment_attempt
set-rows id g s t u h = cc

verification-keeps :
    (v : DeploymentVerificationRecord) (s t : Session) (u : Unit {0})
    → add_verification v s ≡ ok (u, t)
    → t.deployment_attempts ≡ s.deployment_attempts
unfolding add_verification
verification-keeps v s t u h = cc

finish_dry_run-ends :
    (env : Env) (wid id : ℕ) (p : DeploymentPlan) (run : CredentialedRun) (s t : Session)
    → finish_dry_run env wid id p run s ≡ ok (tt, t)
    → IsEnded id t
unfolding finish_dry_run dry_run_finished
finish_dry_run-ends env wid id p run s t h =
    let (row, found, h1) = read-ok _ _ s t tt _ (running_attempt-ok id s) h in
    let (w, there, h2) = read-ok _ _ s t tt _ (workflow-ok wid s) h1 in
    let (u1, s1, e1, h3) = bind-ok _ _ s t tt h2 in
    let (u2, s2, e2, h4) = bind-ok _ _ s1 t tt h3 in
    let (u3, s3, e3, h5) = bind-ok _ _ s2 t tt h4 in
    let (_, kept, _) = approvals-append env _ _ _ _ _ _ _ s3 t tt h5 in
    let kept' = contain_dry_run-keeps env wid id (dry_run_status run) s2 s3 u3 e3 in
    let a1 = set-rows id (dry_run_finished env run) s s1 u1 e1 in
    let a2 = verification-keeps _ s1 s2 u2 e2 in
    modify-IsEnded id (dry_run_finished env run) s t row found (over_dry_run run)
      (kept ∙ (kept' ∙ (a2 ∙ a1)))

finish_local_deployment-ends :
    (env : Env) (wid id : ℕ) (p : DeploymentPlan) (reference : String) (credential : Fields)
    (run : CredentialedRun) (s t : Session)
    → finish_local_deployment env wid id p reference credential run s ≡ ok (tt, t)
    → IsEnded id t
unfolding finish_local_deployment local_finished
finish_local_deployment-ends env wid id p reference credential run s t h =
    let (row, found, h1) = read-ok _ _ s t tt _ (running_attempt-ok id s) h in
    let (w, there, h2) = read-ok _ _ s t tt _ (workflow-ok wid s) h1 in
    let (u1, s1, e1, h3) = bind-ok _ _ s t tt h2 in
    let (u2, s2, e2, h4) = bind-ok _ _ s1 t tt h3 in
    let (u3, s3, e3, h5) = bind-ok _ _ s2 t tt h4 in
    let (_, kept, _) = approvals-append env _ _ _ _ _ _ _ s3 t tt h5 in
    let (kept', _) = transition-keeps env wid _ _ _ _ s2 s3 e3 in
    let a1 = set-rows id (local_finished env credential run) s s1 u1 e1 in
    let a2 = verification-keeps _ s1 s2 u2 e2 in
    modify-IsEnded id (local_finished env credential run) s t row found (over_local run)
      (kept ∙ (kept' ∙ (a2 ∙ a1)))

-- After a dry run or a local deployment was finished, its attempt is not RUNNING: on the session
-- that is left, finishing it again raises a ConflictError, and reporting a failure of it writes
-- nothing.
pub attempt_finishes_once :
    (env : Env) (wid id : ℕ) (p : DeploymentPlan) (reference : String) (credential : Fields)
    (run : CredentialedRun) (s t : Session)
    → (finish_dry_run env wid id p run s ≡ ok (tt, t))
      ⊎ (finish_local_deployment env wid id p reference credential run s ≡ ok (tt, t))
    → IsFinal id t
attempt_finishes_once env wid id p reference credential run s t (inl h) =
    let (row, found, ended) = finish_dry_run-ends env wid id p run s t h in
    IsEnded-IsFinal id t row found ended
attempt_finishes_once env wid id p reference credential run s t (inr h) =
    let (row, found, ended) =
      finish_local_deployment-ends env wid id p reference credential run s t h in
    IsEnded-IsFinal id t row found ended

-- ===== src/Deployment/Consent.antt =====
-- deployment_recovery.py: what an attempt that starts has been checked for, and what it uses up.
pub mod Attempts
pub mod Starting
pub mod Rollbacks
use eldridge.Prelude.{
  ℕ, String, Bool, true, false, ◌&&◌, ◌<◌, negate, leb, ◌≡◌, refl, sym, ◌∙◌, Option, none, some,
  List, ◌==◌, nat_eq, string_eq, arith, unequal-false, or-false,
}
use eldridge.Domain.{WorkflowState, workflow_state_eq, PrincipalType, Capability, Error}
use eldridge.Result.{ok, Begun}
use eldridge.Persistence.Json.{Fields}
use eldridge.Persistence.{
  Session, Principal, Workflow, Approval, DeploymentEnvironment, DeploymentPlanRecord,
  DeploymentAttemptRecord, get_elem?, modify, append_row, length, keyed, select_first,
  select_first-IsFirst, latest_by-some, keyed-lookup, get_elem?-modify, get_elem?-new,
  get_elem?-length,
}
use eldridge.Env.{Env}
use eldridge.Tx.{Tx, pure, ◌>>=◌, ◌>>◌}
use eldridge.Tx.Inversion.{
  Reads, bind-ok, read-ok, gets-ok, raise_if-ok, or_raise-ok, lift-ok, pure-ok, found-ok,
}
use eldridge.Audit.{append_audit_event}
use eldridge.Tasks.Approvals.{consume}
use eldridge.Platform.Approvals.{consumed_as}
use eldridge.Deployment.Adapter.{DeploymentAdapter}
use eldridge.Deployment.Store.{Deployments, add_deployment_attempt, find_environment}
use eldridge.Deployment.Attempts.{
  ExecutionRequest, Mode, permits_deployment, usable_approval, plan_of, target_of, local_target,
  adapter_for, new_deployment_attempt, commit_attempt, start_attempt,
}

-- An approval of the table that permits what is asked and has not expired.
abbrev pub IsUsable : Env → (Approval → Bool) → Session → (ℕ × Approval) → Type 0
IsUsable env permits s x =
    (get_elem? s.approvals x.0 ≡ some x.1) × (permits x.1 ≡ true) × (env.now < x.1.expires_at)

-- The environment of the table that has the id.
abbrev pub IsListed : String → Session → DeploymentEnvironment → Type 0
IsListed id s e = (k : ℕ) × (get_elem? s.environments k ≡ some e) × (e.id ≡ id)

pub environment-IsListed :
    (id : String) (s : Session) (e : DeploymentEnvironment)
    → select_first (λ x. x.id == id) s.environments ≡ some e
    → IsListed id s e
environment-IsListed id s e h =
    let (k, (found, named, _)) = select_first-IsFirst (λ x. x.id == id) s.environments e h in
    (k, found, (string_eq.equals_iff e.id id).0 named)

not_expired : (a b : ℕ) → leb a b ≡ false → b < a
not_expired a b h = ground arith

pub usable_approval-ok :
    (env : Env) (permits : Approval → Bool) (s : Session)
    → Reads (usable_approval env permits) s (IsUsable env permits s)
unfolding usable_approval
usable_approval-ok env permits s x t h =
    let h0 = gets-ok _ _ s t x h in
    let (y, chosen, h1) = or_raise-ok _ _ _ s t x h0 in
    let (in_time, h2) = raise_if-ok _ _ _ s t x h1 in
    let (same, e) = pure-ok y x s t h2 in
    let (permitted, i, found) = latest_by-some _ _ (keyed s.approvals) y chosen in
    (same, rw e (keyed-lookup s.approvals i y found, permitted, not_expired _ _ in_time))

pub plan_of-ok :
    (wid id : ℕ) (s : Session)
    → Reads
        (plan_of wid id)
        s
        (λ p. (get_elem? s.deployment_plans id ≡ some p) × (p.workflow_id ≡ wid))
unfolding plan_of
plan_of-ok wid id s p t h =
    let h0 = gets-ok _ _ s t p h in
    let (q, found, h1) = or_raise-ok _ _ _ s t p h0 in
    let (mine, h2) = raise_if-ok _ _ _ s t p h1 in
    let (same, e) = pure-ok q p s t h2 in (same, rw e (found, unequal-false q.workflow_id wid mine))

pub approvals-append :
    (env : Env) (wid : ℕ) (e a k : String) (n : ℕ) (o : String) (p : Fields) (s t : Session)
    (u : Unit {0})
    → append_audit_event env wid e a k n o p s ≡ ok (u, t)
    → (t.approvals ≡ s.approvals)
      × (t.deployment_attempts ≡ s.deployment_attempts)
      × (t.rollbacks ≡ s.rollbacks)
unfolding append_audit_event
approvals-append env wid e a k n o p s t u h = (cc, cc, cc)

pub consumed-row :
    (env : Env) (aid : ℕ) (xs : List Approval) (a : Approval)
    → get_elem? xs aid ≡ some a
    → get_elem? (modify aid (consumed_as (some env.now)) xs) aid
      ≡ some (consumed_as (some env.now) a)
consumed-row env aid xs a h = ground (
  arith,
  get_elem?-modify aid (consumed_as (some env.now)) xs aid,
  h,
  (nat_eq.equals_iff aid aid).1 refl,
)

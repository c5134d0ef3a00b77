-- ===== src/Tasks/Frames.antt =====
-- workflow_tasks.py: what every operation does to the workflows' states and to the audit log is
-- put together from six steps. A frame that has those has every operation.
pub mod Running
pub mod Preparing
pub mod Deciding
use eldridge.Prelude.{
  ℕ, String, Bool, true, false, ◌≡◌, refl, ◌≢◌, List, [], ◌∷◌, Option, none, some, arith,
  Option-cases, inl, inr,
}
use eldridge.Domain.{WorkflowState, TaskStatus, TaskKind, Capability, Error}
use eldridge.Result.{Result, ok, err}
use eldridge.Persistence.Json.{Fields}
use eldridge.Persistence.{Session, Workflow, Task, TaskAttempt, CapabilityGrant, Approval}
use eldridge.Env.{Env}
use eldridge.Tx.{Tx, pure, gets, ◌>>=◌}
use eldridge.Tx.Frame.{
  Frame, Ensures, frame_rules, Ensures-bind, Ensures-gets, Ensures-or_raise, Ensures-raise_if,
}
use eldridge.Audit.{append_audit_event}
use eldridge.Policy.{Scope, authorize}
use eldridge.Policy.Decision.{authorize_iff}
use eldridge.Tasks.Store.{
  get_workflow, get_task, get_attempt, set_workflow, set_task, set_attempt, add_workflow, add_task,
  add_attempt, set_grants, draw_token,
}
use eldridge.Tasks.Approvals.{add_approval, consume}
use eldridge.Tasks.Steps.{
  transition, schedule_task, advance_after_task, require_candidate_revision, deactivate_task_grant,
  validate_lease,
}

-- The six steps, for transitions to the states of `Target`.
pub record Supports (env : Env) (f : Frame) (Target : WorkflowState → Type 0) : Type 0 where
  pub appends :
      (wid : ℕ) (event_type actor resource_type : String) (resource : ℕ) (outcome : String)
      (payload : Fields)
      → Ensures f
          (append_audit_event env wid event_type actor resource_type resource outcome payload)
  pub rewrites :
      (wid : ℕ) (g : Workflow → Workflow)
      → ((w : Workflow) → ((g w).state ≡ w.state) × ((g w).version ≡ w.version))
      → Ensures f (set_workflow wid g)
  pub creates :
      (w : Workflow) → w.state ≡ WorkflowState.created → w.version ≡ 1 → Ensures f (add_workflow w)
  pub moves :
      (wid : ℕ) (target : WorkflowState) (actor reason : String) (extra : Fields)
      → Target target
      → Ensures f (transition env wid target actor reason extra)
  pub approves : (a : Approval) → a.consumed_at ≡ none → Ensures f (add_approval a)
  pub consumes : (id : ℕ) → Ensures f (consume env id)

-- A frame that says nothing of approvals supports the steps that write them.
module _ (env : Env) {f : Frame}
    (blind : (s t : Session)
      → s.workflows ≡ t.workflows
      → s.audit_events ≡ t.audit_events
      → f.Rel s t) where
  pub blind_approves : (a : Approval) → a.consumed_at ≡ none → Ensures f (add_approval a)
  unfolding add_approval
  blind_approves a fresh = record { at = λ s t b h. blind s t (cc) (cc) }

  pub blind_consumes : (id : ℕ) → Ensures f (consume env id)
  unfolding consume
  blind_consumes id = record { at = λ s t b h. blind s t (cc) (cc) }

-- The states that no operation but an approval enters.
unfoldable pub is_reserved : WorkflowState → Bool
is_reserved WorkflowState.approved = true
is_reserved WorkflowState.merged = true
is_reserved WorkflowState.awaiting_deployment_approval = true
is_reserved WorkflowState.deployed = true
is_reserved WorkflowState.rollback_required = true
is_reserved WorkflowState.rolled_back = true
is_reserved _ = false

module _ {f : Frame} where
  pub Ensures-authorize :
      (env : Env) (id : String) (c : Capability) (scope : Scope) (human : Bool)
      → Ensures f (authorize env id c scope human)
  Ensures-authorize env id c scope human = record {
    at = λ s t p h.
        let e : t ≡ s = (authorize_iff env id c scope s human).1 p t h in
        rw e (f.local s s refl refl refl);
  }

  pub Ensures-get_workflow : (wid : ℕ) → Ensures f (get_workflow wid)
  unfolding get_workflow
  Ensures-get_workflow wid = search frame_rules

  pub Ensures-get_task : (tid : ℕ) → Ensures f (get_task tid)
  unfolding get_task
  Ensures-get_task tid = search frame_rules

  pub Ensures-get_attempt : (aid : ℕ) → Ensures f (get_attempt aid)
  unfolding get_attempt
  Ensures-get_attempt aid = search frame_rules

  -- A step that always returns and leaves the three tables alone.
  pub Ensures-quiet :
      {A : Type 0} (a : Session → A) (g : Session → Session)
      → ((s : Session)
          → (s.workflows ≡ (g s).workflows)
            × (s.audit_events ≡ (g s).audit_events)
            × (s.approvals ≡ (g s).approvals))
      → Ensures f (λ s. ok (a s, g s))
  Ensures-quiet a g same = record {
    at = λ s t b h.
        let e : g s ≡ t = cc in rw (← e) (let (w, e', a') = same s in f.local s (g s) w e' a');
  }

  pub Ensures-set_task : (tid : ℕ) (g : Task → Task) → Ensures f (set_task tid g)
  unfolding set_task
  Ensures-set_task tid g = Ensures-quiet _ _ (λ s. (refl, refl, refl))

  pub Ensures-set_attempt :
      (aid : ℕ) (g : TaskAttempt → TaskAttempt) → Ensures f (set_attempt aid g)
  unfolding set_attempt
  Ensures-set_attempt aid g = Ensures-quiet _ _ (λ s. (refl, refl, refl))

  pub Ensures-add_task : (t : Task) → Ensures f (add_task t)
  unfolding add_task
  Ensures-add_task t = Ensures-quiet _ _ (λ s. (refl, refl, refl))

  pub Ensures-add_attempt : (a : TaskAttempt) → Ensures f (add_attempt a)
  unfolding add_attempt
  Ensures-add_attempt a = Ensures-quiet _ _ (λ s. (refl, refl, refl))

  pub Ensures-set_grants :
      (g : List CapabilityGrant → List CapabilityGrant) → Ensures f (set_grants g)
  unfolding set_grants
  Ensures-set_grants g = Ensures-quiet _ _ (λ s. (refl, refl, refl))

  pub Ensures-draw_token : Ensures f draw_token
  unfolding draw_token
  Ensures-draw_token = Ensures-quiet _ _ (λ s. (refl, refl, refl))

  pub Ensures-deactivate_task_grant : (tid : ℕ) → Ensures f (deactivate_task_grant tid)
  unfolding deactivate_task_grant
  Ensures-deactivate_task_grant tid = Ensures-set_grants _

  pub Ensures-require_candidate_revision : (wid : ℕ) → Ensures f (require_candidate_revision wid)
  unfolding require_candidate_revision
  Ensures-require_candidate_revision wid = search (frame_rules, Ensures-get_workflow)

  pub Ensures-validate_lease :
      (env : Env) (status : TaskStatus) (task : Task) (token : ℕ) (worker : String)
      → Ensures f (validate_lease env status task token worker)
  unfolding validate_lease
  Ensures-validate_lease env status task token worker = search frame_rules

pub ruleset row_rules = (
  frame_rules, Ensures-authorize, Ensures-get_workflow, Ensures-get_task, Ensures-get_attempt,
  Ensures-set_task, Ensures-set_attempt, Ensures-add_task, Ensures-add_attempt, Ensures-set_grants,
  Ensures-draw_token, Ensures-deactivate_task_grant, Ensures-require_candidate_revision,
  Ensures-validate_lease,
)

-- ===== src/Tasks/History/Transition.antt =====
-- workflow_tasks.py: what `_transition` does to the table of workflows.
use eldridge.Prelude.{◌⊎◌, ℕ, ◌+◌, String, ◌≡◌, refl, some, Option-cases, inl, inr}
use eldridge.Domain.{WorkflowState, Error}
use eldridge.Result.{Result, ok, err}
use eldridge.StateMachine.{assert_transition_allowed}
use eldridge.Persistence.Json.{Fields}
use eldridge.Persistence.{Session, Workflow, get_elem?, modify}
use eldridge.Env.{Env}
use eldridge.Tx.{◌>>=◌}
use eldridge.Audit.{append_audit_event}
use eldridge.Tasks.Store.{get_workflow, set_workflow}
use eldridge.Tasks.Steps.{transition}

abbrev pub moved : WorkflowState → Workflow → Workflow
moved target w = record w { state = target; version = w.version + 1 }

allowed_cases : (r : Result (Unit {0})) → (r ≡ ok tt) ⊎ ((e : Error) × (r ≡ err e))
allowed_cases (ok tt) = inl refl
allowed_cases (err e) = inr (e, refl)

-- A transition that returns found a workflow whose state permits it, and changed that row alone.
pub transition_lem :
    (env : Env) (wid : ℕ) (target : WorkflowState) (actor reason : String) (extra : Fields)
    (s t : Session)
    → transition env wid target actor reason extra s ≡ ok (tt, t)
    → (w : Workflow) × (get_elem? s.workflows wid ≡ some w)
      × (assert_transition_allowed w.state target ≡ ok tt)
      × (t.workflows ≡ modify wid (moved target) s.workflows)
unfolding transition get_workflow set_workflow ◌>>=◌ append_audit_event
transition_lem env wid target actor reason extra s t h =
    elim (Option-cases (get_elem? s.workflows wid)) [
      | inl missing ↦ let h' = rw missing at h in absurd (cc h')
      | inr (w, found) ↦
          let h' = rw found at h in
          elim (allowed_cases (assert_transition_allowed w.state target)) [
            | inr (e, refused) ↦ let h'' = rw refused at h' in absurd (cc h'')
            | inl fine ↦ let h'' = rw fine at h' in (w, found, fine, cc)
          ]
    ]

-- A transition writes no plan and no attempt of a deployment.
pub transition-keeps :
    (env : Env) (wid : ℕ) (target : WorkflowState) (actor reason : String) (extra : Fields)
    (s t : Session)
    → transition env wid target actor reason extra s ≡ ok (tt, t)
    → (t.deployment_attempts ≡ s.deployment_attempts) × (t.deployment_plans ≡ s.deployment_plans)
unfolding transition get_workflow set_workflow ◌>>=◌ append_audit_event
transition-keeps env wid target actor reason extra s t h =
    elim (Option-cases (get_elem? s.workflows wid)) [
      | inl missing ↦ let h' = rw missing at h in absurd (cc h')
      | inr (w, found) ↦
          let h' = rw found at h in
          elim (allowed_cases (assert_transition_allowed w.state target)) [
            | inr (e, refused) ↦ let h'' = rw refused at h' in absurd (cc h'')
            | inl fine ↦ let h'' = rw fine at h' in (cc, cc)
          ]
    ]

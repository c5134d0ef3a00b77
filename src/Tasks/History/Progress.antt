-- ===== src/Tasks/History/Progress.antt =====
-- workflow_tasks.py and state_machine.py: every run of the service moves the workflows along the
-- permitted transitions.
use eldridge.Prelude.{ℕ, ◌+◌, String, ◌≡◌, refl, true, some, List, [], arith}
use eldridge.Domain.{WorkflowState}
use eldridge.StateMachine.Graph.{Walk, is_terminal, terminal_walk, no_step}
use eldridge.Persistence.Json.{Fields}
use eldridge.Persistence.{Session, Workflow, get_elem?, modify, append_row}
use eldridge.Env.{Env}
use eldridge.Tx.Frame.{Ensures}
use eldridge.Audit.{append_audit_event}
use eldridge.Tasks.Store.{set_workflow, add_workflow}
use eldridge.Tasks.Steps.{transition}
use eldridge.Tasks.Preparation.{Service}
use eldridge.Tasks.Service.{Call, at_call, run}
use eldridge.Tasks.Frames.{blind_approves, blind_consumes, Supports}
use eldridge.Tasks.History.{Every-Settles, run-Rel}
use eldridge.Tasks.History.Transition.{moved, transition_lem}
use eldridge.Tasks.History.Walks.{
  walk_length, Reached, AllStarted, walk_frame, Onward-refl, Onward-modify, Onward-append_row,
  AllStarted-modify, AllStarted-append_row,
}

module _ (env : Env) where
  Ensures-append :
      (wid : ℕ) (event_type actor resource_type : String) (resource : ℕ) (outcome : String)
      (payload : Fields)
      → Ensures walk_frame
          (append_audit_event env wid event_type actor resource_type resource outcome payload)
  unfolding append_audit_event
  Ensures-append wid event_type actor resource_type resource outcome payload = record {
    at = λ s t a h.
        let e : s.workflows ≡ t.workflows = cc in rw (← e) (Onward-refl s.workflows, λ h. h);
  }

  Ensures-rewrites :
      (wid : ℕ) (g : Workflow → Workflow)
      → ((w : Workflow) → ((g w).state ≡ w.state) × ((g w).version ≡ w.version))
      → Ensures walk_frame (set_workflow wid g)
  unfolding set_workflow Reached walk_length
  Ensures-rewrites wid g same = record {
    at = λ s t a h.
        let e : modify wid g s.workflows ≡ t.workflows = cc in
        let stays : (w : Workflow)
            → get_elem? s.workflows wid ≡ some w
            → Reached w.state w.version (g w) =
          λ w _. let (p, q) = same w in rw p (Walk.here, omega (arith, q)) in
        rw (← e) (Onward-modify wid g s.workflows stays, AllStarted-modify wid g s.workflows stays);
  }

  Ensures-creates :
      (w : Workflow)
      → w.state ≡ WorkflowState.created
      → w.version ≡ 1
      → Ensures walk_frame (add_workflow w)
  unfolding add_workflow Reached walk_length
  Ensures-creates w h v = record {
    at = λ s t a k.
        let e : append_row s.workflows w ≡ t.workflows = cc in
        let fresh : Reached WorkflowState.created 1 w = rw h (Walk.here, omega (arith, v)) in
        rw (← e) (Onward-append_row s.workflows w, AllStarted-append_row s.workflows w fresh);
  }

  Ensures-moves :
      (wid : ℕ) (target : WorkflowState) (actor reason : String) (extra : Fields)
      → Ensures walk_frame (transition env wid target actor reason extra)
  unfolding Reached walk_length
  Ensures-moves wid target actor reason extra = record {
    at = λ s t a h.
        let (w, found, fine, e) = transition_lem env wid target actor reason extra s t h in
        let steps : (v : Workflow)
            → get_elem? s.workflows wid ≡ some v
            → Reached v.state v.version (moved target v) =
          λ v here'.
            let same : w ≡ v = cc in (Walk.step target Walk.here (rw (← same) fine), omega arith) in
        rw e (Onward-modify wid _ s.workflows steps, AllStarted-modify wid _ s.workflows steps);
  }

  pub walk_support : Supports env walk_frame (λ t. Unit)
  walk_support = record {
    appends = Ensures-append;
    rewrites = Ensures-rewrites;
    creates = Ensures-creates;
    moves = λ wid target actor reason extra h. Ensures-moves wid target actor reason extra;
    approves = blind_approves env (λ s t e _. rw (← e) (Onward-refl s.workflows, λ h. h));
    consumes = blind_consumes env (λ s t e _. rw (← e) (Onward-refl s.workflows, λ h. h));
  }

walks :
    (env : Env) (svc : Service) (cs : List Call) (s : Session) → walk_frame.Rel s (run env svc cs s)
walks env svc cs s =
    run-Rel env (λ c. walk_support (at_call env c)) (λ t h. tt) svc cs (Every-Settles (λ t. tt) cs)
      s

-- What the walks say of one workflow.
follows_transitions :
    (env : Env) (svc : Service) (cs : List Call) (s : Session) (wid : ℕ) (w : Workflow)
    → get_elem? s.workflows wid ≡ some w
    → (w' : Workflow) × (get_elem? (run env svc cs s).workflows wid ≡ some w')
      × (p : Walk w.state w'.state) × (w'.version ≡ w.version + walk_length p)
unfolding Reached
follows_transitions env svc cs s wid w h =
    let (w', h', (p, e)) = (walks env svc cs s).0 wid w h in (w', h', p, e)

-- After any sequence of the service's transactions on an empty table of workflows, each workflow's
-- state is reached from CREATED by a walk of permitted transitions, and its version is one more
-- than the number of them.
pub service_starts_at_created :
    (env : Env) (svc : Service) (cs : List Call) (s : Session) (wid : ℕ) (w : Workflow)
    → s.workflows ≡ []
    → get_elem? (run env svc cs s).workflows wid ≡ some w
    → (p : Walk WorkflowState.created w.state) × (w.version ≡ 1 + walk_length p)
unfolding Reached AllStarted
service_starts_at_created env svc cs s wid w empty h =
    (walks env svc cs s).1 (λ i v k. absurd (unfold get_elem? in cc)) wid w h

no_steps : {s t : WorkflowState} → is_terminal s ≡ true → (p : Walk s t) → walk_length p ≡ 0
unfolding walk_length
no_steps h Walk.here = refl
no_steps {s} h (Walk.step {t} u p a) = absurd (no_step t u (rw (terminal_walk h p) h) a)

-- Over any sequence of the service's transactions, a workflow that is FAILED, REJECTED, CANCELLED
-- or ROLLED_BACK keeps its state and its version.
pub final_stays :
    (env : Env) (svc : Service) (cs : List Call) (s : Session) (wid : ℕ) (w : Workflow)
    → get_elem? s.workflows wid ≡ some w
    → is_terminal w.state ≡ true
    → (w' : Workflow) × (get_elem? (run env svc cs s).workflows wid ≡ some w')
      × (w'.state ≡ w.state)
      × (w'.version ≡ w.version)
unfolding walk_length
final_stays env svc cs s wid w h final =
    let (w', h', p, e) = follows_transitions env svc cs s wid w h in
    (w', h', terminal_walk final p, omega (arith, e, no_steps final p))

-- ===== src/Tasks/History/Chain.antt =====
-- workflow_tasks.py and audit.py: the audit chains over a run of the service.
use eldridge.Prelude.{ℕ, String, Bool, ◌≡◌, refl, suc, ◌∙◌, sym, List, [], ◌∷◌}
use eldridge.Domain.{WorkflowState}
use eldridge.Result.{ok}
use eldridge.Persistence.Json.{Fields}
use eldridge.Persistence.{Session, Workflow, AuditEvent}
use eldridge.Env.{Env, digest}
use eldridge.Tx.{Tx}
use eldridge.Tx.Frame.{Frame, Ensures}
use eldridge.Audit.{append_audit_event, check_from, events_of, genesis_hash}
use eldridge.Audit.Chain.{IsSound, append_audit_event-IsSound}
use eldridge.Tasks.Store.{set_workflow, add_workflow}
use eldridge.Tasks.Steps.{transition}
use eldridge.Tasks.Service.{at_moment}
use eldridge.Tasks.Frames.{blind_approves, blind_consumes, Supports, row_rules}

-- What was sound stays sound.
abbrev chain_frame : Env → Frame
chain_frame env = record {
  Rel = λ s t. IsSound env s.audit_events → IsSound env t.audit_events;
  local = λ s t w e _ h. rw (← e) h;
  transitive = λ s t u f g h. g (f h);
}

module _ (env : Env) (now : ℕ) (locked : ℕ → Bool) where
  -- The chain does not hang on the moment of the call.
  same_check :
      (h : String) (n : ℕ) (es : List AuditEvent)
      → check_from (at_moment env now locked) h n es ≡ check_from env h n es
  unfolding check_from digest
  same_check h n [] = refl
  same_check h n (e ∷ es) = rw (same_check e.event_hash (suc n) es) refl

  keeps_sound :
      {A : Type 0} (m : Tx A)
      → ((s t : Session) (a : A)
          → IsSound (at_moment env now locked) s.audit_events
          → m s ≡ ok (a, t)
          → IsSound (at_moment env now locked) t.audit_events)
      → Ensures (chain_frame env) m
  keeps_sound m f = record {
    at = λ s t a h sound wid.
        sym (same_check genesis_hash 1 (events_of wid t.audit_events))
        ∙ f s t a (λ j. same_check genesis_hash 1 (events_of j s.audit_events) ∙ sound j) h wid;
  }

  Ensures-append :
      (wid : ℕ) (event_type actor resource_type : String) (resource : ℕ) (outcome : String)
      (payload : Fields)
      → Ensures (chain_frame env) (
          append_audit_event
            (at_moment env now locked)
            wid
            event_type
            actor
            resource_type
            resource
            outcome
            payload)
  Ensures-append wid event_type actor resource_type resource outcome payload =
      keeps_sound _ (λ s t a sound h.
        (append_audit_event-IsSound (at_moment env now locked) wid event_type actor resource_type
          resource outcome payload s t sound h).0)

  Ensures-set_workflow :
      (wid : ℕ) (g : Workflow → Workflow) → Ensures (chain_frame env) (set_workflow wid g)
  unfolding set_workflow
  Ensures-set_workflow wid g =
      keeps_sound _
        (λ s t a sound h. let e : s.audit_events ≡ t.audit_events = cc in rw (← e) sound)

  Ensures-add_workflow : (w : Workflow) → Ensures (chain_frame env) (add_workflow w)
  unfolding add_workflow
  Ensures-add_workflow w =
      keeps_sound _
        (λ s t a sound h. let e : s.audit_events ≡ t.audit_events = cc in rw (← e) sound)

  Ensures-moves :
      (wid : ℕ) (target : WorkflowState) (actor reason : String) (extra : Fields)
      → Ensures
          (chain_frame env)
          (transition (at_moment env now locked) wid target actor reason extra)
  unfolding transition
  Ensures-moves wid target actor reason extra =
      search (row_rules, Ensures-append, Ensures-set_workflow) depth 12

  pub chain_support : Supports (at_moment env now locked) (chain_frame env) (λ t. Unit)
  chain_support = record {
    appends = Ensures-append;
    rewrites = λ wid g same. Ensures-set_workflow wid g;
    creates = λ w h v. Ensures-add_workflow w;
    moves = λ wid target actor reason extra h. Ensures-moves wid target actor reason extra;
    approves = blind_approves (at_moment env now locked) (λ s t w e h. rw (← e) h);
    consumes = blind_consumes (at_moment env now locked) (λ s t w e h. rw (← e) h);
  }

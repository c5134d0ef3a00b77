-- ===== src/Tasks/History/Entries.antt =====
-- workflow_tasks.py: which workflows are in states that only some operations enter.
use eldridge.Prelude.{
  ℕ, String, ◌≡◌, Bool, true, false, some, List, arith, ◌==◌, nat_eq, Bool-cases, inl, inr,
  Option-cases,
}
use eldridge.Domain.{WorkflowState}
use eldridge.Persistence.Json.{Fields}
use eldridge.Persistence.{
  Workflow, get_elem?, modify, append_row, length, get_elem?-modify, get_elem?-append_row,
}
use eldridge.Env.{Env}
use eldridge.Tx.Frame.{Frame, Ensures}
use eldridge.Audit.{append_audit_event}
use eldridge.Tasks.Store.{set_workflow, add_workflow}
use eldridge.Tasks.Steps.{transition}
use eldridge.Tasks.Frames.{blind_approves, blind_consumes, Supports}
use eldridge.Tasks.History.Transition.{transition_lem}

-- The workflows of the second table whose state passes the test passed it in the first.
abbrev NoneEnters : (WorkflowState → Bool) → List Workflow → List Workflow → Type 0
NoneEnters p xs ys =
    (i : ℕ) (w : Workflow)
    → get_elem? ys i ≡ some w
    → p w.state ≡ true
    → (v : Workflow) × (get_elem? xs i ≡ some v) × (p v.state ≡ true)

abbrev pub entry_frame : (WorkflowState → Bool) → Frame
entry_frame p = record {
  Rel = λ s t. NoneEnters p s.workflows t.workflows;
  local = λ s t e _ _. rw (← e) (λ i w h k. (w, h, k));
  transitive = λ s t u f g i w h k. let (v, h', k') = g i w h k in f i v h' k';
}

NoneEnters-modify :
    (p : WorkflowState → Bool) (wid : ℕ) (g : Workflow → Workflow) (xs : List Workflow)
    → ((w : Workflow) → p (g w).state ≡ true → p w.state ≡ true)
    → NoneEnters p xs (modify wid g xs)
NoneEnters-modify p wid g xs keeps i w h k = elim (Bool-cases (wid == i)) [
  | inl same ↦ elim (Option-cases (get_elem? xs i)) [
    | inl missing ↦ absurd (ground (arith, get_elem?-modify wid g xs i, h, missing, same))
    | inr (v, found) ↦
        let e : g v ≡ w = ground (arith, get_elem?-modify wid g xs i, h, found, same) in
        (v, found, keeps v (rw e k))
  ]
  | inr other ↦ (w, ground (arith, get_elem?-modify wid g xs i, h, other), k)
]

module _ (env : Env) (p : WorkflowState → Bool) (starts_out : p WorkflowState.created ≡ false) where
  Ensures-append :
      (wid : ℕ) (event_type actor resource_type : String) (resource : ℕ) (outcome : String)
      (payload : Fields)
      → Ensures
          (entry_frame p)
          (append_audit_event env wid event_type actor resource_type resource outcome payload)
  unfolding append_audit_event
  Ensures-append wid event_type actor resource_type resource outcome payload = record {
    at = λ s t a h. let e : s.workflows ≡ t.workflows = cc in rw (← e) (λ i w h k. (w, h, k));
  }

  Ensures-rewrites :
      (wid : ℕ) (g : Workflow → Workflow)
      → ((w : Workflow) → ((g w).state ≡ w.state) × ((g w).version ≡ w.version))
      → Ensures (entry_frame p) (set_workflow wid g)
  unfolding set_workflow
  Ensures-rewrites wid g same = record {
    at = λ s t a h.
        let e : modify wid g s.workflows ≡ t.workflows = cc in
        rw (← e)
          (NoneEnters-modify p wid g s.workflows (λ w k. let e' = (same w).0 in rw (← e') k));
  }

  Ensures-creates :
      (w : Workflow)
      → w.state ≡ WorkflowState.created
      → w.version ≡ 1
      → Ensures (entry_frame p) (add_workflow w)
  unfolding add_workflow
  Ensures-creates new h v = record {
    at = λ s t a k.
        let e : append_row s.workflows new ≡ t.workflows = cc in
        rw (← e) (λ i w found approved. elim (Bool-cases (length s.workflows == i)) [
          | inl same ↦
              let e' : new ≡ w =
                ground (arith, get_elem?-append_row s.workflows new i, found, same) in
              absurd (
                let e'' : new.state ≡ WorkflowState.created = h in
                let u : p new.state ≡ true = rw e' approved in ground (arith, starts_out, u, e''))
          | inr other ↦
              (w, ground (arith, get_elem?-append_row s.workflows new i, found, other), approved)
        ]);
  }

  Ensures-moves :
      (wid : ℕ) (target : WorkflowState) (actor reason : String) (extra : Fields)
      → p target ≡ false
      → Ensures (entry_frame p) (transition env wid target actor reason extra)
  Ensures-moves wid target actor reason extra other = record {
    at = λ s t a h.
        let (w, found, fine, e) = transition_lem env wid target actor reason extra s t h in
        rw e (NoneEnters-modify p wid _ s.workflows (λ v k. absurd (ground arith)));
  }

  pub entry_support : Supports env (entry_frame p) (λ t. p t ≡ false)
  entry_support = record {
    appends = Ensures-append;
    rewrites = Ensures-rewrites;
    creates = Ensures-creates;
    moves = Ensures-moves;
    approves = blind_approves env (λ s t e _. rw (← e) (λ i w h k. (w, h, k)));
    consumes = blind_consumes env (λ s t e _. rw (← e) (λ i w h k. (w, h, k)));
  }

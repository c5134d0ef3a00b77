-- ===== src/Tasks/Consent.antt =====
-- workflow_tasks.py: what an approval of a merge that is accepted has been checked for.
use eldridge.Prelude.{
  ℕ, String, ◌≡◌, refl, sym, true, some, arith, nat_eq, string_eq, option_eq, Option-cases, inl,
  inr,
}
use eldridge.Domain.{
  WorkflowState, workflow_state_eq, PrincipalType, Capability, ApprovalAction, ApprovalDecision,
}
use eldridge.Result.{ok}
use eldridge.Persistence.{Session, Workflow, Principal, get_elem?, get_elem?-modify}
use eldridge.Env.{Env}
use eldridge.Tx.{◌>>◌, pure, gets, raise, ◌>>=◌}
use eldridge.Tx.Inversion.{bind-ok, raise_if-ok}
use eldridge.Policy.{unscoped, authorize}
use eldridge.Policy.Decision.{IsAuthorized, authorize_iff}
use eldridge.Tasks.Store.{get_workflow}
use eldridge.Tasks.Approvals.{
  ApprovalRequest, approval_capability, check_merge, check_binding, add_approval, new_approval,
  new_approval, conclude, decided_state, settle, consume, approve,
}
use eldridge.Tasks.History.Transition.{transition_lem, moved}

check_merge-ok :
    (r : ApprovalRequest) (w : Workflow) (s t : Session) (v : String)
    → check_merge r w s ≡ ok (v, t)
    → (w.state ≡ WorkflowState.awaiting_human_approval)
      × (w.candidate_revision ≡ some r.revision)
      × (t ≡ s)
unfolding check_merge pure
check_merge-ok r w s t v h =
    let (a, h1) = raise_if-ok _ _ _ s t v h in
    let (b, h2) = raise_if-ok _ _ _ s t v h1 in
    let (c, h3) = raise_if-ok _ _ _ s t v h2 in
    let e : s ≡ t = cc in
    (
      ground (arith, workflow_state_eq.equals_iff w.state WorkflowState.awaiting_human_approval, b),
      sym ((option_eq.equals_iff (some r.revision) w.candidate_revision).0 (ground arith)),
      sym e,
    )

get_workflow-ok :
    (wid : ℕ) (s t : Session) (w : Workflow)
    → get_workflow wid s ≡ ok (w, t)
    → (get_elem? s.workflows wid ≡ some w) × (t ≡ s)
unfolding get_workflow gets ◌>>=◌ raise pure
get_workflow-ok wid s t w h = elim (Option-cases (get_elem? s.workflows wid)) [
  | inl missing ↦ let h' = rw missing at h in absurd (cc h')
  | inr (v, found) ↦ let h' = rw found at h in (cc, cc)
]

settle-ok :
    (env : Env) (r : ApprovalRequest) (id : ℕ) (s t : Session) (u : Unit {0}) (w : Workflow)
    → get_elem? s.workflows r.workflow_id ≡ some w
    → settle env r id s ≡ ok (u, t)
    → get_elem? t.workflows r.workflow_id ≡ some (moved (decided_state r.decision) w)
unfolding settle consume
settle-ok env r id s t u w found h =
    let (v, s2, consumed, h2) = bind-ok _ _ s t u h in
    let e : s.workflows ≡ s2.workflows = cc in
    let (w', found', fine, e') = transition_lem env r.workflow_id _ _ _ _ s2 t h2 in
    ground (
      arith,
      get_elem?-modify r.workflow_id (moved (decided_state r.decision)) s2.workflows r.workflow_id,
      e',
      e,
      found,
    )

check_binding-merge :
    (env : Env) (r : ApprovalRequest) (w : Workflow) (a : ApprovalAction) (s t : Session)
    (v : String)
    → a ≡ ApprovalAction.merge
    → check_binding env r w a s ≡ ok (v, t)
    → check_merge r w s ≡ ok (v, t)
unfolding check_binding
check_binding-merge env r w a s t v m h = rw m at h

conclude-merge :
    (env : Env) (r : ApprovalRequest) (v : String) (id : ℕ) (a : ApprovalAction)
    (d : ApprovalDecision) (s t : Session) (u : Unit {0})
    → a ≡ ApprovalAction.merge
    → conclude env r v id a d s ≡ ok (u, t)
    → settle env r id s ≡ ok (u, t)
unfolding conclude
conclude-merge env r v id a d s t u m h = rw m at h

IsAuthorized-merge :
    (env : Env) (who : String) (a : ApprovalAction) (s : Session) (p : Principal)
    → a ≡ ApprovalAction.merge
    → authorize env who (approval_capability a) unscoped true s ≡ ok (p, s)
    → IsAuthorized env who Capability.approve_merge unscoped true s p
unfolding approval_capability
IsAuthorized-merge env who a s p m h =
    let h' : authorize env who Capability.approve_merge unscoped true s ≡ ok (p, s) = rw m at h in
    ((authorize_iff env who Capability.approve_merge unscoped s true).0 p).0 h'

same_row :
    {s t : Session} (wid : ℕ) (w : Workflow)
    → s ≡ t
    → get_elem? s.workflows wid ≡ some w
    → get_elem? t.workflows wid ≡ some w
same_row wid w e h = rw (← e) h

decided-ok :
    (env : Env) (r : ApprovalRequest) (w : Workflow) (v : String) (s t : Session) (id : ℕ)
    → r.action ≡ ApprovalAction.merge
    → get_elem? s.workflows r.workflow_id ≡ some w
    → (add_approval (new_approval env r v) >>= λ i.
          conclude env r v i r.action r.decision >> pure i)
        s
      ≡ ok (id, t)
    → get_elem? t.workflows r.workflow_id ≡ some (moved (decided_state r.decision) w)
unfolding add_approval pure
decided-ok env r w v s t id merging found h =
    let (aid, s5, added, h6) = bind-ok _ _ s t id h in
    let e5 : s.workflows ≡ s5.workflows = cc in
    let (u, s6, ended, h7) = bind-ok _ _ s5 t id h6 in
    let e7 : s6 ≡ t = cc in
    let settled = conclude-merge env r v aid r.action r.decision s5 s6 u merging ended in
    let found5 : get_elem? s5.workflows r.workflow_id ≡ some w = cc in
    same_row r.workflow_id _ e7 (settle-ok env r aid s5 s6 u w found5 settled)

by_decision :
    (d : ApprovalDecision) (s : Session) (wid : ℕ) (w : Workflow)
    → get_elem? s.workflows wid ≡ some (moved (decided_state d) w)
    → (d ≡ ApprovalDecision.approved
        → get_elem? s.workflows wid ≡ some (moved WorkflowState.approved w))
      × (d ≡ ApprovalDecision.rejected
          → get_elem? s.workflows wid ≡ some (moved WorkflowState.rejected w))
unfolding decided_state
by_decision ApprovalDecision.approved s wid w h = (λ _. h, λ e. absurd (cc e))
by_decision ApprovalDecision.rejected s wid w h = (λ e. absurd (cc e), λ _. h)

-- A decision about a merge that `approve` accepts comes from an active human whose role has the
-- capability APPROVE_MERGE; the workflow awaited human approval with exactly the revision that the
-- decision names, and it is afterwards APPROVED or REJECTED as was
-- decided, one version on.
pub merge_needs_human :
    (env : Env) (r : ApprovalRequest) (s t : Session) (id : ℕ)
    → r.action ≡ ApprovalAction.merge
    → approve env r s ≡ ok (id, t)
    → ((p : Principal) × IsAuthorized env r.approver_id Capability.approve_merge unscoped true s p
        × (p.principal_type ≡ PrincipalType.human))
      × ((w : Workflow) × (get_elem? s.workflows r.workflow_id ≡ some w)
          × (w.state ≡ WorkflowState.awaiting_human_approval)
          × (w.candidate_revision ≡ some r.revision)
          × (r.decision ≡ ApprovalDecision.approved
              → get_elem? t.workflows r.workflow_id ≡ some (moved WorkflowState.approved w))
          × (r.decision ≡ ApprovalDecision.rejected
              → get_elem? t.workflows r.workflow_id ≡ some (moved WorkflowState.rejected w)))
unfolding approve check_binding approval_capability
merge_needs_human env r s t id merging h =
    let (a, h1) = raise_if-ok _ _ _ s t id h in
    let (p, s2, who, h2) = bind-ok _ _ s t id h1 in
    let e2 : s2 ≡ s =
      (authorize_iff env r.approver_id (approval_capability r.action) unscoped s true).1 p s2 who in
    let (w, s3, row, h3) = bind-ok _ _ s2 t id h2 in
    let (found, e3) = get_workflow-ok r.workflow_id s2 s3 w row in
    let (b, h4) = raise_if-ok _ _ _ s3 t id h3 in
    let (v, s4, checked, h5) = bind-ok _ _ s3 t id h4 in
    let checked' : check_merge r w s3 ≡ ok (v, s4) =
      check_binding-merge env r w r.action s3 s4 v merging checked in
    let (awaiting, exact, e4) = check_merge-ok r w s3 s4 v checked' in
    let auth : authorize env r.approver_id (approval_capability r.action) unscoped true s
        ≡ ok (p, s) =
      rw e2 at who in
    let who' = IsAuthorized-merge env r.approver_id r.action s p merging auth in
    let row_s = same_row r.workflow_id w e2 found in
    let found4 = same_row r.workflow_id w (sym e4) (same_row r.workflow_id w (sym e3) found) in
    let (accepts, refuses) =
      by_decision r.decision t r.workflow_id w (decided-ok env r w v s4 t id merging found4 h5) in
    ((p, who', who'.human refl), (w, row_s, awaiting, exact, accepts, refuses))

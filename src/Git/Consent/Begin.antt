-- ===== src/Git/Consent/Begin.antt =====
-- git_pull_requests.py: who begins the confirmation of a merge, and with what evidence.
use eldridge.Prelude.{
  ℕ, ◌≡◌, refl, if◌then◌else◌, true, Option, none, some, ◌==◌, Bool-cases, inl, inr,
}
use eldridge.Domain.{WorkflowState, workflow_state_eq, PrincipalType, Capability}
use eldridge.Result.{ok, Begun}
use eldridge.Persistence.{Session, Principal, Workflow, MergeConfirmationRecord, get_elem?}
use eldridge.Env.{Env}
use eldridge.Tx.{raise, ◌>>=◌}
use eldridge.Tx.Inversion.{read-ok, gets-ok, raise_if-ok, or_raise-ok, pure-ok}
use eldridge.Policy.{unscoped}
use eldridge.Policy.Decision.{IsAuthorized}
use eldridge.Tasks.Reading.{workflow-ok, authorize-ok}
use eldridge.Git.Store.{GitHubApp}
use eldridge.Git.Merges.{
  ConfirmationRequest, replay_merged, earlier_confirmation, begin_confirmation,
  confirm_pull_request_merged,
}
use eldridge.Git.Consent.{IsConfirmable, begin_confirmation-ok}

-- On a workflow that is MERGED nothing starts.
replay_merged-replays :
    (r : ConfirmationRequest) (o : Option (ℕ × MergeConfirmationRecord)) (s t : Session) (id : ℕ)
    → replay_merged r o s ≡ ok (Begun.started id, t)
    → ⊥
unfolding replay_merged raise
replay_merged-replays r none s t id h = cc h
replay_merged-replays r (some x) s t id h =
    let (mine, h1) = raise_if-ok _ _ _ s t (Begun.started id) h in
    let (same, e) = pure-ok (Begun.replayed x.0) (Begun.started id) s t h1 in cc e

branch-ok :
    (env : Env) (r : ConfirmationRequest) (w : Workflow) (s t : Session) (id : ℕ)
    → (if w.state == WorkflowState.merged
          then (earlier_confirmation r >>= λ existing. replay_merged r existing)
          else begin_confirmation env r w)
        s
      ≡ ok (Begun.started id, t)
    → begin_confirmation env r w s ≡ ok (Begun.started id, t)
unfolding earlier_confirmation
branch-ok env r w s t id h = elim (Bool-cases (w.state == WorkflowState.merged)) [
  | inl merged ↦
      let h' = rw merged at h in
      absurd (replay_merged-replays r _ s t id (gets-ok _ _ s t (Begun.started id) h'))
  | inr other ↦ rw other at h
]

-- A confirmation that starts was asked for by an active human whose role has the capability
-- CONFIRM_GIT_MERGE, on a workflow that is APPROVED; one revision is the workflow's candidate, the
-- revision of its SUCCEEDED pull request proposal, the revision that a SUCCEEDED assessment of that
-- proposal found ready, and the revision of a consumed approval of the merge under the workflow's
-- policy version.
pub merge_confirmation_needs_consent :
    (env : Env) (app : Option GitHubApp) (r : ConfirmationRequest) (s t : Session) (id : ℕ)
    → confirm_pull_request_merged env app r s ≡ ok (Begun.started id, t)
    → ((p : Principal) × IsAuthorized env r.actor_id Capability.confirm_git_merge unscoped true s p
        × (p.principal_type ≡ PrincipalType.human))
      × ((w : Workflow) × (get_elem? s.workflows r.workflow_id ≡ some w) × IsConfirmable r s w)
unfolding confirm_pull_request_merged
merge_confirmation_needs_consent env app r s t id h =
    let b = Begun.started id in
    let (github, enabled, h1) = or_raise-ok _ _ _ s t b h in
    let (p, who, h2) =
      read-ok _ _ s t b _ (authorize-ok env r.actor_id Capability.confirm_git_merge true s) h1 in
    let (w, found, h3) = read-ok _ _ s t b _ (workflow-ok r.workflow_id s) h2 in
    let h4 = branch-ok env r w s t id h3 in
    ((p, who, who.human refl), (w, found, begin_confirmation-ok env r w s t b h4))

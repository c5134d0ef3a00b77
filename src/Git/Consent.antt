-- ===== src/Git/Consent.antt =====
-- git_pull_requests.py: what a confirmation of a merge has been checked for, when it begins and
-- when it completes.
pub mod Begin
pub mod Completion
use eldridge.Prelude.{
  ℕ, String, Bool, true, false, ◌&&◌, negate, ◌≡◌, refl, sym, ◌∙◌, Option, none, some, ◌==◌, ◌!=◌,
  nat_eq, string_eq, option_eq, arith, unequal-false, or-false, and-true, negate-false,
}
use eldridge.Domain.{
  WorkflowState, workflow_state_eq, ApprovalAction, PrincipalType, Capability, Error,
}
use eldridge.Result.{ok, Begun}
use eldridge.Persistence.{
  Session, Principal, Workflow, Approval, PullRequestProposalRecord, MergeReadinessAssessmentRecord,
  MergeConfirmationRecord, get_elem?, modify, get_elem?-modify, latest_by, latest_by-some,
  latest_by-some,
}
use eldridge.Env.{Env}
use eldridge.Tx.{gets, pure, raise, ◌>>=◌, ◌>>◌, or_raise, raise_if}
use eldridge.Tx.Inversion.{
  Reads, bind-ok, read-ok, gets-ok, raise_if-ok, or_raise-ok, pure-ok, found-ok,
}
use eldridge.Policy.{unscoped}
use eldridge.Policy.Decision.{IsAuthorized}
use eldridge.Tasks.Reading.{workflow-ok, authorize-ok}
use eldridge.Tasks.History.Transition.{transition_lem, moved}
use eldridge.Git.Store.{GitHubApp, MergeConfirmation, present, get_pull_request, set_confirmation}
use eldridge.Git.Merges.{
  ConfirmationRequest, is_consent, confirmed_proposal, ready_assessment, begin_confirmation,
  confirm_pull_request_merged, pending_confirmation, matches_approved, complete_merge_confirmation,
  confirmed,
}
use eldridge.Tasks.Store.{set_workflow}
use eldridge.Platform.Terms.{IsGrant, is_consent-IsGrant}

pub pull_request-ok :
    (id : ℕ) (e : Error) (s : Session)
    → Reads (get_pull_request id e) s (λ p. get_elem? s.pull_requests id ≡ some p)
unfolding get_pull_request
pull_request-ok id e s = found-ok _ _ s

pub present-ok :
    (o : Option String) (e : Error) (s : Session) → Reads (present o e) s (λ text. o ≡ some text)
unfolding present raise
present-ok none e s a t h = absurd (cc h)
present-ok (some x) e s a t h =
    let (filled, h') = raise_if-ok _ _ _ s t a h in
    let (same, value) = pure-ok x a s t h' in (same, cc)

-- The proposal is there, belongs to the workflow, succeeded and has the number.
abbrev IsProposal : (wid id : ℕ) → Session → (ℕ × PullRequestProposalRecord) → Type 0
IsProposal wid id s x =
    (get_elem? s.pull_requests id ≡ some x.1)
    × (x.1.workflow_id ≡ wid)
    × (x.1.status ≡ "SUCCEEDED")
    × (x.1.pull_number ≡ some x.0)

confirmed_proposal-ok :
    (wid id : ℕ) (s : Session) → Reads (confirmed_proposal wid id) s (IsProposal wid id s)
unfolding confirmed_proposal
confirmed_proposal-ok wid id s x t h =
    let (p, found, h1) = read-ok _ _ s t x _ (pull_request-ok id Error.conflict_error s) h in
    let (fine, h2) = raise_if-ok _ _ _ s t x h1 in
    let (n, number, h3) = or_raise-ok _ _ _ s t x h2 in
    let (same, e) = pure-ok (n, p) x s t h3 in
    let (mine, succeeded) = or-false _ _ fine in
    (
      same,
      rw e (
        found,
        unequal-false p.workflow_id wid mine,
        unequal-false p.status "SUCCEEDED" succeeded,
        number,
      ),
    )

-- The assessment is there, is about the workflow and the proposal, succeeded and found it ready.
abbrev IsReady : (wid id aid : ℕ) → Session → MergeReadinessAssessmentRecord → Type 0
IsReady wid id aid s a =
    (get_elem? s.assessments aid ≡ some a)
    × (a.workflow_id ≡ wid)
    × (a.proposal_id ≡ id)
    × (a.status ≡ "SUCCEEDED")
    × (a.ready ≡ some true)

ready_assessment-ok :
    (wid id aid : ℕ) (s : Session) → Reads (ready_assessment wid id aid) s (IsReady wid id aid s)
unfolding ready_assessment
ready_assessment-ok wid id aid s x t h =
    let h0 = gets-ok _ _ s t x h in
    let (a, found, h1) = or_raise-ok _ _ _ s t x h0 in
    let (fine, h2) = raise_if-ok _ _ _ s t x h1 in
    let (r, ready, h3) = or_raise-ok _ _ _ s t x h2 in
    let (positive, h4) = raise_if-ok _ _ _ s t x h3 in
    let (same, e) = pure-ok a x s t h4 in
    let (mine, rest) = or-false _ _ fine in
    let (about, succeeded) = or-false _ _ rest in
    let yes' : r ≡ true = negate-false r positive in
    (
      same,
      rw e (
        found,
        unequal-false a.workflow_id wid mine,
        unequal-false a.proposal_id id about,
        unequal-false a.status "SUCCEEDED" succeeded,
        rw yes' at ready,
      ),
    )

-- What a confirmation begins with: the workflow, its revision, the proposal of that revision, the
-- assessment that found it ready, and the consumed approval of the merge.
pub record IsConfirmable (r : ConfirmationRequest) (s : Session) (w : Workflow) : Type 0 where
  pub revision : String
  pub proposal : ℕ × PullRequestProposalRecord
  pub assessment : MergeReadinessAssessmentRecord
  pub approval : Approval
  pub approval_id : ℕ
  pub approved : w.state ≡ WorkflowState.approved
  pub candidate : w.candidate_revision ≡ some revision
  pub proposed : IsProposal r.workflow_id r.proposal_id s proposal
  pub proposed_revision : proposal.1.revision ≡ revision
  pub ready : IsReady r.workflow_id r.proposal_id r.assessment_id s assessment
  pub assessed_revision : assessment.revision ≡ revision
  pub recorded : get_elem? s.approvals approval_id ≡ some approval
  pub granted : IsGrant r.workflow_id ApprovalAction.merge revision w.policy_version approval
  pub consumed : (moment : ℕ) × (approval.consumed_at ≡ some moment)

begin_confirmation-ok :
    (env : Env) (r : ConfirmationRequest) (w : Workflow) (s t : Session) (b : Begun)
    → begin_confirmation env r w s ≡ ok (b, t)
    → IsConfirmable r s w
unfolding begin_confirmation
begin_confirmation-ok env r w s t b h =
    let (in_state, h1) = raise_if-ok _ _ _ s t b h in
    let (x, proposed, h2) =
      read-ok _ _ s t b _ (confirmed_proposal-ok r.workflow_id r.proposal_id s) h1 in
    let (a, ready, h3) =
      read-ok _ _ s t b _ (ready_assessment-ok r.workflow_id r.proposal_id r.assessment_id s) h2 in
    let (revision, candidate, h4) =
      read-ok _ _ s t b _ (present-ok w.candidate_revision Error.conflict_error s) h3 in
    let (same, h5) = raise_if-ok _ _ _ s t b h4 in
    let h6 = gets-ok _ _ s t b h5 in
    let (approval, chosen, h7) = or_raise-ok _ _ _ s t b h6 in
    let (first, second) = or-false _ _ same in
    let (consented, i, recorded) = latest_by-some _ _ s.approvals approval chosen in
    let (granted, used) =
      is_consent-IsGrant r.workflow_id revision w.policy_version approval consented in
    let e1 = unequal-false x.1.revision a.revision first in
    let e2 = unequal-false a.revision revision second in
    record {
      revision = revision;
      proposal = x;
      assessment = a;
      approval = approval;
      approval_id = i;
      approved = unequal-false w.state WorkflowState.approved in_state;
      candidate = candidate;
      proposed = proposed;
      proposed_revision = e1 ∙ e2;
      ready = ready;
      assessed_revision = e2;
      recorded = recorded;
      granted = granted;
      consumed = used;
    }

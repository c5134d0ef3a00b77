-- ===== src/Git/Proposals.antt =====
-- git_pull_requests.py: `propose_pull_request`, `reconcile_pull_request` and their ends.
use eldridge.Prelude.{
  ℕ, String, Bool, true, false, ◌&&◌, List, [], ◌∷◌, Option, none, some, ◌==◌, ◌!=◌, nat_eq,
  string_eq, option_eq, prefix, if◌then◌else◌,
}
use eldridge.Domain.{WorkflowState, WorkflowState-discrete, workflow_state_eq, Capability, Error}
use eldridge.Result.{Result, ok, err, Begun}
use eldridge.Persistence.Json.{Json, fields}
use eldridge.Persistence.{PullRequestProposalRecord, keyed, select, select_first, get_elem?}
use eldridge.Env.{Env, digest}
use eldridge.Tx.{Tx, pure, raise, gets, lift, or_raise, raise_if, ◌>>=◌, ◌>>◌}
use eldridge.Audit.{append_audit_event}
use eldridge.Policy.{unscoped, authorize}
use eldridge.Tasks.Store.{get_workflow}
use eldridge.Git.Store.{
  GitHubApp, PullRequestProposal, present, add_pull_request, set_pull_request, get_pull_request,
}

-- The keyword arguments of `propose_pull_request`.
pub record ProposalRequest : Type 0 where
  pub workflow_id : ℕ
  pub actor_id : String
  pub head_branch : String
  pub title : String
  pub body : String
  pub idempotency_key : String

unfoldable pub proposal_digest : Env → ProposalRequest → String → String → String
proposal_digest env r repository revision = digest env (
    fields (
      ("workflow_id", Json.number r.workflow_id)
      ∷ ("repository", Json.text repository)
      ∷ ("revision", Json.text revision)
      ∷ ("head_branch", Json.text r.head_branch)
      ∷ ("title", Json.text r.title)
      ∷ ("body", Json.text r.body)
      ∷ []))

new_proposal :
    Env → ProposalRequest → (repository revision base : String) → PullRequestProposalRecord
unfolding proposal_digest
new_proposal env r repository revision base = record {
  workflow_id = r.workflow_id;
  actor_id = r.actor_id;
  idempotency_key = r.idempotency_key;
  request_digest = proposal_digest env r repository revision;
  repository = repository;
  head_branch = r.head_branch;
  base_branch = base;
  revision = revision;
  title = env.strip r.title;
  status = "RUNNING";
  pull_number = none;
  pull_url = none;
  error_code = none;
  completed_at = none;
}

unfoldable pub replay_or_propose :
    Env
    → ProposalRequest
    → (repository revision base : String) → Option (ℕ × PullRequestProposalRecord)
    → Tx Begun
unfolding new_proposal proposal_digest
replay_or_propose env r repository revision base (some x) = do
  raise_if (x.1.request_digest != proposal_digest env r repository revision) Error.conflict_error
  raise_if (x.1.status != "SUCCEEDED") Error.conflict_error
  pure (Begun.replayed x.0)
replay_or_propose env r repository revision base none = do
  id ← add_pull_request (new_proposal env r repository revision base)
  append_audit_event env r.workflow_id "git.pull_request_requested" r.actor_id
      "pull_request_proposal" id "STARTED"
      (fields (("revision", Json.text revision) ∷ ("head_branch", Json.text r.head_branch) ∷ []))
  pure (Begun.started id)

-- The first transaction of `propose_pull_request`.
unfoldable pub propose_pull_request : Env → Option GitHubApp → ProposalRequest → Tx Begun
unfolding replay_or_propose WorkflowState-discrete
propose_pull_request env app r = do
  github ← or_raise app Error.integration_disabled_error
  authorize env r.actor_id Capability.propose_pull_request unscoped false
  workflow ← get_workflow r.workflow_id
  raise_if (workflow.state != WorkflowState.awaiting_human_approval) Error.invalid_transition_error
  repository ← present workflow.repository_scope Error.validation_error
  revision ← present workflow.candidate_revision Error.validation_error
  base ← lift (github.validate_pull_request repository r.head_branch revision r.title r.body)
  existing ← gets (λ s.
      select_first
        (λ (x : ℕ × PullRequestProposalRecord).
          x.1.actor_id == r.actor_id && x.1.idempotency_key == r.idempotency_key)
        (keyed s.pull_requests))
  replay_or_propose env r repository revision base existing

unfoldable pub mark_unknown : Env → ℕ → String → Option PullRequestProposalRecord → Tx (Unit {0})
mark_unknown env id error_code none = pure tt
mark_unknown env id error_code (some row) = if row.status != "RUNNING" then pure tt else (do
  set_pull_request id (λ r. record r {
    status = "UNKNOWN";
    error_code = some (prefix 64 error_code);
    completed_at = some env.now;
  })
  append_audit_event env row.workflow_id "git.pull_request_outcome_unknown" "orchestrator"
      "pull_request_proposal" id "UNKNOWN"
      (fields (
        ("revision", Json.text row.revision)
        ∷ ("error_code", Json.text (prefix 64 error_code))
        ∷ [])))

-- `_mark_pull_request_unknown`
unfoldable pub mark_pull_request_unknown : Env → ℕ → String → Tx (Unit {0})
unfolding mark_unknown
mark_pull_request_unknown env id error_code = do
  found ← gets (λ s. get_elem? s.pull_requests id)
  mark_unknown env id error_code found

unfoldable pub completed_proposal :
    Env
    → PullRequestProposal
    → (stale : Bool) → PullRequestProposalRecord
    → PullRequestProposalRecord
completed_proposal env p stale r = record r {
  status = if stale then "STALE" else "SUCCEEDED";
  pull_number = some p.number;
  pull_url = some p.url;
  error_code = if stale then some "CandidateRevisionChanged" else none;
  completed_at = some env.now;
}

-- `_complete_pull_request`. A stale proposal is committed, and the error is raised after it: so the
-- answer of the transaction is a result.
unfoldable pub complete_pull_request :
    Env → ℕ → PullRequestProposal → (reconciled : Bool) → Tx (Result ℕ)
unfolding completed_proposal
complete_pull_request env id p reconciled = do
  row ← get_pull_request id Error.not_found_error
  workflow ← get_workflow row.workflow_id
  let stale = workflow.candidate_revision != some row.revision
  set_pull_request id (completed_proposal env p stale)
  append_audit_event env row.workflow_id
      (if reconciled then "git.pull_request_reconciled" else "git.pull_request_created")
      "orchestrator" "pull_request_proposal" id (if stale then "STALE" else "SUCCEEDED")
      (fields (
        ("revision", Json.text row.revision)
        ∷ ("pull_number", Json.number p.number)
        ∷ ("draft", Json.boolean p.draft)
        ∷ ("reconciled", Json.boolean reconciled)
        ∷ []))
  pure (if stale then err Error.conflict_error else ok id)

-- What the first transaction of `reconcile_pull_request` read: a proposal that is settled, or what
-- is looked for at GitHub.
pub data Reconciling : Type 0 where
  settled : (id : ℕ) → Reconciling
  searching : PullRequestProposalRecord → Reconciling

unfoldable pub reconcile_pull_request :
    Env → Option GitHubApp → (wid id : ℕ) (actor : String) → Tx Reconciling
reconcile_pull_request env app wid id actor = do
  github ← or_raise app Error.integration_disabled_error
  authorize env actor Capability.reconcile_git_operation unscoped false
  row ← get_pull_request id Error.not_found_error
  raise_if (row.workflow_id != wid) Error.not_found_error
  pure (if row.status == "SUCCEEDED" then Reconciling.settled id else Reconciling.searching row)

unfoldable pub settle_reconciliation :
    Env → (id : ℕ) (actor : String) → List PullRequestProposal → Tx (Result ℕ)
settle_reconciliation env id actor (p ∷ []) = complete_pull_request env id p true
settle_reconciliation env id actor (p ∷ (q ∷ rest)) = raise Error.conflict_error
settle_reconciliation env id actor [] = do
  row ← get_pull_request id Error.assertion_error
  set_pull_request id (λ r. record r {
    status = "FAILED";
    error_code = some "RemotePullRequestNotFound";
    completed_at = some env.now;
  })
  append_audit_event env row.workflow_id "git.pull_request_reconciled" actor "pull_request_proposal"
      id "FAILED"
      (fields (("revision", Json.text row.revision) ∷ ("remote_match_count", Json.number 0) ∷ []))
  pure (ok id)

-- The second transaction of `reconcile_pull_request`, after GitHub listed pull requests.
unfoldable pub finish_reconciliation :
    Env
    → (id : ℕ) (actor : String) → (searched : PullRequestProposalRecord) → List PullRequestProposal
    → Tx (Result ℕ)
finish_reconciliation env id actor searched found = settle_reconciliation env id actor (
    select (λ p. p.head_revision == searched.revision && p.base_branch == searched.base_branch)
      found)

-- ===== src/Git/Frames.antt =====
-- git_pull_requests.py: a frame that supports the steps holds of its transactions.
use eldridge.Prelude.{ℕ, String, Bool, true, refl, List, [], ◌∷◌, Option, none, some}
use eldridge.Domain.{WorkflowState, Error}
use eldridge.Persistence.{
  Workflow, CiCheckEvidence, PullRequestProposalRecord, MergeReadinessAssessmentRecord,
  MergeConfirmationRecord,
}
use eldridge.Env.{Env}
use eldridge.Tx.Frame.{Frame, Ensures}
use eldridge.Tasks.Store.{set_workflow}
use eldridge.Tasks.Frames.{Supports, row_rules, Ensures-quiet}
use eldridge.Git.Store.{
  GitHubApp, PullRequestProposal, MergeReadiness, MergeConfirmation, present, add_check,
  add_pull_request, set_pull_request, add_assessment, set_assessment, add_confirmation,
  set_confirmation, get_pull_request,
}
use eldridge.Git.Checks.{
  CheckDelivery, only_workflow, record_check, replay_or_record, ingest_ci_check_evidence,
}
use eldridge.Git.Proposals.{
  ProposalRequest, replay_or_propose, propose_pull_request, mark_unknown, mark_pull_request_unknown,
  complete_pull_request, reconcile_pull_request, settle_reconciliation, finish_reconciliation,
}
use eldridge.Git.Readiness.{
  ReadinessRequest, replay_or_assess, assess_merge_readiness, record_merge_readiness,
  mark_failed as mark_assessment, mark_readiness_failed,
}
use eldridge.Git.Merges.{
  ConfirmationRequest, earlier_confirmation, replay_merged, replay_or_confirm, confirmed_proposal,
  ready_assessment, begin_confirmation, confirm_pull_request_merged, pending_confirmation,
  complete_merge_confirmation, mark_failed, mark_merge_confirmation_failed,
}

module _ {f : Frame} where
  pub Ensures-present : (o : Option String) (e : Error) → Ensures f (present o e)
  unfolding present
  Ensures-present none e = search row_rules
  Ensures-present (some t) e = search row_rules

  Ensures-add_check : (c : CiCheckEvidence) → Ensures f (add_check c)
  unfolding add_check
  Ensures-add_check c = Ensures-quiet _ _ (λ s. (refl, refl, refl))

  Ensures-add_pull_request : (r : PullRequestProposalRecord) → Ensures f (add_pull_request r)
  unfolding add_pull_request
  Ensures-add_pull_request r = Ensures-quiet _ _ (λ s. (refl, refl, refl))

  Ensures-set_pull_request :
      (id : ℕ) (g : PullRequestProposalRecord → PullRequestProposalRecord)
      → Ensures f (set_pull_request id g)
  unfolding set_pull_request
  Ensures-set_pull_request id g = Ensures-quiet _ _ (λ s. (refl, refl, refl))

  Ensures-add_assessment : (r : MergeReadinessAssessmentRecord) → Ensures f (add_assessment r)
  unfolding add_assessment
  Ensures-add_assessment r = Ensures-quiet _ _ (λ s. (refl, refl, refl))

  Ensures-set_assessment :
      (id : ℕ) (g : MergeReadinessAssessmentRecord → MergeReadinessAssessmentRecord)
      → Ensures f (set_assessment id g)
  unfolding set_assessment
  Ensures-set_assessment id g = Ensures-quiet _ _ (λ s. (refl, refl, refl))

  Ensures-add_confirmation : (r : MergeConfirmationRecord) → Ensures f (add_confirmation r)
  unfolding add_confirmation
  Ensures-add_confirmation r = Ensures-quiet _ _ (λ s. (refl, refl, refl))

  Ensures-set_confirmation :
      (id : ℕ) (g : MergeConfirmationRecord → MergeConfirmationRecord)
      → Ensures f (set_confirmation id g)
  unfolding set_confirmation
  Ensures-set_confirmation id g = Ensures-quiet _ _ (λ s. (refl, refl, refl))

  Ensures-get_pull_request : (id : ℕ) (e : Error) → Ensures f (get_pull_request id e)
  unfolding get_pull_request
  Ensures-get_pull_request id e = search row_rules

  Ensures-only_workflow : (ws : List (ℕ × Workflow)) → Ensures f (only_workflow ws)
  unfolding only_workflow
  Ensures-only_workflow [] = search row_rules
  Ensures-only_workflow (x ∷ []) = search row_rules
  Ensures-only_workflow (x ∷ (y ∷ rest)) = search row_rules

ruleset git_rules = (
  row_rules, Ensures-present, Ensures-add_check, Ensures-add_pull_request, Ensures-set_pull_request,
  Ensures-add_assessment, Ensures-set_assessment, Ensures-add_confirmation,
  Ensures-set_confirmation, Ensures-get_pull_request, Ensures-only_workflow,
)

module _ (env : Env) {f : Frame} {Target : WorkflowState → Type 0}
    (sup : Supports env f Target) where
  Ensures-record_check : (d : CheckDelivery) → Ensures f (record_check env d)
  unfolding record_check
  Ensures-record_check d = search (git_rules, sup.appends) depth 16

  Ensures-replay_or_record :
      (d : CheckDelivery) (o : Option (ℕ × CiCheckEvidence)) → Ensures f (replay_or_record env d o)
  unfolding replay_or_record
  Ensures-replay_or_record d none = Ensures-record_check d
  Ensures-replay_or_record d (some x) = search git_rules

  pub Ensures-ingest_ci_check_evidence :
      (d : CheckDelivery) → Ensures f (ingest_ci_check_evidence env d)
  unfolding ingest_ci_check_evidence
  Ensures-ingest_ci_check_evidence d = search (git_rules, Ensures-replay_or_record) depth 8

  Ensures-replay_or_propose :
      (r : ProposalRequest) (repository revision base : String)
      (o : Option (ℕ × PullRequestProposalRecord))
      → Ensures f (replay_or_propose env r repository revision base o)
  unfolding replay_or_propose
  Ensures-replay_or_propose r repository revision base none =
      search (git_rules, sup.appends) depth 8
  Ensures-replay_or_propose r repository revision base (some x) = search git_rules depth 8

  pub Ensures-propose_pull_request :
      (app : Option GitHubApp) (r : ProposalRequest) → Ensures f (propose_pull_request env app r)
  unfolding propose_pull_request
  Ensures-propose_pull_request app r = search (git_rules, Ensures-replay_or_propose) depth 24

  Ensures-mark_unknown :
      (id : ℕ) (error_code : String) (o : Option PullRequestProposalRecord)
      → Ensures f (mark_unknown env id error_code o)
  unfolding mark_unknown
  Ensures-mark_unknown id error_code none = search git_rules
  Ensures-mark_unknown id error_code (some row) = search (git_rules, sup.appends) depth 8

  pub Ensures-mark_pull_request_unknown :
      (id : ℕ) (error_code : String) → Ensures f (mark_pull_request_unknown env id error_code)
  unfolding mark_pull_request_unknown
  Ensures-mark_pull_request_unknown id error_code = search (git_rules, Ensures-mark_unknown)

  pub Ensures-complete_pull_request :
      (id : ℕ) (p : PullRequestProposal) (reconciled : Bool)
      → Ensures f (complete_pull_request env id p reconciled)
  unfolding complete_pull_request
  Ensures-complete_pull_request id p reconciled = search (git_rules, sup.appends) depth 12

  pub Ensures-reconcile_pull_request :
      (app : Option GitHubApp) (wid id : ℕ) (actor : String)
      → Ensures f (reconcile_pull_request env app wid id actor)
  unfolding reconcile_pull_request
  Ensures-reconcile_pull_request app wid id actor = search git_rules depth 12

  Ensures-settle_reconciliation :
      (id : ℕ) (actor : String) (ps : List PullRequestProposal)
      → Ensures f (settle_reconciliation env id actor ps)
  unfolding settle_reconciliation
  Ensures-settle_reconciliation id actor [] = search (git_rules, sup.appends) depth 8
  Ensures-settle_reconciliation id actor (p ∷ []) = Ensures-complete_pull_request id p true
  Ensures-settle_reconciliation id actor (p ∷ (q ∷ rest)) = search git_rules

  pub Ensures-finish_reconciliation :
      (id : ℕ) (actor : String) (searched : PullRequestProposalRecord)
      (found : List PullRequestProposal)
      → Ensures f (finish_reconciliation env id actor searched found)
  unfolding finish_reconciliation
  Ensures-finish_reconciliation id actor searched found = Ensures-settle_reconciliation id actor _

  Ensures-replay_or_assess :
      (r : ReadinessRequest) (version revision : String) (pull_number : ℕ)
      (o : Option (ℕ × MergeReadinessAssessmentRecord))
      → Ensures f (replay_or_assess env r version revision pull_number o)
  unfolding replay_or_assess
  Ensures-replay_or_assess r version revision n none = search (git_rules, sup.appends) depth 8
  Ensures-replay_or_assess r version revision n (some x) = search git_rules depth 8

  pub Ensures-assess_merge_readiness :
      (app : Option GitHubApp) (r : ReadinessRequest) → Ensures f (assess_merge_readiness env app r)
  unfolding assess_merge_readiness
  Ensures-assess_merge_readiness app r = search (git_rules, Ensures-replay_or_assess) depth 24

  pub Ensures-record_merge_readiness :
      (id : ℕ) (result : MergeReadiness) → Ensures f (record_merge_readiness env id result)
  unfolding record_merge_readiness
  Ensures-record_merge_readiness id result = search (git_rules, sup.appends) depth 12

  Ensures-mark_assessment :
      (id : ℕ) (error_code : String) (o : Option MergeReadinessAssessmentRecord)
      → Ensures f (mark_assessment env id error_code o)
  unfolding mark_assessment
  Ensures-mark_assessment id error_code none = search git_rules
  Ensures-mark_assessment id error_code (some row) = search (git_rules, sup.appends) depth 8

  pub Ensures-mark_readiness_failed :
      (id : ℕ) (error_code : String) → Ensures f (mark_readiness_failed env id error_code)
  unfolding mark_readiness_failed
  Ensures-mark_readiness_failed id error_code = search (git_rules, Ensures-mark_assessment)

  Ensures-earlier_confirmation : (r : ConfirmationRequest) → Ensures f (earlier_confirmation r)
  unfolding earlier_confirmation
  Ensures-earlier_confirmation r = search git_rules

  Ensures-replay_merged :
      (r : ConfirmationRequest) (o : Option (ℕ × MergeConfirmationRecord))
      → Ensures f (replay_merged r o)
  unfolding replay_merged
  Ensures-replay_merged r none = search git_rules
  Ensures-replay_merged r (some x) = search git_rules

  Ensures-replay_or_confirm :
      (r : ConfirmationRequest) (revision : String) (n : ℕ)
      (o : Option (ℕ × MergeConfirmationRecord))
      → Ensures f (replay_or_confirm env r revision n o)
  unfolding replay_or_confirm
  Ensures-replay_or_confirm r revision n none = search (git_rules, sup.appends) depth 8
  Ensures-replay_or_confirm r revision n (some x) = search git_rules depth 8

  Ensures-confirmed_proposal : (wid id : ℕ) → Ensures f (confirmed_proposal wid id)
  unfolding confirmed_proposal
  Ensures-confirmed_proposal wid id = search git_rules depth 12

  Ensures-ready_assessment : (wid id aid : ℕ) → Ensures f (ready_assessment wid id aid)
  unfolding ready_assessment
  Ensures-ready_assessment wid id aid = search git_rules depth 12

  Ensures-begin_confirmation :
      (r : ConfirmationRequest) (w : Workflow) → Ensures f (begin_confirmation env r w)
  unfolding begin_confirmation
  Ensures-begin_confirmation r w =
      search
        (
          git_rules, Ensures-confirmed_proposal, Ensures-ready_assessment,
          Ensures-earlier_confirmation, Ensures-replay_or_confirm,
        )
        depth 24

  pub Ensures-confirm_pull_request_merged :
      (app : Option GitHubApp) (r : ConfirmationRequest)
      → Ensures f (confirm_pull_request_merged env app r)
  unfolding confirm_pull_request_merged
  Ensures-confirm_pull_request_merged app r =
      search
        (git_rules, Ensures-earlier_confirmation, Ensures-replay_merged, Ensures-begin_confirmation)
        depth 16

  Ensures-pending_confirmation : (id : ℕ) → Ensures f (pending_confirmation id)
  unfolding pending_confirmation
  Ensures-pending_confirmation id = search git_rules depth 8

  Ensures-merged_revision :
      (wid : ℕ) (revision : String)
      → Ensures f (set_workflow wid (λ w. record w { merged_revision = some revision }))
  Ensures-merged_revision wid revision = sup.rewrites wid _ (λ w. (refl, refl))

  pub Ensures-complete_merge_confirmation :
      (id : ℕ) (result : MergeConfirmation)
      → Target WorkflowState.merged
      → Ensures f (complete_merge_confirmation env id result)
  unfolding complete_merge_confirmation
  Ensures-complete_merge_confirmation id result h =
      let merges = sup.moves in
      search (git_rules, sup.appends, merges, Ensures-pending_confirmation, Ensures-merged_revision)
        depth 24

  Ensures-mark_failed :
      (id : ℕ) (error_code : String) (o : Option MergeConfirmationRecord)
      → Ensures f (mark_failed env id error_code o)
  unfolding mark_failed
  Ensures-mark_failed id error_code none = search git_rules
  Ensures-mark_failed id error_code (some row) = search (git_rules, sup.appends) depth 8

  pub Ensures-mark_merge_confirmation_failed :
      (id : ℕ) (error_code : String) → Ensures f (mark_merge_confirmation_failed env id error_code)
  unfolding mark_merge_confirmation_failed
  Ensures-mark_merge_confirmation_failed id error_code = search (git_rules, Ensures-mark_failed)

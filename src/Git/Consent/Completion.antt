-- ===== src/Git/Consent/Completion.antt =====
-- git_pull_requests.py: what a merge confirmation that completes matched, and what it writes.
use eldridge.Prelude.{
  ℕ, String, ◌≡◌, true, some, List, nat_eq, string_eq, option_eq, arith, unequal-false, and-true,
  negate-false,
}
use eldridge.Domain.{WorkflowState, workflow_state_eq, Error}
use eldridge.Result.{ok}
use eldridge.Persistence.Json.{Fields}
use eldridge.Persistence.{
  Session, Workflow, PullRequestProposalRecord, MergeConfirmationRecord, get_elem?, modify,
  get_elem?-modify,
}
use eldridge.Env.{Env}
use eldridge.Audit.{append_audit_event}
use eldridge.Tx.{◌>>◌}
use eldridge.Tx.Inversion.{Reads, bind-ok, read-ok, gets-ok, raise_if-ok, or_raise-ok, pure-ok}
use eldridge.Tasks.Store.{set_workflow}
use eldridge.Tasks.Steps.{transition}
use eldridge.Tasks.Reading.{workflow-ok}
use eldridge.Tasks.History.Transition.{transition_lem, moved}
use eldridge.Git.Store.{MergeConfirmation, set_confirmation}
use eldridge.Git.Merges.{pending_confirmation, matches_approved, complete_merge_confirmation}
use eldridge.Git.Consent.{pull_request-ok}

pending_confirmation-ok :
    (id : ℕ) (s : Session)
    → Reads
        (pending_confirmation id)
        s
        (λ c. (get_elem? s.confirmations id ≡ some c) × (c.status ≡ "RUNNING"))
unfolding pending_confirmation
pending_confirmation-ok id s c t h =
    let h0 = gets-ok _ _ s t c h in
    let (row, found, h1) = or_raise-ok _ _ _ s t c h0 in
    let (running, h2) = raise_if-ok _ _ _ s t c h1 in
    let (same, e) = pure-ok row c s t h2 in
    (same, rw e (found, unequal-false row.status "RUNNING" running))

-- What GitHub answered is what was approved.
pub record Matches (result : MergeConfirmation) (row : MergeConfirmationRecord) (w : Workflow)
    (p : PullRequestProposalRecord) : Type 0 where
  pub approved : w.state ≡ WorkflowState.approved
  pub candidate : w.candidate_revision ≡ some row.revision
  pub repository : result.repository ≡ p.repository
  pub number : p.pull_number ≡ some result.pull_number
  pub head : result.head_revision ≡ row.revision
  pub base : result.base_branch ≡ p.base_branch

matches_approved-ok :
    (result : MergeConfirmation) (row : MergeConfirmationRecord) (w : Workflow) (n : ℕ)
    (p : PullRequestProposalRecord)
    → p.pull_number ≡ some n
    → matches_approved result row w n p ≡ true
    → Matches result row w p
unfolding matches_approved
matches_approved-ok result row w n p number h =
    let (a, h1) = and-true _ _ h in
    let (b, h2) = and-true _ _ h1 in
    let (c, h3) = and-true _ _ h2 in
    let (d, h4) = and-true _ _ h3 in
    let (e, g) = and-true _ _ h4 in
    let same : result.pull_number ≡ n = (nat_eq.equals_iff result.pull_number n).0 d in
    record {
      approved = (workflow_state_eq.equals_iff w.state WorkflowState.approved).0 a;
      candidate = (option_eq.equals_iff w.candidate_revision (some row.revision)).0 b;
      repository = (string_eq.equals_iff result.repository p.repository).0 c;
      number = rw same number;
      head = (string_eq.equals_iff result.head_revision row.revision).0 e;
      base = (string_eq.equals_iff result.base_branch p.base_branch).0 g;
    }

-- The row of the workflow after the completion.
abbrev pub merged_row : MergeConfirmation → Workflow → Workflow
merged_row result w =
    moved WorkflowState.merged (record w { merged_revision = some result.merge_commit_revision })

rewritten :
    (wid : ℕ) (f g : Workflow → Workflow) (xs : List Workflow) (w : Workflow)
    → get_elem? xs wid ≡ some w
    → get_elem? (modify wid g (modify wid f xs)) wid ≡ some (g (f w))
rewritten wid f g xs w h =
    ground (arith, get_elem?-modify wid g (modify wid f xs) wid, get_elem?-modify wid f xs wid, h)

workflows-append :
    (env : Env) (wid : ℕ) (e a k : String) (n : ℕ) (o : String) (p : Fields) (s t : Session)
    (u : Unit {0})
    → append_audit_event env wid e a k n o p s ≡ ok (u, t)
    → t.workflows ≡ s.workflows
unfolding append_audit_event
workflows-append env wid e a k n o p s t u h = cc

-- The writes of a completion, whatever the texts of the two events.
writes-ok :
    (env : Env) (id wid : ℕ) (g : MergeConfirmationRecord → MergeConfirmationRecord)
    (result : MergeConfirmation) (actor reason : String) (extra : Fields) (e a k : String) (n : ℕ)
    (o : String) (p : Fields) (s t : Session) (w : Workflow)
    → get_elem? s.workflows wid ≡ some w
    → (set_confirmation id g
          >> (set_workflow wid
                (λ x. record x { merged_revision = some result.merge_commit_revision })
              >> (transition env wid WorkflowState.merged actor reason extra
                  >> append_audit_event env wid e a k n o p)))
        s
      ≡ ok (tt, t)
    → get_elem? t.workflows wid ≡ some (merged_row result w)
unfolding set_confirmation set_workflow
writes-ok env id wid g result actor reason extra e a k n o p s t w found h =
    let (a1, s1, e1, h6) = bind-ok _ _ s t tt h in
    let (a2, s2, e2, h7) = bind-ok _ _ s1 t tt h6 in
    let (a3, s3, e3, h8) = bind-ok _ _ s2 t tt h7 in
    let (v, there, allowed, moves) = transition_lem env wid _ _ _ _ s2 s3 e3 in
    let w1 : s1.workflows ≡ s.workflows = cc in
    let w2 : s2.workflows
        ≡ modify wid (λ x. record x { merged_revision = some result.merge_commit_revision })
            s1.workflows =
      cc in
    let w4 : t.workflows ≡ s3.workflows = workflows-append env _ _ _ _ _ _ _ s3 t tt h8 in
    rw w4 (rw moves (rw w2 (rw w1 (rewritten wid _ _ s.workflows w found))))

-- A confirmation that completes was RUNNING, and what GitHub answered matched: the workflow was
-- APPROVED with the confirmed revision as its candidate, and repository, pull request number, base
-- branch and head revision were those of the proposal and of the confirmation. The workflow is
-- MERGED afterwards, one version on, with the merge commit that GitHub named.
pub merge_completes_only_approved :
    (env : Env) (id : ℕ) (result : MergeConfirmation) (s t : Session)
    → complete_merge_confirmation env id result s ≡ ok (tt, t)
    → (row : MergeConfirmationRecord) × (w : Workflow) × (p : PullRequestProposalRecord)
      × (get_elem? s.confirmations id ≡ some row)
      × (row.status ≡ "RUNNING")
      × (get_elem? s.workflows row.workflow_id ≡ some w)
      × (get_elem? s.pull_requests row.proposal_id ≡ some p)
      × Matches result row w p
      × (get_elem? t.workflows row.workflow_id ≡ some (merged_row result w))
unfolding complete_merge_confirmation
merge_completes_only_approved env id result s t h =
    let (row, (pending, running), h1) = read-ok _ _ s t tt _ (pending_confirmation-ok id s) h in
    let (w, found, h2) = read-ok _ _ s t tt _ (workflow-ok row.workflow_id s) h1 in
    let (p, proposed, h3) =
      read-ok _ _ s t tt _ (pull_request-ok row.proposal_id Error.conflict_error s) h2 in
    let (n, number, h4) = or_raise-ok _ _ _ s t tt h3 in
    let (fine, h5) = raise_if-ok _ _ _ s t tt h4 in
    (
      row,
      w,
      p,
      pending,
      running,
      found,
      proposed,
      matches_approved-ok result row w n p number (negate-false _ fine),
      writes-ok env id row.workflow_id _ result _ _ _ _ _ _ _ _ _ s t w found h5,
    )

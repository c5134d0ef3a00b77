-- ===== src/Git/Store.antt =====
-- git_pull_requests.py: its rows, what GitHub answers, and what the first transaction of an
-- operation answers.
use eldridge.Prelude.{ℕ, String, Bool, List, Option, none, some, ◌==◌, string_eq}
use eldridge.Domain.{Error}
use eldridge.Result.{Result, ok}
use eldridge.Persistence.Json.{Fields}
use eldridge.Persistence.{
  CiCheckEvidence, PullRequestProposalRecord, MergeReadinessAssessmentRecord,
  MergeConfirmationRecord, append_row, length, modify, get_elem?,
}
use eldridge.Tx.{Tx, pure, raise, gets, or_raise, raise_if, ◌>>=◌, ◌>>◌}

-- `GitHubAppClient`, as far as it answers without the network: the base branch of a repository, or
-- the refusal of a pull request.
pub record GitHubApp : Type 0 where
  pub policy_version : String
  pub validate_pull_request :
      (repository head_branch expected_revision title body : String) → Result String

pub record PullRequestProposal : Type 0 where
  pub number : ℕ
  pub url : String
  pub head_revision : String
  pub base_branch : String
  pub draft : Bool

pub record MergeReadiness : Type 0 where
  pub revision : String
  pub ready : Bool
  pub reasons : List String
  pub checks : Fields
  pub policy_version : String

pub record MergeConfirmation : Type 0 where
  pub repository : String
  pub pull_number : ℕ
  pub head_revision : String
  pub base_branch : String
  pub merge_commit_revision : String

-- A text that is there and not empty.
unfoldable pub present : Option String → Error → Tx String
present none e = raise e
present (some text) e = do raise_if (text == "") e; pure text

unfoldable pub add_check : CiCheckEvidence → Tx ℕ
add_check c s = ok (length s.ci_checks, record s { ci_checks = append_row s.ci_checks c })

unfoldable pub add_pull_request : PullRequestProposalRecord → Tx ℕ
add_pull_request r s =
    ok (length s.pull_requests, record s { pull_requests = append_row s.pull_requests r })

unfoldable pub set_pull_request :
    ℕ → (PullRequestProposalRecord → PullRequestProposalRecord) → Tx (Unit {0})
set_pull_request id f s = ok (tt, record s { pull_requests = modify id f s.pull_requests })

unfoldable pub add_assessment : MergeReadinessAssessmentRecord → Tx ℕ
add_assessment r s =
    ok (length s.assessments, record s { assessments = append_row s.assessments r })

unfoldable pub set_assessment :
    ℕ → (MergeReadinessAssessmentRecord → MergeReadinessAssessmentRecord) → Tx (Unit {0})
set_assessment id f s = ok (tt, record s { assessments = modify id f s.assessments })

unfoldable pub add_confirmation : MergeConfirmationRecord → Tx ℕ
add_confirmation r s =
    ok (length s.confirmations, record s { confirmations = append_row s.confirmations r })

unfoldable pub set_confirmation :
    ℕ → (MergeConfirmationRecord → MergeConfirmationRecord) → Tx (Unit {0})
set_confirmation id f s = ok (tt, record s { confirmations = modify id f s.confirmations })

-- `session.get(PullRequestProposalRecord, id)`, and the error where there is none
unfoldable pub get_pull_request : ℕ → Error → Tx PullRequestProposalRecord
get_pull_request id e = do found ← gets (λ s. get_elem? s.pull_requests id); or_raise found e

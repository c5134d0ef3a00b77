-- ===== src/Git/Readiness.antt =====
-- git_pull_requests.py: `assess_merge_readiness` and its ends.
use eldridge.Prelude.{
  ℕ, String, false, ◌&&◌, ◌||◌, [], ◌∷◌, Option, none, some, ◌==◌, ◌!=◌, nat_eq, string_eq,
  option_eq, prefix, if◌then◌else◌,
}
use eldridge.Domain.{Capability, Error}
use eldridge.Result.{Begun}
use eldridge.Persistence.Json.{Json, Fields, fields, texts}
use eldridge.Persistence.{MergeReadinessAssessmentRecord, keyed, select_first, get_elem?}
use eldridge.Env.{Env}
use eldridge.Tx.{Tx, pure, gets, or_raise, raise_if, ◌>>=◌, ◌>>◌}
use eldridge.Audit.{append_audit_event}
use eldridge.Policy.{unscoped, authorize}
use eldridge.Tasks.Store.{get_workflow}
use eldridge.Git.Store.{GitHubApp, MergeReadiness, add_assessment, set_assessment, get_pull_request}

-- The keyword arguments of `assess_merge_readiness`.
pub record ReadinessRequest : Type 0 where
  pub workflow_id : ℕ
  pub proposal_id : ℕ
  pub actor_id : String
  pub idempotency_key : String

unfoldable pub new_assessment :
    ReadinessRequest → (revision policy_version : String) → MergeReadinessAssessmentRecord
new_assessment r revision policy_version = record {
  workflow_id = r.workflow_id;
  proposal_id = r.proposal_id;
  actor_id = r.actor_id;
  idempotency_key = r.idempotency_key;
  revision = revision;
  status = "RUNNING";
  ready = none;
  reasons = [];
  checks = Fields.done;
  policy_version = policy_version;
  error_code = none;
  completed_at = none;
}

unfoldable pub replay_or_assess :
    Env
    → ReadinessRequest
    → (policy_version revision : String) (pull_number : ℕ)
    → Option (ℕ × MergeReadinessAssessmentRecord)
    → Tx Begun
unfolding new_assessment
replay_or_assess env r policy_version revision pull_number (some x) = do
  raise_if
      (x.1.workflow_id != r.workflow_id
        || (x.1.proposal_id != r.proposal_id || x.1.revision != revision))
      Error.conflict_error
  raise_if (x.1.status != "SUCCEEDED") Error.conflict_error
  pure (Begun.replayed x.0)
replay_or_assess env r policy_version revision pull_number none = do
  id ← add_assessment (new_assessment r revision policy_version)
  append_audit_event env r.workflow_id "git.merge_readiness_requested" r.actor_id "merge_readiness"
      id "STARTED"
      (fields (("revision", Json.text revision) ∷ ("pull_number", Json.number pull_number) ∷ []))
  pure (Begun.started id)

-- The first transaction of `assess_merge_readiness`.
unfoldable pub assess_merge_readiness : Env → Option GitHubApp → ReadinessRequest → Tx Begun
unfolding replay_or_assess
assess_merge_readiness env app r = do
  github ← or_raise app Error.integration_disabled_error
  authorize env r.actor_id Capability.assess_merge_readiness unscoped false
  workflow ← get_workflow r.workflow_id
  proposal ← get_pull_request r.proposal_id Error.not_found_error
  raise_if (proposal.workflow_id != r.workflow_id) Error.not_found_error
  raise_if (proposal.status != "SUCCEEDED") Error.conflict_error
  pull_number ← or_raise proposal.pull_number Error.conflict_error
  raise_if (workflow.candidate_revision != some proposal.revision) Error.conflict_error
  existing ← gets (λ s.
      select_first
        (λ (x : ℕ × MergeReadinessAssessmentRecord).
          x.1.actor_id == r.actor_id && x.1.idempotency_key == r.idempotency_key)
        (keyed s.assessments))
  replay_or_assess env r github.policy_version proposal.revision pull_number existing

unfoldable pub assessed :
    Env → MergeReadiness → MergeReadinessAssessmentRecord → MergeReadinessAssessmentRecord
assessed env result r = record r {
  status = "SUCCEEDED";
  ready = some result.ready;
  reasons = result.reasons;
  checks = result.checks;
  policy_version = result.policy_version;
  completed_at = some env.now;
}

-- `_record_merge_readiness`
unfoldable pub record_merge_readiness : Env → ℕ → MergeReadiness → Tx (Unit {0})
unfolding assessed
record_merge_readiness env id result = do
  found ← gets (λ s. get_elem? s.assessments id)
  row ← or_raise found Error.not_found_error
  workflow ← get_workflow row.workflow_id
  raise_if (workflow.candidate_revision != some result.revision) Error.conflict_error
  set_assessment id (assessed env result)
  append_audit_event env row.workflow_id "git.merge_readiness_assessed" row.actor_id
      "merge_readiness" id (if result.ready then "SUCCEEDED" else "BLOCKED")
      (fields (
        ("revision", Json.text result.revision)
        ∷ ("ready", Json.boolean result.ready)
        ∷ ("reasons", Json.array (texts result.reasons))
        ∷ ("policy_version", Json.text result.policy_version)
        ∷ []))

unfoldable pub mark_failed :
    Env → ℕ → String → Option MergeReadinessAssessmentRecord → Tx (Unit {0})
mark_failed env id error_code none = pure tt
mark_failed env id error_code (some row) = if row.status != "RUNNING" then pure tt else (do
  set_assessment id (λ r. record r {
    status = "FAILED";
    error_code = some (prefix 64 error_code);
    completed_at = some env.now;
  })
  append_audit_event env row.workflow_id "git.merge_readiness_failed" "orchestrator"
      "merge_readiness" id "FAILED"
      (fields (
        ("revision", Json.text row.revision)
        ∷ ("error_code", Json.text (prefix 64 error_code))
        ∷ [])))

-- `_mark_readiness_failed`
unfoldable pub mark_readiness_failed : Env → ℕ → String → Tx (Unit {0})
unfolding mark_failed
mark_readiness_failed env id error_code = do
  found ← gets (λ s. get_elem? s.assessments id)
  mark_failed env id error_code found

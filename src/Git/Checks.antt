-- ===== src/Git/Checks.antt =====
-- git_pull_requests.py: `ingest_ci_check_evidence`.
use eldridge.Prelude.{
  ℕ, String, false, ◌&&◌, List, [], ◌∷◌, Option, none, some, ◌==◌, ◌!=◌, string_eq, option_eq,
}
use eldridge.Domain.{Capability, Error}
use eldridge.Result.{Begun}
use eldridge.Persistence.Json.{Json, fields}
use eldridge.Persistence.{Workflow, CiCheckEvidence, keyed, select, select_first}
use eldridge.Env.{Env}
use eldridge.Tx.{Tx, pure, raise, gets, raise_if, ◌>>=◌, ◌>>◌}
use eldridge.Audit.{append_audit_event}
use eldridge.Policy.{unscoped, authorize}
use eldridge.Tasks.Human.{is_some}
use eldridge.Git.Store.{add_check}

-- The keyword arguments of `ingest_ci_check_evidence`.
pub record CheckDelivery : Type 0 where
  pub actor_id : String
  pub delivery_id : String
  pub repository : String
  pub check_run_id : String
  pub check_name : String
  pub revision : String
  pub status : String
  pub conclusion : String
  pub details_url : Option String
  pub app_slug : Option String
  pub payload_digest : String

-- `session.scalars(select(Workflow).where(...)).all()`, which has to be one
unfoldable pub only_workflow : List (ℕ × Workflow) → Tx ℕ
only_workflow [] = raise Error.not_found_error
only_workflow (x ∷ []) = pure x.0
only_workflow (x ∷ (y ∷ rest)) = raise Error.conflict_error

unfoldable pub check_of : CheckDelivery → ℕ → CiCheckEvidence
check_of d wid = record {
  workflow_id = wid;
  source = "github";
  delivery_id = d.delivery_id;
  repository = d.repository;
  check_run_id = d.check_run_id;
  check_name = d.check_name;
  revision = d.revision;
  status = d.status;
  conclusion = d.conclusion;
  details_url = d.details_url;
  app_slug = d.app_slug;
  payload_digest = d.payload_digest;
}

unfoldable pub record_check : Env → CheckDelivery → Tx Begun
unfolding only_workflow check_of is_some
record_check env d = do
  workflows ← gets (λ s.
      select
        (λ (x : ℕ × Workflow).
          x.1.repository_scope == some d.repository && x.1.candidate_revision == some d.revision)
        (keyed s.workflows))
  wid ← only_workflow workflows
  existing_run ← gets (λ s.
      select_first
        (λ (c : CiCheckEvidence). c.source == "github" && c.check_run_id == d.check_run_id)
        s.ci_checks)
  raise_if (is_some existing_run) Error.conflict_error
  id ← add_check (check_of d wid)
  append_audit_event env wid "ci.check_recorded" d.actor_id "ci_check" id "SUCCEEDED" (
      fields (
        ("source", Json.text "github")
        ∷ ("repository", Json.text d.repository)
        ∷ ("check_run_id", Json.text d.check_run_id)
        ∷ ("check_name", Json.text d.check_name)
        ∷ ("revision", Json.text d.revision)
        ∷ ("status", Json.text d.status)
        ∷ ("conclusion", Json.text d.conclusion)
        ∷ ("payload_digest", Json.text d.payload_digest)
        ∷ ("gate_eligible", Json.boolean false)
        ∷ []))
  pure (Begun.started id)

unfoldable pub replay_or_record : Env → CheckDelivery → Option (ℕ × CiCheckEvidence) → Tx Begun
unfolding record_check
replay_or_record env d none = record_check env d
replay_or_record env d (some x) = do
  raise_if (x.1.payload_digest != d.payload_digest) Error.conflict_error
  pure (Begun.replayed x.0)

unfoldable pub earlier_delivery :
    CheckDelivery → List CiCheckEvidence → Option (ℕ × CiCheckEvidence)
earlier_delivery d checks =
    select_first
      (λ (x : ℕ × CiCheckEvidence). x.1.source == "github" && x.1.delivery_id == d.delivery_id)
      (keyed checks)

-- `ingest_ci_check_evidence`
unfoldable pub ingest_ci_check_evidence : Env → CheckDelivery → Tx Begun
unfolding replay_or_record earlier_delivery
ingest_ci_check_evidence env d = do
  authorize env d.actor_id Capability.submit_ci_evidence unscoped false
  existing_delivery ← gets (λ s. earlier_delivery d s.ci_checks)
  replay_or_record env d existing_delivery

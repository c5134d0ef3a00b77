-- ===== src/Tasks/Intake.antt =====
-- workflow_tasks.py: `create_workflow` and `get_workflow`.
use eldridge.Prelude.{
  ℕ, String, Bool, false, ◌&&◌, ◌||◌, List, [], ◌∷◌, map, Option, none, some, ◌==◌, ◌!=◌, nat_eq,
  string_eq, ltb, if◌then◌else◌,
}
use eldridge.Domain.{WorkflowState, TaskKind, Capability, Error}
use eldridge.Result.{ok}
use eldridge.Routing.Types.{RiskLevel, DataClassification, WorkCapability}
use eldridge.Routing.Sort.{sort_by}
use eldridge.Strategy.{plan}
use eldridge.Strategy.Types.{
  ComplexityTier, InspectionSignal, ExecutionRestriction, ExecutionStrategy,
}
use eldridge.Strategy.Names.{
  risk_level_name, data_classification_name, complexity_tier_name, inspection_signal_value,
  inspection_signal_order, execution_restriction_value, execution_restriction_order,
}
use eldridge.Persistence.Json.{Json, Fields, fields, text_or_null, texts}
use eldridge.Persistence.{
  Workflow, BlockReason, IdempotencyRecord, append_row, get_elem?, select_first,
}
use eldridge.Env.{Env, digest}
use eldridge.Tx.{Tx, pure, gets, or_raise, raise_if, ◌>>=◌, ◌>>◌}
use eldridge.Audit.{append_audit_event}
use eldridge.Policy.{unscoped, authorize}
use eldridge.Tasks.Store
use eldridge.Tasks.Store.{add_workflow}
use eldridge.Tasks.Steps.{transition, schedule_task}
use eldridge.Tasks.Human.{is_blank}

-- The keyword arguments of `create_workflow`.
pub record Submission : Type 0 where
  pub requester_id : String
  pub title : String
  pub description : String
  pub idempotency_key : String
  pub complexity : ComplexityTier
  pub risk : RiskLevel
  pub data_classification : DataClassification
  pub repository_scope : Option String
  pub inspection_signals : List InspectionSignal

-- `repository_scope.strip() if repository_scope else None`, and `None` for the empty text
unfoldable pub normalized_repository : Env → Option String → Option String
normalized_repository env none = none
normalized_repository env (some r) =
    if r == "" || env.strip r == "" then none else some (env.strip r)

signal_before : InspectionSignal → InspectionSignal → Bool
unfolding inspection_signal_order
signal_before a b = ltb (inspection_signal_order a) (inspection_signal_order b)

restriction_before : ExecutionRestriction → ExecutionRestriction → Bool
unfolding execution_restriction_order
restriction_before a b = ltb (execution_restriction_order a) (execution_restriction_order b)

sorted_signals : Submission → List InspectionSignal
unfolding signal_before
sorted_signals r = sort_by signal_before r.inspection_signals

-- The object whose digest identifies the request.
request_fields : Env → Submission → Fields
unfolding sorted_signals
request_fields env r = fields (
    ("title", Json.text (env.strip r.title))
    ∷ ("description", Json.text (env.strip r.description))
    ∷ ("complexity", Json.text (complexity_tier_name r.complexity))
    ∷ ("risk", Json.text (risk_level_name r.risk))
    ∷ ("data_classification", Json.text (data_classification_name r.data_classification))
    ∷ ("repository_scope", text_or_null (normalized_repository env r.repository_scope))
    ∷ ("inspection_signals", Json.array (texts (map inspection_signal_value (sorted_signals r))))
    ∷ [])

unfoldable pub request_digest : Env → Submission → String
unfolding request_fields
request_digest env r = digest env (request_fields env r)

unfoldable pub strategy_of : Submission → ExecutionStrategy
strategy_of r = plan (record {
  complexity = r.complexity;
  risk = r.risk;
  data_classification = r.data_classification;
  required_capabilities = WorkCapability.planning ∷ [];
  inspection_signals = r.inspection_signals;
})

unfoldable pub new_workflow : Env → Submission → Workflow
unfolding sorted_signals
new_workflow env r = record {
  title = env.strip r.title;
  description = env.strip r.description;
  state = WorkflowState.created;
  version = 1;
  risk_class = r.risk;
  complexity_tier = r.complexity;
  data_classification = r.data_classification;
  repository_scope = normalized_repository env r.repository_scope;
  inspection_signals = sorted_signals r;
  containment_required = (strategy_of r).requires_human_disposition;
  block_reason =
      if (strategy_of r).requires_human_disposition
      then some BlockReason.input_disposition_required
      else none;
  requester_id = r.requester_id;
  policy_version = "phase1-v1";
  candidate_revision = none;
  merged_revision = none;
}

unfoldable pub add_idempotency_record : IdempotencyRecord → Tx (Unit {0})
add_idempotency_record r s =
    ok (tt, record s { idempotency_records = append_row s.idempotency_records r })

-- The record of an earlier request of the requester with the same key.
unfoldable pub earlier_request : Submission → List IdempotencyRecord → Option IdempotencyRecord
earlier_request r = select_first (λ i.
    i.principal_id == r.requester_id
    && (i.command == "create_workflow" && i.idempotency_key == r.idempotency_key))

-- A repeated request returns the workflow of the first.
unfoldable pub replay : Env → Submission → IdempotencyRecord → Tx ℕ
replay env r i = do
  raise_if (i.request_digest != request_digest env r) Error.conflict_error
  found ← gets (λ s. get_elem? s.workflows i.resource_id)
  or_raise found Error.conflict_error
  pure i.resource_id

unfoldable pub begin : Env → Submission → ℕ → Tx (Unit {0})
unfolding restriction_before
begin env r wid =
    if (strategy_of r).requires_human_disposition
    then transition env wid WorkflowState.blocked "orchestrator"
        "suspicious or adversarial input contained pending human disposition"
        (fields (
          (
            "restrictions",
            Json.array (
                texts (
                  map execution_restriction_value
                    (sort_by restriction_before (strategy_of r).restrictions))),
          )
          ∷ []))
    else (do
      transition env wid WorkflowState.planning "orchestrator"
          "validated request queued for planning" Fields.done
      schedule_task env wid TaskKind.plan
      pure tt)

unfoldable pub submit : Env → Submission → Tx ℕ
unfolding begin
submit env r = do
  wid ← add_workflow (new_workflow env r)
  add_idempotency_record (record {
    principal_id = r.requester_id;
    command = "create_workflow";
    idempotency_key = r.idempotency_key;
    request_digest = request_digest env r;
    resource_id = wid;
  })
  append_audit_event env wid "workflow.created" r.requester_id "workflow" wid "SUCCEEDED"
      (fields (("state", Json.text "CREATED") ∷ []))
  begin env r wid
  pure wid

unfoldable pub replay_or_submit : Env → Submission → Option IdempotencyRecord → Tx ℕ
unfolding replay submit
replay_or_submit env r none = submit env r
replay_or_submit env r (some i) = replay env r i

-- `create_workflow`; the workflow that it describes is found by the key that is returned.
unfoldable pub create_workflow : Env → Submission → Tx ℕ
unfolding replay_or_submit
create_workflow env r = do
  raise_if (is_blank env r.title || (is_blank env r.description || is_blank env r.idempotency_key))
      Error.validation_error
  authorize env r.requester_id Capability.submit_workflow unscoped false
  existing ← gets (λ s. earlier_request r s.idempotency_records)
  replay_or_submit env r existing

-- `get_workflow`
unfoldable pub read_workflow : Env → ℕ → String → Tx Workflow
read_workflow env wid principal = do
  authorize env principal Capability.read_workflow unscoped false
  Store.get_workflow wid

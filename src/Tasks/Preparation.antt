-- ===== src/Tasks/Preparation.antt =====
-- workflow_tasks.py: `_prepare_execution`, `_route_attempt`, `_record_routing_block`.
use Prim.Native.String.{len}
use eldridge.Prelude.{
  ℕ, suc, ◌+◌, String, Bool, true, false, ◌&&◌, ◌||◌, negate, List, [], ◌∷◌, map, Option, none,
  some, ◌==◌, nat_eq, string_eq, option_eq, ltb, leb, contains, if◌then◌else◌,
}
use eldridge.Domain.{
  WorkflowState, TaskStatus, TaskStatus-discrete, task_status_eq, TaskKind, TaskKind-discrete,
  task_kind_eq, Capability, Error,
}
use eldridge.Result.{ok}
use eldridge.Routing.{route}
use eldridge.Routing.Reasons.{reason_text}
use eldridge.Routing.Floats.{FloatOps}
use eldridge.Routing.Types.{
  EgressBoundary, FundingMode, FundingMode-discrete, funding_mode_eq, CostTier, RoutingPurpose,
  RoutingObjective, ProviderProfile, RoutingRequest, RankedCandidate, Reason, RoutingDecision,
}
use eldridge.Strategy.{high_risk}
use eldridge.Learning.{hydrate_profiles}
use eldridge.Persistence.Json.{Json, Fields, fields, text_or_null, texts}
use eldridge.Persistence.{
  Session, Workflow, Task, TaskAttempt, RoutingRecord, BlockReason, append_row, length, select,
  select_first, select_last, get_elem?,
}
use eldridge.Env.{Env}
use eldridge.Tx.{Tx, pure, gets, lift, or_raise, raise_if, ◌>>=◌, ◌>>◌}
use eldridge.Audit.{append_audit_event}
use eldridge.Policy.{unscoped, scoped, authorize}
use eldridge.Tasks.Store.{get_workflow, get_task, set_workflow, set_task, set_attempt, add_attempt}
use eldridge.Tasks.Steps.{
  transition, deactivate_task_grant, validate_lease, agent_for_role, review_producer_kind,
}
use eldridge.Tasks.Leasing.{released}
use eldridge.Tasks.Execution.{PreparedExecution}

-- A provider binding; `health` is what `provider.health()` answers, `none` for an exception.
pub record Binding (F : Type 0) : Type 0 where
  pub profile : ProviderProfile F
  pub health : Option Bool

-- The attributes of the service.
pub record Service : Type 1 where
  pub lease_seconds : ℕ
  pub floats : FloatOps
  pub provider_bindings : List (Binding floats.Float)
  pub evidence_window : ℕ
  pub allowed_egress : List EgressBoundary
  pub high_risk_min_evidence_samples : ℕ
  pub provider_policy_version : String
  pub routing_objective : RoutingObjective

-- Whether a task id belongs to a task of the workflow, of a kind if one is given: the joins with
-- the task table.
of_task : List Task → ℕ → ℕ → Option TaskKind → Bool
unfolding TaskKind-discrete
of_task tasks wid tid kind = elim (get_elem? tasks tid) [
  | none ↦ false
  | some t ↦ t.workflow_id == wid && elim kind [ none ↦ true | some k ↦ t.kind == k ]
]

-- `select(func.count(TaskAttempt.id)).join(Task)...`
unfoldable pub prior_invocations : Session → ℕ → String → ℕ
unfolding of_task
prior_invocations s wid provider = length (
    select (λ (a : TaskAttempt). of_task s.tasks wid a.task_id none && a.provider == provider)
      s.attempts)

is_healthy : Option Bool → Bool
is_healthy none = false
is_healthy (some b) = b

module _ {F : Type 0} (s : Session) (wid : ℕ) where
  -- A subscription has an invocation of the workflow left.
  unfoldable pub within_ceiling : ProviderProfile F → Bool
  within_ceiling p =
      ltb 0 p.max_invocations_per_workflow
      && ltb (prior_invocations s wid p.provider_id) p.max_invocations_per_workflow

  unfoldable pub is_subscription : ProviderProfile F → Bool
  unfolding FundingMode-discrete
  is_subscription p = p.funding_mode == FundingMode.subscription

  reported_healthy : Binding F → Bool
  unfolding is_healthy
  reported_healthy b = (b.profile).enabled && is_healthy b.health

  -- The profile of a binding with its health for this workflow.
  unfoldable pub with_health : Binding F → ProviderProfile F
  unfolding reported_healthy within_ceiling is_subscription
  with_health b =
      let p = b.profile in
      record p {
        healthy =
            if is_subscription p
            then reported_healthy b && within_ceiling p
            else reported_healthy b;
      }

  -- `exhausted_subscriptions`
  exhausted : List (Binding F) → List String
  unfolding reported_healthy within_ceiling is_subscription
  exhausted [] = []
  exhausted (b ∷ bs) =
      let rest = exhausted bs in
      if reported_healthy b && (is_subscription b.profile && negate (within_ceiling b.profile))
      then (b.profile).provider_id ∷ rest
      else rest

  find_profile : Option String → List (ProviderProfile F) → Option (ProviderProfile F)
  find_profile none ps = none
  find_profile (some id) ps = select_first (λ p. p.provider_id == id) ps

  candidate_ids : List (RankedCandidate F) → List String
  candidate_ids [] = []
  candidate_ids (c ∷ cs) = c.provider_id ∷ candidate_ids cs

-- `rejected_candidates`: an exhausted subscription is named by that alone.
explain : List String → List (String × List Reason) → List (String × List Reason)
explain used_up [] = []
explain used_up ((id, reasons) ∷ rest) =
    let others = explain used_up rest in
    if contains id used_up
    then (id, Reason.subscription_invocation_ceiling_exhausted ∷ []) ∷ others
    else (id, reasons) ∷ others

-- `rejected_candidates` as an entry of the audit payload
rejected_fields : List (String × List Reason) → Fields
unfolding reason_text
rejected_fields [] = Fields.done
rejected_fields ((id, reasons) ∷ rest) =
    Fields.field id (Json.array (texts (map reason_text reasons))) (rejected_fields rest)

-- The newest route of the workflow's task of the producing kind that selected a provider.
producer_route : Session → ℕ → Option TaskKind → Option RoutingRecord
unfolding of_task
producer_route s wid none = none
producer_route s wid (some kind) =
    select_last
      (λ (r : RoutingRecord).
        of_task s.tasks wid r.task_id (some kind)
        && elim r.selected_provider_id [ none ↦ false | some p ↦ true ])
      s.routing_records

purpose_of : Option TaskKind → RoutingPurpose
purpose_of none = RoutingPurpose.produce
purpose_of (some k) = RoutingPurpose.review

routing_request : Service → Session → ℕ → Workflow → Task → RoutingRequest
unfolding purpose_of producer_route high_risk
routing_request svc s wid workflow task =
    let producing = review_producer_kind task.kind in
    let earlier = producer_route s wid producing in
    record {
      required_capabilities = task.work_capability ∷ [];
      data_classification = workflow.data_classification;
      risk = workflow.risk_class;
      purpose = purpose_of producing;
      allowed_egress = svc.allowed_egress;
      allowed_modes = [];
      maximum_cost_tier = CostTier.high;
      minimum_evidence_samples =
          if high_risk workflow.risk_class then svc.high_risk_min_evidence_samples else 0;
      producer_provider_id = elim earlier [ none ↦ none | some r ↦ r.selected_provider_id ];
      producer_family = elim earlier [ none ↦ none | some r ↦ r.selected_provider_family ];
      objective = svc.routing_objective;
    }

unfoldable pub add_routing_record : RoutingRecord → Tx (Unit {0})
add_routing_record r s = ok (tt, record s { routing_records = append_row s.routing_records r })

module _ (env : Env) (svc : Service) where
  open svc use {floats}
  open floats use {Float}

  family_of : Option (ProviderProfile Float) → Option String
  family_of none = none
  family_of (some p) = some p.provider_family

  version_of : Option (ProviderProfile Float) → Option String
  version_of none = none
  version_of (some p) = some p.model_version

  -- The `RoutingRecord` and the audit event of a decision.
  unfoldable pub record_route :
      ℕ → ℕ → ℕ → Session → RoutingDecision Float → Option (ProviderProfile Float) → Tx (Unit {0})
  unfolding explain exhausted candidate_ids family_of version_of rejected_fields
  record_route wid tid aid s d selected = do
    add_routing_record (record {
      workflow_id = wid;
      task_id = tid;
      attempt_id = aid;
      policy_version = d.policy_version;
      ranked_candidates = candidate_ids s wid d.ranked_candidates;
      rejected_candidates = explain (exhausted s wid svc.provider_bindings) d.rejected;
      selected_provider_id = d.selected_provider_id;
      selected_provider_family = family_of selected;
      selected_model_version = version_of selected;
    })
    append_audit_event env wid
        (elim selected [ none ↦ "task.routing_blocked" | some p ↦ "task.routed" ]) "orchestrator"
        "task" tid (elim selected [ none ↦ "BLOCKED" | some p ↦ "SUCCEEDED" ])
        (fields (
          ("attempt_id", Json.number aid)
          ∷ ("policy_version", Json.text d.policy_version)
          ∷ ("provider_policy_version", Json.text svc.provider_policy_version)
          ∷ ("selected_provider_id", text_or_null d.selected_provider_id)
          ∷ (
            "rejected",
            Json.object
                (rejected_fields (explain (exhausted s wid svc.provider_bindings) d.rejected)),
          )
          ∷ []))

  -- `_route_attempt`
  unfoldable pub route_attempt : ℕ → ℕ → ℕ → Workflow → Task → Tx (Option (ProviderProfile Float))
  unfolding routing_request with_health find_profile record_route
  route_attempt wid tid aid workflow task = do
    s ← gets (λ s. s)
    let profiles =
        hydrate_profiles floats svc.evidence_window s
          (map (with_health s wid) svc.provider_bindings)
    d ← lift (route floats (routing_request svc s wid workflow task) profiles)
    let selected = find_profile s wid d.selected_provider_id profiles
    record_route wid tid aid s d selected
    pure selected

  -- `_record_routing_block`
  unfoldable pub record_routing_block : ℕ → ℕ → ℕ → Tx (Unit {0})
  record_routing_block wid tid aid = do
    set_attempt aid (λ a. record a {
      status = TaskStatus.failed;
      provider = "none";
      model = "none";
      error_code = some "RoutingBlocked";
      output = fields (("error", Json.text "no policy-eligible provider") ∷ []);
      completed_at = some env.now;
    })
    set_task tid (released TaskStatus.blocked)
    deactivate_task_grant tid
    set_workflow wid (λ w. record w { block_reason = some BlockReason.no_eligible_provider })
    transition env wid WorkflowState.blocked "orchestrator" "no policy-eligible provider for task"
        (fields (("attempt_id", Json.number aid) ∷ []))

  succeeded_attempt : List Task → ℕ → TaskKind → TaskAttempt → Bool
  unfolding of_task TaskStatus-discrete
  succeeded_attempt tasks wid kind a =
      of_task tasks wid a.task_id (some kind) && a.status == TaskStatus.succeeded

  completed_before : Option ℕ → Option ℕ → Bool
  completed_before (some a) (some b) = ltb a b
  completed_before none (some b) = true
  completed_before _ none = false

  -- `order_by(completed_at.desc()).limit(1)`
  newest_completed : List TaskAttempt → Option TaskAttempt
  unfolding completed_before
  newest_completed [] = none
  newest_completed (a ∷ rest) = elim (newest_completed rest) [
    | none ↦ some a
    | some b ↦ if completed_before b.completed_at a.completed_at then some a else some b
  ]

  -- The output under review, which must be there and be of one MiB at most.
  unfoldable pub producer_output : ℕ → Option TaskKind → Tx (Option Fields)
  unfolding succeeded_attempt newest_completed
  producer_output wid none = pure none
  producer_output wid (some kind) = do
    found ← gets (λ s. newest_completed (select (succeeded_attempt s.tasks wid kind) s.attempts))
    a ← or_raise found Error.conflict_error
    raise_if (ltb 1048576 (len (env.json_dumps a.output))) Error.validation_error
    pure (some a.output)

  -- The ceiling of a subscription, tested once more for the selected profile.
  unfoldable pub check_ceiling : ℕ → ProviderProfile Float → Tx (Unit {0})
  unfolding is_subscription
  check_ceiling wid p = do
    s ← gets (λ s. s)
    raise_if
        (is_subscription s wid p
          && (leb p.max_invocations_per_workflow 0
              || leb p.max_invocations_per_workflow (prior_invocations s wid p.provider_id)))
        Error.conflict_error

  unfoldable pub prepare_routed :
      ℕ
      → ℕ
      → ℕ
      → ℕ
      → String
      → String
      → Workflow
      → Task
      → ProviderProfile Float
      → Tx (Option PreparedExecution)
  unfolding check_ceiling
  prepare_routed wid tid aid token worker agent workflow task p = do
    check_ceiling wid p
    set_attempt aid (λ a. record a { provider = p.provider_id; model = p.model_version })
    output ← producer_output wid (review_producer_kind task.kind)
    set_task tid (λ t. record t { lease_expires_at = some (env.now + svc.lease_seconds) })
    pure (
        some (record {
          workflow_id = wid;
          task_id = tid;
          attempt_id = aid;
          lease_token = token;
          worker_id = worker;
          agent_id = agent;
          task_kind = task.kind;
          provider_id = p.provider_id;
          provider_family = p.provider_family;
          model_version = p.model_version;
          profile_version = p.profile_version;
          objective = task.objective;
          workflow_title = workflow.title;
          workflow_description = workflow.description;
          candidate_revision = workflow.candidate_revision;
          data_classification = workflow.data_classification;
          repository_scope = workflow.repository_scope;
          containment_required = workflow.containment_required;
          producer_output = output;
        }))

  unfoldable pub continue_routed :
      ℕ
      → ℕ
      → ℕ
      → ℕ
      → String
      → String
      → Workflow
      → Task
      → Option (ProviderProfile Float)
      → Tx (Option PreparedExecution)
  unfolding prepare_routed
  continue_routed wid tid aid token worker agent workflow task none = do
    record_routing_block wid tid aid
    pure none
  continue_routed wid tid aid token worker agent workflow task (some p) =
      prepare_routed wid tid aid token worker agent workflow task p

  new_attempt : ℕ → ℕ → String → TaskAttempt
  new_attempt tid number agent = record {
    task_id = tid;
    attempt_number = number;
    agent_id = agent;
    provider = "pending-routing";
    model = "pending";
    status = TaskStatus.running;
    output = Fields.done;
    error_code = none;
    completed_at = none;
  }

  -- `_prepare_execution`; `none` where it returns the blocked task.
  unfoldable pub prepare_execution : ℕ → ℕ → String → Tx (Option PreparedExecution)
  unfolding continue_routed new_attempt
  prepare_execution tid token worker = do
    authorize env worker Capability.lease_task unscoped false
    task ← get_task tid
    validate_lease env TaskStatus.leased task token worker
    workflow ← get_workflow task.workflow_id
    set_task tid (λ t. record t { status = TaskStatus.running })
    number ← gets (λ s. suc (length (select (λ (a : TaskAttempt). a.task_id == tid) s.attempts)))
    agent ← or_raise (agent_for_role task.required_role) Error.value_error
    aid ← add_attempt (new_attempt tid number agent)
    authorize env agent task.required_capability (scoped task.workflow_id tid) false
    selected ← route_attempt task.workflow_id tid aid workflow task
    continue_routed task.workflow_id tid aid token worker agent workflow task selected

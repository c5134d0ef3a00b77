-- ===== src/Routing/Types.antt =====
-- routing.py (src/control_plane/routing.py): the enumerations and the data classes.
use eldridge.Prelude.{Eq, discrete_eq, ℕ, String, Bool, List, Option}

pub data ExecutionMode : Type 0 where
  model remote_agent ide_handoff local_model : ExecutionMode

unfoldable pub ExecutionMode-discrete : Discrete ExecutionMode
ExecutionMode-discrete = hlevel

instance abbrev pub execution_mode_eq : Eq ExecutionMode
execution_mode_eq = discrete_eq ExecutionMode-discrete

pub data EgressBoundary : Type 0 where
  local approved_external : EgressBoundary

unfoldable pub EgressBoundary-discrete : Discrete EgressBoundary
EgressBoundary-discrete = hlevel

instance abbrev pub egress_boundary_eq : Eq EgressBoundary
egress_boundary_eq = discrete_eq EgressBoundary-discrete

pub data DataClassification : Type 0 where
  public internal confidential restricted : DataClassification

unfoldable pub DataClassification-discrete : Discrete DataClassification
DataClassification-discrete = hlevel

instance abbrev pub data_classification_eq : Eq DataClassification
data_classification_eq = discrete_eq DataClassification-discrete

-- The values of the `IntEnum`.
unfoldable pub data_classification_int : DataClassification → ℕ
data_classification_int DataClassification.public = 0
data_classification_int DataClassification.internal = 1
data_classification_int DataClassification.confidential = 2
data_classification_int DataClassification.restricted = 3

pub data RiskLevel : Type 0 where
  low medium high critical : RiskLevel

unfoldable pub RiskLevel-discrete : Discrete RiskLevel
RiskLevel-discrete = hlevel

instance abbrev pub risk_level_eq : Eq RiskLevel
risk_level_eq = discrete_eq RiskLevel-discrete

-- The values of the `IntEnum`.
unfoldable pub risk_level_int : RiskLevel → ℕ
risk_level_int RiskLevel.low = 0
risk_level_int RiskLevel.medium = 1
risk_level_int RiskLevel.high = 2
risk_level_int RiskLevel.critical = 3

pub data CostTier : Type 0 where
  low medium high : CostTier

unfoldable pub CostTier-discrete : Discrete CostTier
CostTier-discrete = hlevel

instance abbrev pub cost_tier_eq : Eq CostTier
cost_tier_eq = discrete_eq CostTier-discrete

-- The values of the `IntEnum`.
unfoldable pub cost_tier_int : CostTier → ℕ
cost_tier_int CostTier.low = 0
cost_tier_int CostTier.medium = 1
cost_tier_int CostTier.high = 2

pub data FundingMode : Type 0 where
  local subscription metered : FundingMode

unfoldable pub FundingMode-discrete : Discrete FundingMode
FundingMode-discrete = hlevel

instance abbrev pub funding_mode_eq : Eq FundingMode
funding_mode_eq = discrete_eq FundingMode-discrete

pub data WorkCapability : Type 0 where
  planning architecture code_generation test_design test_execution : WorkCapability
  code_review security_analysis tool_proposals long_running_execution : WorkCapability
  interactive_ide : WorkCapability

unfoldable pub WorkCapability-discrete : Discrete WorkCapability
WorkCapability-discrete = hlevel

instance abbrev pub work_capability_eq : Eq WorkCapability
work_capability_eq = discrete_eq WorkCapability-discrete

pub data RoutingPurpose : Type 0 where
  produce review : RoutingPurpose

unfoldable pub RoutingPurpose-discrete : Discrete RoutingPurpose
RoutingPurpose-discrete = hlevel

instance abbrev pub routing_purpose_eq : Eq RoutingPurpose
routing_purpose_eq = discrete_eq RoutingPurpose-discrete

pub data RoutingObjective : Type 0 where
  balanced quality speed frugal : RoutingObjective

unfoldable pub RoutingObjective-discrete : Discrete RoutingObjective
RoutingObjective-discrete = hlevel

instance abbrev pub routing_objective_eq : Eq RoutingObjective
routing_objective_eq = discrete_eq RoutingObjective-discrete

-- Where a member's text stands in the order by which `sorted` puts them.
unfoldable pub work_capability_text_order : WorkCapability → ℕ
work_capability_text_order WorkCapability.planning = 5
work_capability_text_order WorkCapability.architecture = 0
work_capability_text_order WorkCapability.code_generation = 1
work_capability_text_order WorkCapability.test_design = 7
work_capability_text_order WorkCapability.test_execution = 8
work_capability_text_order WorkCapability.code_review = 2
work_capability_text_order WorkCapability.security_analysis = 6
work_capability_text_order WorkCapability.tool_proposals = 9
work_capability_text_order WorkCapability.long_running_execution = 4
work_capability_text_order WorkCapability.interactive_ide = 3

-- The data classes over a type of floating-point numbers. A frozenset is a list of its members,
-- a dict a list of its items.
pub record CapabilityEvidence (F : Type 0) : Type 0 where
  pub sample_count : ℕ
  pub success_rate : F
  pub validation_pass_rate : F
  pub p95_latency_seconds : Option F

pub record ProviderProfile (F : Type 0) : Type 0 where
  pub provider_id : String
  pub provider_family : String
  pub execution_mode : ExecutionMode
  pub capabilities : List WorkCapability
  pub egress_boundary : EgressBoundary
  pub maximum_data_classification : DataClassification
  pub cost_tier : CostTier
  pub maximum_risk : RiskLevel
  pub model_version : String
  pub profile_version : String
  pub enabled : Bool
  pub healthy : Bool
  pub evidence : List (WorkCapability × CapabilityEvidence F)
  pub funding_mode : FundingMode
  pub max_invocations_per_execution : ℕ
  pub max_invocations_per_workflow : ℕ

pub record RoutingRequest : Type 0 where
  pub required_capabilities : List WorkCapability
  pub data_classification : DataClassification
  pub risk : RiskLevel
  pub purpose : RoutingPurpose
  pub allowed_egress : List EgressBoundary
  pub allowed_modes : List ExecutionMode
  pub maximum_cost_tier : CostTier
  pub minimum_evidence_samples : ℕ
  pub producer_provider_id : Option String
  pub producer_family : Option String
  pub objective : RoutingObjective

pub record RankedCandidate (F : Type 0) : Type 0 where
  pub provider_id : String
  pub score : F
  pub quality_utility : F
  pub cost_utility : F
  pub latency_utility : F

-- The texts that `_rejection_reasons` appends; the two with a list carry the sorted members.
pub data Reason : Type 0 where
  provider_disabled provider_unhealthy egress_boundary_not_approved : Reason
  missing_capabilities insufficient_evidence : List WorkCapability → Reason
  data_classification_not_allowed cost_tier_exceeded risk_level_not_allowed : Reason
  execution_mode_not_allowed reviewer_must_differ_from_producer : Reason
  high_risk_review_requires_provider_family_diversity : Reason
  subscription_invocation_ceiling_exhausted : Reason

pub record RoutingDecision (F : Type 0) : Type 0 where
  pub selected_provider_id : Option String
  pub ranked_candidates : List (RankedCandidate F)
  pub rejected : List (String × List Reason)
  pub policy_version : String
  pub objective : RoutingObjective
  pub objective_profile_version : String

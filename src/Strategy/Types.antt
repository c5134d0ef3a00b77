-- ===== src/Strategy/Types.antt =====
-- task_strategy.py (src/control_plane/task_strategy.py): the enumerations and the data classes.
use eldridge.Prelude.{Eq, discrete_eq, ℕ, Bool, List}
use eldridge.Routing.Types.{RiskLevel, DataClassification, WorkCapability}

pub data ComplexityTier : Type 0 where
  simple standard complex adversarial : ComplexityTier

unfoldable pub ComplexityTier-discrete : Discrete ComplexityTier
ComplexityTier-discrete = hlevel

instance abbrev pub complexity_tier_eq : Eq ComplexityTier
complexity_tier_eq = discrete_eq ComplexityTier-discrete

-- The values of the `IntEnum`.
unfoldable pub complexity_tier_int : ComplexityTier → ℕ
complexity_tier_int ComplexityTier.simple = 0
complexity_tier_int ComplexityTier.standard = 1
complexity_tier_int ComplexityTier.complex = 2
complexity_tier_int ComplexityTier.adversarial = 3

pub data InspectionSignal : Type 0 where
  encoded_or_packed_content concealed_instructions prompt_injection : InspectionSignal
  unknown_binary suspected_malicious_behavior : InspectionSignal

unfoldable pub InspectionSignal-discrete : Discrete InspectionSignal
InspectionSignal-discrete = hlevel

instance abbrev pub inspection_signal_eq : Eq InspectionSignal
inspection_signal_eq = discrete_eq InspectionSignal-discrete

pub data StrategyStage : Type 0 where
  context_inspection human_disposition plan architecture_review implement : StrategyStage
  test security_review code_review human_approval : StrategyStage

unfoldable pub StrategyStage-discrete : Discrete StrategyStage
StrategyStage-discrete = hlevel

instance abbrev pub strategy_stage_eq : Eq StrategyStage
strategy_stage_eq = discrete_eq StrategyStage-discrete

pub data ExecutionRestriction : Type 0 where
  no_external_egress no_secret_resolution no_network no_write_tools : ExecutionRestriction

unfoldable pub ExecutionRestriction-discrete : Discrete ExecutionRestriction
ExecutionRestriction-discrete = hlevel

instance abbrev pub execution_restriction_eq : Eq ExecutionRestriction
execution_restriction_eq = discrete_eq ExecutionRestriction-discrete

pub record TaskProfile : Type 0 where
  pub complexity : ComplexityTier
  pub risk : RiskLevel
  pub data_classification : DataClassification
  pub required_capabilities : List WorkCapability
  pub inspection_signals : List InspectionSignal

pub record ExecutionStrategy : Type 0 where
  pub stages : List StrategyStage
  pub restrictions : List ExecutionRestriction
  pub requires_independent_review : Bool
  pub requires_cross_family_review : Bool
  pub requires_human_disposition : Bool
  pub recommended_producer_count : ℕ
  pub recommended_reviewer_count : ℕ
  pub minimum_routing_evidence_samples : ℕ

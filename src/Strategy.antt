-- ===== src/Strategy.antt =====
-- task_strategy.py (src/control_plane/task_strategy.py): how deep a workflow goes.
pub mod Types
pub mod Names
pub mod Safety
use eldridge.Prelude.{ℕ, Bool, true, false, ◌&&◌, ◌||◌, List, [], ◌∷◌, Eq, ◌==◌, leb, if◌then◌else◌}
use eldridge.Routing.Types.{
  RiskLevel, RiskLevel-discrete, risk_level_eq, risk_level_int, data_classification_int,
}
use Types.{
  ComplexityTier, ComplexityTier-discrete, complexity_tier_eq, complexity_tier_int, StrategyStage,
  ExecutionRestriction, TaskProfile, ExecutionStrategy,
}

-- `bool(xs)`
abbrev pub nonempty {ℓ} : {A : Type ℓ} → List A → Bool
nonempty [] = false
nonempty (x ∷ xs) = true

-- `profile.risk >= RiskLevel.HIGH`
unfoldable pub high_risk : RiskLevel → Bool
unfolding risk_level_int
high_risk r = leb 2 (risk_level_int r)

unfoldable pub suspicious : TaskProfile → Bool
unfolding ComplexityTier-discrete
suspicious profile =
    nonempty profile.inspection_signals || profile.complexity == ComplexityTier.adversarial

contained : TaskProfile → ExecutionStrategy
contained profile = record {
  stages = StrategyStage.context_inspection ∷ StrategyStage.human_disposition ∷ [];
  restrictions =
      ExecutionRestriction.no_external_egress ∷ ExecutionRestriction.no_secret_resolution
      ∷ ExecutionRestriction.no_network ∷ ExecutionRestriction.no_write_tools ∷ [];
  requires_independent_review = true;
  requires_cross_family_review = high_risk profile.risk;
  requires_human_disposition = true;
  recommended_producer_count = 0;
  recommended_reviewer_count = 1;
  minimum_routing_evidence_samples = 0;
}

stages_of : TaskProfile → List StrategyStage
unfolding ComplexityTier-discrete RiskLevel-discrete
stages_of profile =
    if profile.complexity == ComplexityTier.simple && profile.risk == RiskLevel.low
    then StrategyStage.plan ∷ StrategyStage.implement ∷ StrategyStage.test
      ∷ StrategyStage.code_review ∷ StrategyStage.human_approval ∷ []
    else StrategyStage.plan ∷ StrategyStage.architecture_review ∷ StrategyStage.implement
      ∷ StrategyStage.test ∷ StrategyStage.security_review ∷ StrategyStage.code_review
      ∷ StrategyStage.human_approval ∷ []

-- `TaskStrategyPlanner.plan`
unfoldable pub plan : TaskProfile → ExecutionStrategy
unfolding suspicious contained stages_of high_risk data_classification_int complexity_tier_int
plan profile = if suspicious profile then contained profile else record {
  stages = stages_of profile;
  restrictions =
      if leb 2 (data_classification_int profile.data_classification)
      then ExecutionRestriction.no_external_egress ∷ []
      else [];
  requires_independent_review = true;
  requires_cross_family_review = high_risk profile.risk;
  requires_human_disposition = false;
  recommended_producer_count = if leb 2 (complexity_tier_int profile.complexity) then 2 else 1;
  recommended_reviewer_count = if high_risk profile.risk then 2 else 1;
  minimum_routing_evidence_samples = if high_risk profile.risk then 20 else 0;
}

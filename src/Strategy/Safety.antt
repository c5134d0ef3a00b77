-- ===== src/Strategy/Safety.antt =====
-- What a strategy of task_strategy.py guarantees, whatever the complexity of the task.
use eldridge.Prelude.{◌≡◌, Bool, true, false, ◌⊎◌, ◌↔◌, [], arith, contains, ◌≢◌}
use eldridge.Routing.Types.{RiskLevel, DataClassification}
use eldridge.Strategy.{plan}
use eldridge.Strategy.Types.{
  ComplexityTier, complexity_tier_eq, StrategyStage, strategy_stage_eq, StrategyStage-discrete,
  ExecutionRestriction, execution_restriction_eq, ExecutionRestriction-discrete, TaskProfile,
}

abbrev pub has_stage : StrategyStage → TaskProfile → Bool
has_stage st p = contains st (plan p).stages

abbrev pub restricts : ExecutionRestriction → TaskProfile → Bool
restricts r p = contains r (plan p).restrictions

-- A profile with an inspection signal, or of ADVERSARIAL complexity, gets a strategy that
-- requires a human disposition, has all four restrictions, recommends no producer, and has
-- neither PLAN nor IMPLEMENT among its stages.
pub plan_contains_suspicious :
    (p : TaskProfile)
    → (p.inspection_signals ≢ []) ⊎ (p.complexity ≡ ComplexityTier.adversarial)
    → ((plan p).requires_human_disposition ≡ true)
      × ((r : ExecutionRestriction) → restricts r p ≡ true)
      × ((plan p).recommended_producer_count ≡ 0)
      × (has_stage StrategyStage.plan p ≡ false)
      × (has_stage StrategyStage.implement p ≡ false)
unfolding plan StrategyStage-discrete ExecutionRestriction-discrete
plan_contains_suspicious p h =
    (ground arith, λ r. ground arith, ground arith, ground arith, ground arith)

-- A strategy that requires no human disposition has the stages PLAN, IMPLEMENT, TEST, CODE_REVIEW
-- and HUMAN_APPROVAL; if the task is more than SIMPLE or its risk is above LOW, it has both the
-- architecture and the security review as well.
pub plan_keeps_gates :
    (p : TaskProfile)
    → (plan p).requires_human_disposition ≡ false
    → (has_stage StrategyStage.plan p ≡ true)
      × (has_stage StrategyStage.implement p ≡ true)
      × (has_stage StrategyStage.test p ≡ true)
      × (has_stage StrategyStage.code_review p ≡ true)
      × (has_stage StrategyStage.human_approval p ≡ true)
      × ((p.complexity ≢ ComplexityTier.simple) ⊎ (p.risk ≢ RiskLevel.low)
          → (has_stage StrategyStage.architecture_review p ≡ true)
            × (has_stage StrategyStage.security_review p ≡ true))
unfolding plan StrategyStage-discrete
plan_keeps_gates p h =
    (ground arith, ground arith, ground arith, ground arith, ground arith, λ k. ground arith)

-- HIGH or CRITICAL.
abbrev pub IsGrave : RiskLevel → Type 0
IsGrave r = (r ≡ RiskLevel.high) ⊎ (r ≡ RiskLevel.critical)

-- Every strategy requires independent review, requires a cross-family review exactly at HIGH and
-- CRITICAL risk, and has the restriction NO_EXTERNAL_EGRESS for CONFIDENTIAL and RESTRICTED data.
-- Without a human disposition, HIGH and CRITICAL risk also ask for two reviewers and twenty
-- samples, and other risk for one reviewer and none.
pub plan_escalates :
    (p : TaskProfile)
    → ((plan p).requires_independent_review ≡ true)
      × (((plan p).requires_cross_family_review ≡ true) ↔ IsGrave p.risk)
      × ((p.data_classification ≡ DataClassification.confidential)
            ⊎ (p.data_classification ≡ DataClassification.restricted)
          → restricts ExecutionRestriction.no_external_egress p ≡ true)
      × ((plan p).requires_human_disposition ≡ false
          → (IsGrave p.risk
              → ((plan p).recommended_reviewer_count ≡ 2)
                × ((plan p).minimum_routing_evidence_samples ≡ 20))
            × ((IsGrave p.risk → ⊥)
                → ((plan p).recommended_reviewer_count ≡ 1)
                  × ((plan p).minimum_routing_evidence_samples ≡ 0)))
unfolding plan ExecutionRestriction-discrete
plan_escalates p = (
  ground arith,
  ground arith,
  λ k. ground arith,
  λ free. (λ grave. (ground arith, ground arith), λ light. (ground arith, ground arith)),
)

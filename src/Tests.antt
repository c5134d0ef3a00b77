-- ===== src/Tests.antt =====
-- Runs of the program at concrete data, for which the theorems are applied.
pub mod Data
pub mod Service
pub mod Routing
pub mod Git
pub mod Platform
pub mod Deployment
pub mod Credentials
use eldridge.Prelude.{
  ◌≡◌, ◌≢◌, refl, ◌⊎◌, ◌↔◌, inl, inr, Bool, true, false, List, [], ◌∷◌, none, some, arith, contains,
}
use eldridge.Domain.{WorkflowState, WorkflowState-discrete, workflow_state_eq}
use eldridge.Result.{ok}
use eldridge.StateMachine.{assert_transition_allowed, allowed_transitions}
use eldridge.StateMachine.Graph.{Walk, entered, is_terminal, deployed_passes_gates, final_iff}
use eldridge.Routing.Types.{RiskLevel, DataClassification}
use eldridge.Strategy.{plan}
use eldridge.Strategy.Types.{
  ComplexityTier, InspectionSignal, ExecutionRestriction, StrategyStage, TaskProfile,
}
use eldridge.Strategy.Safety.{
  IsGrave, plan_escalates, plan_contains_suspicious, plan_keeps_gates, restricts, has_stage,
}

straight : Walk WorkflowState.created WorkflowState.deployed
unfolding assert_transition_allowed allowed_transitions WorkflowState-discrete
straight =
    Walk.step WorkflowState.deployed
      (Walk.step WorkflowState.awaiting_deployment_approval
        (Walk.step WorkflowState.merged
          (Walk.step WorkflowState.approved
            (Walk.step WorkflowState.awaiting_human_approval
              (Walk.step WorkflowState.code_review
                (Walk.step WorkflowState.security_review
                  (Walk.step WorkflowState.testing
                    (Walk.step WorkflowState.implementing
                      (Walk.step WorkflowState.approved_for_implementation
                        (Walk.step WorkflowState.architecture_review
                          (Walk.step WorkflowState.planning Walk.here refl) refl)
                        refl)
                      refl)
                    refl)
                  refl)
                refl)
              refl)
            refl)
          refl)
        refl)
      refl

deployed_passes_gates_example :
    (contains WorkflowState.code_review (entered straight) ≡ true)
    × (contains WorkflowState.awaiting_human_approval (entered straight) ≡ true)
    × (contains WorkflowState.approved (entered straight) ≡ true)
    × (contains WorkflowState.merged (entered straight) ≡ true)
    × (contains WorkflowState.awaiting_deployment_approval (entered straight) ≡ true)
deployed_passes_gates_example = deployed_passes_gates straight

final_iff_example :
    (is_terminal WorkflowState.failed ≡ true
      → (t : WorkflowState) → Walk WorkflowState.failed t
      → t ≡ WorkflowState.failed)
    × (is_terminal WorkflowState.failed ≡ false
        → (u : WorkflowState) × (assert_transition_allowed WorkflowState.failed u ≡ ok tt))
final_iff_example = final_iff WorkflowState.failed

abbrev injected : TaskProfile
injected = record {
  complexity = ComplexityTier.simple;
  risk = RiskLevel.low;
  data_classification = DataClassification.public;
  required_capabilities = [];
  inspection_signals = InspectionSignal.prompt_injection ∷ [];
}

abbrev ordinary : TaskProfile
ordinary = record injected { inspection_signals = [] }

plan_contains_suspicious_example :
    ((plan injected).requires_human_disposition ≡ true)
    × ((r : ExecutionRestriction) → restricts r injected ≡ true)
    × ((plan injected).recommended_producer_count ≡ 0)
    × (has_stage StrategyStage.plan injected ≡ false)
    × (has_stage StrategyStage.implement injected ≡ false)
plan_contains_suspicious_example = plan_contains_suspicious injected (inl (ground arith))

disposition_free : (plan ordinary).requires_human_disposition ≡ false
unfolding plan
disposition_free = refl

plan_keeps_gates_example :
    (has_stage StrategyStage.plan ordinary ≡ true)
    × (has_stage StrategyStage.implement ordinary ≡ true)
    × (has_stage StrategyStage.test ordinary ≡ true)
    × (has_stage StrategyStage.code_review ordinary ≡ true)
    × (has_stage StrategyStage.human_approval ordinary ≡ true)
    × ((ordinary.complexity ≢ ComplexityTier.simple) ⊎ (ordinary.risk ≢ RiskLevel.low)
        → (has_stage StrategyStage.architecture_review ordinary ≡ true)
          × (has_stage StrategyStage.security_review ordinary ≡ true))
plan_keeps_gates_example = plan_keeps_gates ordinary disposition_free

abbrev grave : TaskProfile
grave = record ordinary { risk = RiskLevel.high }

plan_escalates_example :
    ((plan grave).requires_independent_review ≡ true)
    × (((plan grave).requires_cross_family_review ≡ true) ↔ IsGrave RiskLevel.high)
    × ((DataClassification.public ≡ DataClassification.confidential)
          ⊎ (DataClassification.public ≡ DataClassification.restricted)
        → restricts ExecutionRestriction.no_external_egress grave ≡ true)
    × ((plan grave).requires_human_disposition ≡ false
        → (IsGrave RiskLevel.high
            → ((plan grave).recommended_reviewer_count ≡ 2)
              × ((plan grave).minimum_routing_evidence_samples ≡ 20))
          × ((IsGrave RiskLevel.high → ⊥)
              → ((plan grave).recommended_reviewer_count ≡ 1)
                × ((plan grave).minimum_routing_evidence_samples ≡ 0)))
plan_escalates_example = plan_escalates grave

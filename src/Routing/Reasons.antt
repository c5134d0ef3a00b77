-- ===== src/Routing/Reasons.antt =====
-- routing.py: the texts of `_rejection_reasons`, as an audit payload lists them.
use Prim.Native.String.{◌++◌ as concat}
use eldridge.Prelude.{String, List, [], ◌∷◌}
use eldridge.Routing.Types.{WorkCapability, Reason}

unfoldable pub work_capability_value : WorkCapability → String
work_capability_value WorkCapability.planning = "PLANNING"
work_capability_value WorkCapability.architecture = "ARCHITECTURE"
work_capability_value WorkCapability.code_generation = "CODE_GENERATION"
work_capability_value WorkCapability.test_design = "TEST_DESIGN"
work_capability_value WorkCapability.test_execution = "TEST_EXECUTION"
work_capability_value WorkCapability.code_review = "CODE_REVIEW"
work_capability_value WorkCapability.security_analysis = "SECURITY_ANALYSIS"
work_capability_value WorkCapability.tool_proposals = "TOOL_PROPOSALS"
work_capability_value WorkCapability.long_running_execution = "LONG_RUNNING_EXECUTION"
work_capability_value WorkCapability.interactive_ide = "INTERACTIVE_IDE"

-- `",".join(...)`
capabilities_text : List WorkCapability → String
unfolding work_capability_value
capabilities_text [] = ""
capabilities_text (c ∷ []) = work_capability_value c
capabilities_text (c ∷ d ∷ rest) =
    concat (work_capability_value c) (concat "," (capabilities_text (d ∷ rest)))

unfoldable pub reason_text : Reason → String
unfolding capabilities_text
reason_text Reason.provider_disabled = "provider_disabled"
reason_text Reason.provider_unhealthy = "provider_unhealthy"
reason_text Reason.egress_boundary_not_approved = "egress_boundary_not_approved"
reason_text (Reason.missing_capabilities cs) = concat "missing_capabilities:" (capabilities_text cs)
reason_text (Reason.insufficient_evidence cs) =
    concat "insufficient_evidence:" (capabilities_text cs)
reason_text Reason.data_classification_not_allowed = "data_classification_not_allowed"
reason_text Reason.cost_tier_exceeded = "cost_tier_exceeded"
reason_text Reason.risk_level_not_allowed = "risk_level_not_allowed"
reason_text Reason.execution_mode_not_allowed = "execution_mode_not_allowed"
reason_text Reason.reviewer_must_differ_from_producer = "reviewer_must_differ_from_producer"
reason_text Reason.high_risk_review_requires_provider_family_diversity =
    "high_risk_review_requires_provider_family_diversity"
reason_text Reason.subscription_invocation_ceiling_exhausted =
    "subscription_invocation_ceiling_exhausted"

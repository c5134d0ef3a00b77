-- ===== src/Strategy/Names.antt =====
-- The names and values that `create_workflow` writes of the enumerations in routing.py and
-- task_strategy.py.
use eldridge.Prelude.{ℕ, String}
use eldridge.Routing.Types.{RiskLevel, DataClassification}
use eldridge.Strategy.Types.{ComplexityTier, InspectionSignal, ExecutionRestriction}

unfoldable pub risk_level_name : RiskLevel → String
risk_level_name RiskLevel.low = "LOW"
risk_level_name RiskLevel.medium = "MEDIUM"
risk_level_name RiskLevel.high = "HIGH"
risk_level_name RiskLevel.critical = "CRITICAL"

unfoldable pub data_classification_name : DataClassification → String
data_classification_name DataClassification.public = "PUBLIC"
data_classification_name DataClassification.internal = "INTERNAL"
data_classification_name DataClassification.confidential = "CONFIDENTIAL"
data_classification_name DataClassification.restricted = "RESTRICTED"

unfoldable pub complexity_tier_name : ComplexityTier → String
complexity_tier_name ComplexityTier.simple = "SIMPLE"
complexity_tier_name ComplexityTier.standard = "STANDARD"
complexity_tier_name ComplexityTier.complex = "COMPLEX"
complexity_tier_name ComplexityTier.adversarial = "ADVERSARIAL"

unfoldable pub inspection_signal_value : InspectionSignal → String
inspection_signal_value InspectionSignal.encoded_or_packed_content = "ENCODED_OR_PACKED_CONTENT"
inspection_signal_value InspectionSignal.concealed_instructions = "CONCEALED_INSTRUCTIONS"
inspection_signal_value InspectionSignal.prompt_injection = "PROMPT_INJECTION"
inspection_signal_value InspectionSignal.unknown_binary = "UNKNOWN_BINARY"
inspection_signal_value InspectionSignal.suspected_malicious_behavior =
    "SUSPECTED_MALICIOUS_BEHAVIOR"

-- Where the value stands in the order of texts.
unfoldable pub inspection_signal_order : InspectionSignal → ℕ
inspection_signal_order InspectionSignal.encoded_or_packed_content = 1
inspection_signal_order InspectionSignal.concealed_instructions = 0
inspection_signal_order InspectionSignal.prompt_injection = 2
inspection_signal_order InspectionSignal.unknown_binary = 4
inspection_signal_order InspectionSignal.suspected_malicious_behavior = 3

unfoldable pub execution_restriction_value : ExecutionRestriction → String
execution_restriction_value ExecutionRestriction.no_external_egress = "NO_EXTERNAL_EGRESS"
execution_restriction_value ExecutionRestriction.no_secret_resolution = "NO_SECRET_RESOLUTION"
execution_restriction_value ExecutionRestriction.no_network = "NO_NETWORK"
execution_restriction_value ExecutionRestriction.no_write_tools = "NO_WRITE_TOOLS"

-- Where the value stands in the order of texts.
unfoldable pub execution_restriction_order : ExecutionRestriction → ℕ
execution_restriction_order ExecutionRestriction.no_external_egress = 0
execution_restriction_order ExecutionRestriction.no_secret_resolution = 2
execution_restriction_order ExecutionRestriction.no_network = 1
execution_restriction_order ExecutionRestriction.no_write_tools = 3

-- ===== src/Tests/Routing.antt =====
-- Runs of routing.py, with natural numbers for its floats.
use mathlib.Core.List.{Memᴰ}
use eldridge.Prelude.{
  ℕ, ◌+◌, ◌*◌, ◌-◌, ◌≡◌, refl, ◌↔◌, true, false, [], ◌∷◌, none, some, arith, ltb, if◌then◌else◌,
}
use eldridge.Result.{Result, ok, err}
use eldridge.Routing.{route, consider, rejection_reasons}
use eldridge.Routing.Floats.{FloatOps, IsOrdered}
use eldridge.Routing.Types.{
  ExecutionMode, EgressBoundary, DataClassification, RiskLevel, CostTier, FundingMode,
  WorkCapability, RoutingPurpose, RoutingObjective, ProviderProfile, RoutingRequest,
  RoutingDecision,
}
use eldridge.Routing.Sort.{sort_by}
use eldridge.Routing.Score.{score}
use eldridge.Routing.Eligibility.{IsEligible, rejection_reasons-eq-nil_iff}
use eldridge.Routing.Selection.{route-selected, route-blocked_iff}

abbrev pub numbers : FloatOps
numbers = record {
  Float = ℕ;
  of_ratio = λ p q. p;
  add = λ a b. a + b;
  sub = λ a b. a - b;
  mul = λ a b. a * b;
  div = λ a b. a;
  minimum = λ a b. if ltb a b then a else b;
  round6 = λ a. a;
  ceil = λ a. a;
  lt = λ a b. ltb a b;
}

numbers-IsOrdered : IsOrdered numbers
numbers-IsOrdered = record {
  asymmetric = λ a b h. ground arith;
  not_lt_trans = λ a b c h k. ground arith;
}

abbrev alpha : ProviderProfile ℕ
alpha = record {
  provider_id = "alpha";
  provider_family = "greek";
  execution_mode = ExecutionMode.model;
  capabilities = WorkCapability.planning ∷ [];
  egress_boundary = EgressBoundary.local;
  maximum_data_classification = DataClassification.restricted;
  cost_tier = CostTier.low;
  maximum_risk = RiskLevel.critical;
  model_version = "1";
  profile_version = "1";
  enabled = true;
  healthy = true;
  evidence = [];
  funding_mode = FundingMode.local;
  max_invocations_per_execution = 0;
  max_invocations_per_workflow = 0;
}

abbrev sick : ProviderProfile ℕ
sick = record alpha { provider_id = "sick"; healthy = false }

abbrev wanted : RoutingRequest
wanted = record {
  required_capabilities = WorkCapability.planning ∷ [];
  data_classification = DataClassification.internal;
  risk = RiskLevel.low;
  purpose = RoutingPurpose.produce;
  allowed_egress = EgressBoundary.local ∷ [];
  allowed_modes = [];
  maximum_cost_tier = CostTier.high;
  minimum_evidence_samples = 0;
  producer_provider_id = none;
  producer_family = none;
  objective = RoutingObjective.balanced;
}

rejection_reasons-eq-nil_iff_example :
    (rejection_reasons wanted alpha ≡ []) ↔ IsEligible wanted alpha
rejection_reasons-eq-nil_iff_example = rejection_reasons-eq-nil_iff wanted alpha

abbrev blank : RoutingDecision ℕ
blank = record {
  selected_provider_id = none;
  ranked_candidates = [];
  rejected = [];
  policy_version = "";
  objective = RoutingObjective.balanced;
  objective_profile_version = "";
}

abbrev or_blank : Result (RoutingDecision ℕ) → RoutingDecision ℕ
or_blank (ok d) = d
or_blank (err e) = blank

abbrev chosen : RoutingDecision ℕ
chosen = or_blank (route numbers wanted (sick ∷ alpha ∷ []))

abbrev refused : RoutingDecision ℕ
refused = or_blank (route numbers wanted (sick ∷ []))

chosen-lem :
    (route numbers wanted (sick ∷ alpha ∷ []) ≡ ok chosen)
    × (chosen.selected_provider_id ≡ some "alpha")
unfolding route sort_by consider rejection_reasons score
chosen-lem = (refl, refl)

route-selected_example :
    (p : ProviderProfile ℕ) × Memᴰ p (sick ∷ alpha ∷ [])
    × (p.provider_id ≡ "alpha")
    × IsEligible wanted p
    × ((q : ProviderProfile ℕ)
        → Memᴰ q (sick ∷ alpha ∷ [])
        → IsEligible wanted q
        → numbers.lt (score numbers wanted p).score (score numbers wanted q).score ≡ false)
route-selected_example =
    route-selected numbers wanted numbers-IsOrdered (sick ∷ alpha ∷ []) chosen "alpha" chosen-lem.0
      chosen-lem.1

refused-lem : route numbers wanted (sick ∷ []) ≡ ok refused
unfolding route
refused-lem = refl

route-blocked_iff_example :
    (refused.selected_provider_id ≡ none)
    ↔ ((q : ProviderProfile ℕ) → Memᴰ q (sick ∷ []) → ¬ IsEligible wanted q)
route-blocked_iff_example =
    route-blocked_iff numbers wanted numbers-IsOrdered (sick ∷ []) refused refused-lem

-- ===== src/Routing/Score.antt =====
-- routing.py: `CapabilityEvidence.conservative_quality`, `OBJECTIVE_WEIGHTS` and
-- `CapabilityRouter._score`.
use eldridge.Prelude.{ℕ, ◌-◌, List, [], ◌∷◌, map, Option, none, some, ◌==◌, if◌then◌else◌, nat_eq}
use eldridge.Domain.{Error}
use eldridge.Result.{Result, ok, err}
use eldridge.Routing.Types.{
  cost_tier_int, WorkCapability, WorkCapability-discrete, work_capability_eq, RoutingObjective,
  CapabilityEvidence, ProviderProfile, RoutingRequest, RankedCandidate,
}
use eldridge.Routing.Floats.{FloatOps, mean}

lookup_evidence :
    {F : Type 0}
    → WorkCapability
    → List (WorkCapability × CapabilityEvidence F)
    → Option (CapabilityEvidence F)
unfolding WorkCapability-discrete
lookup_evidence c [] = none
lookup_evidence c ((d, e) ∷ es) = if c == d then some e else lookup_evidence c es

-- `profile.evidence.get(capability)`
unfoldable pub evidence_for :
    {F : Type 0} → ProviderProfile F → WorkCapability → Option (CapabilityEvidence F)
unfolding lookup_evidence
evidence_for profile c = lookup_evidence c profile.evidence

-- The weights of an objective, in hundredths: quality, cost, latency.
unfoldable pub objective_weights : RoutingObjective → ℕ × ℕ × ℕ
objective_weights RoutingObjective.balanced = (75, 15, 10)
objective_weights RoutingObjective.quality = (90, 5, 5)
objective_weights RoutingObjective.speed = (55, 10, 35)
objective_weights RoutingObjective.frugal = (55, 40, 5)

module _ (fl : FloatOps) where
  open fl use {Float, of_ratio, add, sub, mul, div, minimum, round6}

  -- `CapabilityEvidence()`
  unfoldable pub no_evidence : CapabilityEvidence Float
  no_evidence = record {
    sample_count = 0;
    success_rate = of_ratio 0 1;
    validation_pass_rate = of_ratio 0 1;
    p95_latency_seconds = none;
  }

  weighted_quality : CapabilityEvidence Float → ℕ → Float
  weighted_quality e minimum_samples =
      let observed = div (add e.success_rate e.validation_pass_rate) (of_ratio 2 1) in
      let weight =
        minimum (div (of_ratio e.sample_count 1) (of_ratio minimum_samples 1)) (of_ratio 1 1) in
      add (mul weight observed) (mul (sub (of_ratio 1 1) weight) (of_ratio 1 2))

  unfoldable pub conservative_quality : CapabilityEvidence Float → ℕ → Result Float
  unfolding weighted_quality
  conservative_quality e minimum_samples =
      if minimum_samples == 0
      then err Error.value_error
      else ok (weighted_quality e minimum_samples)

  or_no_evidence : Option (CapabilityEvidence Float) → CapabilityEvidence Float
  unfolding no_evidence
  or_no_evidence none = no_evidence
  or_no_evidence (some e) = e

  -- At the default of 20 samples `conservative_quality` does not raise.
  quality_of : ProviderProfile Float → List WorkCapability → Float
  unfolding mean weighted_quality or_no_evidence evidence_for
  quality_of profile [] = of_ratio 1 2
  quality_of profile (c ∷ cs) =
      mean fl (map (λ d. weighted_quality (or_no_evidence (evidence_for profile d)) 20) (c ∷ cs))

  latency_in : Option (CapabilityEvidence Float) → Option Float
  latency_in none = none
  latency_in (some e) = e.p95_latency_seconds

  observed_latencies : ProviderProfile Float → List WorkCapability → List Float
  unfolding latency_in evidence_for
  observed_latencies profile [] = []
  observed_latencies profile (c ∷ cs) =
      let rest = observed_latencies profile cs in
      elim (latency_in (evidence_for profile c)) [ none ↦ rest | some l ↦ l ∷ rest ]

  latency_utility : List Float → Float → Float
  unfolding mean
  latency_utility [] quality = of_ratio 1 2
  latency_utility (l ∷ ls) quality =
      mul (div (of_ratio 1 1) (add (of_ratio 1 1) (div (mean fl (l ∷ ls)) (of_ratio 30 1)))) quality

  -- `CapabilityRouter._score`
  unfoldable pub score : RoutingRequest → ProviderProfile Float → RankedCandidate Float
  unfolding quality_of observed_latencies latency_utility objective_weights cost_tier_int
  score request profile =
      let quality = quality_of profile request.required_capabilities in
      let cost = div (of_ratio (2 - cost_tier_int profile.cost_tier) 1) (of_ratio 2 1) in
      let latency =
        latency_utility (observed_latencies profile request.required_capabilities) quality in
      let (wq, wc, wl) = objective_weights request.objective in
      let total =
        add (add (mul quality (of_ratio wq 100)) (mul cost (of_ratio wc 100)))
          (mul latency (of_ratio wl 100)) in
      record {
        provider_id = profile.provider_id;
        score = round6 total;
        quality_utility = round6 quality;
        cost_utility = round6 cost;
        latency_utility = round6 latency;
      }

-- ===== src/Routing.antt =====
-- routing.py (src/control_plane/routing.py): `CapabilityRouter`.
pub mod Reasons
pub mod Types
pub mod Floats
pub mod Sort
pub mod Score
pub mod Eligibility
pub mod Selection
use Prim.Native.String.{compare}
use Prim.Native.Nat.{Ordering}
use eldridge.Prelude.{
  ℕ, suc, String, Bool, true, false, ◌&&◌, ◌||◌, negate, List, [], ◌∷◌, ◌++◌, Option, none, some,
  Eq, ◌==◌, string_eq, option_eq, contains, ltb, leb, if◌then◌else◌,
}
use eldridge.Domain.{Error}
use eldridge.Result.{Result, ok, err}
use Types.{
  EgressBoundary, EgressBoundary-discrete, egress_boundary_eq, ExecutionMode,
  ExecutionMode-discrete, execution_mode_eq, data_classification_int, risk_level_int, cost_tier_int,
  WorkCapability, WorkCapability-discrete, work_capability_eq, work_capability_text_order,
  RoutingPurpose, RoutingPurpose-discrete, routing_purpose_eq, CapabilityEvidence, ProviderProfile,
  RoutingRequest, RankedCandidate, Reason, RoutingDecision,
}
use Floats.{FloatOps}
use Sort.{sort_by}
use Score.{evidence_for, score}

-- `sorted` on a set of capabilities
text_before : WorkCapability → WorkCapability → Bool
text_before a b = ltb (work_capability_text_order a) (work_capability_text_order b)

-- The members of a list that pass a test.
unfoldable pub such_that {ℓ} : {A : Type ℓ} → (A → Bool) → List A → List A
such_that p [] = []
such_that p (x ∷ xs) = let rest = such_that p xs in if p x then x ∷ rest else rest

-- `if set: reasons.append(...)`
reason_if_any : (List WorkCapability → Reason) → List WorkCapability → List Reason
reason_if_any r [] = []
reason_if_any r (c ∷ cs) = r (sort_by text_before (c ∷ cs)) ∷ []

abbrev reason_if : Bool → Reason → List Reason
reason_if true r = r ∷ []
reason_if false r = []

-- `evidence.get(capability, CapabilityEvidence()).sample_count`
pub samples_of : {F : Type 0} → Option (CapabilityEvidence F) → ℕ
samples_of none = 0
samples_of (some e) = e.sample_count

same_as : Option String → String → Bool
same_as none s = false
same_as (some t) s = s == t

module _ {F : Type 0} (request : RoutingRequest) (profile : ProviderProfile F) where
  missing : List WorkCapability
  unfolding WorkCapability-discrete such_that
  missing = such_that (λ c. negate (contains c profile.capabilities)) request.required_capabilities

  under_sampled : List WorkCapability
  unfolding such_that samples_of
  under_sampled =
      such_that (λ c. ltb (samples_of (evidence_for profile c)) request.minimum_evidence_samples)
        request.required_capabilities

  review_reasons : List Reason
  review_reasons =
      if request.purpose == RoutingPurpose.review
      then reason_if (same_as request.producer_provider_id profile.provider_id)
          Reason.reviewer_must_differ_from_producer
        ++ reason_if
            (leb 2 (risk_level_int request.risk)
              && same_as request.producer_family profile.provider_family)
            Reason.high_risk_review_requires_provider_family_diversity
      else []

  modes_exclude : List ExecutionMode → Bool
  unfolding ExecutionMode-discrete
  modes_exclude [] = false
  modes_exclude (m ∷ ms) = negate (contains profile.execution_mode (m ∷ ms))

  -- `CapabilityRouter._rejection_reasons`
  unfoldable pub rejection_reasons : List Reason
  unfolding missing under_sampled review_reasons modes_exclude reason_if_any data_classification_int
      risk_level_int cost_tier_int EgressBoundary-discrete RoutingPurpose-discrete same_as
      text_before
  rejection_reasons =
      reason_if (negate profile.enabled) Reason.provider_disabled
      ++ (reason_if (negate profile.healthy) Reason.provider_unhealthy
          ++ (reason_if_any Reason.missing_capabilities missing
              ++ (reason_if (negate (contains profile.egress_boundary request.allowed_egress))
                    Reason.egress_boundary_not_approved
                  ++ (reason_if
                        (ltb (data_classification_int profile.maximum_data_classification)
                          (data_classification_int request.data_classification))
                        Reason.data_classification_not_allowed
                      ++ (reason_if
                            (ltb (cost_tier_int request.maximum_cost_tier)
                              (cost_tier_int profile.cost_tier))
                            Reason.cost_tier_exceeded
                          ++ (reason_if
                                (ltb (risk_level_int profile.maximum_risk)
                                  (risk_level_int request.risk))
                                Reason.risk_level_not_allowed
                              ++ (reason_if (modes_exclude request.allowed_modes)
                                    Reason.execution_mode_not_allowed
                                  ++ ((if ltb 0 request.minimum_evidence_samples
                                        then reason_if_any Reason.insufficient_evidence
                                            under_sampled
                                        else [])
                                      ++ review_reasons))))))))

unfoldable pub all_distinct : List String → Bool
all_distinct [] = true
all_distinct (x ∷ xs) = negate (contains x xs) && all_distinct xs

provider_ids : {F : Type 0} → List (ProviderProfile F) → List String
provider_ids [] = []
provider_ids (p ∷ ps) = p.provider_id ∷ provider_ids ps

-- `a < b` of texts
unfoldable pub text_lt : String → String → Bool
text_lt a b = elim (compare a b) [ Ordering.lt ↦ true | _ ↦ false ]

abbrev pub policy_version : String
policy_version = "capability-routing/v2"

abbrev pub objective_profile_version : String
objective_profile_version = "routing-objectives/v1"

module _ (fl : FloatOps) where
  open fl use {Float, lt}

  -- The key `(-score, provider_id)`: a higher score comes first, and equal scores by name.
  unfoldable pub ranks_before : RankedCandidate Float → RankedCandidate Float → Bool
  unfolding text_lt
  ranks_before a b =
      lt b.score a.score || (negate (lt a.score b.score) && text_lt a.provider_id b.provider_id)

  -- The loop over the profiles: the scores of the eligible ones, and the others' reasons.
  unfoldable pub consider :
      RoutingRequest
      → List (ProviderProfile Float)
      → List (RankedCandidate Float) × List (String × List Reason)
  consider request [] = ([], [])
  consider request (p ∷ ps) =
      let (ranked, rejected) = consider request ps in
      elim (rejection_reasons request p) [
        | [] ↦ (score fl request p ∷ ranked, rejected)
        | r ∷ rs ↦ (ranked, (p.provider_id, r ∷ rs) ∷ rejected)
      ]

  first_id : List (RankedCandidate Float) → Option String
  first_id [] = none
  first_id (c ∷ cs) = some c.provider_id

  decision_of :
      RoutingRequest
      → List (RankedCandidate Float)
      → List (String × List Reason)
      → RoutingDecision Float
  unfolding first_id
  decision_of request ranked rejected = record {
    selected_provider_id = first_id ranked;
    ranked_candidates = ranked;
    rejected = rejected;
    policy_version = policy_version;
    objective = request.objective;
    objective_profile_version = objective_profile_version;
  }

  -- `CapabilityRouter.route`
  unfoldable pub route :
      RoutingRequest → List (ProviderProfile Float) → Result (RoutingDecision Float)
  unfolding all_distinct provider_ids decision_of
  route request profiles =
      if all_distinct (provider_ids profiles)
      then (let (ranked, rejected) = consider request profiles in
          ok (decision_of request (sort_by ranks_before ranked) rejected))
      else err Error.value_error

-- ===== src/Routing/Eligibility.antt =====
-- routing.py: what it means that `_rejection_reasons` finds nothing against a profile.
use eldridge.Prelude.{
  ◌≤◌, ◌≡◌, refl, ◌≢◌, ◌↔◌, ◌⊎◌, inl, inr, String, Bool, true, false, negate, List, [], ◌∷◌, ◌++◌,
  Option, none, some, string_eq, contains, ltb, arith, if◌then◌else◌, Bool-cases,
}
use eldridge.Routing.Types.{
  egress_boundary_eq, ExecutionMode, execution_mode_eq, data_classification_int, risk_level_int,
  cost_tier_int, WorkCapability, work_capability_eq, RoutingPurpose, routing_purpose_eq,
  ProviderProfile, RoutingRequest, Reason,
}
use eldridge.Routing.Score.{evidence_for}
use eldridge.Routing.{
  such_that, reason_if_any, reason_if, missing, samples_of, under_sampled, same_as, review_reasons,
  modes_exclude, rejection_reasons,
}

module _ {F : Type 0} (request : RoutingRequest) (profile : ProviderProfile F) where
  -- The policy of the router, condition by condition.
  pub record IsEligible : Type 0 where
    pub enabled : profile.enabled ≡ true
    pub healthy : profile.healthy ≡ true
    pub capable :
        (c : WorkCapability)
        → contains c request.required_capabilities ≡ true
        → contains c profile.capabilities ≡ true
    pub egress_approved : contains profile.egress_boundary request.allowed_egress ≡ true
    pub classified :
        data_classification_int request.data_classification
        ≤ data_classification_int profile.maximum_data_classification
    pub affordable : cost_tier_int profile.cost_tier ≤ cost_tier_int request.maximum_cost_tier
    pub tolerable : risk_level_int request.risk ≤ risk_level_int profile.maximum_risk
    pub mode_allowed :
        (request.allowed_modes ≡ [])
        ⊎ (contains profile.execution_mode request.allowed_modes ≡ true)
    pub sampled :
        (c : WorkCapability)
        → contains c request.required_capabilities ≡ true
        → request.minimum_evidence_samples ≤ samples_of (evidence_for profile c)
    pub independent :
        request.purpose ≡ RoutingPurpose.review
        → request.producer_provider_id ≢ some profile.provider_id
    pub diverse :
        request.purpose ≡ RoutingPurpose.review
        → 2 ≤ risk_level_int request.risk
        → request.producer_family ≢ some profile.provider_family

nil_append {ℓ} : {A : Type ℓ} (xs ys : List A) → (xs ++ ys ≡ []) ↔ ((xs ≡ []) × (ys ≡ []))
nil_append [] ys = (λ h. (refl, h), λ h. h.1)
nil_append (x ∷ xs) ys = (λ h. cc, λ h. cc)

nil_reason_if : (b : Bool) (r : Reason) → (reason_if b r ≡ []) ↔ (b ≡ false)
nil_reason_if true r = (λ h. cc, λ h. cc)
nil_reason_if false r = (λ h. refl, λ h. refl)

nil_reason_if_any :
    (r : List WorkCapability → Reason) (cs : List WorkCapability)
    → (reason_if_any r cs ≡ []) ↔ (cs ≡ [])
unfolding reason_if_any
nil_reason_if_any r [] = (λ h. refl, λ h. refl)
nil_reason_if_any r (c ∷ cs) = (λ h. cc, λ h. cc)

-- No member passes a test exactly when every member fails it.
nil_such_that :
    (p : WorkCapability → Bool) (cs : List WorkCapability)
    → (such_that p cs ≡ []) ↔ ((c : WorkCapability) → contains c cs ≡ true → p c ≡ false)
unfolding such_that
nil_such_that p [] = (λ h c m. cc, λ h. refl)
nil_such_that p (d ∷ cs) = (
  λ h c m.
      ground (arith, work_capability_eq.equals_iff c d, (nil_such_that p cs).0 (ground arith) c),
  λ h. ground (
    arith,
    h d,
    work_capability_eq.equals_iff d d,
    (nil_such_that p cs).1 (λ c m. ground (arith, h c)),
  ),
)

module _ {F : Type 0} (request : RoutingRequest) (profile : ProviderProfile F) where
  -- The conditions as the code tests them.
  AllPass : Type 0
  AllPass =
      (negate profile.enabled ≡ false)
      × (negate profile.healthy ≡ false)
      × (missing request profile ≡ [])
      × (negate (contains profile.egress_boundary request.allowed_egress) ≡ false)
      × (ltb (data_classification_int profile.maximum_data_classification)
            (data_classification_int request.data_classification)
          ≡ false)
      × (ltb (cost_tier_int request.maximum_cost_tier) (cost_tier_int profile.cost_tier) ≡ false)
      × (ltb (risk_level_int profile.maximum_risk) (risk_level_int request.risk) ≡ false)
      × (modes_exclude request profile request.allowed_modes ≡ false)
      × ((if ltb 0 request.minimum_evidence_samples
            then reason_if_any Reason.insufficient_evidence (under_sampled request profile)
            else [])
          ≡ [])
      × (review_reasons request profile ≡ [])

  to_AllPass : rejection_reasons request profile ≡ [] → AllPass
  unfolding rejection_reasons AllPass
  to_AllPass h =
      let a = (nil_append (reason_if (negate profile.enabled) Reason.provider_disabled) _).0 h in
      let b = (nil_append (reason_if (negate profile.healthy) Reason.provider_unhealthy) _).0 a.1 in
      let c =
        (nil_append (reason_if_any Reason.missing_capabilities (missing request profile)) _).0
          b.1 in
      let d = (nil_append (reason_if _ Reason.egress_boundary_not_approved) _).0 c.1 in
      let e = (nil_append (reason_if _ Reason.data_classification_not_allowed) _).0 d.1 in
      let f = (nil_append (reason_if _ Reason.cost_tier_exceeded) _).0 e.1 in
      let g = (nil_append (reason_if _ Reason.risk_level_not_allowed) _).0 f.1 in
      let i = (nil_append (reason_if _ Reason.execution_mode_not_allowed) _).0 g.1 in
      let j = (nil_append _ (review_reasons request profile)).0 i.1 in
      (
        (nil_reason_if _ _).0 a.0,
        (nil_reason_if _ _).0 b.0,
        (nil_reason_if_any Reason.missing_capabilities _).0 c.0,
        (nil_reason_if _ _).0 d.0,
        (nil_reason_if _ _).0 e.0,
        (nil_reason_if _ _).0 f.0,
        (nil_reason_if _ _).0 g.0,
        (nil_reason_if _ _).0 i.0,
        j.0,
        j.1,
      )

  of_AllPass : AllPass → rejection_reasons request profile ≡ []
  unfolding rejection_reasons AllPass
  of_AllPass h = (nil_append _ _).1 (
    (nil_reason_if _ Reason.provider_disabled).1 h.0,
    (nil_append _ _).1 (
      (nil_reason_if _ Reason.provider_unhealthy).1 h.1,
      (nil_append _ _).1 (
        (nil_reason_if_any Reason.missing_capabilities _).1 h.2,
        (nil_append _ _).1 (
          (nil_reason_if _ Reason.egress_boundary_not_approved).1 h.3,
          (nil_append _ _).1 (
            (nil_reason_if _ Reason.data_classification_not_allowed).1 h.4,
            (nil_append _ _).1 (
              (nil_reason_if _ Reason.cost_tier_exceeded).1 h.5,
              (nil_append _ _).1 (
                (nil_reason_if _ Reason.risk_level_not_allowed).1 h.6,
                (nil_append _ _).1 (
                  (nil_reason_if _ Reason.execution_mode_not_allowed).1 h.7,
                  (nil_append _ _).1 (h.8, h.9),
                ),
              ),
            ),
          ),
        ),
      ),
    ),
  )

  modes_lem :
      (ms : List ExecutionMode)
      → (modes_exclude request profile ms ≡ false)
        ↔ ((ms ≡ []) ⊎ (contains profile.execution_mode ms ≡ true))
  unfolding modes_exclude
  modes_lem [] = (λ h. inl refl, λ h. refl)
  modes_lem (m ∷ ms) = (λ h. ground arith, λ h. ground arith)

  same_as_iff : (o : Option String) (t : String) → (same_as o t ≡ true) ↔ (o ≡ some t)
  unfolding same_as
  same_as_iff none t = ground arith
  same_as_iff (some u) t = ground (arith, string_eq.equals_iff t u)

  review_lem : (review_reasons request profile ≡ []) ↔ (
      (request.purpose ≡ RoutingPurpose.review
        → request.producer_provider_id ≢ some profile.provider_id)
      × (request.purpose ≡ RoutingPurpose.review
          → 2 ≤ risk_level_int request.risk
          → request.producer_family ≢ some profile.provider_family))
  unfolding review_reasons
  review_lem =
      let p = routing_purpose_eq.equals_iff request.purpose RoutingPurpose.review in
      let a = same_as_iff request.producer_provider_id profile.provider_id in
      let b = same_as_iff request.producer_family profile.provider_family in
      (
        λ h. (λ e. ground (arith, p, a, b), λ e f. ground (arith, p, a, b)),
        λ h. ground (arith, p, a, b),
      )

  missing_lem : (missing request profile ≡ []) ↔ (
      (c : WorkCapability)
      → contains c request.required_capabilities ≡ true
      → contains c profile.capabilities ≡ true)
  unfolding missing
  missing_lem =
      let m =
        nil_such_that (λ c. negate (contains c profile.capabilities))
          request.required_capabilities in
      (λ h c k. ground (arith, m.0 h c k), λ h. m.1 (λ c k. ground (arith, h c)))

  sampled_lem :
      ((if ltb 0 request.minimum_evidence_samples
          then reason_if_any Reason.insufficient_evidence (under_sampled request profile)
          else [])
        ≡ [])
      ↔ ((c : WorkCapability)
          → contains c request.required_capabilities ≡ true
          → request.minimum_evidence_samples ≤ samples_of (evidence_for profile c))
  unfolding under_sampled
  sampled_lem =
      let n = nil_reason_if_any Reason.insufficient_evidence (under_sampled request profile) in
      let m =
        nil_such_that
          (λ c. ltb (samples_of (evidence_for profile c)) request.minimum_evidence_samples)
          request.required_capabilities in
      elim (Bool-cases (ltb 0 request.minimum_evidence_samples)) [
        | inl some_asked ↦ (
          λ h c k. ground (arith, m.0 (n.0 (rw some_asked at h)) c k),
          λ h. rw some_asked (n.1 (m.1 (λ c k. ground (arith, h c k)))),
        )
        | inr none_asked ↦ (λ h c k. ground arith, λ h. rw none_asked)
      ]

  eligible : AllPass → IsEligible request profile
  unfolding AllPass
  eligible h = record {
    enabled = ground arith;
    healthy = ground arith;
    capable = missing_lem.0 h.2;
    egress_approved = ground arith;
    classified = ground arith;
    affordable = ground arith;
    tolerable = ground arith;
    mode_allowed = (modes_lem request.allowed_modes).0 h.7;
    sampled = sampled_lem.0 h.8;
    independent = (review_lem.0 h.9).0;
    diverse = (review_lem.0 h.9).1;
  }

  all_pass : IsEligible request profile → AllPass
  unfolding AllPass
  all_pass e = (
    ground arith,
    ground arith,
    missing_lem.1 e.capable,
    ground arith,
    ground arith,
    ground arith,
    ground arith,
    (modes_lem request.allowed_modes).1 e.mode_allowed,
    sampled_lem.1 e.sampled,
    review_lem.1 (e.independent, e.diverse),
  )

  -- The router finds no reason against a profile exactly when the profile is eligible: enabled
  -- and healthy, capable of all that is required, within the approved egress, classification,
  -- cost, risk and modes, sampled often enough, and for a review not the producer, nor at HIGH or
  -- CRITICAL risk of the producer's family.
  pub rejection_reasons-eq-nil_iff :
      (rejection_reasons request profile ≡ []) ↔ IsEligible request profile
  rejection_reasons-eq-nil_iff = (λ h. eligible (to_AllPass h), λ e. of_AllPass (all_pass e))

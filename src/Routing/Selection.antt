-- ===== src/Routing/Selection.antt =====
-- routing.py: which provider `CapabilityRouter.route` selects, and when it selects none.
use mathlib.Core.List.{Memᴰ}
use eldridge.Prelude.{
  ◌≡◌, refl, ◌↔◌, String, true, false, List, [], ◌∷◌, none, some, arith, ◌⊎◌, inl, inr, Bool-cases,
}
use eldridge.Result.{ok}
use eldridge.Routing.Types.{ProviderProfile, RoutingRequest, RankedCandidate, RoutingDecision}
use eldridge.Routing.Floats.{FloatOps, IsOrdered}
use eldridge.Routing.Sort.{sort_by, All, All-sort_by, All-of-sort_by, head-sort_by}
use eldridge.Routing.Score.{score}
use eldridge.Routing.Eligibility.{IsEligible, rejection_reasons-eq-nil_iff}
use eldridge.Routing.{
  rejection_reasons, ranks_before, consider, first_id, decision_of, all_distinct, provider_ids,
  route,
}

List-cases {ℓ} :
    {A : Type ℓ} (xs : List A) → (xs ≡ []) ⊎ ((x : A) × (rest : List A) × (xs ≡ x ∷ rest))
List-cases [] = inl refl
List-cases (x ∷ xs) = inr (x, xs, refl)

module _ (fl : FloatOps) (request : RoutingRequest) where
  open fl use {Float, lt}

  -- A candidate is the score of an eligible profile among those given.
  abbrev Origin : List (ProviderProfile Float) → RankedCandidate Float → Type 0
  Origin all c =
      (p : ProviderProfile Float) × Memᴰ p all
      × (rejection_reasons request p ≡ [])
      × (c ≡ score fl request p)

  -- Not beaten by `b`.
  abbrev Holds : RankedCandidate Float → RankedCandidate Float → Type 0
  Holds a b = lt a.score b.score ≡ false

  ranked_of : List (ProviderProfile Float) → List (RankedCandidate Float)
  ranked_of ps = (consider fl request ps).0

  ranked_cons :
      (p : ProviderProfile Float) (ps : List (ProviderProfile Float))
      → ((rejection_reasons request p ≡ [])
          × (ranked_of (p ∷ ps) ≡ score fl request p ∷ ranked_of ps))
        ⊎ (((rejection_reasons request p ≡ []) → ⊥) × (ranked_of (p ∷ ps) ≡ ranked_of ps))
  unfolding consider ranked_of
  ranked_cons p ps = elim (List-cases (rejection_reasons request p)) [
    | inl e ↦ inl (e, rw (e, ranked_of, consider))
    | inr (r, rs, e) ↦ inr (λ h. cc, rw (e, ranked_of, consider))
  ]

  ranked-Origin :
      (all ps : List (ProviderProfile Float))
      → ((p : ProviderProfile Float) → Memᴰ p ps → Memᴰ p all)
      → All (Origin all) (ranked_of ps)
  ranked-Origin all [] sub = unfold consider ranked_of in tt
  ranked-Origin all (p ∷ ps) sub =
      let ih = ranked-Origin all ps (λ q m. sub q (Memᴰ.tail m)) in
      elim (ranked_cons p ps) [
        | inl h ↦ rw h.1 ((p, sub p (Memᴰ.head refl), h.0, refl), ih)
        | inr h ↦ rw h.1 ih
      ]

  eligible-ranked :
      (P : RankedCandidate Float → Type 0) (ps : List (ProviderProfile Float))
      → All P (ranked_of ps)
      → (q : ProviderProfile Float) → Memᴰ q ps
      → rejection_reasons request q ≡ []
      → P (score fl request q)
  eligible-ranked P [] h q m e = elim m [ ]
  eligible-ranked P (p ∷ ps) h q (Memᴰ.head x) e = elim (ranked_cons p ps) [
    | inl r ↦ let k : P (score fl request p) × All P (ranked_of ps) = rw r.1 at h in rw x k.0
    | inr r ↦ absurd (r.0 (rw x at e))
  ]
  eligible-ranked P (p ∷ ps) h q (Memᴰ.tail m) e = elim (ranked_cons p ps) [
    | inl r ↦
        let k : P (score fl request p) × All P (ranked_of ps) = rw r.1 at h in
        eligible-ranked P ps k.1 q m e
    | inr r ↦ eligible-ranked P ps (rw r.1 at h) q m e
  ]

  module _ (ordered : IsOrdered fl) where
    strict : (a b : RankedCandidate Float) → ranks_before fl a b ≡ true → Holds a b
    unfolding ranks_before
    strict a b h = ground (arith, ordered.asymmetric b.score a.score)

    loose : (a b : RankedCandidate Float) → ranks_before fl a b ≡ false → Holds b a
    unfolding ranks_before
    loose a b h = ground arith

    Holds-trans : (a b c : RankedCandidate Float) → Holds a b → Holds b c → Holds a c
    Holds-trans a b c h k = ordered.not_lt_trans a.score b.score c.score h k

    Holds-refl : (a : RankedCandidate Float) → Holds a a
    Holds-refl a = elim (Bool-cases (lt a.score a.score)) [
      | inl t ↦ ordered.asymmetric a.score a.score t
      | inr f ↦ f
    ]

    selected_id :
        (profiles : List (ProviderProfile Float)) (d : RoutingDecision Float)
        → route fl request profiles ≡ ok d
        → d.selected_provider_id ≡ first_id fl (sort_by (ranks_before fl) (ranked_of profiles))
    unfolding route decision_of ranked_of
    selected_id profiles d r = elim (Bool-cases (all_distinct (provider_ids profiles))) [
      | inl u ↦ ground arith
      | inr u ↦ ground arith
    ]

    id-score : (p : ProviderProfile Float) → (score fl request p).provider_id ≡ p.provider_id
    unfolding score
    id-score p = refl

    leader :
        (profiles : List (ProviderProfile Float)) (h : RankedCandidate Float)
        (rest : List (RankedCandidate Float))
        → sort_by (ranks_before fl) (ranked_of profiles) ≡ h ∷ rest
        → Origin profiles h
          × ((q : ProviderProfile Float)
              → Memᴰ q profiles
              → IsEligible request q
              → Holds h (score fl request q))
    leader profiles h rest e =
        let origins : All (Origin profiles) (h ∷ rest) = rw e at (
          All-sort_by (ranks_before fl) (Origin profiles) (ranked_of profiles)
            (ranked-Origin profiles profiles (λ p m. m))) in
        let led =
          head-sort_by (ranks_before fl) Holds strict loose Holds-refl Holds-trans
            (ranked_of profiles) h rest e in
        (
          origins.0,
          λ q m i.
              eligible-ranked (Holds h) profiles led q m
                ((rejection_reasons-eq-nil_iff request q).1 i),
        )

    none_eligible :
        (profiles : List (ProviderProfile Float))
        → sort_by (ranks_before fl) (ranked_of profiles) ≡ []
        → (q : ProviderProfile Float) → Memᴰ q profiles
        → ¬ IsEligible request q
    none_eligible profiles e q m i =
        eligible-ranked (λ c. ⊥) profiles
          (All-of-sort_by (ranks_before fl) (λ c. ⊥) (ranked_of profiles) (rw e tt)) q m
          ((rejection_reasons-eq-nil_iff request q).1 i)

    -- Where `<` orders the floats (`IsOrdered`): if `route` returns a decision that selects a
    -- provider, it is an eligible one among the given profiles, and no eligible profile scores
    -- higher.
    pub route-selected :
        (profiles : List (ProviderProfile Float)) (d : RoutingDecision Float) (id : String)
        → route fl request profiles ≡ ok d
        → d.selected_provider_id ≡ some id
        → (p : ProviderProfile Float) × Memᴰ p profiles
          × (p.provider_id ≡ id)
          × IsEligible request p
          × ((q : ProviderProfile Float)
              → Memᴰ q profiles
              → IsEligible request q
              → lt (score fl request p).score (score fl request q).score ≡ false)
    unfolding first_id
    route-selected profiles d id r s =
        elim (List-cases (sort_by (ranks_before fl) (ranked_of profiles))) [
          | inl e ↦
              let n : d.selected_provider_id ≡ none = rw e at (selected_id profiles d r) in
              absurd (cc (n, s))
          | inr (h, rest, e) ↦
              let n : d.selected_provider_id ≡ some h.provider_id =
                rw e at (selected_id profiles d r) in
              let ((p, m, nothing, made), best) = leader profiles h rest e in
              (
                p,
                m,
                cc (n, s, made, id-score p),
                (rejection_reasons-eq-nil_iff request p).0 nothing,
                λ q mq i. rw made at (best q mq i),
              )
        ]

    -- Where `<` orders the floats (`IsOrdered`): a decision that `route` returns selects no
    -- provider exactly when no given profile is eligible.
    pub route-blocked_iff :
        (profiles : List (ProviderProfile Float)) (d : RoutingDecision Float)
        → route fl request profiles ≡ ok d
        → (d.selected_provider_id ≡ none)
          ↔ ((q : ProviderProfile Float) → Memᴰ q profiles → ¬ IsEligible request q)
    unfolding first_id
    route-blocked_iff profiles d r =
        elim (List-cases (sort_by (ranks_before fl) (ranked_of profiles))) [
          | inl e ↦
              let n : d.selected_provider_id ≡ none = rw e at (selected_id profiles d r) in
              (λ _ q m i. none_eligible profiles e q m i, λ _. n)
          | inr (h, rest, e) ↦
              let n : d.selected_provider_id ≡ some h.provider_id =
                rw e at (selected_id profiles d r) in
              let ((p, m, nothing, made), best) = leader profiles h rest e in
              (
                λ s. absurd (cc (n, s)),
                λ f. absurd (f p m ((rejection_reasons-eq-nil_iff request p).0 nothing)),
              )
        ]

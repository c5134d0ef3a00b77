-- ===== src/Learning.antt =====
-- learning.py (src/control_plane/learning.py): `ProviderEvidenceStore`, which builds the routing
-- evidence of a profile from the newest observations.
use eldridge.Prelude.{
  ℕ, zero, suc, ◌-◌, Bool, ◌&&◌, List, [], ◌∷◌, ◌++◌, map, Option, ◌==◌, string_eq, ltb,
  if◌then◌else◌,
}
use eldridge.Routing.Types.{
  WorkCapability, WorkCapability-discrete, work_capability_eq, CapabilityEvidence, ProviderProfile,
}
use eldridge.Routing.Floats.{FloatOps, mean}
use eldridge.Routing.Sort.{sort_by}
use eldridge.Routing.Score.{no_evidence}
use eldridge.Persistence.{
  Session, ProviderObservation, EvaluationObservation, select, length, get_elem?,
}

-- `(item.created_at, item.latency_ms, item.succeeded, item.validation_passed)`
pub record Sample : Type 0 where
  pub created_at : ℕ
  pub latency_ms : ℕ
  pub succeeded : Bool
  pub validation_passed : Bool

take : {A : Type 0} → ℕ → List A → List A
take zero xs = []
take (suc n) [] = []
take (suc n) (x ∷ xs) = x ∷ take n xs

-- `sorted(..., reverse=True)` and `order_by(created_at.desc())`
newer : Sample → Sample → Bool
newer a b = ltb b.created_at a.created_at

task_sample : ProviderObservation → Sample
task_sample o = record {
  created_at = o.created_at;
  latency_ms = o.latency_ms;
  succeeded = o.succeeded;
  validation_passed = o.validation_passed;
}

evaluation_sample : EvaluationObservation → Sample
evaluation_sample o = record {
  created_at = o.created_at;
  latency_ms = o.latency_ms;
  succeeded = o.succeeded;
  validation_passed = o.validation_passed;
}

newest : ℕ → List Sample → List Sample
unfolding take newer
newest window xs = take window (sort_by newer xs)

module _ (fl : FloatOps) where
  open fl use {Float, of_ratio, mul, div, ceil, lt}

  share : List Bool → Float
  unfolding mean
  share bs = mean fl (map (λ b. if b then of_ratio 1 1 else of_ratio 0 1) bs)

  latency_at : ℕ → List Float → Option Float
  latency_at i xs = get_elem? xs i

  -- `CapabilityEvidence(...)` of the samples of the window
  unfoldable pub evidence_of : List Sample → CapabilityEvidence Float
  unfolding share latency_at no_evidence
  evidence_of [] = no_evidence fl
  evidence_of (x ∷ xs) =
      let n = length (x ∷ xs) in
      record {
        sample_count = n;
        success_rate = share (map (λ i. i.succeeded) (x ∷ xs));
        validation_pass_rate = share (map (λ i. i.validation_passed) (x ∷ xs));
        p95_latency_seconds =
            latency_at (ceil (mul (of_ratio 95 100) (of_ratio n 1)) - 1)
              (sort_by lt (map (λ i. div (of_ratio i.latency_ms 1) (of_ratio 1000 1)) (x ∷ xs)));
      }

  module _ (window : ℕ) (s : Session) (profile : ProviderProfile Float) where
    task_observations : WorkCapability → List ProviderObservation
    unfolding WorkCapability-discrete
    task_observations capability =
        select
          (λ o.
            o.provider_id == profile.provider_id
            && (o.model_version == profile.model_version
                && (o.profile_version == profile.profile_version
                    && o.work_capability == capability)))
          s.observations

    evaluation_observations : WorkCapability → List EvaluationObservation
    unfolding WorkCapability-discrete
    evaluation_observations capability =
        select
          (λ o.
            o.provider_id == profile.provider_id
            && (o.model_version == profile.model_version
                && (o.profile_version == profile.profile_version
                    && o.work_capability == capability)))
          s.evaluation_observations

    -- `_evidence_for`
    evidence_for : WorkCapability → CapabilityEvidence Float
    unfolding evidence_of newest task_sample evaluation_sample task_observations
        evaluation_observations
    evidence_for capability = evidence_of (
        newest window (
          newest window (map task_sample (task_observations capability))
          ++ newest window (map evaluation_sample (evaluation_observations capability))))

    -- `_hydrate_profile`
    unfoldable pub hydrate_profile : ProviderProfile Float
    unfolding evidence_for
    hydrate_profile = record profile {
      evidence = map (λ c. (c, evidence_for c)) profile.capabilities;
    }

  -- `hydrate_profiles`
  unfoldable pub hydrate_profiles :
      ℕ → Session → List (ProviderProfile Float) → List (ProviderProfile Float)
  unfolding hydrate_profile
  hydrate_profiles window s = map (hydrate_profile window s)

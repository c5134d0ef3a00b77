-- ===== src/Platform/Entries.antt =====
-- service.py: which operations take a workflow into the states from APPROVED on.
use eldridge.Prelude.{
  ℕ, ◌≡◌, refl, Bool, true, false, ◌&&◌, negate, some, List, [], ◌∷◌, ◌==◌, arith, Bool-cases, inl,
  inr,
}
use eldridge.Domain.{WorkflowState, workflow_state_eq}
use eldridge.Persistence.{Session, Workflow, get_elem?}
use eldridge.Env.{Env}
use eldridge.Tasks.Frames.{is_reserved}
use eldridge.Tasks.History.Entries.{entry_support}
use eldridge.Platform.Service.{
  PlatformOperation, Platform, PlatformCall, enters, at_platform, run_platform,
}
use eldridge.Platform.History.{AllReach, run_platform-Rel}

-- No call of a list enters the state.
unfoldable pub none_enters : WorkflowState → List PlatformCall → Bool
none_enters t [] = true
none_enters t (c ∷ cs) = let rest = none_enters t cs in negate (enters c.operation t) && rest

module _ (t : WorkflowState) (reserved : is_reserved t ≡ true) where
  other_state : (u : WorkflowState) → is_reserved u ≡ false → (u == t) ≡ false
  other_state u open_state = elim (Bool-cases (u == t)) [
    | inl same ↦ let e : u ≡ t = (workflow_state_eq.equals_iff u t).0 same in absurd (cc)
    | inr other ↦ other
  ]

  not_entered :
      (o : PlatformOperation) (u : WorkflowState)
      → enters o t ≡ false
      → enters o u ≡ true
      → (u == t) ≡ false
  not_entered o u silent h = elim (Bool-cases (u == t)) [
    | inl same ↦
        let e : u ≡ t = (workflow_state_eq.equals_iff u t).0 same in
        let h' : enters o t ≡ true = rw (← e) h in absurd (cc)
    | inr other ↦ other
  ]

  AllReach-none :
      (cs : List PlatformCall) → none_enters t cs ≡ true → AllReach (λ u. (u == t) ≡ false) cs
  unfolding none_enters
  AllReach-none [] h = tt
  AllReach-none (c ∷ cs) h =
      ((λ u. not_entered c.operation u (ground arith)), AllReach-none cs (ground arith))

-- Of the states APPROVED, MERGED, AWAITING_DEPLOYMENT_APPROVAL, DEPLOYED, ROLLBACK_REQUIRED and
-- ROLLED_BACK, a workflow is in one after a sequence of the platform's transactions only if it was
-- in it before, or if one of the transactions is of the kind that `enters` names for that state:
-- an approval with the decision APPROVED; a completed merge confirmation; a new deployment plan; a
-- finished local deployment whose run was verified and not simulated; one whose run was not, or a
-- dry run that changed something, was not simulated or failed its verification, or a failure
-- reported as ROLLBACK_REQUIRED; a finished rollback whose run was verified and not simulated.
pub reserved_state_needs_entry :
    (env : Env) (p : Platform) (cs : List PlatformCall) (s : Session) (wid : ℕ) (w : Workflow)
    (t : WorkflowState)
    → is_reserved t ≡ true
    → none_enters t cs ≡ true
    → get_elem? (run_platform env p cs s).workflows wid ≡ some w
    → w.state ≡ t
    → (v : Workflow) × (get_elem? s.workflows wid ≡ some v) × (v.state ≡ t)
reserved_state_needs_entry env p cs s wid w t reserved silent found e =
    let starts_out : (WorkflowState.created == t) ≡ false =
      other_state t reserved WorkflowState.created (unfold is_reserved in refl) in
    let (v, before, h) =
      run_platform-Rel env (λ c. entry_support (at_platform env c) (λ u. u == t) starts_out)
        (other_state t reserved) p cs (AllReach-none t reserved cs silent) s wid w found
        ((workflow_state_eq.equals_iff w.state t).1 e) in
    (v, before, (workflow_state_eq.equals_iff v.state t).0 h)

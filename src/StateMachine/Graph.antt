-- ===== src/StateMachine/Graph.antt =====
-- The transitions of state_machine.py as a graph, and what every walk through it passes.
use eldridge.Prelude.{
  ℕ, ◌+◌, ◌≤◌, ◌<◌, ◌≡◌, refl, Bool, true, false, ◌||◌, List, [], ◌∷◌, arith, ◌==◌, contains,
  nat_eq, nat_beq_iff, Bool-cases, inl, inr, leb, leb→le,
}
use eldridge.Domain.{WorkflowState, workflow_state_eq}
use eldridge.Result.{ok}
use eldridge.StateMachine.{assert_transition_allowed}

-- A walk from `s`: each step is one that `assert_transition_allowed` lets through.
pub data Walk (s : WorkflowState) : WorkflowState → Type 0 where
  here : Walk s s
  step :
      {t : WorkflowState} (u : WorkflowState)
      → Walk s t
      → assert_transition_allowed t u ≡ ok tt
      → Walk s u

-- The states after the first that a walk enters.
unfoldable pub entered : {s t : WorkflowState} → Walk s t → List WorkflowState
entered here = []
entered (step u w h) = u ∷ entered w

-- How many of the gates (final review, human approval, merge, deployment approval) lie behind.
level : WorkflowState → ℕ
level WorkflowState.code_review = 1
level WorkflowState.awaiting_human_approval = 2
level WorkflowState.approved = 3
level WorkflowState.merged = 4
level WorkflowState.awaiting_deployment_approval = 5
level WorkflowState.deployed = 6
level WorkflowState.rollback_required = 6
level WorkflowState.rolled_back = 6
level _ = 0

level-step : (t u : WorkflowState) → assert_transition_allowed t u ≡ ok tt → level u ≤ level t + 1
unfolding level assert_transition_allowed
level-step t u h = ground arith

-- Some state of the list has the level.
has_level : ℕ → List WorkflowState → Bool
has_level k [] = false
has_level k (u ∷ us) = (k == level u) || has_level k us

climbs :
    {t : WorkflowState} (k : ℕ) (w : Walk WorkflowState.created t)
    → 0 < k
    → k ≤ level t
    → has_level k (entered w) ≡ true
unfolding has_level entered
climbs k here p h = unfold level in absurd (omega arith)
climbs k (step {t} u w a) p h = elim (Bool-cases (leb k (level t))) [
  | inl below ↦ ground (arith, climbs k w p (leb→le _ _ below))
  | inr above ↦ ground (arith, level-step t u a)
]

at_gate :
    (g : WorkflowState) (k : ℕ) (us : List WorkflowState)
    → ((u : WorkflowState) → k ≡ level u → g ≡ u)
    → has_level k us ≡ true
    → contains g us ≡ true
unfolding has_level
at_gate g k [] f h = cc
at_gate g k (u ∷ us) f h = elim (Bool-cases (k == level u)) [
  | inl e ↦ ground (arith, f u ((nat_beq_iff k (level u)).0 e), workflow_state_eq.equals_iff g u)
  | inr e ↦ ground (arith, at_gate g k us f (ground arith))
]

-- Every walk of permitted transitions from CREATED to DEPLOYED enters CODE_REVIEW,
-- AWAITING_HUMAN_APPROVAL, APPROVED, MERGED and AWAITING_DEPLOYMENT_APPROVAL on the way.
pub deployed_passes_gates :
    (w : Walk WorkflowState.created WorkflowState.deployed)
    → (contains WorkflowState.code_review (entered w) ≡ true)
      × (contains WorkflowState.awaiting_human_approval (entered w) ≡ true)
      × (contains WorkflowState.approved (entered w) ≡ true)
      × (contains WorkflowState.merged (entered w) ≡ true)
      × (contains WorkflowState.awaiting_deployment_approval (entered w) ≡ true)
unfolding level
deployed_passes_gates w = (
  at_gate _ 1 (entered w) (λ u e. ground arith) (climbs 1 w (omega arith) (omega arith)),
  at_gate _ 2 (entered w) (λ u e. ground arith) (climbs 2 w (omega arith) (omega arith)),
  at_gate _ 3 (entered w) (λ u e. ground arith) (climbs 3 w (omega arith) (omega arith)),
  at_gate _ 4 (entered w) (λ u e. ground arith) (climbs 4 w (omega arith) (omega arith)),
  at_gate _ 5 (entered w) (λ u e. ground arith) (climbs 5 w (omega arith) (omega arith)),
)

-- FAILED, REJECTED, CANCELLED and ROLLED_BACK have no way out.
abbrev pub is_terminal : WorkflowState → Bool
is_terminal WorkflowState.failed = true
is_terminal WorkflowState.rejected = true
is_terminal WorkflowState.cancelled = true
is_terminal WorkflowState.rolled_back = true
is_terminal _ = false

pub no_step :
    (t u : WorkflowState) → is_terminal t ≡ true → assert_transition_allowed t u ≡ ok tt → ⊥
unfolding assert_transition_allowed
no_step t u h a = ground arith

pub terminal_walk : {s t : WorkflowState} → is_terminal s ≡ true → Walk s t → t ≡ s
terminal_walk h here = refl
terminal_walk {s} h (step {t} u w a) = absurd (no_step t u (ground (arith, terminal_walk h w)) a)

-- A state that is not terminal permits a transition.
abbrev way_out : WorkflowState → WorkflowState
way_out WorkflowState.approved_for_implementation = WorkflowState.cancelled
way_out WorkflowState.merged = WorkflowState.awaiting_deployment_approval
way_out WorkflowState.awaiting_deployment_approval = WorkflowState.rejected
way_out WorkflowState.deployed = WorkflowState.rollback_required
way_out WorkflowState.rollback_required = WorkflowState.rolled_back
way_out _ = WorkflowState.cancelled

-- Exactly FAILED, REJECTED, CANCELLED and ROLLED_BACK are final: a walk that begins in one of
-- them ends where it began, and every other state permits some transition.
pub final_iff :
    (s : WorkflowState)
    → (is_terminal s ≡ true → (t : WorkflowState) → Walk s t → t ≡ s)
      × (is_terminal s ≡ false → (u : WorkflowState) × (assert_transition_allowed s u ≡ ok tt))
unfolding assert_transition_allowed
final_iff s = (λ h t w. terminal_walk h w, λ h. (way_out s, ground arith))

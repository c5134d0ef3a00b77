-- ===== src/StateMachine.antt =====
-- state_machine.py (src/control_plane/state_machine.py): the transitions that a workflow may make.
pub mod Graph
use eldridge.Prelude.{List, [], ◌∷◌, contains, if◌then◌else◌}
use eldridge.Domain.{WorkflowState, WorkflowState-discrete, workflow_state_eq, Error}
use eldridge.Result.{Result, ok, err}

-- `ALLOWED_TRANSITIONS`
unfoldable pub allowed_transitions : WorkflowState → List WorkflowState
allowed_transitions WorkflowState.created =
    WorkflowState.planning ∷ WorkflowState.blocked ∷ WorkflowState.cancelled ∷ []
allowed_transitions WorkflowState.planning =
    WorkflowState.architecture_review ∷ WorkflowState.blocked ∷ WorkflowState.failed
    ∷ WorkflowState.cancelled ∷ []
allowed_transitions WorkflowState.architecture_review =
    WorkflowState.approved_for_implementation ∷ WorkflowState.blocked ∷ WorkflowState.failed
    ∷ WorkflowState.cancelled ∷ []
allowed_transitions WorkflowState.approved_for_implementation =
    WorkflowState.implementing ∷ WorkflowState.cancelled ∷ []
allowed_transitions WorkflowState.implementing =
    WorkflowState.testing ∷ WorkflowState.blocked ∷ WorkflowState.failed ∷ WorkflowState.cancelled
    ∷ []
allowed_transitions WorkflowState.testing =
    WorkflowState.security_review ∷ WorkflowState.implementing ∷ WorkflowState.blocked
    ∷ WorkflowState.failed ∷ WorkflowState.cancelled ∷ []
allowed_transitions WorkflowState.security_review =
    WorkflowState.code_review ∷ WorkflowState.implementing ∷ WorkflowState.blocked
    ∷ WorkflowState.failed ∷ WorkflowState.cancelled ∷ []
allowed_transitions WorkflowState.code_review =
    WorkflowState.awaiting_human_approval ∷ WorkflowState.implementing ∷ WorkflowState.blocked
    ∷ WorkflowState.failed ∷ WorkflowState.cancelled ∷ []
allowed_transitions WorkflowState.awaiting_human_approval =
    WorkflowState.approved ∷ WorkflowState.rejected ∷ WorkflowState.cancelled ∷ []
allowed_transitions WorkflowState.approved = WorkflowState.merged ∷ WorkflowState.cancelled ∷ []
allowed_transitions WorkflowState.merged = WorkflowState.awaiting_deployment_approval ∷ []
allowed_transitions WorkflowState.awaiting_deployment_approval =
    WorkflowState.deployed ∷ WorkflowState.rejected ∷ WorkflowState.rollback_required ∷ []
allowed_transitions WorkflowState.blocked =
    WorkflowState.planning ∷ WorkflowState.architecture_review ∷ WorkflowState.implementing
    ∷ WorkflowState.testing ∷ WorkflowState.security_review ∷ WorkflowState.code_review
    ∷ WorkflowState.failed ∷ WorkflowState.rejected ∷ WorkflowState.cancelled ∷ []
allowed_transitions WorkflowState.deployed = WorkflowState.rollback_required ∷ []
allowed_transitions WorkflowState.failed = []
allowed_transitions WorkflowState.rejected = []
allowed_transitions WorkflowState.cancelled = []
allowed_transitions WorkflowState.rollback_required = WorkflowState.rolled_back ∷ []
allowed_transitions WorkflowState.rolled_back = []

unfoldable pub assert_transition_allowed : WorkflowState → WorkflowState → Result (Unit {0})
unfolding allowed_transitions WorkflowState-discrete
assert_transition_allowed current target =
    if contains target (allowed_transitions current)
    then ok tt
    else err Error.invalid_transition_error

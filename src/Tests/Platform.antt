-- ===== src/Tests/Platform.antt =====
-- Runs of the three services together, as service.py composes them.
use eldridge.Prelude.{◌≡◌, refl, ℕ, ◌+◌, true, false, List, [], ◌∷◌, Option, none, some}
use eldridge.Domain.{
  WorkflowState, role_capabilities, Capability-discrete, PrincipalType-discrete,
  WorkflowState-discrete,
}
use eldridge.Routing.Sort.{sort_by, insert_sorted}
use eldridge.Persistence.Json.{fields, join}
use eldridge.Persistence.{Workflow, get_elem?, modify, select, select_first, append_row}
use eldridge.Env.{digest}
use eldridge.Tx.{commit, ◌>>=◌, gets, pure, raise}
use eldridge.Audit.{append_audit_event, events_of, latest, chained_event, check_from}
use eldridge.Policy.{
  authorize, decide, find_principal, is_task_scoped, needs_no_scope, active_grant,
}
use eldridge.Tasks.Store.{get_workflow}
use eldridge.Tasks.Human.{is_some}
use eldridge.StateMachine.Graph.{Walk}
use eldridge.Audit.Chain.{IsSound}
use eldridge.Tasks.Frames.{is_reserved}
use eldridge.Tasks.History.Walks.{walk_length}
use eldridge.Git.Store.{set_confirmation}
use eldridge.Git.Merges.{mark_failed, mark_merge_confirmation_failed}
use eldridge.Platform.Service.{
  GitOperation, DeploymentOperation, PlatformOperation, Platform, PlatformCall,
  platform_transaction, git_transaction, run_platform, enters, git_enters,
}
use eldridge.Platform.History.{platform_follows_transitions, platform_keeps_chains}
use eldridge.Platform.Entries.{none_enters, reserved_state_needs_entry}
use eldridge.Platform.Approvals.{consumed_as, approvals_are_kept}
use eldridge.Tests.Data.{noon}
use eldridge.Tests.Data.Releases.{
  app, local_deployments, confirming, answer, in_state, releasable, deploy_approval,
}
use eldridge.Tests.Service.{service}

abbrev pub platform : Platform
platform = record { tasks = service; github_app = some app; deployments = local_deployments }

-- The confirmed merge of `confirming`.
abbrev merges : List PlatformCall
merges =
    record {
      now = 1000;
      task_locked = λ i. false;
      operation = PlatformOperation.on_git (GitOperation.confirmed 0 answer);
    }
    ∷ []

abbrev approved : Workflow
approved = record (in_state WorkflowState.approved) {
  version = 10;
  repository_scope = none;
  merged_revision = none;
}

platform_follows_transitions_example :
    (w' : Workflow) × (get_elem? (run_platform noon platform merges confirming).workflows 0
      ≡ some w')
    × (walk : Walk WorkflowState.approved w'.state) × (w'.version ≡ 10 + walk_length walk)
unfolding get_elem?
platform_follows_transitions_example =
    platform_follows_transitions noon platform merges confirming 0 approved refl

no_events : IsSound noon []
unfolding check_from events_of sort_by select
no_events = λ wid. refl

platform_keeps_chains_example :
    IsSound noon (run_platform noon platform merges confirming).audit_events
platform_keeps_chains_example = platform_keeps_chains noon platform merges confirming no_events

-- A local deployment starts.
abbrev deploys : List PlatformCall
deploys =
    record {
      now = 1000;
      task_locked = λ i. false;
      operation = PlatformOperation.on_deployment (
          DeploymentOperation.deploy (record {
            workflow_id = 0;
            plan_id = 0;
            actor_id = "approver";
            idempotency_key = "d";
          }));
    }
    ∷ []

approvals_are_kept_example :
    (c : Option ℕ) × (get_elem? (run_platform noon platform deploys releasable).approvals 0
      ≡ some (consumed_as c deploy_approval))
    × (is_some deploy_approval.consumed_at ≡ true → is_some c ≡ true)
unfolding get_elem?
approvals_are_kept_example =
    approvals_are_kept noon platform deploys releasable 0 deploy_approval refl

-- A report that a merge was not confirmed.
abbrev reports : List PlatformCall
reports =
    record {
      now = 1000;
      task_locked = λ i. false;
      operation = PlatformOperation.on_git (GitOperation.confirmation_failed 0 "timeout");
    }
    ∷ []

reports-lem : get_elem? (run_platform noon platform reports confirming).workflows 0 ≡ some approved
unfolding authorize decide select_first ◌>>=◌ get_workflow get_elem? append_audit_event commit
    role_capabilities Capability-discrete PrincipalType-discrete WorkflowState-discrete fields join
    digest append_row modify select find_principal is_task_scoped needs_no_scope insert_sorted
    sort_by gets pure raise chained_event events_of latest active_grant run_platform
    platform_transaction git_transaction mark_merge_confirmation_failed mark_failed set_confirmation
reports-lem = refl

reserved_state_needs_entry_example :
    (v : Workflow) × (get_elem? confirming.workflows 0 ≡ some v)
    × (v.state ≡ WorkflowState.approved)
unfolding is_reserved none_enters enters git_enters
reserved_state_needs_entry_example =
    reserved_state_needs_entry noon platform reports confirming 0 approved WorkflowState.approved
      refl refl reports-lem refl

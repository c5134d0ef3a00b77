-- ===== src/Deployment/DryRun.antt =====
-- deployment.py: a dry run of the adapter.
use eldridge.Prelude.{true, false, ◌≡◌, option_eq}
use eldridge.Result.{Result}
use eldridge.Env.{Env}
use eldridge.Deployment.Types.{DeploymentAttemptStatus, DeploymentPlan, CredentialedRun}
use eldridge.Deployment.Outcomes.{dry_run_status}

-- What the run of a valid plan shows.
abbrev pub IsHarmless : DeploymentPlan → CredentialedRun → Type 0
IsHarmless plan run =
    (run.execution.changed ≡ false)
    × (run.execution.simulated ≡ true)
    × (run.verification.observed_revision ≡ plan.revision)
    × (dry_run_status run ≡ DeploymentAttemptStatus.succeeded)

-- ===== src/Lib.antt =====
-- Eldridge's control plane: a model of the services that decide, and what they guarantee.
--
-- The control plane runs engineering workflows through agents: a request becomes a workflow, each
-- step a task that a worker leases, routes to a model provider and finalizes; a state machine, a
-- policy engine, an audit chain and human decisions bound what may happen. The files, by the
-- Python module under src/control_plane/ that they are about:
--   Domain            domain.py: enumerations, roles, capabilities, exceptions
--   StateMachine      state_machine.py: ALLOWED_TRANSITIONS, assert_transition_allowed
--   Policy            policy.py: PolicyEngine.authorize
--   Audit             audit.py: append_audit_event, verify_audit_chain, audit_count
--   Learning          learning.py: ProviderEvidenceStore
--   Routing           routing.py: CapabilityRouter
--   Strategy          task_strategy.py: TaskStrategyPlanner
--   Persistence       persistence.py: the rows that these services use, and the session
--   Tasks             workflow_tasks.py: WorkflowTaskService, a module for each group of methods
--                     (Intake, Leasing, Preparation, Execution, Human, Approvals; Steps and Store
--                     for what they share; Service for runs of transactions in any order)
--   Git               git_pull_requests.py: GitPullRequestService, a module for each kind of record
--                     (Checks, Proposals, Readiness, Merges)
--   Deployment        deployment.py, deployment_recovery.py: DeploymentRecoveryService
--                     (Environments, Plans, Attempts, Outcomes, Rollbacks) and its dry-run adapter
--   Credentials       credentials.py: the brokers and the broker factory
--   Platform          service.py: the transactions of the task, pull request and deployment services
--                     in any order, which is how its methods compose them
--   Result, Tx, Env   exceptions as values, one transaction on a session, the world outside
--   Tests             runs at concrete data
--
-- A function keeps its Python name, without a leading underscore. A method that opens a session is
-- a transaction: it takes the session and returns either a result with the new session or the
-- class of the exception, which rolls back. A record is a row, a list a table; Tx.Frame says what
-- every transaction that is put together from given steps does; Tasks.Frames, Git.Frames and
-- Deployment.Frames go through all of theirs once, for any such statement, and Tasks.History and
-- the modules of Platform instantiate it. Platform.Terms says what an approval that is used says.
--
-- An operation that calls GitHub or a deployment's target does so between two transactions. Its
-- first one answers with Begun: an earlier answer is replayed, or a new row is started. What was
-- called answers anything at all, as an argument of the second transaction, or fails, which is a
-- transaction of its own (mark_..., fail_...). An operation that commits and then raises answers
-- with a Result.
--
-- Choices. The key of a row is its position in the table, in place of a random UUID; a lease token
-- is the next number of a counter, so it is fresh. Timestamps are numbers of seconds, in payloads
-- too; one operation reads the clock once. Exceptions are their class, without the message.
-- A frozenset is a list of its members, a dict a list of its items. Loops are structural
-- recursion over lists, so nothing needs fuel.
--
-- Outside the repository, and so parameters: the clock, json.dumps, sha256 and str.strip (Env); the
-- rows that other transactions hold locked (task_locked); Python's floats (Routing.Floats.FloatOps,
-- with the order of its `<` as the hypothesis IsOrdered); what a provider's health() answers (a
-- field of Binding); and what a provider and an executor answer (arguments of the finalizers).
-- The two finalizers and the preparation are the transactions of execute_leased_task; what it does
-- between them is only such calls.
-- So are GitHub's policy (GitHubApp), a deployment's adapters (DeploymentAdapter) but for the
-- dry-run one, the token service and the decoding of tokens (TokenService), and Python's repr.
-- Numbers in the claims of a token are not negative.
--
-- Not modelled: the dictionaries that methods return for display (_task_dict, _workflow_dict,
-- _approval_dict and their like; the key of the row stands for them), and the methods that only list
-- rows; request_json and the scores of a routing record, which keeps the order of the candidates;
-- range checks in the constructors of routing.py and its two tables of built-in profiles; the HTTP
-- client of GitHub, and what kubectl and opentofu do; and the other services (evaluation,
-- integrations, identity, workspaces) with their tables, the HTTP and command-line surfaces and the
-- provider adapters.
pub mod Prelude
pub mod Domain
pub mod Result
pub mod StateMachine
pub mod Routing
pub mod Strategy
pub mod Persistence
pub mod Env
pub mod Tx
pub mod Audit
pub mod Policy
pub mod Tasks
pub mod Learning
pub mod Git
pub mod Deployment
pub mod Credentials
pub mod Platform
pub mod Tests

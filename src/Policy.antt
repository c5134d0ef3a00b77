-- ===== src/Policy.antt =====
-- policy.py (src/control_plane/policy.py): `PolicyEngine.authorize`.
pub mod Decision
use eldridge.Prelude.{
  ℕ, String, Bool, true, false, ◌&&◌, ◌||◌, negate, List, [], ◌∷◌, Option, none, some, Eq, ◌==◌,
  ◌!=◌, nat_eq, string_eq, contains, leb, if◌then◌else◌,
}
use eldridge.Domain.{
  PrincipalType, PrincipalType-discrete, principal_type_eq, Capability, Capability-discrete,
  capability_eq, role_capabilities, Error,
}
use eldridge.Result.{Result, ok, err, ◌>>=◌, ◌>>◌, raise_if}
use eldridge.Persistence.{Principal, CapabilityGrant, Session, select_first}
use eldridge.Env.{Env}
use eldridge.Tx.{Tx}

-- The keyword arguments `workflow_id` and `task_id`.
pub record Scope : Type 0 where
  pub workflow_id : Option ℕ
  pub task_id : Option ℕ

abbrev pub unscoped : Scope
unscoped = record { workflow_id = none; task_id = none }

abbrev pub scoped : ℕ → ℕ → Scope
scoped wid tid = record { workflow_id = some wid; task_id = some tid }

-- `session.get(Principal, principal_id)`
unfoldable pub find_principal : String → List Principal → Option Principal
find_principal id = select_first (λ p. p.id == id)

unfoldable pub is_task_scoped : PrincipalType → Bool
is_task_scoped PrincipalType.agent = true
is_task_scoped PrincipalType.integration = true
is_task_scoped _ = false

unfoldable pub needs_no_scope : Capability → Bool
needs_no_scope Capability.claim_ide_task = true
needs_no_scope Capability.submit_ci_evidence = true
needs_no_scope _ = false

-- The active grant of a principal for a task, if there is one.
unfoldable pub active_grant : String → ℕ → ℕ → List CapabilityGrant → Option CapabilityGrant
active_grant id wid tid =
    select_first
      (λ g. g.principal_id == id && (g.workflow_id == wid && (g.task_id == tid && g.active)))

check_grant : Env → Capability → Option CapabilityGrant → Result (Unit {0})
unfolding Capability-discrete
check_grant env capability none = err Error.authorization_error
check_grant env capability (some g) =
    raise_if (leb g.expires_at env.now) Error.authorization_error
    >> raise_if (negate (contains capability g.capabilities)) Error.authorization_error

check_scope : Env → String → Capability → Scope → List CapabilityGrant → Result (Unit {0})
unfolding check_grant active_grant
check_scope env id capability scope grants = elim scope.workflow_id [
  | none ↦ err Error.authorization_error
  | some wid ↦ elim scope.task_id [
    | none ↦ err Error.authorization_error
    | some tid ↦ check_grant env capability (active_grant id wid tid grants)
  ]
]

check_principal :
    Env
    → String
    → Capability
    → Scope
    → Bool
    → List CapabilityGrant
    → Option Principal
    → Result Principal
unfolding check_scope is_task_scoped needs_no_scope role_capabilities PrincipalType-discrete
    Capability-discrete
check_principal env id capability scope require_human grants none = err Error.authorization_error
check_principal env id capability scope require_human grants (some p) = do
  raise_if (negate p.active) Error.authorization_error
  raise_if (require_human && p.principal_type != PrincipalType.human) Error.authorization_error
  raise_if (negate (contains capability (role_capabilities p.role))) Error.authorization_error
  (if is_task_scoped p.principal_type && negate (needs_no_scope capability)
      then check_scope env id capability scope grants
      else ok tt)
  ok p

unfoldable pub decide : Env → String → Capability → Scope → Bool → Session → Result Principal
unfolding check_principal find_principal
decide env id capability scope require_human s =
    check_principal env id capability scope require_human s.grants (find_principal id s.principals)

-- `PolicyEngine.authorize`
unfoldable pub authorize : Env → String → Capability → Scope → Bool → Tx Principal
authorize env id capability scope require_human s = do
  p ← decide env id capability scope require_human s
  ok (p, s)

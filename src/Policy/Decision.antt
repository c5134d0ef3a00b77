-- ===== src/Policy/Decision.antt =====
-- policy.py: exactly who is authorized.
use eldridge.Prelude.{
  ℕ, ◌<◌, ◌≡◌, ◌≢◌, ◌⊎◌, ◌↔◌, inl, inr, List, ◌==◌, nat_eq, string_eq, String, Bool, true, false,
  ◌&&◌, negate, Option, none, some, arith, ◌!=◌, contains, leb, if◌then◌else◌, Option-cases,
  Bool-cases,
}
use eldridge.Domain.{
  PrincipalType, principal_type_eq, Capability, capability_eq, role_capabilities, Error,
}
use eldridge.Result.{Result, ok, err, ◌>>=◌, raise_if}
use eldridge.Persistence.{
  Principal, CapabilityGrant, Session, IsFirst, select_first-IsFirst, IsFirst-select_first,
}
use eldridge.Env.{Env}
use eldridge.Policy.{
  Scope, find_principal, is_task_scoped, needs_no_scope, active_grant, check_grant, check_scope,
  check_principal, decide, authorize,
}

-- The first active grant of the table that names the principal, the workflow and the task has not
-- expired and lists the capability.
pub record HasGrant (env : Env) (id : String) (capability : Capability) (scope : Scope)
    (s : Session) : Type 0 where
  pub workflow_id : ℕ
  pub task_id : ℕ
  pub grant : CapabilityGrant
  pub names_workflow : scope.workflow_id ≡ some workflow_id
  pub names_task : scope.task_id ≡ some task_id
  pub key : ℕ
  pub first :
      IsFirst
        (λ g.
          g.principal_id == id
          && (g.workflow_id == workflow_id && (g.task_id == task_id && g.active)))
        s.grants
        key
        grant
  pub in_time : env.now < grant.expires_at
  pub listed : contains capability grant.capabilities ≡ true

pub record IsAuthorized (env : Env) (id : String) (capability : Capability) (scope : Scope)
    (require_human : Bool) (s : Session) (p : Principal) : Type 0 where
  pub key : ℕ
  pub found : IsFirst (λ q. q.id == id) s.principals key p
  pub active : p.active ≡ true
  pub human : require_human ≡ true → p.principal_type ≡ PrincipalType.human
  pub role_has : contains capability (role_capabilities p.role) ≡ true
  pub granted :
      (p.principal_type ≡ PrincipalType.agent) ⊎ (p.principal_type ≡ PrincipalType.integration)
      → capability ≢ Capability.claim_ide_task
      → capability ≢ Capability.submit_ci_evidence
      → HasGrant env id capability scope s

scoped_types :
    (t : PrincipalType)
    → (is_task_scoped t ≡ true) ↔ ((t ≡ PrincipalType.agent) ⊎ (t ≡ PrincipalType.integration))
unfolding is_task_scoped
scoped_types t = ground arith

bound_capabilities :
    (c : Capability)
    → (needs_no_scope c ≡ false)
      ↔ ((c ≢ Capability.claim_ide_task) × (c ≢ Capability.submit_ci_evidence))
unfolding needs_no_scope
bound_capabilities c = ground arith

active_grant-IsFirst :
    (id : String) (wid tid : ℕ) (gs : List CapabilityGrant) (g : CapabilityGrant)
    → active_grant id wid tid gs ≡ some g
    → (k : ℕ) × IsFirst
        (λ x. x.principal_id == id && (x.workflow_id == wid && (x.task_id == tid && x.active)))
        gs
        k
        g
unfolding active_grant
active_grant-IsFirst id wid tid gs g h = select_first-IsFirst _ gs g h

IsFirst-active_grant :
    (id : String) (wid tid : ℕ) (gs : List CapabilityGrant) (k : ℕ) (g : CapabilityGrant)
    → IsFirst
        (λ x. x.principal_id == id && (x.workflow_id == wid && (x.task_id == tid && x.active)))
        gs
        k
        g
    → active_grant id wid tid gs ≡ some g
unfolding active_grant
IsFirst-active_grant id wid tid gs k g h = IsFirst-select_first _ gs k g h

find_principal-IsFirst :
    (id : String) (ps : List Principal) (p : Principal)
    → find_principal id ps ≡ some p
    → (k : ℕ) × IsFirst (λ q. q.id == id) ps k p
unfolding find_principal
find_principal-IsFirst id ps p h = select_first-IsFirst _ ps p h

IsFirst-find_principal :
    (id : String) (ps : List Principal) (k : ℕ) (p : Principal)
    → IsFirst (λ q. q.id == id) ps k p
    → find_principal id ps ≡ some p
unfolding find_principal
IsFirst-find_principal id ps k p h = IsFirst-select_first _ ps k p h

-- The result is a value or an `AuthorizationError`.
abbrev OnlyRefuses : {A : Type 0} → Result A → Type 0
OnlyRefuses r = (e : Error) → r ≡ err e → e ≡ Error.authorization_error

raise_if_refuses : (b : Bool) → OnlyRefuses (raise_if b Error.authorization_error)
raise_if_refuses true e h = cc
raise_if_refuses false e h = absurd (cc h)

bind_refuses :
    {A B : Type 0} (m : Result A) (k : A → Result B)
    → OnlyRefuses m
    → ((a : A) → OnlyRefuses (k a))
    → OnlyRefuses (m >>= k)
bind_refuses (ok a) k hm hk e h = hk a e h
bind_refuses (err x) k hm hk e h = hm e (cc h)

if_refuses :
    (b : Bool) {A : Type 0} {m n : Result A}
    → OnlyRefuses m
    → OnlyRefuses n
    → OnlyRefuses (if b then m else n)
if_refuses true hm hn = hm
if_refuses false hm hn = hn

grant_refuses :
    (env : Env) (capability : Capability) (g : Option CapabilityGrant)
    → OnlyRefuses (check_grant env capability g)
unfolding check_grant
grant_refuses env capability none = λ e h. cc
grant_refuses env capability (some g) =
    bind_refuses _ _ (raise_if_refuses (leb g.expires_at env.now))
      (λ _. raise_if_refuses (negate (contains capability g.capabilities)))

scope_refuses :
    (env : Env) (id : String) (capability : Capability) (scope : Scope) (s : Session)
    → OnlyRefuses (check_scope env id capability scope s.grants)
unfolding check_scope
scope_refuses env id capability scope s = elim (Option-cases scope.workflow_id) [
  | inl w ↦ rw w (λ e h. cc)
  | inr (wid, w) ↦ elim (Option-cases scope.task_id) [
    | inl t ↦ rw (w, t) (λ e h. cc)
    | inr (tid, t) ↦ rw (w, t) (grant_refuses env capability (active_grant id wid tid s.grants))
  ]
]

module _ (env : Env) (id : String) (capability : Capability) (scope : Scope) (s : Session) where
  to_grant :
      check_scope env id capability scope s.grants ≡ ok tt → HasGrant env id capability scope s
  unfolding check_scope check_grant
  to_grant h = elim (Option-cases scope.workflow_id) [
    | inl none_given ↦ absurd (cc (rw none_given at h))
    | inr (wid, w) ↦ elim (Option-cases scope.task_id) [
      | inl none_given ↦ absurd (ground arith)
      | inr (tid, t) ↦ elim (Option-cases (active_grant id wid tid s.grants)) [
        | inl no_grant ↦ absurd (ground arith)
        | inr (g, e) ↦
            let (k, first) = active_grant-IsFirst id wid tid s.grants g e in
            record {
              workflow_id = wid;
              task_id = tid;
              grant = g;
              names_workflow = w;
              names_task = t;
              key = k;
              first = first;
              in_time = ground arith;
              listed = ground arith;
            }
      ]
    ]
  ]

  of_grant :
      HasGrant env id capability scope s → check_scope env id capability scope s.grants ≡ ok tt
  unfolding check_scope check_grant
  of_grant g =
      let chosen = IsFirst-active_grant id g.workflow_id g.task_id s.grants g.key g.grant g.first in
      ground (arith, chosen, g.names_workflow, g.names_task, g.in_time, g.listed)

  module _ (require_human : Bool) where
    to_authorized :
        (p : Principal)
        → decide env id capability scope require_human s ≡ ok p
        → IsAuthorized env id capability scope require_human s p
    unfolding decide check_principal
    to_authorized p h = elim (Option-cases (find_principal id s.principals)) [
      | inl none_found ↦ absurd (ground arith)
      | inr (q, e) ↦
          let b = principal_type_eq.equals_iff q.principal_type PrincipalType.human in
          let same : q ≡ p = ground arith in
          let (k, first) = find_principal-IsFirst id s.principals q e in
          rw (← same) (record {
            key = k;
            found = first;
            active = ground arith;
            human = λ r. ground (arith, b);
            role_has = ground arith;
            granted = λ t a b.
                let scoped = (scoped_types q.principal_type).1 t in
                let bound = (bound_capabilities capability).1 (a, b) in
                to_grant (ground (arith, scoped, bound));
          })
    ]

    of_authorized :
        (p : Principal)
        → IsAuthorized env id capability scope require_human s p
        → decide env id capability scope require_human s ≡ ok p
    unfolding decide check_principal
    of_authorized p a =
        let b = principal_type_eq.equals_iff p.principal_type PrincipalType.human in
        let found = IsFirst-find_principal id s.principals a.key p a.found in
        elim (Bool-cases (is_task_scoped p.principal_type)) [
          | inl t ↦ elim (Bool-cases (needs_no_scope capability)) [
            | inl u ↦ ground (arith, b, t, u, found, a.active, a.human, a.role_has)
            | inr n ↦
                let (u, v) = (bound_capabilities capability).0 n in
                let granted = of_grant (a.granted ((scoped_types p.principal_type).0 t) u v) in
                ground (arith, b, t, n, found, a.active, a.human, a.role_has, granted)
          ]
          | inr t ↦ ground (arith, b, t, found, a.active, a.human, a.role_has)
        ]

    principal_refuses :
        (o : Option Principal)
        → OnlyRefuses (check_principal env id capability scope require_human s.grants o)
    unfolding check_principal
    principal_refuses none = λ e h. cc
    principal_refuses (some p) = bind_refuses _ _ (raise_if_refuses (negate p.active)) (λ _.
        bind_refuses _ _
          (raise_if_refuses (require_human && p.principal_type != PrincipalType.human))
          (λ _.
            bind_refuses _ _
              (raise_if_refuses (negate (contains capability (role_capabilities p.role))))
              (λ _.
                bind_refuses _ _
                  (if_refuses
                    (is_task_scoped p.principal_type && negate (needs_no_scope capability))
                    (scope_refuses env id capability scope s) (λ x h. absurd (cc h)))
                  (λ _ x h. absurd (cc h)))))

    only_refusal : OnlyRefuses (decide env id capability scope require_human s)
    unfolding decide
    only_refusal = principal_refuses (find_principal id s.principals)

    -- `authorize` succeeds exactly for a principal that is known and active, human where that is
    -- required, of a role with the capability, and, if it is an agent or an integration and the
    -- capability is neither CLAIM_IDE_TASK nor SUBMIT_CI_EVIDENCE, if the first active grant that
    -- names it, the workflow and the task has not expired and lists the capability. It changes
    -- nothing, and fails in no other way than by `AuthorizationError`.
    pub authorize_iff :
        ((p : Principal)
          → (authorize env id capability scope require_human s ≡ ok (p, s))
            ↔ IsAuthorized env id capability scope require_human s p)
        × ((p : Principal) (t : Session)
            → authorize env id capability scope require_human s ≡ ok (p, t)
            → t ≡ s)
        × ((e : Error)
            → authorize env id capability scope require_human s ≡ err e
            → e ≡ Error.authorization_error)
    unfolding authorize
    authorize_iff = (
      λ p. (λ h. to_authorized p (ground arith), λ a. rw (of_authorized p a)),
      λ p t h. ground arith,
      λ e h. only_refusal e (ground arith),
    )

-- ===== src/Tasks/Leases/Next.antt =====
-- workflow_tasks.py: `lease_next_task` hands out the ready task that is first in its order.
use eldridge.Prelude.{
  ℕ, ◌+◌, ◌<◌, ◌≤◌, ◌⊎◌, ◌↔◌, nat_eq, arith, ◌≡◌, refl, sym, ap, ◌∙◌, String, true, false, List,
  Option, none, some, Option-cases, inl, inr,
}
use eldridge.Domain.{Capability, TaskStatus, task_status_eq}
use eldridge.Result.{ok}
use eldridge.Persistence.Json.{Fields}
use eldridge.Persistence.{Session, Task, Workflow, get_elem?, keyed, modify}
use eldridge.Env.{Env}
use eldridge.Tx.{pure, raise, gets, ◌>>=◌}
use eldridge.Tx.Inversion.{bind-ok}
use eldridge.Policy.{unscoped}
use eldridge.Policy.Decision.{authorize_iff}
use eldridge.Audit.{append_audit_event}
use eldridge.Tasks.Store.{get_workflow, set_task, draw_token}
use eldridge.Tasks.Leasing.{
  in_scope, is_ready, leasable, is_earlier, earliest, leased_to, take_lease, lease_next_task,
}
use eldridge.Tasks.Leases.Order.{
  earliest-All, earliest-NoneBefore, keyed-All, of_keyed, leasable-All, NoneBefore-leasable,
}

row_of_workflow : (wid : ℕ) (s t : Session) (w : Workflow) → get_workflow wid s ≡ ok (w, t) → t ≡ s
unfolding get_workflow gets ◌>>=◌ raise pure
row_of_workflow wid s t w h = elim (Option-cases (get_elem? s.workflows wid)) [
  | inl missing ↦ let h' = rw missing at h in absurd (cc h')
  | inr (v, found) ↦ let h' = rw found at h in cc
]

draw_token-ok :
    (s t : Session) (token : ℕ)
    → draw_token s ≡ ok (token, t)
    → (token ≡ s.tokens_drawn) × (t.tasks ≡ s.tasks)
unfolding draw_token
draw_token-ok s t token h = (cc, cc)

set_task-ok :
    (tid : ℕ) (g : Task → Task) (s t : Session) (u : Unit {0})
    → set_task tid g s ≡ ok (u, t)
    → t.tasks ≡ modify tid g s.tasks
unfolding set_task
set_task-ok tid g s t u h = cc

appended-ok :
    (env : Env) (wid : ℕ) (event_type actor resource_type : String) (resource : ℕ)
    (outcome : String) (payload : Fields) (s t : Session) (u : Unit {0})
    → append_audit_event env wid event_type actor resource_type resource outcome payload s
      ≡ ok (u, t)
    → t.tasks ≡ s.tasks
unfolding append_audit_event
appended-ok env wid event_type actor resource_type resource outcome payload s t u h = cc

pure-ok : {A : Type 0} (a b : A) (s t : Session) → pure a s ≡ ok (b, t) → (a ≡ b) × (s ≡ t)
unfolding pure
pure-ok a b s t h = (cc, cc)

-- The writes of a lease, one after the other.
lease_written :
    (worker : String) (expiry i tid token : ℕ) (s s1 s2 s3 s4 t : Session)
    → i ≡ tid
    → (token ≡ s.tokens_drawn) × (s1.tasks ≡ s.tasks)
    → s2.tasks ≡ modify i (leased_to worker token expiry) s1.tasks
    → s3 ≡ s2
    → s4.tasks ≡ s3.tasks
    → s4 ≡ t
    → t.tasks ≡ modify tid (leased_to worker s.tokens_drawn expiry) s.tasks
lease_written worker expiry i tid token s s1 s2 s3 s4 t a (b, c) d e f g =
    rw (← g, f, e, d, c, b, a) refl

take_lease-ok :
    (env : Env) (n : ℕ) (worker : String) (o : Option (ℕ × Task)) (s t : Session) (tid : ℕ)
    → take_lease env n worker o s ≡ ok (some tid, t)
    → (old : Task) × (o ≡ some (tid, old))
      × (t.tasks ≡ modify tid (leased_to worker s.tokens_drawn (env.now + n)) s.tasks)
unfolding take_lease
take_lease-ok env n worker none s t tid h = let (a, e) = pure-ok _ _ s t h in absurd (cc a)
take_lease-ok env n worker (some (i, old)) s t tid h =
    let (token, s1, drawn, h1) = bind-ok _ _ s t (some tid) h in
    let (u, s2, set, h2) = bind-ok _ _ s1 t (some tid) h1 in
    let (w, s3, row, h3) = bind-ok _ _ s2 t (some tid) h2 in
    let (v, s4, audited, h4) = bind-ok _ _ s3 t (some tid) h3 in
    let (same, e4) = pure-ok (some i) (some tid) s4 t h4 in
    let e : i ≡ tid = some_injective i tid same in
    (
      old,
      ap (λ k. some (k, old)) e,
      lease_written worker (env.now + n) i tid token s s1 s2 s3 s4 t e
          (draw_token-ok s s1 token drawn) (set_task-ok i _ s1 s2 u set)
          (row_of_workflow old.workflow_id s2 s3 w row)
          (appended-ok env _ _ _ _ _ _ _ s3 s4 v audited) e4,
    )
  where
    some_injective : (a b : ℕ) → some a ≡ some b → a ≡ b
    some_injective a b h = cc

-- What was chosen is among the rows that the query asks for, and before all of them.
first_of :
    (env : Env) (scope : Option ℕ) (tasks : List Task) (tid : ℕ) (old : Task)
    → earliest (leasable env scope (keyed tasks)) ≡ some (tid, old)
    → (get_elem? tasks tid ≡ some old)
      × ((is_ready old ≡ true) × (in_scope scope old ≡ true) × (env.task_locked tid ≡ false))
      × ((i : ℕ) (u : Task)
          → get_elem? tasks i ≡ some u
          → is_ready u ≡ true
          → in_scope scope u ≡ true
          → env.task_locked i ≡ false
          → is_earlier old u ≡ true)
first_of env scope tasks tid old h =
    let all =
      leasable-All env scope (λ x. get_elem? tasks x.0 ≡ some x.1) (keyed tasks)
        (keyed-All tasks) in
    let (found, a, b, c) = earliest-All _ _ (tid, old) h all in
    let before =
      NoneBefore-leasable env scope old (keyed tasks) (earliest-NoneBefore _ tid old h) in
    (found, (a, b, c), λ i u row. of_keyed _ tasks i u before row)

-- The task that is handed out, in the code's own tests.
choice-ok :
    (env : Env) (lease_seconds : ℕ) (worker : String) (scope : Option ℕ) (s t : Session) (tid : ℕ)
    → lease_next_task env lease_seconds worker scope s ≡ ok (some tid, t)
    → (old : Task) × (get_elem? s.tasks tid ≡ some old)
      × ((is_ready old ≡ true) × (in_scope scope old ≡ true) × (env.task_locked tid ≡ false))
      × ((i : ℕ) (u : Task)
          → get_elem? s.tasks i ≡ some u
          → is_ready u ≡ true
          → in_scope scope u ≡ true
          → env.task_locked i ≡ false
          → is_earlier old u ≡ true)
      × (t.tasks ≡ modify tid (leased_to worker s.tokens_drawn (env.now + lease_seconds)) s.tasks)
unfolding lease_next_task gets pure
choice-ok env n worker scope s t tid h =
    let (p, s1, who, h1) = bind-ok _ _ s t (some tid) h in
    let e1 : s1 ≡ s =
      (authorize_iff env worker Capability.lease_task unscoped s false).1 p s1 who in
    let (o, s2, chosen, h2) = bind-ok _ _ s1 t (some tid) h1 in
    let (e3, e2) = pure-ok _ o s1 s2 chosen in
    let (old, is_old, written) = take_lease-ok env n worker o s2 t tid h2 in
    let e : s ≡ s2 = sym e1 ∙ e2 in
    let (found, facts, before) =
      first_of env scope s.tasks tid old
        (ap (λ x. earliest (leasable env scope (keyed x.tasks))) (sym e1) ∙ e3 ∙ is_old) in
    (old, found, facts, before, since_same worker (env.now + n) tid s s2 t e written)
  where
    since_same :
        (worker : String) (expiry tid : ℕ) (s s2 t : Session)
        → s ≡ s2
        → t.tasks ≡ modify tid (leased_to worker s2.tokens_drawn expiry) s2.tasks
        → t.tasks ≡ modify tid (leased_to worker s.tokens_drawn expiry) s.tasks
    since_same worker expiry tid s s2 t e h = rw e h

-- What the query asks for: a READY task, of the workflow that was asked for if one was, that no
-- other transaction holds.
pub record IsCandidate (env : Env) (scope : Option ℕ) (i : ℕ) (u : Task) : Type 0 where
  pub ready : u.status ≡ TaskStatus.ready
  pub workflow : (wid : ℕ) → scope ≡ some wid → u.workflow_id ≡ wid
  pub unlocked : env.task_locked i ≡ false

-- By creation time, then by position.
abbrev pub IsBefore : Task → Task → Type 0
IsBefore a b =
    (a.created_at < b.created_at) ⊎ ((a.created_at ≡ b.created_at) × (a.position ≤ b.position))

is_earlier-IsBefore : (a b : Task) → is_earlier a b ≡ true → IsBefore a b
unfolding is_earlier
is_earlier-IsBefore a b h = ground arith

is_ready_iff : (u : Task) → (is_ready u ≡ true) ↔ (u.status ≡ TaskStatus.ready)
unfolding is_ready
is_ready_iff u = task_status_eq.equals_iff u.status TaskStatus.ready

of_scope :
    (scope : Option ℕ) (u : Task)
    → in_scope scope u ≡ true
    → (wid : ℕ) → scope ≡ some wid
    → u.workflow_id ≡ wid
unfolding in_scope
of_scope none u h wid e = absurd (cc e)
of_scope (some n) u h wid e =
    let same : u.workflow_id ≡ n = (nat_eq.equals_iff u.workflow_id n).0 h in cc

to_scope :
    (scope : Option ℕ) (u : Task)
    → ((wid : ℕ) → scope ≡ some wid → u.workflow_id ≡ wid)
    → in_scope scope u ≡ true
unfolding in_scope
to_scope none u h = refl
to_scope (some n) u h = (nat_eq.equals_iff u.workflow_id n).1 (h n refl)

-- When `lease_next_task` hands out a task, that task was READY, of the workflow that was asked for
-- (if one was) and not locked; every other such task comes after it by creation time and position,
-- or has the same of both; and the table of tasks changes in that row alone, which becomes LEASED
-- to the worker under the token that is drawn next until `lease_seconds` from now.
pub lease_next_task_takes_first :
    (env : Env) (lease_seconds : ℕ) (worker : String) (scope : Option ℕ) (s t : Session) (tid : ℕ)
    → lease_next_task env lease_seconds worker scope s ≡ ok (some tid, t)
    → (old : Task) × (get_elem? s.tasks tid ≡ some old)
      × IsCandidate env scope tid old
      × ((i : ℕ) (u : Task)
          → get_elem? s.tasks i ≡ some u
          → IsCandidate env scope i u
          → IsBefore old u)
      × (t.tasks
          ≡ modify tid
              (λ u. record u {
                status = TaskStatus.leased;
                lease_owner = some worker;
                lease_token = some s.tokens_drawn;
                lease_expires_at = some (env.now + lease_seconds);
              })
              s.tasks)
unfolding leased_to
lease_next_task_takes_first env n worker scope s t tid h =
    let (old, found, (ready, scoped, free), before, written) =
      choice-ok env n worker scope s t tid h in
    (
      old,
      found,
      record {
        ready = (is_ready_iff old).0 ready;
        workflow = of_scope scope old scoped;
        unlocked = free;
      },
      λ i u there c.
          is_earlier-IsBefore old u (
            before i u there ((is_ready_iff u).1 c.ready) (to_scope scope u c.workflow) c.unlocked),
      written,
    )

-- ===== src/Tasks/Leases.antt =====
-- workflow_tasks.py: what `lease_next_task` hands out and what `_validate_lease` accepts.
pub mod Order
pub mod Next
use eldridge.Prelude.{
  ℕ, suc, ◌+◌, ◌<◌, ◌≡◌, ◌≢◌, ◌↔◌, refl, sym, ap, String, Bool, true, false, ◌&&◌, ◌||◌, negate,
  List, [], ◌∷◌, Option, none, some, arith, ◌==◌, ◌!=◌, nat_eq, string_eq, option_eq, Bool-cases,
  inl, inr, Option-cases, if◌then◌else◌, ltb, leb,
}
use eldridge.Domain.{TaskStatus, TaskStatus-discrete, task_status_eq, Error}
use eldridge.Result.{Result, ok, err}
use eldridge.Persistence.{Session, Task}
use eldridge.Env.{Env}
use eldridge.Tx.{Tx, pure, raise, raise_if, ◌>>=◌}
use eldridge.Tx.Inversion.{raise_if-ok}
use eldridge.Tasks.Steps.{validate_lease, not_before}

own_lease :
    (owner : Option String) (given : Option ℕ) (worker : String) (token : ℕ)
    → (owner != some worker || given != some token) ≡ false
    → (owner ≡ some worker) × (given ≡ some token)
own_lease owner given worker token h = (
  (option_eq.equals_iff owner (some worker)).0 (ground arith),
  (option_eq.equals_iff given (some token)).0 (ground arith),
)

in_time :
    (now : ℕ) (o : Option ℕ) (e : Error) (s t : Session)
    → raise_if (not_before o now) e s ≡ ok (tt, t)
    → (t ≡ s) × ((expiry : ℕ) × (o ≡ some expiry) × (now < expiry))
unfolding not_before raise pure
in_time now none e s t h = absurd (cc h)
in_time now (some x) e s t h = elim (Bool-cases (leb x now)) [
  | inl late ↦ let h' = rw late at h in absurd (cc h')
  | inr early ↦ let h' = rw early at h in (cc, (x, refl, ground arith))
]

accepted :
    (env : Env) (status : TaskStatus) (task : Task) (token : ℕ) (worker : String) (s t : Session)
    → t ≡ s
    → task.status ≡ status
    → task.lease_owner ≡ some worker
    → task.lease_token ≡ some token
    → (x : ℕ) → task.lease_expires_at ≡ some x
    → env.now < x
    → validate_lease env status task token worker s ≡ ok (tt, t)
unfolding validate_lease not_before raise pure ◌>>=◌
accepted env status task token worker s t e a b c x d l =
    let p : (status == status) ≡ true = (task_status_eq.equals_iff status status).1 refl in
    let q : (some worker == some worker) ≡ true =
      (option_eq.equals_iff (some worker) (some worker)).1 refl in
    let r : (some token == some token) ≡ true =
      (option_eq.equals_iff (some token) (some token)).1 refl in
    let n : leb x env.now ≡ false = ground arith in rw (a, b, c, d, p, q, r, n, e) refl

-- `_validate_lease` (for LEASED) and `_validate_running_lease` (for RUNNING) accept a task exactly
-- when it has that status, the worker owns it under the very token and the lease has not run out;
-- they change nothing.
pub validate_lease_iff :
    (env : Env) (status : TaskStatus) (task : Task) (token : ℕ) (worker : String) (s t : Session)
    → (validate_lease env status task token worker s ≡ ok (tt, t)) ↔ (
        (t ≡ s)
        × (task.status ≡ status)
        × (task.lease_owner ≡ some worker)
        × (task.lease_token ≡ some token)
        × ((expiry : ℕ) × (task.lease_expires_at ≡ some expiry) × (env.now < expiry)))
unfolding validate_lease raise pure
validate_lease_iff env status task token worker s t = (
  λ h.
      let (a, h1) = raise_if-ok _ _ _ s t tt h in
      let (b, h2) = raise_if-ok _ _ _ s t tt h1 in
      let (o, k) = own_lease task.lease_owner task.lease_token worker token b in
      let (e, x) = in_time env.now task.lease_expires_at Error.conflict_error s t h2 in
      (e, (task_status_eq.equals_iff task.status status).0 (ground arith), o, k, x),
  λ (e, a, b, c, (x, d, l)). accepted env status task token worker s t e a b c x d l,
)

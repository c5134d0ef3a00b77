-- ===== src/Tasks/Reading.antt =====
-- workflow_tasks.py and policy.py: what the steps that only read say when they return.
use eldridge.Prelude.{ℕ, String, Bool, ◌≡◌, some}
use eldridge.Domain.{Capability}
use eldridge.Persistence.{Session, get_elem?}
use eldridge.Env.{Env}
use eldridge.Tx.Inversion.{Reads, found-ok}
use eldridge.Policy.{unscoped, authorize}
use eldridge.Policy.Decision.{IsAuthorized, authorize_iff}
use eldridge.Tasks.Store.{get_workflow}

pub workflow-ok :
    (wid : ℕ) (s : Session) → Reads (get_workflow wid) s (λ w. get_elem? s.workflows wid ≡ some w)
unfolding get_workflow
workflow-ok wid s = found-ok _ _ s

pub authorize-ok :
    (env : Env) (id : String) (c : Capability) (human : Bool) (s : Session)
    → Reads (authorize env id c unscoped human) s (IsAuthorized env id c unscoped human s)
authorize-ok env id c human s p t h =
    let (exact, same, refuses) = authorize_iff env id c unscoped s human in
    let e = same p t h in (e, (exact p).0 (rw e at h))

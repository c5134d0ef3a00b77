-- ===== src/Tasks/Frames/Preparing.antt =====
-- workflow_tasks.py: a frame that supports the steps holds of `_prepare_execution`.
use eldridge.Prelude.{ℕ, String, false, ◌≡◌, refl, Option, none, some}
use eldridge.Domain.{WorkflowState, TaskKind}
use eldridge.Routing.Types.{ProviderProfile, RoutingDecision}
use eldridge.Persistence.{Session, Workflow, Task, RoutingRecord}
use eldridge.Env.{Env}
use eldridge.Tx.Frame.{Frame, Ensures}
use eldridge.Tasks.Preparation.{
  Service, add_routing_record, record_route, route_attempt, record_routing_block, producer_output,
  check_ceiling, prepare_routed, continue_routed, prepare_execution,
}
use eldridge.Tasks.Frames.{Supports, is_reserved, row_rules, Ensures-quiet}
use eldridge.Tasks.Frames.Running.{Ensures-transition, Ensures-set_block_reason}

module _ (env : Env) {f : Frame} {Target : WorkflowState → Type 0} (sup : Supports env f Target)
    (most : (t : WorkflowState) → is_reserved t ≡ false → Target t) (svc : Service) where
  open svc use {floats}
  open floats use {Float}

  Ensures-add_routing_record : (r : RoutingRecord) → Ensures f (add_routing_record r)
  unfolding add_routing_record
  Ensures-add_routing_record r = Ensures-quiet _ _ (λ s. (refl, refl, refl))

  Ensures-record_route :
      (wid tid aid : ℕ) (s : Session) (d : RoutingDecision Float)
      (selected : Option (ProviderProfile Float))
      → Ensures f (record_route env svc wid tid aid s d selected)
  unfolding record_route
  Ensures-record_route wid tid aid s d selected =
      search (row_rules, sup.appends, Ensures-add_routing_record)

  Ensures-route_attempt :
      (wid tid aid : ℕ) (workflow : Workflow) (task : Task)
      → Ensures f (route_attempt env svc wid tid aid workflow task)
  unfolding route_attempt
  Ensures-route_attempt wid tid aid workflow task =
      search (row_rules, Ensures-record_route) depth 12

  Ensures-record_routing_block :
      (wid tid aid : ℕ) → Ensures f (record_routing_block env svc wid tid aid)
  unfolding record_routing_block is_reserved
  Ensures-record_routing_block wid tid aid =
      let same = Ensures-set_block_reason env sup most in
      let move = Ensures-transition env sup most in search (row_rules, same, move) depth 12

  Ensures-producer_output :
      (wid : ℕ) (kind : Option TaskKind) → Ensures f (producer_output env svc wid kind)
  unfolding producer_output
  Ensures-producer_output wid none = search row_rules
  Ensures-producer_output wid (some kind) = search row_rules depth 12

  Ensures-check_ceiling :
      (wid : ℕ) (p : ProviderProfile Float) → Ensures f (check_ceiling env svc wid p)
  unfolding check_ceiling
  Ensures-check_ceiling wid p = search row_rules depth 12

  Ensures-continue_routed :
      (wid tid aid token : ℕ) (worker agent : String) (workflow : Workflow) (task : Task)
      (selected : Option (ProviderProfile Float))
      → Ensures f (continue_routed env svc wid tid aid token worker agent workflow task selected)
  unfolding continue_routed prepare_routed
  Ensures-continue_routed wid tid aid token worker agent workflow task none =
      search (row_rules, Ensures-record_routing_block)
  Ensures-continue_routed wid tid aid token worker agent workflow task (some p) =
      search (row_rules, Ensures-check_ceiling, Ensures-producer_output) depth 12

  pub Ensures-prepare_execution :
      (tid token : ℕ) (worker : String) → Ensures f (prepare_execution env svc tid token worker)
  unfolding prepare_execution
  Ensures-prepare_execution tid token worker =
      search (row_rules, Ensures-route_attempt, Ensures-continue_routed) depth 20

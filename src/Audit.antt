-- ===== src/Audit.antt =====
-- audit.py (src/control_plane/audit.py): the hash-chained audit log.
pub mod Chain
pub mod Tamper
use eldridge.Prelude.{
  ℕ, suc, ◌+◌, String, Bool, true, false, ◌&&◌, ◌||◌, List, [], ◌∷◌, Option, none, some, Eq, ◌==◌,
  nat_eq, string_eq, ltb, if◌then◌else◌,
}
use eldridge.Persistence.Json.{Json, Fields}
use eldridge.Persistence.{AuditEvent, Session, select, append_row}
use eldridge.Routing.Sort.{sort_by}
use eldridge.Result.{ok}
use eldridge.Env.{Env, digest}
use eldridge.Tx.{Tx}

abbrev pub genesis_hash : String
genesis_hash = "0000000000000000000000000000000000000000000000000000000000000000"

unfoldable pub sequence_before : AuditEvent → AuditEvent → Bool
sequence_before a b = ltb a.sequence b.sequence

unfoldable pub of_workflow : ℕ → AuditEvent → Bool
of_workflow wid e = e.workflow_id == wid

-- `select(AuditEvent).where(workflow_id == wid).order_by(sequence)`
unfoldable pub events_of : ℕ → List AuditEvent → List AuditEvent
events_of wid log = sort_by sequence_before (select (of_workflow wid) log)

-- The last event, if there is one: the first of the descending order.
unfoldable pub latest : List AuditEvent → Option AuditEvent
latest [] = none
latest (e ∷ es) = elim (latest es) [ none ↦ some e | some l ↦ some l ]

-- The object of an event that is dumped and hashed.
unfoldable pub canonical_fields :
    ℕ → ℕ → String → String → String → ℕ → String → Fields → String → Fields
canonical_fields wid sequence event_type actor resource_type resource outcome payload previous =
    Fields.field "workflow_id" (Json.number wid) (
      Fields.field "sequence" (Json.number sequence) (
        Fields.field "event_type" (Json.text event_type) (
          Fields.field "actor_id" (Json.text actor) (
            Fields.field "resource_type" (Json.text resource_type) (
              Fields.field "resource_id" (Json.number resource) (
                Fields.field "outcome" (Json.text outcome) (
                  Fields.field "payload" (Json.object payload)
                    (Fields.field "previous_hash" (Json.text previous) Fields.done))))))))

unfoldable pub canonical_of : AuditEvent → Fields
canonical_of e =
    canonical_fields e.workflow_id e.sequence e.event_type e.actor_id e.resource_type e.resource_id
      e.outcome e.payload e.previous_hash

next_sequence : Option AuditEvent → ℕ
next_sequence none = 1
next_sequence (some l) = l.sequence + 1

next_previous : Option AuditEvent → String
next_previous none = genesis_hash
next_previous (some l) = l.event_hash

-- The event that `append_audit_event` adds after the latest one.
unfoldable pub chained_event :
    Env → Option AuditEvent → ℕ → String → String → String → ℕ → String → Fields → AuditEvent
unfolding next_sequence next_previous
chained_event env last wid event_type actor resource_type resource outcome payload = record {
  workflow_id = wid;
  sequence = next_sequence last;
  event_type = event_type;
  actor_id = actor;
  resource_type = resource_type;
  resource_id = resource;
  outcome = outcome;
  payload = payload;
  previous_hash = next_previous last;
  event_hash = digest env (
      canonical_fields wid (next_sequence last) event_type actor resource_type resource outcome
        payload (next_previous last));
}

-- `append_audit_event`
unfoldable pub append_audit_event :
    Env → ℕ → String → String → String → ℕ → String → Fields → Tx (Unit {0})
append_audit_event env wid event_type actor resource_type resource outcome payload s =
    let event =
      chained_event env (latest (events_of wid s.audit_events)) wid event_type actor resource_type
        resource outcome payload in
    ok (tt, record s { audit_events = append_row s.audit_events event })

-- The loop of `verify_audit_chain`: the hash and the sequence number that are expected next.
unfoldable pub check_from : Env → String → ℕ → List AuditEvent → Bool
check_from env previous expected [] = true
check_from env previous expected (e ∷ es) =
    let rest = check_from env e.event_hash (suc expected) es in
    if e.sequence == expected && e.previous_hash == previous
    then (if digest env (canonical_of e) == e.event_hash then rest else false)
    else false

abbrev nonempty : List AuditEvent → Bool
nonempty [] = false
nonempty (e ∷ es) = true

-- `verify_audit_chain`
unfoldable pub verify_audit_chain : Env → List AuditEvent → ℕ → Bool
verify_audit_chain env log wid =
    let events = events_of wid log in check_from env genesis_hash 1 events && nonempty events

pub count : List AuditEvent → ℕ
count [] = 0
count (e ∷ es) = suc (count es)

-- `audit_count`
unfoldable pub audit_count : List AuditEvent → ℕ → ℕ
unfolding count
audit_count log wid = count (select (of_workflow wid) log)

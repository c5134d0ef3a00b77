-- ===== src/Audit/Chain.antt =====
-- audit.py: appending keeps every workflow's chain verifiable.
use eldridge.Prelude.{
  ℕ, suc, ◌+◌, ◌<◌, ◌≤◌, ◌≡◌, refl, ◌∙◌, ◌≢◌, String, Bool, true, false, List, [], ◌∷◌, Option,
  none, some, ◌==◌, nat_eq, string_eq, if◌then◌else◌, arith, Bool-cases, inl, inr, Option-cases,
  nat_beq_iff,
}
use eldridge.Persistence.Json.{Fields}
use eldridge.Persistence.{AuditEvent, Session, select, append_row}
use eldridge.Routing.Sort.{sort_by, insert_sorted, All, All-of-sort_by}
use eldridge.Result.{ok}
use eldridge.Env.{Env, digest}
use eldridge.Audit.{
  genesis_hash, sequence_before, of_workflow, events_of, latest, canonical_of, chained_event,
  append_audit_event, check_from, nonempty, verify_audit_chain, next_sequence, next_previous,
}

insert_sorted-append_row :
    (x e : AuditEvent) (ys : List AuditEvent)
    → sequence_before e x ≡ false
    → insert_sorted sequence_before x (append_row ys e)
      ≡ append_row (insert_sorted sequence_before x ys) e
unfolding insert_sorted append_row
insert_sorted-append_row x e [] h = rw h
insert_sorted-append_row x e (y ∷ ys) h = elim (Bool-cases (sequence_before y x)) [
  | inl b ↦ rw b (rw (insert_sorted-append_row x e ys h))
  | inr b ↦ rw b
]

sort_by-append_row :
    (e : AuditEvent) (xs : List AuditEvent)
    → All (λ x. sequence_before e x ≡ false) xs
    → sort_by sequence_before (append_row xs e) ≡ append_row (sort_by sequence_before xs) e
unfolding sort_by append_row insert_sorted
sort_by-append_row e [] h = refl
sort_by-append_row e (x ∷ xs) h =
    rw (sort_by-append_row e xs h.1) (insert_sorted-append_row x e (sort_by sequence_before xs) h.0)

select-append_row :
    (p : AuditEvent → Bool) (xs : List AuditEvent) (e : AuditEvent)
    → select p (append_row xs e) ≡ (if p e then append_row (select p xs) e else select p xs)
unfolding select append_row
select-append_row p [] e = ground arith
select-append_row p (x ∷ xs) e = ground (arith, select-append_row p xs e)

-- The sequence number and the hash that are expected after a list.
pub tail_sequence : ℕ → List AuditEvent → ℕ
tail_sequence n [] = n
tail_sequence n (e ∷ es) = tail_sequence (suc n) es

unfoldable pub tail_hash : String → List AuditEvent → String
tail_hash h [] = h
tail_hash h (e ∷ es) = tail_hash e.event_hash es

module _ (env : Env) where
  -- What one passed round of the loop has tested.
  pub check_cons :
      (h : String) (n : ℕ) (e : AuditEvent) (es : List AuditEvent)
      → check_from env h n (e ∷ es) ≡ true
      → (e.sequence ≡ n)
        × (e.previous_hash ≡ h)
        × (digest env (canonical_of e) ≡ e.event_hash)
        × (check_from env e.event_hash (suc n) es ≡ true)
  unfolding check_from
  check_cons h n e es k =
      let p = string_eq.equals_iff e.previous_hash h in
      let q = string_eq.equals_iff (digest env (canonical_of e)) e.event_hash in
      (ground (arith, p, q), ground (arith, p, q), ground (arith, p, q), ground (arith, p, q))

  check_of :
      (h : String) (n : ℕ) (e : AuditEvent) (es : List AuditEvent)
      → e.sequence ≡ n
      → e.previous_hash ≡ h
      → digest env (canonical_of e) ≡ e.event_hash
      → check_from env h n (e ∷ es) ≡ check_from env e.event_hash (suc n) es
  unfolding check_from
  check_of h n e es a b c = ground (
    arith,
    string_eq.equals_iff e.previous_hash h,
    string_eq.equals_iff (digest env (canonical_of e)) e.event_hash,
  )

  check_from-append_row :
      (h : String) (n : ℕ) (es : List AuditEvent) (e : AuditEvent)
      → check_from env h n es ≡ true
      → check_from env h n (append_row es e)
        ≡ check_from env (tail_hash h es) (tail_sequence n es) (e ∷ [])
  unfolding append_row tail_hash tail_sequence
  check_from-append_row h n [] e k = refl
  check_from-append_row h n (x ∷ xs) e k =
      let (a, b, c, d) = check_cons h n x xs k in
      check_of h n x (append_row xs e) a b c ∙ check_from-append_row x.event_hash (suc n) xs e d

  n-le-tail : (n : ℕ) (es : List AuditEvent) → n ≤ tail_sequence n es
  unfolding tail_sequence
  n-le-tail n [] = omega arith
  n-le-tail n (e ∷ es) = omega (arith, n-le-tail (suc n) es)

  sequences-below :
      (h : String) (n : ℕ) (es : List AuditEvent)
      → check_from env h n es ≡ true
      → All (λ x. x.sequence < tail_sequence n es) es
  unfolding tail_sequence
  sequences-below h n [] k = tt
  sequences-below h n (x ∷ xs) k =
      let (a, b, c, d) = check_cons h n x xs k in
      (omega (arith, n-le-tail (suc n) xs), sequences-below x.event_hash (suc n) xs d)

  abbrev pub or_sequence : Option AuditEvent → ℕ → ℕ
  or_sequence none n = n
  or_sequence (some l) n = l.sequence + 1

  abbrev pub or_hash : Option AuditEvent → String → String
  or_hash none h = h
  or_hash (some l) h = l.event_hash

  pub latest-tail :
      (h : String) (n : ℕ) (es : List AuditEvent)
      → check_from env h n es ≡ true
      → (or_sequence (latest es) n ≡ tail_sequence n es) × (or_hash (latest es) h ≡ tail_hash h es)
  unfolding latest tail_sequence tail_hash
  latest-tail h n [] k = (refl, refl)
  latest-tail h n (x ∷ xs) k =
      let (a, b, c, d) = check_cons h n x xs k in
      let (p, q) = latest-tail x.event_hash (suc n) xs d in
      elim (Option-cases (latest xs)) [
        | inl e ↦ (ground arith, ground arith)
        | inr (l, e) ↦ (ground arith, ground arith)
      ]

  -- Every workflow's events check, as far as there are any.
  abbrev pub IsSound : List AuditEvent → Type 0
  IsSound log = (wid : ℕ) → check_from env genesis_hash 1 (events_of wid log) ≡ true

  module _ (wid : ℕ) (log : List AuditEvent) (e : AuditEvent)
      (sound : check_from env genesis_hash 1 (events_of wid log) ≡ true) (own : e.workflow_id ≡ wid)
      (next : e.sequence ≡ tail_sequence 1 (events_of wid log)) where
    later_than :
        (xs : List AuditEvent)
        → All (λ x. x.sequence < tail_sequence 1 (events_of wid log)) xs
        → All (λ x. sequence_before e x ≡ false) xs
    unfolding sequence_before
    later_than [] h = tt
    later_than (x ∷ xs) h = (ground arith, later_than xs h.1)

    events_of-append_row : events_of wid (append_row log e) ≡ append_row (events_of wid log) e
    unfolding events_of of_workflow
    events_of-append_row =
        let below = sequences-below genesis_hash 1 (events_of wid log) sound in
        let free =
          later_than (select (of_workflow wid) log)
            (All-of-sort_by sequence_before _ (select (of_workflow wid) log) below) in
        rw (select-append_row (of_workflow wid) log e, (nat_beq_iff e.workflow_id wid).1 own)
          (sort_by-append_row e (select (of_workflow wid) log) free)

  events_of_other :
      (wid j : ℕ) (log : List AuditEvent) (e : AuditEvent)
      → e.workflow_id ≡ wid
      → wid ≢ j
      → events_of j (append_row log e) ≡ events_of j log
  unfolding events_of of_workflow
  events_of_other wid j log e own ne =
      let other : (e.workflow_id == j) ≡ false = ground arith in
      rw (select-append_row (of_workflow j) log e, other)

  nonempty-append_row : (xs : List AuditEvent) (e : AuditEvent) → nonempty (append_row xs e) ≡ true
  unfolding append_row
  nonempty-append_row [] e = refl
  nonempty-append_row (x ∷ xs) e = refl

  module _ (wid : ℕ) (event_type actor resource_type : String) (resource : ℕ) (outcome : String)
      (payload : Fields) where
    abbrev appended : List AuditEvent → AuditEvent
    appended log =
        chained_event env (latest (events_of wid log)) wid event_type actor resource_type resource
          outcome payload

    -- The event that is appended fits the chain that stands there.
    fits :
        (log : List AuditEvent)
        → check_from env genesis_hash 1 (events_of wid log) ≡ true
        → (events_of wid (append_row log (appended log))
            ≡ append_row (events_of wid log) (appended log))
          × (check_from env genesis_hash 1 (append_row (events_of wid log) (appended log)) ≡ true)
    unfolding chained_event next_sequence next_previous canonical_of
    fits log k =
        let (p, q) = latest-tail genesis_hash 1 (events_of wid log) k in
        let e = appended log in
        let seq : e.sequence ≡ tail_sequence 1 (events_of wid log) = ground arith in
        let prev : e.previous_hash ≡ tail_hash genesis_hash (events_of wid log) = ground arith in
        (
          events_of-append_row wid log e k refl seq,
          check_from-append_row genesis_hash 1 (events_of wid log) e k
              ∙ check_of _ _ e [] seq prev refl
              ∙ unfold check_from in refl,
        )

    -- Appending an event to a log in which every workflow's chain checks leaves such a log, and
    -- `verify_audit_chain` holds for the workflow of the event.
    pub append_audit_event-IsSound :
        (s t : Session)
        → IsSound s.audit_events
        → append_audit_event env wid event_type actor resource_type resource outcome payload s
          ≡ ok (tt, t)
        → IsSound t.audit_events × (verify_audit_chain env t.audit_events wid ≡ true)
    unfolding append_audit_event chained_event
    append_audit_event-IsSound s t sound h =
        let log : append_row s.audit_events (appended s.audit_events) ≡ t.audit_events = cc in
        let (now, checks) = fits s.audit_events (sound wid) in
        rw (← log) (
          λ j. elim (Bool-cases (wid == j)) [
            | inl same ↦ let e : wid ≡ j = (nat_beq_iff wid j).0 same in rw (← e) (rw now checks)
            | inr other ↦
                rw
                  (events_of_other wid j s.audit_events (appended s.audit_events) refl
                    (ground arith))
                  (sound j)
          ],
          unfold verify_audit_chain in
              rw now (rw (checks, nonempty-append_row (events_of wid s.audit_events) _)),
        )

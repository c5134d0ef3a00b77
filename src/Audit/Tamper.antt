-- ===== src/Audit/Tamper.antt =====
-- audit.py: a verified chain determines what was logged.
use eldridge.Prelude.{
  ℕ, suc, ◌≡◌, sym, ◌∙◌, String, true, List, [], ◌∷◌, some, arith, string_eq, some,
}
use eldridge.Persistence.{AuditEvent}
use eldridge.Env.{Env, IsCollisionFree, digest, text_at}
use eldridge.Audit.{
  genesis_hash, events_of, latest, canonical_fields, canonical_of, check_from, verify_audit_chain,
  count,
}
use eldridge.Audit.Chain.{check_cons, latest-tail, tail_hash}

module _ (env : Env) where
  -- The same events in the same order: their hashed texts and their hashes agree one by one.
  abbrev pub SameEvents : List AuditEvent → List AuditEvent → Type 0
  SameEvents [] [] = Unit
  SameEvents (e ∷ es) (f ∷ fs) =
      (env.json_dumps (canonical_of e) ≡ env.json_dumps (canonical_of f))
      × (e.event_hash ≡ f.event_hash)
      × SameEvents es fs
  SameEvents _ _ = ⊥

  module _ (free : IsCollisionFree env) where
    same_hash :
        (e f : AuditEvent)
        → digest env (canonical_of e) ≡ e.event_hash
        → digest env (canonical_of f) ≡ f.event_hash
        → e.event_hash ≡ f.event_hash
        → (env.json_dumps (canonical_of e) ≡ env.json_dumps (canonical_of f))
          × (e.previous_hash ≡ f.previous_hash)
    unfolding digest canonical_of canonical_fields text_at
    same_hash e f p q h =
        let texts =
          free.injective (env.json_dumps (canonical_of e)) (env.json_dumps (canonical_of f))
            (p ∙ h ∙ sym q) in
        let back : some e.previous_hash ≡ some f.previous_hash =
          free.read_back (canonical_of e) (canonical_of f) texts "previous_hash" in
        (texts, cc back)

    same_tail :
        (h k : String) (n : ℕ) (es fs : List AuditEvent)
        → check_from env h n es ≡ true
        → check_from env k n fs ≡ true
        → count es ≡ count fs
        → tail_hash h es ≡ tail_hash k fs
        → SameEvents es fs × (h ≡ k)
    unfolding count tail_hash
    same_tail h k n [] [] a b c t = (tt, t)
    same_tail h k n [] (f ∷ fs) a b c t = absurd (omega arith)
    same_tail h k n (e ∷ es) [] a b c t = absurd (omega arith)
    same_tail h k n (e ∷ es) (f ∷ fs) a b c t =
        let (e1, e2, e3, e4) = check_cons env h n e es a in
        let (f1, f2, f3, f4) = check_cons env k n f fs b in
        let (rest, hashes) =
          same_tail e.event_hash f.event_hash (suc n) es fs e4 f4 (omega arith) t in
        let (texts, prev) = same_hash e f e3 f3 hashes in
        ((texts, hashes, rest), sym e2 ∙ prev ∙ f2)

    -- Two logs whose chains for a workflow verify, with equally many events of it and the same
    -- hash in the last one, hold the same events of that workflow, one by one.
    pub verified_determines :
        (log log' : List AuditEvent) (wid : ℕ) (l l' : AuditEvent)
        → verify_audit_chain env log wid ≡ true
        → verify_audit_chain env log' wid ≡ true
        → count (events_of wid log) ≡ count (events_of wid log')
        → latest (events_of wid log) ≡ some l
        → latest (events_of wid log') ≡ some l'
        → l.event_hash ≡ l'.event_hash
        → SameEvents (events_of wid log) (events_of wid log')
    unfolding verify_audit_chain
    verified_determines log log' wid l l' v v' c a a' h =
        let k : check_from env genesis_hash 1 (events_of wid log) ≡ true = ground arith in
        let k' : check_from env genesis_hash 1 (events_of wid log') ≡ true = ground arith in
        let t : l.event_hash ≡ tail_hash genesis_hash (events_of wid log) =
          rw a at (latest-tail env genesis_hash 1 (events_of wid log) k).1 in
        let t' : l'.event_hash ≡ tail_hash genesis_hash (events_of wid log') =
          rw a' at (latest-tail env genesis_hash 1 (events_of wid log') k').1 in
        (same_tail genesis_hash genesis_hash 1 (events_of wid log) (events_of wid log') k k' c
          (sym t ∙ h ∙ t')).0

-- ===== src/Tx/Frame.antt =====
-- What a transaction may do to the session, one rule for each way to build a transaction.
use eldridge.Prelude.{◌≡◌, refl, Bool, true, false, if◌then◌else◌, Option, none, some}
use eldridge.Domain.{Error}
use eldridge.Result.{Result, ok, err}
use eldridge.Persistence.{Session}
use eldridge.Tx.{Tx, pure, raise, gets, continue, ◌>>=◌, or_raise, raise_if, lift, commit}

-- A relation between a session and a later one, about workflows, audit events and approvals: it
-- holds where none of the three tables changed.
pub record Frame : Type 1 where
  pub Rel : Session → Session → Type 0
  pub local :
      (s t : Session)
      → s.workflows ≡ t.workflows
      → s.audit_events ≡ t.audit_events
      → s.approvals ≡ t.approvals
      → Rel s t
  pub transitive : (s t u : Session) → Rel s t → Rel t u → Rel s u

-- Whenever `m` returns, the session that it leaves is related to the one that it met.
pub record Ensures {A : Type 0} (f : Frame) (m : Tx A) : Type 0 where
  pub at : (s t : Session) (a : A) → m s ≡ ok (a, t) → f.Rel s t

module _ {A : Type 0} {f : Frame} where
  pub Ensures-pure : (a : A) → Ensures f (pure a)
  unfolding pure
  Ensures-pure a = record {
    at = λ s t b h. let e : s ≡ t = cc in rw (← e) (f.local s s refl refl refl);
  }

  pub Ensures-raise : (e : Error) → Ensures f (raise {A = A} e)
  unfolding raise
  Ensures-raise e = record { at = λ s t b h. absurd (cc h) }

  pub Ensures-gets : (g : Session → A) → Ensures f (gets g)
  unfolding gets
  Ensures-gets g = record {
    at = λ s t b h. let e : s ≡ t = cc in rw (← e) (f.local s s refl refl refl);
  }

  pub Ensures-or_raise : (o : Option A) (e : Error) → Ensures f (or_raise o e)
  Ensures-or_raise none e = Ensures-raise e
  Ensures-or_raise (some a) e = Ensures-pure a

  pub Ensures-lift : (r : Result A) → Ensures f (lift r)
  Ensures-lift (ok a) = Ensures-pure a
  Ensures-lift (err e) = Ensures-raise e

  pub Ensures-if :
      (b : Bool) (m n : Tx A) → Ensures f m → Ensures f n → Ensures f (if b then m else n)
  Ensures-if true m n hm hn = hm
  Ensures-if false m n hm hn = hn

  -- After a call, an error included, the session is related to the one before.
  pub Ensures-commit : (m : Tx A) → Ensures f m → (s : Session) → f.Rel s (commit m s)
  unfolding commit
  Ensures-commit m h s = result (m s) refl
    where
      result :
          (r : Result (A × Session)) → m s ≡ r → f.Rel s (elim r [ ok (a, s') ↦ s' | err e ↦ s ])
      result (ok (a, t)) e = h.at s t a e
      result (err x) e = f.local s s refl refl refl

pub Ensures-raise_if : {f : Frame} (b : Bool) (e : Error) → Ensures f (raise_if b e)
Ensures-raise_if true e = Ensures-raise e
Ensures-raise_if false e = Ensures-pure tt

module _ {A B : Type 0} {f : Frame} where
  step :
      (k : A → Tx B) (s : Session) (r : Result (A × Session)) (u : Session) (b : B)
      → ((t : Session) (a : A) → r ≡ ok (a, t) → f.Rel s t)
      → ((a : A) → Ensures f (k a))
      → continue r k ≡ ok (b, u)
      → f.Rel s u
  unfolding continue
  step k s (ok (a, t)) u b hm hk e = f.transitive s t u (hm t a refl) ((hk a).at t u b e)
  step k s (err x) u b hm hk e = absurd (cc e)

  pub Ensures-bind :
      (m : Tx A) (k : A → Tx B) → Ensures f m → ((a : A) → Ensures f (k a)) → Ensures f (m >>= k)
  unfolding ◌>>=◌
  Ensures-bind m k hm hk = record {
    at = λ s u b e. step k s (m s) u b (λ t a h. hm.at s t a h) hk e;
  }

pub ruleset frame_rules = (
  Ensures-pure, Ensures-raise, Ensures-gets, Ensures-or_raise, Ensures-lift, Ensures-if,
  Ensures-raise_if, Ensures-bind,
)

-- ===== src/Tx/Inversion.antt =====
-- What a transaction that returned did on its way.
use eldridge.Prelude.{◌≡◌, refl, Bool, true, false, Option, none, some}
use eldridge.Domain.{Error}
use eldridge.Result.{Result, ok, err}
use eldridge.Persistence.{Session}
use eldridge.Tx.{Tx, pure, raise, gets, lift, continue, ◌>>=◌, or_raise, raise_if}

module _ {A B : Type 0} where
  inverted :
      (k : A → Tx B) (r : Result (A × Session)) (u : Session) (b : B)
      → continue r k ≡ ok (b, u)
      → (a : A) × (t : Session) × (r ≡ ok (a, t)) × (k a t ≡ ok (b, u))
  unfolding continue
  inverted k (ok (a, t)) u b h = (a, t, refl, h)
  inverted k (err e) u b h = absurd (cc h)

  -- Both parts of a composition returned.
  pub bind-ok :
      (m : Tx A) (k : A → Tx B) (s u : Session) (b : B)
      → (m >>= k) s ≡ ok (b, u)
      → (a : A) × (t : Session) × (m s ≡ ok (a, t)) × (k a t ≡ ok (b, u))
  unfolding ◌>>=◌
  bind-ok m k s u b h = inverted k (m s) u b h

  -- A row that had to be there was.
  pub or_raise-ok :
      (o : Option A) (e : Error) (k : A → Tx B) (s u : Session) (b : B)
      → (or_raise o e >>= k) s ≡ ok (b, u)
      → (a : A) × (o ≡ some a) × (k a s ≡ ok (b, u))
  unfolding ◌>>=◌ continue raise pure
  or_raise-ok none e k s u b h = absurd (cc h)
  or_raise-ok (some a) e k s u b h = (a, refl, h)

module _ {B : Type 0} where
  -- A test that would have raised was false.
  pub raise_if-ok :
      (c : Bool) (e : Error) (k : Unit {0} → Tx B) (s u : Session) (b : B)
      → (raise_if c e >>= k) s ≡ ok (b, u)
      → (c ≡ false) × (k tt s ≡ ok (b, u))
  unfolding ◌>>=◌ continue raise pure
  raise_if-ok true e k s u b h = absurd (cc h)
  raise_if-ok false e k s u b h = (refl, h)

-- A step that returns, if it does, what `P` says, and leaves the session as it was.
abbrev pub Reads : {A : Type 0} → Tx A → Session → (A → Type 0) → Type 0
Reads {A} m s P = (a : A) (t : Session) → m s ≡ ok (a, t) → (t ≡ s) × P a

module _ {A B : Type 0} where
  -- What follows a step that only reads runs on the same session.
  pub read-ok :
      (m : Tx A) (k : A → Tx B) (s u : Session) (b : B) (P : A → Type 0)
      → Reads m s P
      → (m >>= k) s ≡ ok (b, u)
      → (a : A) × P a × (k a s ≡ ok (b, u))
  read-ok m k s u b P reads h =
      let (a, t, e, h') = bind-ok m k s u b h in
      let (same, p) = reads a t e in (a, p, rw same at h')

  pub gets-ok :
      (f : Session → A) (k : A → Tx B) (s u : Session) (b : B)
      → (gets f >>= k) s ≡ ok (b, u)
      → k (f s) s ≡ ok (b, u)
  unfolding gets ◌>>=◌ continue
  gets-ok f k s u b h = h

  pub lift-ok :
      (r : Result A) (k : A → Tx B) (s u : Session) (b : B)
      → (lift r >>= k) s ≡ ok (b, u)
      → (a : A) × (r ≡ ok a) × (k a s ≡ ok (b, u))
  unfolding ◌>>=◌ continue raise pure
  lift-ok (err e) k s u b h = absurd (cc h)
  lift-ok (ok a) k s u b h = (a, refl, h)

module _ {A : Type 0} where
  pub pure-ok : (a b : A) (s t : Session) → pure a s ≡ ok (b, t) → (t ≡ s) × (b ≡ a)
  unfolding pure
  pure-ok a b s t h = (cc, cc)

  -- A row that is looked up and has to be there.
  pub found-ok :
      (f : Session → Option A) (e : Error) (s : Session)
      → Reads (gets f >>= λ o. or_raise o e) s (λ a. f s ≡ some a)
  unfolding gets ◌>>=◌ continue
  found-ok f e s a t h = or_raise_reads (f s) e s a t h
    where
      or_raise_reads :
          (o : Option A) (e : Error) (s : Session) → Reads (or_raise o e) s (λ a. o ≡ some a)
      or_raise_reads none e s a t h = absurd (unfold raise in cc h)
      or_raise_reads (some x) e s a t h = let (same, value) = pure-ok x a s t h in (same, cc)

-- A last test that did not raise.
pub raise_if-end : (c : Bool) (e : Error) (s : Session) → Reads (raise_if c e) s (λ _. c ≡ false)
unfolding raise pure
raise_if-end true e s x t h = absurd (cc h)
raise_if-end false e s x t h = (cc, refl)

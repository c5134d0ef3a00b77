-- ===== src/Tx.antt =====
-- One transaction, `with self.session_factory() as session, session.begin()`: it reads and
-- writes the session, and an exception rolls it back, so an error carries no session.
pub mod Frame
pub mod Inversion
use eldridge.Prelude.{ℕ, Bool, true, false, Option, none, some}
use eldridge.Domain.{Error}
use eldridge.Result.{Result, ok, err}
use eldridge.Persistence.{Session}

abbrev pub Tx : Type 0 → Type 0
Tx A = Session → Result (A × Session)

module _ {A : Type 0} where
  unfoldable pub pure : A → Tx A
  pure a s = ok (a, s)

  unfoldable pub raise : Error → Tx A
  raise e s = err e

  unfoldable pub gets : (Session → A) → Tx A
  gets f s = ok (f s, s)

  continue : {B : Type 0} → Result (A × Session) → (A → Tx B) → Result (B × Session)
  continue (ok (a, s)) f = f a s
  continue (err e) f = err e

infixl 5 ◌>>=◌ ◌>>◌
unfoldable pub ◌>>=◌ : {A B : Type 0} → Tx A → (A → Tx B) → Tx B
unfolding pure raise gets continue
◌>>=◌ m f s = continue (m s) f

abbrev pub ◌>>◌ : {A B : Type 0} → Tx A → Tx B → Tx B
m >> k = m >>= λ _. k

unfoldable pub modify_session : (Session → Session) → Tx (Unit {0})
modify_session f s = ok (tt, f s)

-- `if test: raise error`
abbrev pub raise_if : Bool → Error → Tx (Unit {0})
raise_if true e = raise e
raise_if false e = pure tt

-- `if row is None: raise error`
abbrev pub or_raise : {A : Type 0} → Option A → Error → Tx A
or_raise none e = raise e
or_raise (some a) e = pure a

-- A step that works on no session.
abbrev pub lift : {A : Type 0} → Result A → Tx A
lift (ok a) = pure a
lift (err e) = raise e

-- The session after a call: an exception leaves what was there.
unfoldable pub commit : {A : Type 0} → Tx A → Session → Session
commit m s = elim (m s) [ ok (a, s') ↦ s' | err e ↦ s ]

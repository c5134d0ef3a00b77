-- ===== src/Result.antt =====
-- A Python function that may raise returns a `Result`; `do` blocks chain its steps.
pub mod Inversion
use eldridge.Prelude.{ℕ, Bool, true, false}
use eldridge.Domain.{Error}

-- A value, or the class of the exception that was raised.
pub data Result {ℓ} (Value : Type ℓ) : Type ℓ where
  err : (raised : Error) → Result Value
  ok : (returned : Value) → Result Value

-- What an operation with an idempotency key answers first: the key of the row that an earlier
-- request made, or of the row of a request that is now under way.
pub data Begun : Type 0 where
  replayed started : (id : ℕ) → Begun

infixl 5 ◌>>=◌ ◌>>◌
-- The next step runs on what the first returned; an exception passes it by.
abbrev pub ◌>>=◌ {ℓ κ} :
    {Value : Type ℓ} {Next : Type κ} (first : Result Value) (next : Value → Result Next)
    → Result Next
(err raised) >>= next = err raised
(ok returned) >>= next = next returned

abbrev pub ◌>>◌ {ℓ} : {Next : Type ℓ} (first : Result (Unit {0})) (next : Result Next) → Result Next
first >> next = first >>= λ _. next

-- `if test: raise error`
abbrev pub raise_if : (test : Bool) (error : Error) → Result (Unit {0})
raise_if false error = ok tt
raise_if true error = err error

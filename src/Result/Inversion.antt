-- ===== src/Result/Inversion.antt =====
-- What a chain of steps that returned did on its way.
use eldridge.Prelude.{◌≡◌, refl, Bool, true, false}
use eldridge.Domain.{Error}
use eldridge.Result.{Result, ok, err, ◌>>=◌, ◌>>◌, raise_if}

-- A test that would have raised was false.
pub test-ok :
    {B : Type 0} (c : Bool) (e : Error) (k : Result B) (b : B)
    → (raise_if c e >> k) ≡ ok b
    → (c ≡ false) × (k ≡ ok b)
test-ok true e k b h = absurd (cc h)
test-ok false e k b h = (refl, h)

-- Both parts of a composition returned.
pub chain-ok :
    {A B : Type 0} (r : Result A) (k : A → Result B) (b : B)
    → (r >>= k) ≡ ok b
    → (a : A) × (r ≡ ok a) × (k a ≡ ok b)
chain-ok (err e) k b h = absurd (cc h)
chain-ok (ok a) k b h = (a, refl, h)

-- The value that was returned.
pub value-ok : {A : Type 0} (a b : A) → ok a ≡ ok b → b ≡ a
value-ok a b h = cc

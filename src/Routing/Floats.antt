-- ===== src/Routing/Floats.antt =====
-- Python's `float`, which routing.py and learning.py compute with, is not code of the repository:
-- its operations are a parameter, and so is the order that its comparisons make.
use eldridge.Prelude.{ℕ, suc, ◌≡◌, Bool, true, false, List, [], ◌∷◌}

pub record FloatOps : Type 1 where
  pub Float : Type 0
  -- the number p / q, as a literal such as `0.75` or as an `int` made a `float`
  pub of_ratio : ℕ → ℕ → Float
  pub add : Float → Float → Float
  pub sub : Float → Float → Float
  pub mul : Float → Float → Float
  pub div : Float → Float → Float
  pub minimum : Float → Float → Float
  -- `round(x, 6)`
  pub round6 : Float → Float
  -- `math.ceil(x)` of a number that is not negative
  pub ceil : Float → ℕ
  -- `x < y`
  pub lt : Float → Float → Bool

-- `<` on numbers that are not NaN: no two numbers are each less than the other, and what is not
-- below a number is not below anything that number is not below.
pub record IsOrdered (fl : FloatOps) : Type 0 where
  pub asymmetric : (a b : fl.Float) → fl.lt a b ≡ true → fl.lt b a ≡ false
  pub not_lt_trans : (a b c : fl.Float) → fl.lt a b ≡ false → fl.lt b c ≡ false → fl.lt a c ≡ false

module _ (fl : FloatOps) where
  open fl use {Float, of_ratio, add, div}

  sum_from : Float → List Float → Float
  sum_from acc [] = acc
  sum_from acc (x ∷ xs) = sum_from (add acc x) xs

  -- `sum(xs)`
  unfoldable pub sum : List Float → Float
  unfolding sum_from
  sum xs = sum_from (of_ratio 0 1) xs

  count_of : List Float → ℕ
  count_of [] = 0
  count_of (x ∷ xs) = suc (count_of xs)

  -- `sum(xs) / len(xs)`
  unfoldable pub mean : List Float → Float
  unfolding sum count_of
  mean xs = div (sum xs) (of_ratio (count_of xs) 1)

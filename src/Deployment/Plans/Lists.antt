-- ===== src/Deployment/Plans/Lists.antt =====
-- deployment_recovery.py and credentials.py: the tests on lists of names, in the terms of their
-- items.
use eldridge.Prelude.{
  String, true, false, ◌≡◌, [], ◌∷◌, contains, negate, and-true, List, string_eq, option_eq, nat_eq,
  arith,
}
use eldridge.Domain.{workflow_state_eq}
use eldridge.Routing.{all_distinct}
use eldridge.Deployment.Plans.{subset}
use eldridge.Routing.Sort.{All}

-- No item stands twice in a list.
abbrev pub IsDistinct : List String → Type 0
IsDistinct [] = Unit
IsDistinct (x ∷ xs) = (contains x xs ≡ false) × IsDistinct xs

pub all_distinct-IsDistinct : (xs : List String) → all_distinct xs ≡ true → IsDistinct xs
unfolding all_distinct
all_distinct-IsDistinct [] h = tt
all_distinct-IsDistinct (x ∷ xs) h =
    let (fresh, rest) = and-true (negate (contains x xs)) _ h in
    (ground arith, all_distinct-IsDistinct xs rest)

-- Every item is in the scope.
abbrev pub IsWithin : List String → List String → Type 0
IsWithin xs scope = All (λ x. contains x scope ≡ true) xs

pub subset-IsWithin : (xs scope : List String) → subset xs scope ≡ true → IsWithin xs scope
unfolding subset
subset-IsWithin [] scope h = tt
subset-IsWithin (x ∷ xs) scope h =
    let (member, rest) = and-true (contains x scope) _ h in (member, subset-IsWithin xs scope rest)

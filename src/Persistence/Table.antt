-- ===== src/Persistence/Table.antt =====
-- A table: rows by their keys, which are their positions.
use eldridge.Prelude.{
  ℕ, zero, suc, ◌+◌, ◌<◌, false, ◌≡◌, refl, ap, Bool, Option, none, some, List, [], ◌∷◌, arith,
  if◌then◌else◌, ◌==◌, nat_eq, ltb, ◌&&◌, true, Option-cases, Bool-cases, inl, inr, and-true,
}
use mathlib.Core.Option

module _ {ℓ} {A : Type ℓ} where
  abbrev pub length : List A → ℕ
  length [] = 0
  length (x ∷ xs) = suc (length xs)

  -- `session.get(Row, key)`
  unfoldable pub get_elem? : List A → ℕ → Option A
  get_elem? [] i = none
  get_elem? (x ∷ xs) zero = some x
  get_elem? (x ∷ xs) (suc i) = get_elem? xs i

  -- Assignments to the attributes of the row with a key.
  unfoldable pub modify : ℕ → (A → A) → List A → List A
  modify i f [] = []
  modify zero f (x ∷ xs) = f x ∷ xs
  modify (suc i) f (x ∷ xs) = x ∷ modify i f xs

  -- `session.add(row)`
  unfoldable pub append_row : List A → A → List A
  append_row [] x = x ∷ []
  append_row (y ∷ ys) x = y ∷ append_row ys x

  -- The rows with their keys, from a first key on.
  unfoldable pub keyed_from : ℕ → List A → List (ℕ × A)
  keyed_from i [] = []
  keyed_from i (x ∷ xs) = (i, x) ∷ keyed_from (suc i) xs

  unfoldable pub keyed : List A → List (ℕ × A)
  unfolding keyed_from
  keyed xs = keyed_from 0 xs

  -- `where(test)`
  unfoldable pub select : (A → Bool) → List A → List A
  select p [] = []
  select p (x ∷ xs) = let rest = select p xs in if p x then x ∷ rest else rest

  -- `session.scalar(select(...).where(test))`, the first row
  unfoldable pub select_first : (A → Bool) → List A → Option A
  select_first p [] = none
  select_first p (x ∷ xs) = let rest = select_first p xs in if p x then some x else rest

  -- `order_by(...).desc().limit(1)` where the rows stand in ascending order: the last one
  unfoldable pub select_last : (A → Bool) → List A → Option A
  select_last p [] = none
  select_last p (x ∷ xs) = elim (select_last p xs) [
    | some y ↦ some y
    | none ↦ if p x then some x else none
  ]

  -- `order_by(key.desc()).limit(1)`: the row with the greatest key, the later one of equals
  unfoldable pub latest_by : (A → ℕ) → (A → Bool) → List A → Option A
  latest_by key p [] = none
  latest_by key p (x ∷ xs) = elim (latest_by key p xs) [
    | none ↦ if p x then some x else none
    | some y ↦ if p x && ltb (key y) (key x) then some x else some y
  ]

  pub get_elem?-modify :
      (i : ℕ) (f : A → A) (xs : List A) (j : ℕ)
      → get_elem? (modify i f xs) j
        ≡ (if i == j then Option.map f (get_elem? xs j) else get_elem? xs j)
  unfolding get_elem? modify
  get_elem?-modify i f [] j = ground arith
  get_elem?-modify zero f (x ∷ xs) zero = refl
  get_elem?-modify zero f (x ∷ xs) (suc j) = ground arith
  get_elem?-modify (suc i) f (x ∷ xs) zero = ground arith
  get_elem?-modify (suc i) f (x ∷ xs) (suc j) = ground (arith, get_elem?-modify i f xs j)

  pub get_elem?-append_row :
      (xs : List A) (x : A) (j : ℕ)
      → get_elem? (append_row xs x) j ≡ (if length xs == j then some x else get_elem? xs j)
  unfolding get_elem? append_row
  get_elem?-append_row [] x zero = refl
  get_elem?-append_row [] x (suc j) = ground arith
  get_elem?-append_row (y ∷ ys) x zero = ground arith
  get_elem?-append_row (y ∷ ys) x (suc j) = ground (arith, get_elem?-append_row ys x j)

  -- No row stands at the key that is drawn next.
  pub get_elem?-length : (xs : List A) → get_elem? xs (length xs) ≡ none
  unfolding get_elem?
  get_elem?-length [] = refl
  get_elem?-length (x ∷ xs) = get_elem?-length xs

  pub length-modify : (i : ℕ) (f : A → A) (xs : List A) → length (modify i f xs) ≡ length xs
  unfolding modify
  length-modify i f [] = refl
  length-modify zero f (x ∷ xs) = refl
  length-modify (suc i) f (x ∷ xs) = ap suc (length-modify i f xs)

module _ {ℓ} {A : Type ℓ} (key : A → ℕ) (p : A → Bool) where
  -- The row that is chosen passes the test and stands in the table.
  pub latest_by-some :
      (xs : List A) (x : A)
      → latest_by key p xs ≡ some x
      → (p x ≡ true) × (i : ℕ) × (get_elem? xs i ≡ some x)
  unfolding latest_by get_elem?
  latest_by-some [] x h = absurd (cc h)
  latest_by-some (y ∷ ys) x h = elim (Option-cases (latest_by key p ys)) [
    | inl missing ↦
        let h' = rw missing at h in
        elim (Bool-cases (p y)) [
          | inl good ↦ let h'' = rw good at h' in let e : y ≡ x = cc in (rw (← e) good, 0, cc)
          | inr bad ↦ let h'' = rw bad at h' in absurd (cc h'')
        ]
    | inr (z, later) ↦
        let h' = rw later at h in
        elim (Bool-cases (p y && ltb (key z) (key y))) [
          | inl first ↦
              let h'' = rw first at h' in
              let e : y ≡ x = cc in (rw (← e) (and-true (p y) _ first).0, 0, cc)
          | inr rest ↦
              let h'' = rw rest at h' in
              let e : z ≡ x = cc in
              let (good, i, found) = latest_by-some ys z later in
              (rw (← e) good, suc i, rw (← e) found)
        ]
  ]

module _ {ℓ} {A : Type ℓ} where
  pub keyed_from-lookup :
      (n : ℕ) (xs : List A) (i : ℕ) (x : ℕ × A)
      → get_elem? (keyed_from n xs) i ≡ some x
      → (x.0 ≡ n + i) × (get_elem? xs i ≡ some x.1)
  unfolding keyed_from get_elem?
  keyed_from-lookup n [] i x h = absurd (cc h)
  keyed_from-lookup n (y ∷ ys) zero x h = let e : (n, y) ≡ x = cc in rw (← e) (omega arith, refl)
  keyed_from-lookup n (y ∷ ys) (suc i) x h =
      let (place, found) = keyed_from-lookup (suc n) ys i x h in (omega (arith, place), found)

  -- A row with its key stands under that key.
  pub keyed-lookup :
      (xs : List A) (i : ℕ) (x : ℕ × A)
      → get_elem? (keyed xs) i ≡ some x
      → get_elem? xs x.0 ≡ some x.1
  unfolding keyed
  keyed-lookup xs i x h =
      let (place, found) = keyed_from-lookup 0 xs i x h in
      let e : i ≡ x.0 = omega (arith, place) in rw e at found

  pub get_elem?-new : (xs : List A) (x : A) → get_elem? (append_row xs x) (length xs) ≡ some x
  get_elem?-new xs x = ground (
    arith,
    get_elem?-append_row xs x (length xs),
    (nat_eq.equals_iff (length xs) (length xs)).1 refl,
  )

module _ {A : Type 0} (p : A → Bool) where
  -- A row stands under a key, passes the test, and none before it does.
  abbrev pub IsFirst : List A → ℕ → A → Type 0
  IsFirst xs k x =
      (get_elem? xs k ≡ some x)
      × (p x ≡ true)
      × ((j : ℕ) (y : A) → j < k → get_elem? xs j ≡ some y → p y ≡ false)

  pub select_first-IsFirst :
      (xs : List A) (x : A) → select_first p xs ≡ some x → (k : ℕ) × IsFirst xs k x
  unfolding select_first get_elem?
  select_first-IsFirst [] x h = absurd (cc h)
  select_first-IsFirst (y ∷ ys) x h = elim (Bool-cases (p y)) [
    | inl good ↦
        let h' = rw good at h in
        let e : y ≡ x = cc in (0, (cc, rw (← e) good, λ j z below. absurd (omega (arith, below))))
    | inr bad ↦
        let h' = rw bad at h in
        let (k, (found, good, first)) = select_first-IsFirst ys x h' in
        (suc k, (found, good, λ j z below there. later y ys k first bad j z below there))
  ]
    where
      later :
          (y : A) (ys : List A) (k : ℕ)
          → ((j : ℕ) (z : A) → j < k → get_elem? ys j ≡ some z → p z ≡ false)
          → p y ≡ false
          → (j : ℕ) (z : A) → j < suc k
          → get_elem? (y ∷ ys) j ≡ some z
          → p z ≡ false
      later y ys k first bad zero z below there = let e : y ≡ z = cc in rw (← e) bad
      later y ys k first bad (suc j) z below there = first j z (omega (arith, below)) there

  pub IsFirst-select_first :
      (xs : List A) (k : ℕ) (x : A) → IsFirst xs k x → select_first p xs ≡ some x
  unfolding select_first get_elem?
  IsFirst-select_first [] k x (found, good, first) = absurd (cc found)
  IsFirst-select_first (y ∷ ys) zero x (found, good, first) =
      let e : y ≡ x = cc in rw e (rw good refl)
  IsFirst-select_first (y ∷ ys) (suc k) x (found, good, first) =
      let bad = first 0 y (omega arith) refl in
      let rest : (j : ℕ) (z : A) → j < k → get_elem? ys j ≡ some z → p z ≡ false =
        λ j z below there. first (suc j) z (omega (arith, below)) there in
      rw bad (IsFirst-select_first ys k x (found, good, rest))

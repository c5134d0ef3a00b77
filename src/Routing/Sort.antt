-- ===== src/Routing/Sort.antt =====
-- `sorted` and `list.sort`, by a test that says what comes strictly before.
use eldridge.Prelude.{◌≡◌, Bool, true, false, List, [], ◌∷◌, if◌then◌else◌, Bool-cases, inl, inr}

-- Every element has the property.
abbrev pub All {ℓ κ} : {Item : Type ℓ} (Holds : Item → Type κ) (items : List Item) → Type κ
All Holds [] = Unit
All Holds (item ∷ rest) = Holds item × All Holds rest

module _ {A : Type 0} (before : A → A → Bool) where
  -- Puts `x` in front of the first element that does not come before it: equal ones keep order.
  unfoldable pub insert_sorted : A → List A → List A
  insert_sorted x [] = x ∷ []
  insert_sorted x (y ∷ ys) =
      let rest = insert_sorted x ys in if before y x then y ∷ rest else x ∷ y ∷ ys

  unfoldable pub sort_by : List A → List A
  unfolding insert_sorted
  sort_by [] = []
  sort_by (x ∷ xs) = insert_sorted x (sort_by xs)

  module _ (P : A → Type 0) where
    pub All-insert_sorted : (x : A) (ys : List A) → P x → All P ys → All P (insert_sorted x ys)
    unfolding insert_sorted
    All-insert_sorted x [] p h = (p, tt)
    All-insert_sorted x (y ∷ ys) p h = elim (Bool-cases (before y x)) [
      | inl b ↦ rw b (h.0, All-insert_sorted x ys p h.1)
      | inr b ↦ rw b (p, h)
    ]

    pub All-sort_by : (xs : List A) → All P xs → All P (sort_by xs)
    unfolding sort_by
    All-sort_by [] h = tt
    All-sort_by (x ∷ xs) h = All-insert_sorted x (sort_by xs) h.0 (All-sort_by xs h.1)

    pub All-of-insert_sorted : (x : A) (ys : List A) → All P (insert_sorted x ys) → P x × All P ys
    unfolding insert_sorted
    All-of-insert_sorted x [] h = h
    All-of-insert_sorted x (y ∷ ys) h = elim (Bool-cases (before y x)) [
      | inl b ↦
          let h' : P y × All P (insert_sorted x ys) = rw b at h in
          let r = All-of-insert_sorted x ys h'.1 in (r.0, (h'.0, r.1))
      | inr b ↦ rw b at h
    ]

    pub All-of-sort_by : (xs : List A) → All P (sort_by xs) → All P xs
    unfolding sort_by
    All-of-sort_by [] h = tt
    All-of-sort_by (x ∷ xs) h =
        let r = All-of-insert_sorted x (sort_by xs) h in (r.0, All-of-sort_by xs r.1)

  -- The head of a sorted list is not beaten, for a relation that `before` decides one way or the
  -- other and that is transitive.
  module _ (R : A → A → Type 0) (strict : (a b : A) → before a b ≡ true → R a b)
      (loose : (a b : A) → before a b ≡ false → R b a) (reflexive : (a : A) → R a a)
      (transitive : (a b c : A) → R a b → R b c → R a c) where
    Leads : List A → Type 0
    Leads [] = Unit
    Leads (x ∷ xs) = All (R x) xs

    below : (x y : A) (ys : List A) → R x y → All (R y) ys → All (R x) ys
    below x y [] h k = tt
    below x y (z ∷ zs) h k = (transitive x y z h k.0, below x y zs h k.1)

    Leads-insert_sorted : (x : A) (ys : List A) → Leads ys → Leads (insert_sorted x ys)
    unfolding insert_sorted Leads
    Leads-insert_sorted x [] h = tt
    Leads-insert_sorted x (y ∷ ys) h = elim (Bool-cases (before y x)) [
      | inl b ↦ rw b (All-insert_sorted (R y) x ys (strict y x b) h)
      | inr b ↦ rw b (loose y x b, below x y ys (loose y x b) h)
    ]

    Leads-sort : (xs : List A) → Leads (sort_by xs)
    unfolding sort_by Leads
    Leads-sort [] = tt
    Leads-sort (x ∷ xs) = Leads-insert_sorted x (sort_by xs) (Leads-sort xs)

    pub head-sort_by : (xs : List A) (h : A) (rest : List A) → sort_by xs ≡ h ∷ rest → All (R h) xs
    unfolding Leads
    head-sort_by xs h rest e =
        let led : All (R h) rest = rw e at (Leads-sort xs) in
        let sorted : All (R h) (sort_by xs) = rw e (reflexive h, led) in
        All-of-sort_by (R h) xs sorted

-- ===== src/Tasks/Leases/Order.antt =====
-- workflow_tasks.py: the task that `lease_next_task` chooses, by creation time and position.
use eldridge.Prelude.{
  ℕ, suc, zero, ◌+◌, ◌≡◌, refl, true, false, ◌&&◌, negate, List, [], ◌∷◌, Option, none, some, arith,
  nat_eq, Bool-cases, inl, inr, Option-cases,
}
use eldridge.Routing.Sort.{All}
use eldridge.Persistence.{Task, get_elem?, keyed, keyed_from}
use eldridge.Env.{Env}
use eldridge.Tasks.Leasing.{in_scope, is_ready, leasable, is_earlier, earliest}

is_earlier_trans :
    (a b c : Task) → is_earlier a b ≡ true → is_earlier b c ≡ true → is_earlier a c ≡ true
unfolding is_earlier
is_earlier_trans a b c h k = ground arith

is_earlier-total : (a b : Task) → is_earlier a b ≡ false → is_earlier b a ≡ true
unfolding is_earlier
is_earlier-total a b h = ground arith

is_earlier_refl : (a : Task) → is_earlier a a ≡ true
unfolding is_earlier
is_earlier_refl a = ground arith

-- It is among the rows, so it has what all of them have.
pub earliest-All :
    (P : ℕ × Task → Type 0) (l : List (ℕ × Task)) (x : ℕ × Task)
    → earliest l ≡ some x
    → All P l
    → P x
unfolding earliest
earliest-All P [] x h all = absurd (cc h)
earliest-All P ((i, u) ∷ rest) x h (p, all) = elim (Option-cases (earliest rest)) [
  | inl nobody ↦ let h' = rw nobody at h in let e : (i, u) ≡ x = cc in rw (← e) p
  | inr ((j, v), found) ↦
      let h' = rw found at h in
      elim (Bool-cases (is_earlier u v)) [
        | inl before ↦ let h'' = rw before at h' in let e : (i, u) ≡ x = cc in rw (← e) p
        | inr after ↦
            let h'' = rw after at h' in
            let e : earliest rest ≡ some x = cc in earliest-All P rest x e all
      ]
]

earliest-none : (l : List (ℕ × Task)) → earliest l ≡ none → l ≡ []
unfolding earliest
earliest-none [] h = refl
earliest-none ((i, u) ∷ rest) h = elim (Option-cases (earliest rest)) [
  | inl nobody ↦ let h' = rw nobody at h in absurd (cc h')
  | inr ((j, v), found) ↦
      let h' = rw found at h in
      elim (Bool-cases (is_earlier u v)) [
        | inl before ↦ let h'' = rw before at h' in absurd (cc h'')
        | inr after ↦ let h'' = rw after at h' in absurd (cc h'')
      ]
]

abbrev pub NoneBefore : Task → List (ℕ × Task) → Type 0
NoneBefore t l = All (λ x. is_earlier t x.1 ≡ true) l

NoneBefore-trans :
    (t u : Task) (l : List (ℕ × Task)) → is_earlier t u ≡ true → NoneBefore u l → NoneBefore t l
NoneBefore-trans t u [] h k = tt
NoneBefore-trans t u ((i, v) ∷ l) h (k, ks) =
    (is_earlier_trans t u v h k, NoneBefore-trans t u l h ks)

no_later : (u t : Task) → u ≡ t → is_earlier t u ≡ true
no_later u t e = rw e (is_earlier_refl t)

-- Every row may stand after it.
pub earliest-NoneBefore :
    (l : List (ℕ × Task)) (tid : ℕ) (t : Task) → earliest l ≡ some (tid, t) → NoneBefore t l
unfolding earliest
earliest-NoneBefore [] tid t h = tt
earliest-NoneBefore ((i, u) ∷ rest) tid t h = elim (Option-cases (earliest rest)) [
  | inl nobody ↦
      let h' = rw nobody at h in
      let e : u ≡ t = cc in
      let none_left = earliest-none rest nobody in rw (← e, none_left) (is_earlier_refl u, tt)
  | inr ((j, v), found) ↦
      let h' = rw found at h in
      let rest_after = earliest-NoneBefore rest j v found in
      elim (Bool-cases (is_earlier u v)) [
        | inl before ↦
            let h'' = rw before at h' in
            let e : u ≡ t = cc in
            (
              no_later u t e,
              NoneBefore-trans t u rest (no_later u t e)
                  (NoneBefore-trans u v rest before rest_after),
            )
        | inr after ↦
            let h'' = rw after at h' in
            let e : v ≡ t = cc in
            (
              is_earlier_trans t v u (no_later v t e) (is_earlier-total u v after),
              NoneBefore-trans t v rest (no_later v t e) rest_after,
            )
      ]
]

module _ (env : Env) (scope : Option ℕ) where
  pub leasable-All :
      (P : ℕ × Task → Type 0) (l : List (ℕ × Task))
      → All P l
      → All
          (λ x.
            P x
            × (is_ready x.1 ≡ true)
            × (in_scope scope x.1 ≡ true)
            × (env.task_locked x.0 ≡ false))
          (leasable env scope l)
  unfolding leasable
  leasable-All P [] h = tt
  leasable-All P ((i, t) ∷ rest) (p, ps) =
      elim (Bool-cases (is_ready t && (in_scope scope t && negate (env.task_locked i)))) [
        | inl yes' ↦ rw yes' ((p, ground arith, ground arith, ground arith), leasable-All P rest ps)
        | inr no' ↦ rw no' (leasable-All P rest ps)
      ]

  -- A row that the query asks for is among those found.
  pub NoneBefore-leasable :
      (t : Task) (l : List (ℕ × Task))
      → NoneBefore t (leasable env scope l)
      → All
          (λ x.
            is_ready x.1 ≡ true
            → in_scope scope x.1 ≡ true
            → env.task_locked x.0 ≡ false
            → is_earlier t x.1 ≡ true)
          l
  unfolding leasable
  NoneBefore-leasable t [] h = tt
  NoneBefore-leasable t ((i, u) ∷ rest) h =
      elim (Bool-cases (is_ready u && (in_scope scope u && negate (env.task_locked i)))) [
        | inl yes' ↦ let h' = rw yes' at h in ((λ a b c. h'.0), NoneBefore-leasable t rest h'.1)
        | inr no' ↦
            let h' = rw no' at h in
            ((λ a b c. absurd (ground arith)), NoneBefore-leasable t rest h')
      ]

keyed_from-All :
    (n : ℕ) (all : List Task) (xs : List Task)
    → ((i : ℕ) → get_elem? all (i + n) ≡ get_elem? xs i)
    → All (λ x. get_elem? all x.0 ≡ some x.1) (keyed_from n xs)
unfolding keyed_from get_elem?
keyed_from-All n all [] h = tt
keyed_from-All n all (x ∷ xs) h =
    let z : 0 + n ≡ n = omega arith in
    let first : get_elem? all n ≡ some x = rw z at (h 0) in
    (
      first,
      keyed_from-All (suc n) all xs
          (λ i. let e : i + suc n ≡ suc i + n = omega arith in rw e (h (suc i))),
    )

pub keyed-All : (xs : List Task) → All (λ x. get_elem? xs x.0 ≡ some x.1) (keyed xs)
unfolding keyed
keyed-All xs = keyed_from-All 0 xs xs (λ i. let e : i + 0 ≡ i = omega arith in rw e refl)

of_keyed_from :
    (P : ℕ × Task → Type 0) (n : ℕ) (xs : List Task) (i : ℕ) (x : Task)
    → All P (keyed_from n xs)
    → get_elem? xs i ≡ some x
    → P (i + n, x)
unfolding keyed_from get_elem?
of_keyed_from P n [] i x h k = absurd (cc k)
of_keyed_from P n (y ∷ ys) zero x (h, hs) k =
    let e : y ≡ x = cc in let z : 0 + n ≡ n = omega arith in rw (z, ← e) h
of_keyed_from P n (y ∷ ys) (suc i) x (h, hs) k =
    let e : i + suc n ≡ suc i + n = omega arith in rw (← e) (of_keyed_from P (suc n) ys i x hs k)

pub of_keyed :
    (P : ℕ × Task → Type 0) (xs : List Task) (i : ℕ) (x : Task)
    → All P (keyed xs)
    → get_elem? xs i ≡ some x
    → P (i, x)
unfolding keyed
of_keyed P xs i x h k =
    let e : i + 0 ≡ i = omega arith in
    let p : P (i + 0, x) = of_keyed_from P 0 xs i x h k in rw e at p

-- ===== src/Prelude/Tests.antt =====
-- Boolean tests: the conditional, orders on the native numbers, and equality as an interface.
use Prim.Native.Nat.{ℕ, ◌≤◌, ◌<◌, compare, Ordering}
use Prim.Native.String.{String}
use mathlib.Core.Path.{◌≡◌, refl}
use mathlib.Core.Logic.{◌↔◌, ◌⊎◌, inl, inr}
use mathlib.Core.Bool.{Bool, true, false, ◌||◌, ◌&&◌}
use mathlib.Core.List.{List, [], ◌∷◌}
use mathlib.Core.Option.{Option, none, some}
use native.Mathlib.Omega.{arith}
use text.Mathlib.Text.{◌==◌ as str_eq}
use text.Mathlib.TextEquality.{eq_iff}

infix 1 if◌then◌else◌
abbrev pub if◌then◌else◌ {ℓ} : {A : Type ℓ} → Bool → A → A → A
if true then x else y = x
if false then x else y = y

abbrev pub ltb : ℕ → ℕ → Bool
ltb a b = elim (compare a b) [ Ordering.lt ↦ true | _ ↦ false ]

abbrev pub leb : ℕ → ℕ → Bool
leb a b = elim (compare a b) [ Ordering.gt ↦ false | _ ↦ true ]

abbrev nat_beq : ℕ → ℕ → Bool
nat_beq a b = elim (compare a b) [ Ordering.eq ↦ true | _ ↦ false ]

pub ltb→lt : (a b : ℕ) → ltb a b ≡ true → a < b
ltb→lt a b h = ground arith

pub leb→le : (a b : ℕ) → leb a b ≡ true → a ≤ b
leb→le a b h = ground arith

pub nat_beq_iff : (a b : ℕ) → (nat_beq a b ≡ true) ↔ (a ≡ b)
nat_beq_iff a b = ground arith

-- Python's `==` on a type of values.
pub record Eq {ℓ} (Value : Type ℓ) : Type ℓ where
  -- what `__eq__` answers, and that it answers for equality
  pub equals : (left right : Value) → Bool
  pub equals_iff : (left right : Value) → (equals left right ≡ true) ↔ (left ≡ right)

infix 50 ◌==◌ ◌!=◌
abbrev pub ◌==◌ {ℓ} : {Value : Type ℓ} ⦃eq : Eq Value⦄ → (left right : Value) → Bool
◌==◌ ⦃eq⦄ left right = eq.equals left right

abbrev pub negate : Bool → Bool
negate true = false
negate false = true

abbrev pub ◌!=◌ {ℓ} : {Value : Type ℓ} ⦃eq : Eq Value⦄ → (left right : Value) → Bool
left != right = negate (left == right)

instance abbrev pub nat_eq : Eq ℕ
nat_eq = record { equals = nat_beq; equals_iff = nat_beq_iff }

instance abbrev pub string_eq : Eq String
string_eq = record { equals = str_eq; equals_iff = eq_iff }

module _ {ℓ} {A : Type ℓ} ⦃e : Eq A⦄ where
  abbrev option_beq : Option A → Option A → Bool
  option_beq none none = true
  option_beq none (some b) = false
  option_beq (some a) none = false
  option_beq (some a) (some b) = a == b

  pub option_beq_iff : (a b : Option A) → (option_beq a b ≡ true) ↔ (a ≡ b)
  option_beq_iff none none = ground arith
  option_beq_iff none (some b) = ground arith
  option_beq_iff (some a) none = ground arith
  option_beq_iff (some a) (some b) = ground (arith, e.equals_iff a b)

  instance abbrev pub option_eq : Eq (Option A)
  option_eq = record { equals = option_beq; equals_iff = option_beq_iff }

  -- `x in xs`
  abbrev pub contains : A → List A → Bool
  contains a [] = false
  contains a (x ∷ xs) = a == x || contains a xs

pub Bool-cases : (b : Bool) → (b ≡ true) ⊎ (b ≡ false)
Bool-cases true = inl refl
Bool-cases false = inr refl

pub Option-cases {ℓ} : {A : Type ℓ} (o : Option A) → (o ≡ none) ⊎ ((a : A) × (o ≡ some a))
Option-cases none = inl refl
Option-cases (some a) = inr (a, refl)

-- The test that a decision makes.
abbrev pub decided {ℓ} : {P : Type ℓ} → Dec P → Bool
decided (yes p) = true
decided (no n) = false

pub decided_iff {ℓ} : {A : Type ℓ} (d : Discrete A) (a b : A) → (decided (d a b) ≡ true) ↔ (a ≡ b)
decided_iff d a b = elim (d a b) as (λ t. (decided t ≡ true) ↔ (a ≡ b)) [
  | yes p ↦ (λ _. p, λ _. refl)
  | no n ↦ (λ h. cc, λ p. absurd (n p))
]

-- Equality of a type whose equality is decided, as for an enumeration.
abbrev pub discrete_eq {ℓ} : {A : Type ℓ} → Discrete A → Eq A
discrete_eq d = record { equals = λ a b. decided (d a b); equals_iff = decided_iff d }

module _ {ℓ} {A : Type ℓ} ⦃e : Eq A⦄ (a b : A) where
  -- `a != b` that was false, and `a == b` that was true.
  pub unequal-false : (a != b) ≡ false → a ≡ b
  unequal-false h = elim (Bool-cases (a == b)) [
    | inl same ↦ (e.equals_iff a b).0 same
    | inr other ↦ absurd (ground arith)
  ]

pub or-false : (a b : Bool) → (a || b) ≡ false → (a ≡ false) × (b ≡ false)
or-false a b h = ground arith

pub and-true : (a b : Bool) → (a && b) ≡ true → (a ≡ true) × (b ≡ true)
and-true a b h = ground arith

pub negate-false : (a : Bool) → negate a ≡ false → a ≡ true
negate-false a h = ground arith

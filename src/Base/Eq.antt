-- ===== src/Base/Eq.antt =====
-- Decidable equality as a Boolean operator, for each type that the program compares.
use scrutiny.Base.Tests.{nat_beq, nat_beq_iff}
use Prim.Native.Nat.{ℕ}
use mathlib.Core.Path.{◌≡◌, refl}
use mathlib.Core.Logic.{◌↔◌}
use mathlib.Core.Bool.{Bool, true, false, ◌&&◌, ◌||◌}
use mathlib.Core.List.{List, [], ◌∷◌, ◌++◌}
use native.Mathlib.Omega.{arith}

pub record Eq {ℓ} (K : Type ℓ) : Type ℓ where
  pub test : K → K → Bool
  pub test_iff : (x y : K) → (test x y ≡ true) ↔ (x ≡ y)

infix 50 ◌==◌
abbrev pub ◌==◌ {ℓ} : {K : Type ℓ} ⦃d : Eq K⦄ → K → K → Bool
◌==◌ ⦃d⦄ = d.test

instance abbrev pub nat_eq : Eq ℕ
nat_eq = record { test = nat_beq; test_iff = nat_beq_iff }

module _ {ℓ} {A : Type ℓ} ⦃e : Eq A⦄ where
  pub eq_iff : (a b : A) → ((a == b) ≡ true) ↔ (a ≡ b)
  eq_iff = e.test_iff

  pub eq_refl : (a : A) → (a == a) ≡ true
  eq_refl a = (e.test_iff a a).1 refl

  -- Equality of lists, element by element.
  unfoldable pub list_beq : List A → List A → Bool
  list_beq [] [] = true
  list_beq [] (y ∷ ys) = false
  list_beq (x ∷ xs) [] = false
  list_beq (x ∷ xs) (y ∷ ys) = x == y && list_beq xs ys

  pub list_beq_iff : (xs ys : List A) → (list_beq xs ys ≡ true) ↔ (xs ≡ ys)
  unfolding list_beq
  list_beq_iff [] [] = (λ _. refl, λ _. refl)
  list_beq_iff [] (y ∷ ys) = (λ h. cc, λ h. cc)
  list_beq_iff (x ∷ xs) [] = (λ h. cc, λ h. cc)
  list_beq_iff (x ∷ xs) (y ∷ ys) = (
    λ h. ground (arith, e.test_iff x y, list_beq_iff xs ys),
    λ h. ground (arith, e.test_iff x y, list_beq_iff xs ys),
  )

  -- `m[k]` of a `map[K]bool` that was filled from a list: is `k` in the list?
  unfoldable pub has : A → List A → Bool
  has k [] = false
  has k (x ∷ xs) = k == x || has k xs

  pub has-append : (k : A) (xs ys : List A) → has k (xs ++ ys) ≡ (has k xs || has k ys)
  unfolding has
  has-append k [] ys = refl
  has-append k (x ∷ xs) ys = ground (arith, has-append k xs ys)

  -- No element stands twice.
  abbrev pub Distinct : List A → Type 0
  Distinct [] = Unit
  Distinct (x ∷ xs) = (has x xs ≡ false) × Distinct xs

-- The Boolean test of a type with decidable equality.
unfoldable pub decided {ℓ} : {A : Type ℓ} → Discrete A → A → A → Bool
decided d a b = elim (d a b) [ yes _ ↦ true | no _ ↦ false ]

pub decided_iff {ℓ} : {A : Type ℓ} (d : Discrete A) (a b : A) → (decided d a b ≡ true) ↔ (a ≡ b)
unfolding decided
decided_iff d a b = (λ h. ground arith, λ h. ground arith)

abbrev pub eq_of_discrete {ℓ} : {A : Type ℓ} → Discrete A → Eq A
eq_of_discrete d = record { test = decided d; test_iff = decided_iff d }

-- Keys that are a struct of two fields.
instance abbrev pub pair_eq {ℓ κ} : {A : Type ℓ} {B : Type κ} ⦃d : Eq A⦄ ⦃e : Eq B⦄ → Eq (A × B)
pair_eq ⦃d⦄ ⦃e⦄ = record {
  test = λ (a, b) (x, y). d.test a x && e.test b y;
  test_iff = λ (a, b) (x, y). (
    λ h. ground (arith, d.test_iff a x, e.test_iff b y),
    λ h. ground (arith, d.test_iff a x, e.test_iff b y),
  );
}

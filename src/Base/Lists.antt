-- ===== src/Base/Lists.antt =====
-- Lists measured by native numbers, under the library's names.
use Prim.Native.Nat.{ℕ, zero, suc, ◌+◌, ◌≤◌}
use mathlib.Core.Path.{◌≡◌, refl, ap}
use scrutiny.Base.Tests.{ltb, if◌then◌else◌}
use mathlib.Core.List.{List, [], ◌∷◌, ◌++◌}
use mathlib.Core.Option.{Option, none, some}
use native.Mathlib.Omega.{arith}

module _ {ℓ} {A : Type ℓ} where
  abbrev pub length : List A → ℕ
  length [] = 0
  length (x ∷ xs) = suc (length xs)

  abbrev pub take : ℕ → List A → List A
  take zero xs = []
  take (suc n) [] = []
  take (suc n) (x ∷ xs) = x ∷ take n xs

  pub length-append : (xs ys : List A) → length (xs ++ ys) ≡ length xs + length ys
  length-append [] ys = omega arith
  length-append (x ∷ xs) ys = omega (arith, length-append xs ys)

  -- `if len(s) < n { s = append(s, x) }`
  abbrev pub append_below : ℕ → A → List A → List A
  append_below n x s = if ltb (length s) n then s ++ x ∷ [] else s

  pub append_below-length :
      (n : ℕ) (x : A) (s : List A) → length s ≤ n → length (append_below n x s) ≤ n
  append_below-length n x s h = ground (arith, length-append s (x ∷ []))

  -- What the bound leaves of a longer list is the same, whether it is applied now or later.
  pub take-append_below :
      (n : ℕ) (x : A) (s l : List A) → take n (append_below n x s ++ l) ≡ take n (s ++ x ∷ l)
  take-append_below zero x s l = refl
  take-append_below (suc n) x [] l = ground arith
  take-append_below (suc n) x (a ∷ s) l = ground (arith, take-append_below n x s l)

  pub take-few : (n : ℕ) (s : List A) → length s ≤ n → take n (s ++ []) ≡ s
  take-few zero [] h = refl
  take-few zero (a ∷ s) h = ground arith
  take-few (suc n) [] h = refl
  take-few (suc n) (a ∷ s) h = ap (λ t. a ∷ t) (take-few n s (omega arith))

-- A predicate on every element, by recursion.
module _ {ℓ κ} {A : Type ℓ} (P : A → Type κ) where
  abbrev pub All : List A → Type κ
  All [] = Unit
  All (x ∷ xs) = P x × All xs

  pub All-append : (xs ys : List A) → All xs → All ys → All (xs ++ ys)
  All-append [] ys _ hy = hy
  All-append (x ∷ xs) ys (px, hx) hy = (px, All-append xs ys hx hy)

pub All-map {ℓ κ} :
    {A : Type ℓ} (P Q : A → Type κ) (l : List A) → ((a : A) → P a → Q a) → All P l → All Q l
All-map P Q [] f h = tt
All-map P Q (x ∷ xs) f (p, h) = (f x p, All-map P Q xs f h)

abbrev pub get_or {ℓ} : {A : Type ℓ} → A → Option A → A
get_or d none = d
get_or d (some a) = a

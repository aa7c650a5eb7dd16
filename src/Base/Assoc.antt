-- ===== src/Base/Assoc.antt =====
-- Go maps as association lists. The order of the entries is one order in which `range` may visit
-- them; a write to a key that is there keeps its place.
pub mod Laws
pub mod Group
use mathlib.Core.Option.{Option, none, some}
use mathlib.Core.List.{List, [], ◌∷◌}
use Prim.Native.Nat.{ℕ, ◌+◌}
use scrutiny.Base.Tests.{if◌then◌else◌}
use scrutiny.Base.Lists.{get_or}
use scrutiny.Base.Eq.{Eq, ◌==◌}

abbrev pub Assoc {ℓ κ} : Type ℓ → Type κ → Type (ℓ ⊔ κ)
Assoc K V = List (K × V)

module _ {ℓ κ} {K : Type ℓ} {V : Type κ} where
  abbrev pub keys : Assoc K V → List K
  keys [] = []
  keys ((k, v) ∷ m) = k ∷ keys m

  abbrev pub values : Assoc K V → List V
  values [] = []
  values ((k, v) ∷ m) = v ∷ values m

module _ {ℓ κ} {K : Type ℓ} {V : Type κ} ⦃e : Eq K⦄ where
  -- m[k]
  unfoldable pub lookup : K → Assoc K V → Option V
  lookup k [] = none
  lookup k ((first, v) ∷ rest) = if first == k then some v else lookup k rest

  -- m[k] = v
  unfoldable pub insert : K → V → Assoc K V → Assoc K V
  insert k v [] = (k, v) ∷ []
  insert k v ((first, old) ∷ rest) =
      if first == k then (k, v) ∷ rest else (first, old) ∷ insert k v rest

-- `m[k]++`, on a counter that stays below 2 ^ 63
unfoldable pub bump {ℓ} : {K : Type ℓ} ⦃e : Eq K⦄ → K → Assoc K ℕ → Assoc K ℕ
unfolding lookup insert
bump k m = insert k (get_or 0 (lookup k m) + 1) m

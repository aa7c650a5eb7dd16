-- ===== src/Base/Assoc/Laws.antt =====
-- The laws of maps, in `if` form.
use mathlib.Core.Path.{◌≡◌, refl}
use mathlib.Core.Bool.{Bool, true, false}
use mathlib.Core.Option.{Option, none, some}
use mathlib.Core.List.{List, [], ◌∷◌, map}
use native.Mathlib.Omega.{arith}
use scrutiny.Base.Tests.{if◌then◌else◌}
use scrutiny.Base.Eq.{Eq, ◌==◌, has, Distinct}
use scrutiny.Base.Assoc.{Assoc, keys, values, lookup, insert}

abbrev pub is_some {ℓ} : {A : Type ℓ} → Option A → Bool
is_some none = false
is_some (some a) = true

module _ {ℓ κ} {K : Type ℓ} {V : Type κ} ⦃e : Eq K⦄ where
  -- A write changes the value of its own key only.
  pub lookup-insert :
      (written read : K) (v : V) (m : Assoc K V)
      → lookup read (insert written v m) ≡ (if written == read then some v else lookup read m)
  unfolding lookup insert
  lookup-insert written read v [] = refl
  lookup-insert written read v ((first, old) ∷ rest) = ground (
    arith,
    lookup-insert written read v rest,
    e.test_iff first read,
    e.test_iff first written,
    e.test_iff written read,
  )

  -- A key has a value exactly when it is among the keys.
  pub is_some-lookup : (k : K) (m : Assoc K V) → is_some (lookup k m) ≡ has k (keys m)
  unfolding lookup has
  is_some-lookup k [] = refl
  is_some-lookup k ((j, v) ∷ m) = ground (arith, e.test_iff j k, e.test_iff k j, is_some-lookup k m)

  pub has-keys-insert :
      (k j : K) (v : V) (m : Assoc K V)
      → has j (keys (insert k v m)) ≡ (if k == j then true else has j (keys m))
  unfolding has insert
  has-keys-insert k j v [] = ground (arith, e.test_iff k j, e.test_iff j k)
  has-keys-insert k j v ((i, w) ∷ m) = ground (
    arith,
    e.test_iff k j,
    e.test_iff j k,
    e.test_iff i k,
    e.test_iff i j,
    e.test_iff j i,
    has-keys-insert k j v m,
  )

  pub insert-Distinct :
      (k : K) (v : V) (m : Assoc K V) → Distinct (keys m) → Distinct (keys (insert k v m))
  unfolding insert has
  insert-Distinct k v [] h = (refl, tt)
  insert-Distinct k v ((j, w) ∷ m) (fresh, h) =
      ground
        (arith, e.test_iff j k, e.test_iff k j, has-keys-insert k j v m, insert-Distinct k v m h)

  map-lookup-other :
      (k : K) (v : V) (m : Assoc K V) (l : List K)
      → has k l ≡ false
      → map (λ j. lookup j ((k, v) ∷ m)) l ≡ map (λ j. lookup j m) l
  unfolding lookup has
  map-lookup-other k v m [] h = refl
  map-lookup-other k v m (j ∷ l) h = ground (arith, map-lookup-other k v m l)

  -- The values are those of the keys, one after another.
  pub map-values-lookup :
      (m : Assoc K V) → Distinct (keys m) → map some (values m) ≡ map (λ k. lookup k m) (keys m)
  unfolding lookup
  map-values-lookup [] h = refl
  map-values-lookup ((k, v) ∷ m) (fresh, h) =
      ground (arith, e.test_iff k k, map-lookup-other k v m (keys m) fresh, map-values-lookup m h)

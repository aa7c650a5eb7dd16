-- ===== src/Base/Assoc/Group.antt =====
-- A fold that keeps one running value for each key of a map.
use mathlib.Core.Path.{◌≡◌, refl}
use mathlib.Core.Logic.{inl, inr}
use mathlib.Core.Option.{Option, some}
use mathlib.Core.List.{List, [], ◌∷◌}
use native.Mathlib.Omega.{arith}
use scrutiny.Base.Tests.{if◌then◌else◌, Bool-cases}
use scrutiny.Base.Lists.{get_or}
use scrutiny.Base.Eq.{Eq, ◌==◌}
use scrutiny.Base.Assoc.{Assoc, lookup, insert}
use scrutiny.Base.Assoc.Laws.{lookup-insert}

-- The elements with a key.
abbrev pub with_key {ℓ κ} : {A : Type ℓ} {K : Type κ} ⦃e : Eq K⦄ → (A → K) → K → List A → List A
with_key key k [] = []
with_key key k (x ∷ l) = if key x == k then x ∷ with_key key k l else with_key key k l

-- `key`, `fresh` and `update` are of an element: its key, the value of a key that is not there, and
-- the value after the element.
module _ {ℓ κ ι} {A : Type ℓ} {K : Type κ} {V : Type ι} ⦃e : Eq K⦄ (key : A → K) (fresh : A → V)
    (update : A → V → V) where
  unfoldable pub group : List A → Assoc K V → Assoc K V
  unfolding lookup insert
  group [] m = m
  group (x ∷ l) m = group l (insert (key x) (update x (get_or (fresh x) (lookup (key x) m))) m)

  abbrev pub update_all : List A → V → V
  update_all [] v = v
  update_all (x ∷ l) v = update_all l (update x v)

  -- The value of a key, from the value before and the elements with the key.
  abbrev pub value_after : Option V → List A → Option V
  value_after o [] = o
  value_after o (x ∷ l) = some (update_all l (update x (get_or (fresh x) o)))

  value_after-some : (v : V) (l : List A) → value_after (some v) l ≡ some (update_all l v)
  value_after-some v [] = refl
  value_after-some v (x ∷ l) = refl

  pub lookup-group :
      (k : K) (l : List A) (m : Assoc K V)
      → lookup k (group l m) ≡ value_after (lookup k m) (with_key key k l)
  unfolding group
  lookup-group k [] m = refl
  lookup-group k (x ∷ l) m =
      let v = update x (get_or (fresh x) (lookup (key x) m)) in
      let rest = lookup-group k l (insert (key x) v m) in
      let read = lookup-insert (key x) k v m in
      elim (Bool-cases (key x == k)) [
        | inl same ↦
            ground (arith, same, e.test_iff (key x) k, value_after-some v (with_key key k l))
        | inr other ↦ ground (arith, other)
      ]

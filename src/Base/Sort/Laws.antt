-- ===== src/Base/Sort/Laws.antt =====
-- The sort returns an ordered rearrangement of its input.
use mathlib.Core.Path.{◌≡◌, refl, sym, ap, ◌∙◌, subst}
use mathlib.Core.Bool.{Bool, true, false, ◌||◌}
use mathlib.Core.Logic.{inl, inr}
use mathlib.Core.List.{List, [], ◌∷◌, map, Perm}
use mathlib.Core.List.Perm
use native.Mathlib.Omega.{arith}
use scrutiny.Base.Tests.{Bool-cases}
use scrutiny.Base.Lists.{All, All-map}
use scrutiny.Base.Eq.{Eq, ◌==◌, has, Distinct}
use scrutiny.Base.Sort.{insert_by, sort_by}

-- What Go asks of a `less` function: a strict weak order.
pub record WeakOrder {ℓ} {A : Type ℓ} (less : A → A → Bool) : Type ℓ where
  pub asymm : (a b : A) → less a b ≡ true → less b a ≡ false
  pub neg_trans : (a b c : A) → less a b ≡ false → less b c ≡ false → less a c ≡ false

module _ {ℓ} {A : Type ℓ} (less : A → A → Bool) where
  -- No later element is before an earlier one.
  abbrev pub IsOrdered : List A → Type 0
  IsOrdered [] = Unit
  IsOrdered (x ∷ xs) = All (λ y. less y x ≡ false) xs × IsOrdered xs

  insert_by-perm : (x : A) (l : List A) → Perm (insert_by less x l) (x ∷ l)
  unfolding insert_by
  insert_by-perm x [] = Perm.rfl
  insert_by-perm x (y ∷ l) = elim (Bool-cases (less y x)) [
    | inl e ↦ rw e (Perm.trans (Perm.cons y (insert_by-perm x l)) (Perm.swap x y l))
    | inr e ↦ rw e Perm.rfl
  ]

  pub sort_by-perm : (l : List A) → Perm (sort_by less l) l
  unfolding sort_by
  sort_by-perm [] = Perm.rfl
  sort_by-perm (x ∷ l) =
      Perm.trans (insert_by-perm x (sort_by less l)) (Perm.cons x (sort_by-perm l))

  pub All-insert_by {κ} :
      (P : A → Type κ) (x : A) (l : List A) → P x → All P l → All P (insert_by less x l)
  unfolding insert_by
  All-insert_by P x [] p h = (p, tt)
  All-insert_by P x (y ∷ l) p (q, h) = elim (Bool-cases (less y x)) [
    | inl e ↦ rw e (q, All-insert_by P x l p h)
    | inr e ↦ rw e (p, (q, h))
  ]

  pub All-sort_by {κ} : (P : A → Type κ) (l : List A) → All P l → All P (sort_by less l)
  unfolding sort_by
  All-sort_by P [] h = tt
  All-sort_by P (x ∷ l) (p, h) = All-insert_by P x (sort_by less l) p (All-sort_by P l h)

module _ {ℓ κ} {A : Type ℓ} {K : Type κ} ⦃e : Eq K⦄ (less : A → A → Bool) (f : A → K) where
  has-insert_by :
      (k : K) (x : A) (l : List A) → has k (map f (insert_by less x l)) ≡ has k (f x ∷ map f l)
  unfolding insert_by has
  has-insert_by k x [] = refl
  has-insert_by k x (y ∷ l) = ground (arith, has-insert_by k x l)

  -- Sorting changes no membership.
  pub has-sort_by : (k : K) (l : List A) → has k (map f (sort_by less l)) ≡ has k (map f l)
  unfolding sort_by has
  has-sort_by k [] = refl
  has-sort_by k (x ∷ l) =
      has-insert_by k x (sort_by less l) ∙ ap (λ b. k == f x || b) (has-sort_by k l)

  insert_by-Distinct :
      (x : A) (l : List A)
      → has (f x) (map f l) ≡ false
      → Distinct (map f l)
      → Distinct (map f (insert_by less x l))
  unfolding insert_by has
  insert_by-Distinct x [] fresh h = (refl, tt)
  insert_by-Distinct x (y ∷ l) fresh (first, h) = ground (
    arith,
    e.test_iff (f x) (f y),
    e.test_iff (f y) (f x),
    has-insert_by (f y) x l,
    insert_by-Distinct x l,
  )

  pub sort_by-Distinct : (l : List A) → Distinct (map f l) → Distinct (map f (sort_by less l))
  unfolding sort_by has
  sort_by-Distinct [] h = tt
  sort_by-Distinct (x ∷ l) (fresh, h) =
      insert_by-Distinct x (sort_by less l) (has-sort_by (f x) l ∙ fresh) (sort_by-Distinct l h)

map_id {ℓ} : {A : Type ℓ} (l : List A) → map (λ x. x) l ≡ l
map_id [] = refl
map_id (x ∷ l) = ap (λ m. x ∷ m) (map_id l)

-- The same for a list that is sorted by its elements.
module _ {ℓ} {A : Type ℓ} ⦃e : Eq A⦄ (less : A → A → Bool) where
  pub has-sort : (k : A) (l : List A) → has k (sort_by less l) ≡ has k l
  has-sort k l =
      ap (has k) (sym (map_id (sort_by less l)))
      ∙ has-sort_by less (λ x. x) k l
      ∙ ap (has k) (map_id l)

  pub sort-Distinct : (l : List A) → Distinct l → Distinct (sort_by less l)
  sort-Distinct l h =
      subst Distinct (map_id (sort_by less l))
        (sort_by-Distinct less (λ x. x) l (subst Distinct (sym (map_id l)) h))

module _ {ℓ} {A : Type ℓ} (less : A → A → Bool) (w : WeakOrder less) where
  insert_by-IsOrdered :
      (x : A) (l : List A) → IsOrdered less l → IsOrdered less (insert_by less x l)
  unfolding insert_by
  insert_by-IsOrdered x [] h = (tt, tt)
  insert_by-IsOrdered x (y ∷ l) (below, h) = elim (Bool-cases (less y x)) [
    | inl e ↦ rw e (
      All-insert_by less (λ z. less z y ≡ false) x l (w.asymm y x e) below,
      insert_by-IsOrdered x l h,
    )
    | inr e ↦ rw e (
      (
        e,
        All-map (λ z. less z y ≡ false) (λ z. less z x ≡ false) l (λ z p. w.neg_trans z y x p e)
            below,
      ),
      (below, h),
    )
  ]

  pub sort_by-IsOrdered : (l : List A) → IsOrdered less (sort_by less l)
  unfolding sort_by
  sort_by-IsOrdered [] = tt
  sort_by-IsOrdered (x ∷ l) = insert_by-IsOrdered x (sort_by less l) (sort_by-IsOrdered l)

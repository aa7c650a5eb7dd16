-- ===== src/Baseline/Maps/Laws.antt =====
-- internal/baseline/merge.go: about the loops that fill the maps.
use scrutiny.Base.{
  ℕ, ◌+◌, ◌≡◌, refl, inl, inr, ◌||◌, none, some, List, [], ◌∷◌, ◌++◌, map, arith, if◌then◌else◌,
  Bool-cases, get_or,
}
use scrutiny.Base.Eq.{Eq, ◌==◌, nat_eq, eq_iff, has, has-append, Distinct}
use scrutiny.Base.Text.{Text, text_eq}
use scrutiny.Base.Assoc.{Assoc, keys, values, lookup, insert, bump}
use scrutiny.Base.Assoc.Laws.{
  is_some, lookup-insert, is_some-lookup, has-keys-insert, insert-Distinct,
}
use scrutiny.Schema.Observed.{SyscallRecord}
use scrutiny.Schema.Baseline.{confidence_eq}
use scrutiny.Baseline.Maps.{keep_first, count_keys, add_names, merge_syscall, merge_calls}

-- Every entry stands under the key of its value.
abbrev pub Keyed {ℓ} : {A : Type ℓ} → (A → Text) → Assoc Text A → Type 0
Keyed key [] = Unit
Keyed key ((k, v) ∷ m) = (k ≡ key v) × Keyed key m

-- How often a key occurs.
abbrev pub occurrences : Text → List Text → ℕ
occurrences k [] = 0
occurrences k (x ∷ l) = (if k == x then 1 else 0) + occurrences k l

pub occurrences-Distinct :
    (k : Text) (l : List Text) → Distinct l → occurrences k l ≡ (if has k l then 1 else 0)
unfolding has
occurrences-Distinct k [] h = refl
occurrences-Distinct k (x ∷ l) (n, h) = ground (arith, eq_iff k x, occurrences-Distinct k l h)

module _ {ℓ} {A : Type ℓ} (key : A → Text) where
  pub insert-Keyed : (x : A) (m : Assoc Text A) → Keyed key m → Keyed key (insert (key x) x m)
  unfolding insert
  insert-Keyed x [] h = (refl, tt)
  insert-Keyed x ((k, v) ∷ m) (e, h) = ground (arith, e, insert-Keyed x m h)

  pub keep_first-Keyed :
      (l : List A) (m : Assoc Text A) → Keyed key m → Keyed key (keep_first key l m)
  unfolding keep_first
  keep_first-Keyed [] m h = h
  keep_first-Keyed (x ∷ l) m h = elim (Bool-cases (is_some (lookup (key x) m))) [
    | inl e ↦ rw e (keep_first-Keyed l m h)
    | inr e ↦ rw e (keep_first-Keyed l (insert (key x) x m) (insert-Keyed x m h))
  ]

  -- The keys of the values are the keys of the map.
  pub has-values :
      (k : Text) (m : Assoc Text A) → Keyed key m → has k (map key (values m)) ≡ has k (keys m)
  unfolding has
  has-values k [] h = refl
  has-values k ((j, v) ∷ m) (e, h) = ground (arith, e, has-values k m h)

  pub has-keep_first :
      (k : Text) (l : List A) (m : Assoc Text A)
      → has k (keys (keep_first key l m)) ≡ (has k (keys m) || has k (map key l))
  unfolding keep_first has
  has-keep_first k [] m = ground arith
  has-keep_first k (x ∷ l) m = ground (
    arith,
    is_some-lookup (key x) m,
    eq_iff k (key x),
    eq_iff (key x) k,
    has-keys-insert (key x) k x m,
    has-keep_first k l m,
    has-keep_first k l (insert (key x) x m),
  )

  lookup-bump :
      (k j : Text) (m : Assoc Text ℕ)
      → get_or 0 (lookup j (bump k m)) ≡ get_or 0 (lookup j m) + (if j == k then 1 else 0)
  unfolding bump
  lookup-bump k j m = rw lookup-insert (ground (arith, eq_iff k j, eq_iff j k))

  -- The counter of a key grows by the number of its occurrences.
  pub lookup-count_keys :
      (k : Text) (l : List A) (m : Assoc Text ℕ)
      → get_or 0 (lookup k (count_keys key l m)) ≡ get_or 0 (lookup k m) + occurrences k (map key l)
  unfolding count_keys
  lookup-count_keys k [] m = omega arith
  lookup-count_keys k (x ∷ l) m =
      ground (arith, lookup-count_keys k l (bump (key x) m), lookup-bump (key x) k m)

pub has-merge_calls :
    (k : Text) (l m : Assoc Text SyscallRecord)
    → has k (keys (merge_calls l m)) ≡ (has k (keys m) || has k (keys l))
unfolding merge_calls has
has-merge_calls k [] m = ground arith
has-merge_calls k ((j, r) ∷ l) m =
    let v : SyscallRecord = elim (lookup j m) [ some cur ↦ merge_syscall cur r | none ↦ r ] in
    ground
      (arith, eq_iff k j, eq_iff j k, has-keys-insert j k v m, has-merge_calls k l (insert j v m))

pub has-add_names {ℓ} :
    {A : Type ℓ} ⦃d : Eq A⦄ (k : A) (l s : List A) → has k (add_names l s) ≡ (has k s || has k l)
unfolding add_names has
has-add_names k [] s = ground arith
has-add_names k (x ∷ l) s = ground (
  arith,
  eq_iff k x,
  has-add_names k l s,
  has-add_names k l (s ++ x ∷ []),
  has-append k s (x ∷ []),
)

module _ {ℓ} {A : Type ℓ} (key : A → Text) where
  pub keep_first-Distinct :
      (l : List A) (m : Assoc Text A) → Distinct (keys m) → Distinct (keys (keep_first key l m))
  unfolding keep_first
  keep_first-Distinct [] m h = h
  keep_first-Distinct (x ∷ l) m h = elim (Bool-cases (is_some (lookup (key x) m))) [
    | inl e ↦ rw e (keep_first-Distinct l m h)
    | inr e ↦ rw e (keep_first-Distinct l (insert (key x) x m) (insert-Distinct (key x) x m h))
  ]

  pub map-values : (m : Assoc Text A) → Keyed key m → map key (values m) ≡ keys m
  map-values [] h = refl
  map-values ((k, v) ∷ m) (e, h) = cc (e, map-values m h)

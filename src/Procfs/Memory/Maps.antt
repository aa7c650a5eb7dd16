-- ===== src/Procfs/Memory/Maps.antt =====
-- internal/sensor/procfs/collector_linux.go: about the maps that the polls of the memory fill.
use scrutiny.Base.{
  ◌≡◌, refl, ap, ◌∙◌, ◌||◌, Option, some, List, [], ◌∷◌, map, arith, All, All-map, if◌then◌else◌,
}
use scrutiny.Base.Eq.{Eq, ◌==◌, nat_eq, has, Distinct, eq_iff}
use scrutiny.Base.Text.{Text, text_eq}
use scrutiny.Base.Assoc.{Assoc, keys, values, insert, lookup}
use scrutiny.Base.Assoc.Laws.{has-keys-insert, insert-Distinct, lookup-insert, is_some-lookup}
use scrutiny.Schema.Observed.{MemoryRegion}
use scrutiny.Procfs.Memory.{insert_each, region_key, self}

module _ {ℓ κ ι} {A : Type ℓ} {K : Type κ} {V : Type ι} ⦃e : Eq K⦄ (key : A → K)
    (value : A → V) where
  pub has-insert_each :
      (k : K) (l : List A) (m : Assoc K V)
      → has k (keys (insert_each key value l m)) ≡ (has k (map key l) || has k (keys m))
  unfolding insert_each has
  has-insert_each k [] m = refl
  has-insert_each k (x ∷ l) m = ground (
    arith,
    has-insert_each k l (insert (key x) (value x) m),
    has-keys-insert (key x) k (value x) m,
    e.test_iff k (key x),
    e.test_iff (key x) k,
  )

  pub insert_each-Distinct :
      (l : List A) (m : Assoc K V) → Distinct (keys m) → Distinct (keys (insert_each key value l m))
  unfolding insert_each
  insert_each-Distinct [] m h = h
  insert_each-Distinct (x ∷ l) m h =
      insert_each-Distinct l (insert (key x) (value x) m) (insert-Distinct (key x) (value x) m h)

pub map-self {ℓ} : {A : Type ℓ} (l : List A) → map self l ≡ l
map-self [] = refl
map-self (x ∷ l) = ap (λ m. x ∷ m) (map-self l)

-- The last region of the list at the range.
abbrev pub latest : Text → Option MemoryRegion → List MemoryRegion → Option MemoryRegion
latest k o [] = o
latest k o (r ∷ l) = latest k (if region_key r == k then some r else o) l

pub lookup-insert_each :
    (k : Text) (l : List MemoryRegion) (m : Assoc Text MemoryRegion)
    → lookup k (insert_each region_key self l m) ≡ latest k (lookup k m) l
unfolding insert_each
lookup-insert_each k [] m = refl
lookup-insert_each k (r ∷ l) m =
    lookup-insert_each k l (insert (region_key r) r m)
    ∙ ap (λ o. latest k o l) (lookup-insert (region_key r) k r m)

-- The values stand at their own keys.
insert-tagged :
    (r : MemoryRegion) (m : Assoc Text MemoryRegion)
    → map region_key (values m) ≡ keys m
    → map region_key (values (insert (region_key r) r m)) ≡ keys (insert (region_key r) r m)
unfolding insert
insert-tagged r [] h = refl
insert-tagged r ((k, old) ∷ m) h = ground (arith, h, insert-tagged r m)

pub insert_each-tagged :
    (l : List MemoryRegion) (m : Assoc Text MemoryRegion)
    → map region_key (values m) ≡ keys m
    → map region_key (values (insert_each region_key self l m))
      ≡ keys (insert_each region_key self l m)
unfolding insert_each
insert_each-tagged [] m h = h
insert_each-tagged (r ∷ l) m h =
    insert_each-tagged l (insert (region_key r) r m) (insert-tagged r m h)

-- Each value is the one that is read at its key.
pub values-lookup :
    (m : Assoc Text MemoryRegion)
    → Distinct (keys m)
    → map region_key (values m) ≡ keys m
    → All (λ r. lookup (region_key r) m ≡ some r) (values m)
unfolding lookup has
values-lookup [] d h = tt
values-lookup ((k, r) ∷ m) (fresh, d) h = (
  ground (arith, h, eq_iff k (region_key r)),
  All-map (λ q. lookup (region_key q) m ≡ some q) (λ q. lookup (region_key q) ((k, r) ∷ m) ≡ some q)
      (values m)
      (λ q e.
        let there = is_some-lookup (region_key q) m in
        ground (arith, e, fresh, eq_iff k (region_key q), there))
      (values-lookup m d (ground (arith, h))),
)

-- ===== src/Baseline/Maps/Keys.antt =====
-- internal/baseline/merge.go: about the keys that the other loops write.
use scrutiny.Base.{
  ◌≡◌, sym, not, Bool, inl, inr, ◌||◌, some, none, List, [], ◌∷◌, ◌++◌, map, arith, if◌then◌else◌,
  Bool-cases, Option-cases,
}
use scrutiny.Base.Eq.{◌==◌, nat_eq, eq_iff, has}
use mathlib.Core.Path.{subst}
use scrutiny.Base.Int64.{add64}
use scrutiny.Base.Text.{Text, text_eq}
use scrutiny.Base.Assoc.{Assoc, keys, lookup, insert}
use scrutiny.Base.Assoc.Laws.{has-keys-insert}
use scrutiny.Schema.Observed.{FilePath, PrivilegeChange}
use scrutiny.Baseline.Maps.{keep_last, merge_files, keep_changes, privilege_key}
use scrutiny.Baseline.Maps.Laws.{Keyed, insert-Keyed}

module _ {ℓ} {A : Type ℓ} (key : A → Text) where
  pub has-keep_last :
      (k : Text) (l : List A) (m : Assoc Text A)
      → has k (keys (keep_last key l m)) ≡ (has k (keys m) || has k (map key l))
  unfolding keep_last has
  has-keep_last k [] m = ground arith
  has-keep_last k (x ∷ l) m = ground (
    arith,
    eq_iff k (key x),
    eq_iff (key x) k,
    has-keys-insert (key x) k x m,
    has-keep_last k l (insert (key x) x m),
  )

  pub keep_last-Keyed :
      (l : List A) (m : Assoc Text A) → Keyed key m → Keyed key (keep_last key l m)
  unfolding keep_last
  keep_last-Keyed [] m h = h
  keep_last-Keyed (x ∷ l) m h = keep_last-Keyed l (insert (key x) x m) (insert-Keyed key x m h)

abbrev pub normalized : FilePath → Text
normalized f = f.normalized_path

-- What a loop over file accesses writes under the key of one.
merged_file : FilePath → Assoc Text FilePath → FilePath
merged_file f m = elim (lookup f.normalized_path m) [
  | some cur ↦ record cur { count = add64 cur.count f.count }
  | none ↦ f
]

pub has-merge_files :
    (k : Text) (l : List FilePath) (m : Assoc Text FilePath)
    → has k (keys (merge_files l m)) ≡ (has k (keys m) || has k (map normalized l))
unfolding merge_files merged_file has
has-merge_files k [] m = ground arith
has-merge_files k (f ∷ l) m = ground (
  arith,
  eq_iff k f.normalized_path,
  eq_iff f.normalized_path k,
  has-keys-insert f.normalized_path k (merged_file f m) m,
  has-merge_files k l (insert f.normalized_path (merged_file f m) m),
)

lookup-Keyed :
    (k : Text) (m : Assoc Text FilePath) (f : FilePath)
    → Keyed normalized m
    → lookup k m ≡ some f
    → normalized f ≡ k
unfolding lookup
lookup-Keyed k [] f h e = ground (arith, e)
lookup-Keyed k ((j, v) ∷ m) f (p, h) e = ground (arith, e, p, eq_iff j k, lookup-Keyed k m f h)

insert_file-Keyed :
    (k : Text) (f : FilePath) (m : Assoc Text FilePath)
    → normalized f ≡ k
    → Keyed normalized m
    → Keyed normalized (insert k f m)
insert_file-Keyed k f m e h =
    subst (λ j. Keyed normalized (insert j f m)) e (insert-Keyed normalized f m h)

pub merge_files-Keyed :
    (l : List FilePath) (m : Assoc Text FilePath)
    → Keyed normalized m
    → Keyed normalized (merge_files l m)
unfolding merge_files merged_file
merge_files-Keyed [] m h = h
merge_files-Keyed (f ∷ l) m h = merge_files-Keyed l _ (
    insert_file-Keyed f.normalized_path (merged_file f m) m
      (elim (Option-cases (lookup f.normalized_path m)) [
        | inl e ↦ ground (arith, e)
        | inr (cur, e) ↦ ground (arith, e, lookup-Keyed f.normalized_path m cur h)
      ])
      h)

abbrev pub change_keys : List PrivilegeChange → List Text
change_keys l = map privilege_key l

has-change_keys-last :
    (k : Text) (kept : List PrivilegeChange) (pc : PrivilegeChange)
    → has k (change_keys (kept ++ pc ∷ [])) ≡ (has k (change_keys kept) || k == privilege_key pc)
unfolding has
has-change_keys-last k [] pc = ground arith
has-change_keys-last k (x ∷ kept) pc = ground (arith, has-change_keys-last k kept pc)

-- The changes kept are those seen before and those of a list.
abbrev pub Kept :
    Text → List PrivilegeChange → List Text → List PrivilegeChange × List Text → Type 0
Kept k l seen s =
    (has k (change_keys s.0) ≡ (has k seen || has k (change_keys l)))
    × (has k (change_keys s.0) ≡ has k s.1)

pub has-keep_changes :
    (k : Text) (l kept : List PrivilegeChange) (seen : List Text)
    → has k (change_keys kept) ≡ has k seen
    → Kept k l seen (keep_changes l (kept, seen))
unfolding keep_changes has
has-keep_changes k [] kept seen h = (ground (arith, h), h)
has-keep_changes k (pc ∷ l) kept seen h =
    let key = privilege_key pc in
    let goal = λ (b : Bool).
      Kept k (pc ∷ l) seen
        (keep_changes l (if not b then (kept ++ pc ∷ [], key ∷ seen) else (kept, seen))) in
    elim (Bool-cases (has key seen)) [
      | inl e ↦
          let (p, q) = has-keep_changes k l kept seen h in
          subst goal (sym e) (ground (arith, e, eq_iff k key, p), q)
      | inr e ↦
          let (p, q) =
            has-keep_changes k l (kept ++ pc ∷ []) (key ∷ seen)
              (ground (arith, h, has-change_keys-last k kept pc)) in
          subst goal (sym e) (ground (arith, p), q)
    ]

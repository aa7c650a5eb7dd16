-- ===== src/Ebpf/Classify/Counts.antt =====
-- internal/sensor/ebpf/fsclassify.go: about the counts of buildFilesystem.
use scrutiny.Base.{
  ℕ, ◌+◌, ◌≡◌, refl, Bool, true, false, not, ◌&&◌, List, [], ◌∷◌, arith, if◌then◌else◌, All,
  All-map, get_or,
}
use scrutiny.Base.Eq.{◌==◌, nat_eq, pair_eq, eq_iff, eq_refl, has, Distinct}
use scrutiny.Base.Text.{Text, text_eq}
use scrutiny.Base.Assoc.{Assoc, keys, lookup, bump}
use scrutiny.Base.Assoc.Laws.{lookup-insert, insert-Distinct}
use scrutiny.Base.Sort.Laws.{All-sort_by}
use scrutiny.Schema.Platform.{PlatformContext}
use scrutiny.Host.{Host}
use scrutiny.Ebpf.Classify.{
  FileAccess, Bucket, bucket_eq, buckets_for, count_buckets, count_accesses, file, listed,
  path_less, bucket_list, build_filesystem,
}
use scrutiny.Ebpf.Classify.Lists.{files_of}

-- How often the bucket occurs among the buckets.
abbrev pub times : Bucket → List Bucket → ℕ
times b [] = 0
times b (c ∷ cs) = (if b == c then 1 else 0) + times b cs

-- How many accesses with this path fall into the bucket.
unfoldable pub accesses : Bucket → Text → List FileAccess → ℕ
accesses b p [] = 0
accesses b p (a ∷ l) =
    (if not (a.path == []) && a.path == p then times b (buckets_for a) else 0) + accesses b p l

count_buckets-counts :
    (b : Bucket) (p q : Text) (bs : List Bucket) (m : Assoc (Bucket × Text) ℕ)
    → get_or 0 (lookup (b, p) (count_buckets q bs m))
      ≡ (if q == p then times b bs else 0) + get_or 0 (lookup (b, p) m)
unfolding count_buckets bump
count_buckets-counts b p q [] m = ground arith
count_buckets-counts b p q (c ∷ cs) m = ground (
  arith,
  eq_iff c b,
  eq_iff b c,
  eq_iff q p,
  lookup-insert (c, q) (b, p) (get_or 0 (lookup (c, q) m) + 1) m,
  count_buckets-counts b p q cs (bump (c, q) m),
)

count_accesses-counts :
    (b : Bucket) (p : Text) (l : List FileAccess) (m : Assoc (Bucket × Text) ℕ)
    → get_or 0 (lookup (b, p) (count_accesses l m)) ≡ accesses b p l + get_or 0 (lookup (b, p) m)
unfolding count_accesses accesses
count_accesses-counts b p [] m = ground arith
count_accesses-counts b p (a ∷ l) m = ground (
  arith,
  count_buckets-counts b p a.path (buckets_for a) m,
  count_accesses-counts b p l (if a.path == [] then m else count_buckets a.path (buckets_for a) m),
)

count_buckets-Distinct :
    (q : Text) (bs : List Bucket) (m : Assoc (Bucket × Text) ℕ)
    → Distinct (keys m)
    → Distinct (keys (count_buckets q bs m))
unfolding count_buckets bump
count_buckets-Distinct q [] m d = d
count_buckets-Distinct q (c ∷ cs) m d =
    count_buckets-Distinct q cs (bump (c, q) m) (insert-Distinct (c, q) _ m d)

count_accesses-Distinct :
    (l : List FileAccess) (m : Assoc (Bucket × Text) ℕ)
    → Distinct (keys m)
    → Distinct (keys (count_accesses l m))
unfolding count_accesses
count_accesses-Distinct [] m d = d
count_accesses-Distinct (a ∷ l) m d =
    count_accesses-Distinct l (if a.path == [] then m else count_buckets a.path (buckets_for a) m)
      (ground (arith, d, count_buckets-Distinct a.path (buckets_for a) m d))

All-if {ℓ κ} :
    {A : Type ℓ} (P : A → Type κ) (b : Bool) (x : A) (l : List A)
    → ((b ≡ true) → P x)
    → All P l
    → All P (if b then x ∷ l else l)
All-if P true x l p h = (p refl, h)
All-if P false x l p h = h

-- The listed files have the counts of a map whose keys are distinct.
listed-counts :
    (h : Host) (ctx : PlatformContext) (b : Bucket) (m : Assoc (Bucket × Text) ℕ)
    → Distinct (keys m)
    → All
        (λ f. (has (b, f.path) (keys m) ≡ true) × (f.count ≡ get_or 0 (lookup (b, f.path) m)))
        (listed h ctx b m)
unfolding listed file has lookup
listed-counts h ctx b [] d = tt
listed-counts h ctx b (((k, q), n) ∷ m) (fresh, d) =
    let rest =
      All-map _
        (λ f.
          (has (b, f.path) (keys (((k, q), n) ∷ m)) ≡ true)
          × (f.count ≡ get_or 0 (lookup (b, f.path) (((k, q), n) ∷ m))))
        (listed h ctx b m)
        (λ f (old, c). (
          ground (arith, old),
          ground (arith, old, c, fresh, eq_iff k b, eq_iff b k, eq_iff q f.path, eq_iff f.path q),
        ))
        (listed-counts h ctx b m d) in
    All-if _ (k == b) _ _
      (λ e. (
        ground (arith, e, eq_iff k b, eq_iff b k, eq_refl b, eq_refl q),
        ground (arith, e, eq_iff k b, eq_iff b k, eq_refl b, eq_refl q),
      ))
      rest

counts_bucket :
    (h : Host) (ctx : PlatformContext) (b : Bucket) (l : List FileAccess)
    → All (λ f. f.count ≡ accesses b f.path l) (bucket_list h ctx b l)
unfolding bucket_list lookup
counts_bucket h ctx b l =
    let m = count_accesses l [] in
    All-sort_by path_less (λ f. f.count ≡ accesses b f.path l) (listed h ctx b m)
      (All-map _ (λ f. f.count ≡ accesses b f.path l) (listed h ctx b m)
        (λ f (_, c). ground (arith, c, count_accesses-counts b f.path l []))
        (listed-counts h ctx b m (count_accesses-Distinct l [] tt)))

-- Each file in the list of a bucket has as its count the number of accesses with its path that fall
-- into the bucket.
pub build_filesystem-counts :
    (h : Host) (ctx : PlatformContext) (b : Bucket) (l : List FileAccess)
    → All (λ f. f.count ≡ accesses b f.path l) (files_of b (build_filesystem h ctx l))
unfolding build_filesystem
build_filesystem-counts h ctx Bucket.read l = counts_bucket h ctx Bucket.read l
build_filesystem-counts h ctx Bucket.written l = counts_bucket h ctx Bucket.written l
build_filesystem-counts h ctx Bucket.created l = counts_bucket h ctx Bucket.created l
build_filesystem-counts h ctx Bucket.deleted l = counts_bucket h ctx Bucket.deleted l
build_filesystem-counts h ctx Bucket.exec l = counts_bucket h ctx Bucket.exec l

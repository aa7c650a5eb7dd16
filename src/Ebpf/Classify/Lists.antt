-- ===== src/Ebpf/Classify/Lists.antt =====
-- internal/sensor/ebpf/fsclassify.go: about the lists of buildFilesystem.
use scrutiny.Base.{
  ℕ, ◌+◌, ◌≡◌, refl, ◌∙◌, Bool, false, not, ◌&&◌, ◌||◌, List, [], ◌∷◌, map, arith, if◌then◌else◌,
  get_or,
}
use scrutiny.Base.Eq.{◌==◌, nat_eq, pair_eq, eq_iff, has}
use scrutiny.Base.Text.{Text, text_eq}
use scrutiny.Base.Assoc.{Assoc, keys, lookup, bump}
use scrutiny.Base.Assoc.Laws.{has-keys-insert}
use scrutiny.Base.Sort.Laws.{has-sort_by}
use scrutiny.Schema.Platform.{PlatformContext}
use scrutiny.Schema.Observed.{FilePath, FilesystemObservation}
use scrutiny.Host.{Host}
use scrutiny.Ebpf.Classify.{
  FileAccess, Bucket, bucket_eq, buckets_for, count_buckets, count_accesses, file, listed,
  path_less, bucket_list, build_filesystem,
}

abbrev pub path_of : FilePath → Text
path_of f = f.path

-- Does some access with this path fall into the bucket?
unfoldable pub accessed : Bucket → Text → List FileAccess → Bool
accessed b p [] = false
accessed b p (a ∷ l) =
    (not (a.path == []) && a.path == p && has b (buckets_for a)) || accessed b p l

has-count_buckets :
    (b : Bucket) (p q : Text) (bs : List Bucket) (m : Assoc (Bucket × Text) ℕ)
    → has (b, p) (keys (count_buckets q bs m)) ≡ ((q == p && has b bs) || has (b, p) (keys m))
unfolding count_buckets has bump
has-count_buckets b p q [] m = ground arith
has-count_buckets b p q (c ∷ cs) m = ground (
  arith,
  eq_iff c b,
  eq_iff b c,
  has-keys-insert (c, q) (b, p) (get_or 0 (lookup (c, q) m) + 1) m,
  has-count_buckets b p q cs (bump (c, q) m),
)

has-count_accesses :
    (b : Bucket) (p : Text) (l : List FileAccess) (m : Assoc (Bucket × Text) ℕ)
    → has (b, p) (keys (count_accesses l m)) ≡ (accessed b p l || has (b, p) (keys m))
unfolding count_accesses accessed
has-count_accesses b p [] m = ground arith
has-count_accesses b p (a ∷ l) m = ground (
  arith,
  has-count_buckets b p a.path (buckets_for a) m,
  has-count_accesses b p l (if a.path == [] then m else count_buckets a.path (buckets_for a) m),
)

has-listed :
    (h : Host) (ctx : PlatformContext) (b : Bucket) (p : Text) (m : Assoc (Bucket × Text) ℕ)
    → has p (map path_of (listed h ctx b m)) ≡ has (b, p) (keys m)
unfolding listed has file
has-listed h ctx b p [] = refl
has-listed h ctx b p (((k, q), n) ∷ m) =
    ground (arith, eq_iff k b, eq_iff b k, has-listed h ctx b p m)

lists_bucket :
    (h : Host) (ctx : PlatformContext) (b : Bucket) (p : Text) (l : List FileAccess)
    → has p (map path_of (bucket_list h ctx b l)) ≡ accessed b p l
unfolding bucket_list has
lists_bucket h ctx b p l =
    has-sort_by path_less path_of p (listed h ctx b (count_accesses l []))
    ∙ (has-listed h ctx b p (count_accesses l []) ∙ ground (arith, has-count_accesses b p l []))

-- The list of a bucket in the observation.
abbrev pub files_of : Bucket → FilesystemObservation → List FilePath
files_of Bucket.read o = o.paths_read
files_of Bucket.written o = o.paths_written
files_of Bucket.created o = o.paths_created
files_of Bucket.deleted o = o.paths_deleted
files_of Bucket.exec o = o.execs_touched

-- A path is in the list of a bucket exactly when some access with this path, which is not empty,
-- falls into the bucket.
pub build_filesystem-lists :
    (h : Host) (ctx : PlatformContext) (b : Bucket) (p : Text) (l : List FileAccess)
    → has p (map path_of (files_of b (build_filesystem h ctx l))) ≡ accessed b p l
unfolding build_filesystem
build_filesystem-lists h ctx Bucket.read p l = lists_bucket h ctx Bucket.read p l
build_filesystem-lists h ctx Bucket.written p l = lists_bucket h ctx Bucket.written p l
build_filesystem-lists h ctx Bucket.created p l = lists_bucket h ctx Bucket.created p l
build_filesystem-lists h ctx Bucket.deleted p l = lists_bucket h ctx Bucket.deleted p l
build_filesystem-lists h ctx Bucket.exec p l = lists_bucket h ctx Bucket.exec p l

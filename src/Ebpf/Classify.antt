-- ===== src/Ebpf/Classify.antt =====
-- internal/sensor/ebpf/fsclassify.go: file accesses sorted into the lists of an observation.
pub mod Lists
pub mod Counts
use scrutiny.Base.{ℕ, Bool, false, ◌||◌, List, [], ◌∷◌, if◌then◌else◌}
use scrutiny.Base.Eq.{Eq, eq_of_discrete, ◌==◌, nat_eq, pair_eq}
use scrutiny.Base.Int64.{Int64}
use scrutiny.Base.Text.{Text, codes, text_eq}
use scrutiny.Base.Text.Order.{text_lt}
use scrutiny.Base.Text.Search.{has_prefix, contains}
use scrutiny.Base.Assoc.{Assoc, bump}
use scrutiny.Base.Sort.{sort_by}
use scrutiny.Schema.Platform.{PlatformContext}
use scrutiny.Schema.Observed.{FilePath, FilesystemObservation, no_filesystem}
use scrutiny.Host.{Host}
use scrutiny.Context.Paths.{is_interop_path}
use scrutiny.Sensor.Capability.{bit}

-- `flags` is a uint32 and `op` a uint8.
pub record FileAccess : Type 0 where
  pub syscall_nr : Int64
  pub flags : ℕ
  pub op : ℕ
  pub path : Text

abbrev pub op_delete : ℕ
op_delete = 1

abbrev pub op_exec : ℕ
op_exec = 2

abbrev pub op_rename : ℕ
op_rename = 3

pub data Bucket : Type 0 where
  read written created deleted exec : Bucket

unfoldable pub Bucket-discrete : Discrete Bucket
Bucket-discrete = hlevel

instance abbrev pub bucket_eq : Eq Bucket
bucket_eq = eq_of_discrete Bucket-discrete

-- F_CREAT is bit 6, F_WRONLY, F_RDWR and F_TRUNC are the bits 0, 1 and 9.
unfoldable pub open_buckets : ℕ → List Bucket
unfolding bit
open_buckets flags =
    let writes = bit flags 0 || bit flags 1 || bit flags 9 in
    if bit flags 6
    then created ∷ (if writes then written ∷ [] else [])
    else if writes
    then written ∷ []
    else read ∷ []

unfoldable pub buckets_for : FileAccess → List Bucket
unfolding open_buckets
buckets_for a =
    if a.op == op_delete
    then deleted ∷ []
    else if a.op == op_exec
    then exec ∷ []
    else if a.op == op_rename
    then created ∷ written ∷ []
    else open_buckets a.flags

has_some_prefix : Text → List Text → Bool
unfolding has_prefix
has_some_prefix path [] = false
has_some_prefix path (p ∷ ps) = has_prefix path p || has_some_prefix path ps

contains_some : Text → List Text → Bool
unfolding contains
contains_some path [] = false
contains_some path (p ∷ ps) = contains path p || contains_some path ps

abbrev pub sensitive_prefixes : List Text
sensitive_prefixes =
    codes "/etc/passwd"
    ∷ codes "/etc/shadow"
    ∷ codes "/etc/sudoers"
    ∷ codes "/etc/gshadow"
    ∷ codes "/etc/ssh"
    ∷ codes "/etc/crontab"
    ∷ codes "/etc/cron."
    ∷ codes "/var/spool/cron"
    ∷ codes "/root/"
    ∷ codes "/boot/"
    ∷ []

abbrev pub sensitive_contains : List Text
sensitive_contains =
    codes "/.ssh/"
    ∷ codes "/.bash_history"
    ∷ codes "/.aws/credentials"
    ∷ codes "/.docker/config"
    ∷ codes "/authorized_keys"
    ∷ []

unfoldable pub is_sensitive_path : Text → Bool
unfolding has_some_prefix contains_some
is_sensitive_path path =
    has_some_prefix path sensitive_prefixes || contains_some path sensitive_contains

-- counts[key{bkt, a.Path}]++ for each bucket
unfoldable pub count_buckets :
    Text → List Bucket → Assoc (Bucket × Text) ℕ → Assoc (Bucket × Text) ℕ
unfolding bump
count_buckets path [] m = m
count_buckets path (b ∷ bs) m = count_buckets path bs (bump (b, path) m)

unfoldable pub count_accesses : List FileAccess → Assoc (Bucket × Text) ℕ → Assoc (Bucket × Text) ℕ
unfolding count_buckets buckets_for
count_accesses [] m = m
count_accesses (a ∷ l) m =
    count_accesses l (if a.path == [] then m else count_buckets a.path (buckets_for a) m)

-- The file that `add` appends.
unfoldable pub file : Host → PlatformContext → Text → ℕ → FilePath
file h ctx path count = record {
  path = path;
  normalized_path = path;
  count = count;
  sensitive = is_sensitive_path path;
  interop_path = is_interop_path h path ctx;
}

-- What the loop over the counts appends to the list of one bucket.
unfoldable pub listed : Host → PlatformContext → Bucket → Assoc (Bucket × Text) ℕ → List FilePath
unfolding file
listed h ctx b [] = []
listed h ctx b (((k, path), count) ∷ m) =
    let rest = listed h ctx b m in if k == b then file h ctx path count ∷ rest else rest

unfoldable pub path_less : FilePath → FilePath → Bool
path_less f g = text_lt f.path g.path

unfoldable pub bucket_list : Host → PlatformContext → Bucket → List FileAccess → List FilePath
unfolding path_less listed count_accesses sort_by
bucket_list h ctx b l = sort_by path_less (listed h ctx b (count_accesses l []))

unfoldable pub build_filesystem : Host → PlatformContext → List FileAccess → FilesystemObservation
unfolding bucket_list
build_filesystem h ctx l = record no_filesystem {
  paths_read = bucket_list h ctx read l;
  paths_written = bucket_list h ctx written l;
  paths_created = bucket_list h ctx created l;
  paths_deleted = bucket_list h ctx deleted l;
  execs_touched = bucket_list h ctx exec l;
}

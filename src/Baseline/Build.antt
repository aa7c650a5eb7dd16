-- ===== src/Baseline/Build.antt =====
-- internal/baseline/merge.go: Build. What it collects from a map is sorted by a key, or goes into
-- another map.
pub mod Coverage
pub mod Replay
pub mod Counts
pub mod Unique
pub mod Adds
pub mod Tracked
pub mod Union
pub mod Records
pub mod Gaps
use scrutiny.Base.{false, List, [], if◌then◌else◌}
use scrutiny.Base.Eq.{nat_eq}
use scrutiny.Base.Int64.{slt}
use scrutiny.Base.Text.{Text, text_eq}
use scrutiny.Base.Text.Order.{text_lt}
use scrutiny.Base.Assoc.{Assoc, values}
use scrutiny.Base.Sort.{sort_by}
use scrutiny.Schema.Platform.{unavailable, native}
use scrutiny.Schema.Observed.{
  SyscallsObservation, NetworkObservation, FilePath, FilesystemObservation, RegistryKey,
  RegistryObservation, ChildProcess, ProcessObservation, MemoryRegion, MemoryObservation,
  no_syscalls, no_network, no_filesystem, no_process, no_memory,
}
use scrutiny.Analysis.Keys.{port_key, conn_key, raw_key}
use scrutiny.Baseline.Accumulator.{Accumulator}
use scrutiny.Baseline.Notes.{variance_notes}

pub record Result : Type 0 where
  pub syscalls : SyscallsObservation
  pub network : NetworkObservation
  pub filesystem : FilesystemObservation
  pub process : ProcessObservation
  pub memory : MemoryObservation
  pub registry : RegistryObservation
  pub notes : List Text

-- sort.Slice(l, key(l[i]) < key(l[j]))
unfoldable pub by_key {ℓ} : {A : Type ℓ} → (A → Text) → List A → List A
by_key key = sort_by (λ x y. text_lt (key x) (key y))

abbrev pub file_path : FilePath → Text
file_path f = f.path

unfoldable pub files_slice : Assoc Text FilePath → List FilePath
unfolding by_key
files_slice m = by_key file_path (values m)

abbrev pub key_path : RegistryKey → Text
key_path k = k.key

unfoldable pub reg_slice : Assoc Text RegistryKey → List RegistryKey
unfolding by_key
reg_slice m = by_key key_path (values m)

abbrev pub path_name : ChildProcess → Text
path_name c = c.path

abbrev pub range_name : MemoryRegion → Text
range_name r = r.address_range

abbrev pub text_itself : Text → Text
text_itself s = s

unfoldable pub build : Accumulator → Result
unfolding by_key files_slice reg_slice
build a = record {
  syscalls = record no_syscalls { observed = a.syscalls; suspicious_never_expected = a.suspicious };
  network = record no_network {
    listening_ports = by_key port_key (values a.ports);
    outbound_connections = by_key conn_key (values a.conns);
    raw_sockets = by_key raw_key (values a.raw);
    promiscuous_interfaces = by_key text_itself a.promisc;
  };
  filesystem = record no_filesystem {
    paths_read = files_slice a.files_read;
    paths_written = files_slice a.files_written;
    paths_created = files_slice a.files_created;
    paths_deleted = files_slice a.files_deleted;
    execs_touched = files_slice a.files_exec;
  };
  process = record no_process {
    privilege_changes = a.priv_chng;
    children_spawned = by_key path_name (values a.children);
  };
  memory = record no_memory {
    peak_rss_kb = a.peak_rss;
    heap_growth_kb = a.heap_growth;
    executable_regions = by_key range_name (values a.mem_regions);
    mapped_files = by_key text_itself a.mapped_mem;
    large_allocations = sort_by slt a.large_alloc;
  };
  registry = record {
    available = a.reg_available;
    context = if a.reg_available then native else unavailable;
    keys_read = [];
    keys_written = reg_slice a.reg_written;
    keys_created = reg_slice a.reg_created;
    keys_deleted = reg_slice a.reg_deleted;
    persistence_path_touched = a.reg_persist;
    security_weakened = false;
  };
  notes = variance_notes a;
}

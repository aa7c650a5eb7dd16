-- ===== src/Baseline/Accumulator.antt =====
-- internal/baseline/merge.go: Accumulator, New and AddRun. A `map[string]bool` is the list of its
-- keys. Where a loop of the source writes two maps, each is written by a loop of its own here.
use scrutiny.Base.{
  ℕ, ◌+◌, Bool, true, false, Option, none, some, List, [], ◌∷◌, ltb, if◌then◌else◌, length,
}
use scrutiny.Base.Eq.{nat_eq}
use scrutiny.Base.Int64.{Int64, slt}
use scrutiny.Base.Text.{Text, text_eq}
use scrutiny.Base.Assoc.{Assoc}
use scrutiny.Schema.Observed.{
  SyscallRecord, SyscallsObservation, ListeningPort, OutboundConnection, RawSocket,
  NetworkObservation, FilePath, FilesystemObservation, RegistryKey, RegistryObservation,
  ChildProcess, PrivilegeChange, ProcessObservation, MemoryRegion, MemoryObservation,
}
use scrutiny.Schema.Baseline.{confidence_eq}
use scrutiny.Analysis.Keys.{port_key, conn_key, raw_key}
use scrutiny.Baseline.Maps.{
  keep_first, keep_last, count_keys, add_names, merge_calls, merge_files, keep_changes,
}

pub record Accumulator : Type 0 where
  pub runs : ℕ
  pub syscalls : Assoc Text SyscallRecord
  pub syscall_runs : Assoc Text ℕ
  pub suspicious : List Text
  pub ports : Assoc Text ListeningPort
  pub port_runs : Assoc Text ℕ
  pub conns : Assoc Text OutboundConnection
  pub conn_runs : Assoc Text ℕ
  pub raw : Assoc Text RawSocket
  pub raw_runs : Assoc Text ℕ
  pub promisc : List Text
  pub files_read : Assoc Text FilePath
  pub files_written : Assoc Text FilePath
  pub files_created : Assoc Text FilePath
  pub files_deleted : Assoc Text FilePath
  pub files_exec : Assoc Text FilePath
  pub children : Assoc Text ChildProcess
  pub priv_chng : List PrivilegeChange
  pub priv_seen : List Text
  pub mem_regions : Assoc Text MemoryRegion
  pub mapped_mem : List Text
  pub large_alloc : List Int64
  pub peak_rss : Int64
  pub heap_growth : Int64
  pub reg_created : Assoc Text RegistryKey
  pub reg_written : Assoc Text RegistryKey
  pub reg_deleted : Assoc Text RegistryKey
  pub reg_available : Bool
  pub reg_persist : Bool

-- New()
abbrev pub empty : Accumulator
empty = record {
  runs = 0;
  syscalls = [];
  syscall_runs = [];
  suspicious = [];
  ports = [];
  port_runs = [];
  conns = [];
  conn_runs = [];
  raw = [];
  raw_runs = [];
  promisc = [];
  files_read = [];
  files_written = [];
  files_created = [];
  files_deleted = [];
  files_exec = [];
  children = [];
  priv_chng = [];
  priv_seen = [];
  mem_regions = [];
  mapped_mem = [];
  large_alloc = [];
  peak_rss = 0;
  heap_growth = 0;
  reg_created = [];
  reg_written = [];
  reg_deleted = [];
  reg_available = false;
  reg_persist = false;
}

abbrev pub call_name : Text × SyscallRecord → Text
call_name (name, rec) = name

unfoldable pub add_syscalls : Option SyscallsObservation → Accumulator → Accumulator
add_syscalls none a = a
add_syscalls (some s) a = record a {
  suspicious =
      if ltb 0 (length s.suspicious_never_expected)
      then s.suspicious_never_expected
      else a.suspicious;
  syscall_runs = count_keys call_name s.observed a.syscall_runs;
  syscalls = merge_calls s.observed a.syscalls;
}

unfoldable pub add_network : Option NetworkObservation → Accumulator → Accumulator
add_network none a = a
add_network (some n) a = record a {
  ports = keep_first port_key n.listening_ports a.ports;
  port_runs = count_keys port_key n.listening_ports a.port_runs;
  conns = keep_first conn_key n.outbound_connections a.conns;
  conn_runs = count_keys conn_key n.outbound_connections a.conn_runs;
  raw = keep_first raw_key n.raw_sockets a.raw;
  raw_runs = count_keys raw_key n.raw_sockets a.raw_runs;
  promisc = add_names n.promiscuous_interfaces a.promisc;
}

unfoldable pub add_files : Option FilesystemObservation → Accumulator → Accumulator
add_files none a = a
add_files (some f) a = record a {
  files_read = merge_files f.paths_read a.files_read;
  files_written = merge_files f.paths_written a.files_written;
  files_created = merge_files f.paths_created a.files_created;
  files_deleted = merge_files f.paths_deleted a.files_deleted;
  files_exec = merge_files f.execs_touched a.files_exec;
}

abbrev pub child_path : ChildProcess → Text
child_path c = c.path

unfoldable pub add_process : Option ProcessObservation → Accumulator → Accumulator
add_process none a = a
add_process (some p) a =
    let (kept, seen) = keep_changes p.privilege_changes (a.priv_chng, a.priv_seen) in
    record a {
      children = keep_first child_path p.children_spawned a.children;
      priv_chng = kept;
      priv_seen = seen;
    }

abbrev pub region_range : MemoryRegion → Text
region_range r = r.address_range

unfoldable pub add_memory : Option MemoryObservation → Accumulator → Accumulator
add_memory none a = a
add_memory (some m) a = record a {
  mem_regions = keep_last region_range m.executable_regions a.mem_regions;
  mapped_mem = add_names m.mapped_files a.mapped_mem;
  large_alloc = add_names m.large_allocations a.large_alloc;
  peak_rss = if slt a.peak_rss m.peak_rss_kb then m.peak_rss_kb else a.peak_rss;
  heap_growth = if slt a.heap_growth m.heap_growth_kb then m.heap_growth_kb else a.heap_growth;
}

abbrev pub registry_path : RegistryKey → Text
registry_path k = k.key

unfoldable pub add_registry : Option RegistryObservation → Accumulator → Accumulator
add_registry none a = a
add_registry (some r) a = record a {
  reg_available = if r.available then true else a.reg_available;
  reg_persist = if r.persistence_path_touched then true else a.reg_persist;
  reg_created = keep_last registry_path r.keys_created a.reg_created;
  reg_written = keep_last registry_path r.keys_written a.reg_written;
  reg_deleted = keep_last registry_path r.keys_deleted a.reg_deleted;
}

-- The observations of one run: the arguments of AddRun, nil where a sensor gave none.
pub record Run : Type 0 where
  pub syscalls : Option SyscallsObservation
  pub network : Option NetworkObservation
  pub files : Option FilesystemObservation
  pub process : Option ProcessObservation
  pub memory : Option MemoryObservation
  pub registry : Option RegistryObservation

unfoldable pub add_run : Run → Accumulator → Accumulator
unfolding add_syscalls add_network add_files add_process add_memory add_registry
add_run r a = add_registry r.registry (
    add_memory r.memory (
      add_process r.process (
        add_files r.files
          (add_network r.network (add_syscalls r.syscalls (record a { runs = a.runs + 1 }))))))

-- The loop of runBaseline over the captured runs.
unfoldable pub add_runs : List Run → Accumulator → Accumulator
add_runs [] a = a
add_runs (r ∷ l) a = add_runs l (add_run r a)

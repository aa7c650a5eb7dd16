-- ===== src/Schema/Observed.antt =====
-- internal/schema/baseline.go: what the sensors observe, dimension by dimension.
-- A nil slice and an empty one are one list, since nothing in the program tells them apart.
use scrutiny.Base.{Bool, false, List, []}
use scrutiny.Base.Eq.{nat_eq}
use scrutiny.Base.Int64.{Int64}
use scrutiny.Base.Text.{Text, text_eq}
use scrutiny.Base.Assoc.{Assoc}
use scrutiny.Schema.Platform.{SensorAvailability}

pub record SyscallRecord : Type 0 where
  pub count : Int64
  pub first_seen_offset_ms : Int64
  pub last_seen_offset_ms : Int64
  pub args_sample : List Text
  pub exit_count : Int64
  pub error_count : Int64
  pub ret_sample : List Int64
  pub max_latency_ns : Int64
  pub total_latency_ns : Int64

pub record SyscallPercentiles : Type 0 where
  pub p50 : Assoc Text Int64
  pub p95 : Assoc Text Int64
  pub p99 : Assoc Text Int64

pub record SyscallsObservation : Type 0 where
  pub observed : Assoc Text SyscallRecord
  pub sequence_patterns : List Text
  pub frequency_percentiles : SyscallPercentiles
  pub suspicious_never_expected : List Text
  pub wine_layer_signatures : List Text

pub record ListeningPort : Type 0 where
  pub port : Int64
  pub proto : Text
  pub address : Text
  pub first_seen_offset_ms : Int64
  pub expected : Bool

pub record OutboundConnection : Type 0 where
  pub destination_ip : Text
  pub destination_port : Int64
  pub proto : Text
  pub dns_name : Text
  pub bytes_sent : Int64
  pub bytes_received : Int64
  pub first_seen_offset_ms : Int64

pub record DnsQuery : Type 0 where
  pub query : Text
  pub response : Text
  pub first_seen_offset_ms : Int64

pub record RawSocket : Type 0 where
  pub family : Text
  pub protocol : Text
  pub interface : Text
  pub inode : Text
  pub first_seen_offset_ms : Int64

pub record NetworkObservation : Type 0 where
  pub listening_ports : List ListeningPort
  pub outbound_connections : List OutboundConnection
  pub dns_queries : List DnsQuery
  pub raw_sockets : List RawSocket
  pub promiscuous_interfaces : List Text
  pub wsl_forwarded_ports : List Int64
  pub interop_network_calls : List Text

pub record FilePath : Type 0 where
  pub path : Text
  pub normalized_path : Text
  pub count : Int64
  pub sensitive : Bool
  pub interop_path : Bool

pub record InteropFsAccess : Type 0 where
  pub windows_paths_from_wsl : List Text
  pub linux_paths_from_wine : List Text

pub record FilesystemObservation : Type 0 where
  pub paths_read : List FilePath
  pub paths_written : List FilePath
  pub paths_created : List FilePath
  pub paths_deleted : List FilePath
  pub execs_touched : List FilePath
  pub temp_patterns : List Text
  pub interop_fs_access : InteropFsAccess

pub record RegistryKey : Type 0 where
  pub key : Text
  pub value_name : Text
  pub count : Int64
  pub sensitive : Bool

pub record RegistryObservation : Type 0 where
  pub available : Bool
  pub context : SensorAvailability
  pub keys_read : List RegistryKey
  pub keys_written : List RegistryKey
  pub keys_created : List RegistryKey
  pub keys_deleted : List RegistryKey
  pub persistence_path_touched : Bool
  pub security_weakened : Bool

pub record ChildProcess : Type 0 where
  pub name : Text
  pub path : Text
  pub sha256 : Text
  pub args : List Text
  pub uid : Int64
  pub first_seen_offset_ms : Int64

pub record PrivilegeChange : Type 0 where
  pub from_uid : Int64
  pub to_uid : Int64
  pub syscall : Text
  pub offset_ms : Int64

pub record ProcessObservation : Type 0 where
  pub children_spawned : List ChildProcess
  pub signals_sent : List Text
  pub procfs_reads : List Text
  pub privilege_changes : List PrivilegeChange
  pub capabilities_used : List Text
  pub injection_detected : Bool

pub record MemoryRegion : Type 0 where
  pub address_range : Text
  pub backed_by : Text
  pub suspicious : Bool

pub record MemoryObservation : Type 0 where
  pub peak_rss_kb : Int64
  pub heap_growth_kb : Int64
  pub executable_regions : List MemoryRegion
  pub large_allocations : List Int64
  pub mapped_files : List Text

-- The zero values of the observations: `schema.NetworkObservation{}` and the like.
abbrev pub no_syscalls : SyscallsObservation
no_syscalls = record {
  observed = [];
  sequence_patterns = [];
  frequency_percentiles = record { p50 = []; p95 = []; p99 = [] };
  suspicious_never_expected = [];
  wine_layer_signatures = [];
}

abbrev pub no_network : NetworkObservation
no_network = record {
  listening_ports = [];
  outbound_connections = [];
  dns_queries = [];
  raw_sockets = [];
  promiscuous_interfaces = [];
  wsl_forwarded_ports = [];
  interop_network_calls = [];
}

abbrev pub no_filesystem : FilesystemObservation
no_filesystem = record {
  paths_read = [];
  paths_written = [];
  paths_created = [];
  paths_deleted = [];
  execs_touched = [];
  temp_patterns = [];
  interop_fs_access = record { windows_paths_from_wsl = []; linux_paths_from_wine = [] };
}

abbrev pub no_process : ProcessObservation
no_process = record {
  children_spawned = [];
  signals_sent = [];
  procfs_reads = [];
  privilege_changes = [];
  capabilities_used = [];
  injection_detected = false;
}

abbrev pub no_memory : MemoryObservation
no_memory = record {
  peak_rss_kb = 0;
  heap_growth_kb = 0;
  executable_regions = [];
  large_allocations = [];
  mapped_files = [];
}

-- ===== src/Tests/Samples.antt =====
-- Sample data.

use scrutiny.Base.{true, false, none, List, [], ◌∷◌}
use scrutiny.Base.Eq.{nat_eq}
use scrutiny.Base.Text.{codes, text_eq}
use scrutiny.Schema.Platform.{
  native_linux, full, unavailable, no_backend, PlatformContext, TargetProcess,
}
use scrutiny.Schema.Observed.{
  SyscallRecord, SyscallsObservation, ListeningPort, RawSocket, NetworkObservation, FilePath,
  FilesystemObservation, no_syscalls, no_network, no_filesystem,
}
use scrutiny.Schema.Anomaly.{new_listening_port, Severity, Dimension, null, Anomaly}
use scrutiny.Schema.Baseline.{Baseline, Observation, new_baseline, new_observation}

abbrev pub platform : PlatformContext
platform = record {
  detected_platform = native_linux;
  host_platform = codes "linux";
  interop_layer = codes "none";
  kernel_version = codes "6.1.0";
  os_version = codes "Debian";
  wine_version = none;
  wsl_build = none;
  container_runtime = none;
  capabilities = record {
    syscalls = full;
    network = full;
    filesystem = full;
    registry = unavailable;
    memory = full;
    interop_fs = false;
    active_backend = no_backend;
    ebpf_available = false;
    ebpf_kernel_min = true;
    ebpf_ring_buffer = true;
    strace_available = true;
  };
}

abbrev pub target : TargetProcess
target = record {
  name = codes "srv";
  path = codes "/bin/srv";
  sha256 = [];
  md5 = [];
  args = [];
  env_of_note = [];
  uid = 0;
  user = [];
}

abbrev pub fresh_baseline : Baseline
fresh_baseline = new_baseline (codes "b1") 0 platform target

abbrev pub call_record : SyscallRecord
call_record = record {
  count = 1;
  first_seen_offset_ms = 5;
  last_seen_offset_ms = 9;
  args_sample = codes "0x1" ∷ [];
  exit_count = 1;
  error_count = 0;
  ret_sample = 0 ∷ [];
  max_latency_ns = 100;
  total_latency_ns = 100;
}

abbrev pub tracing : SyscallsObservation
tracing = record no_syscalls {
  observed = (codes "read", call_record) ∷ (codes "ptrace", call_record) ∷ [];
}

abbrev pub sample_observation : Observation
sample_observation = new_observation (codes "o") (codes "o1") 0 (codes "b1") platform target

abbrev pub port_80 : ListeningPort
port_80 = record {
  port = 80;
  proto = codes "tcp";
  address = codes "0.0.0.0";
  first_seen_offset_ms = 0;
  expected = false;
}

abbrev pub sniffer : RawSocket
sniffer = record {
  family = codes "packet";
  protocol = codes "0x0003";
  interface = codes "*";
  inode = codes "759";
  first_seen_offset_ms = 3;
}

abbrev pub listening : NetworkObservation
listening = record no_network {
  listening_ports = port_80 ∷ [];
  raw_sockets = sniffer ∷ [];
  promiscuous_interfaces = codes "eth0" ∷ [];
}

abbrev pub dropper : FilePath
dropper = record {
  path = codes "/tmp/x";
  normalized_path = codes "/tmp/x";
  count = 1;
  sensitive = false;
  interop_path = false;
}

abbrev pub dropped : FilesystemObservation
dropped = record no_filesystem { paths_created = dropper ∷ []; execs_touched = dropper ∷ [] }

abbrev pub traced : Observation
traced = record sample_observation {
  base = record fresh_baseline { syscalls = tracing; network = listening; filesystem = dropped };
}

abbrev pub finding : Anomaly
finding = record {
  dimension = Dimension.network;
  type = new_listening_port;
  severity = Severity.high;
  weight = 9;
  mitre_technique = codes "T1571";
  description = codes "new listening port tcp/80 on 0.0.0.0";
  baseline_value = null;
  observed_value = null;
  first_seen_offset_ms = 0;
  suppressed = false;
  suppression_reason = none;
}

abbrev pub hidden : Anomaly
hidden = record finding { suppressed = true; description = codes "noise" }

abbrev pub findings : List Anomaly
findings = hidden ∷ finding ∷ []

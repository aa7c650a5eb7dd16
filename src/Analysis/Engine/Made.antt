-- ===== src/Analysis/Engine/Made.antt =====
-- internal/analysis/analyze.go: about the fields of the findings of Analyze.
use scrutiny.Base.{◌≡◌, ◌⊎◌, some, List, [], ◌++◌, arith, All, All-append}
use scrutiny.Base.Eq.{nat_eq}
use scrutiny.Base.Text.{Text, text_eq}
use scrutiny.Base.Assoc.{Assoc}
use scrutiny.Base.Sort.Laws.{All-sort_by}
use scrutiny.Base.Report.Laws.{All-report_each, All-flag_each}
use scrutiny.Schema.Platform.{context_eq}
use scrutiny.Schema.Observed.{
  SyscallRecord, SyscallsObservation, ListeningPort, OutboundConnection, RawSocket,
  NetworkObservation, FilePath, FilesystemObservation, RegistryKey, RegistryObservation,
  ChildProcess, PrivilegeChange, ProcessObservation, MemoryRegion, MemoryObservation,
}
use scrutiny.Schema.Anomaly.{
  AnomalyType, new_listening_port, new_outbound_connection, executable_written,
  privilege_escalation, new_child_process, registry_persistence, procfs_read_other_pid,
  wsl_interop_fs_write, unexpected_syscall, exec_memory_anonymous, child_exec_mismatch,
  raw_socket_opened, promiscuous_mode_observed, registry_defense_impair, registry_new_write,
  unexpected_module_load, AnomalyConfig, Severity, Dimension, dimension_eq, Anomaly,
  anomaly_type_eq,
}
use scrutiny.Schema.Baseline.{Baseline, Observation, confidence_eq}
use scrutiny.Analysis.Config.{
  effective_config, new_anomaly, severity_from_weight, suppress, weight_of, technique_of,
}
use scrutiny.Analysis.Order.{anomaly_less, sort_anomalies}
use scrutiny.Analysis.Diff.Syscalls.{syscall_anomaly, diff_syscalls}
use scrutiny.Analysis.Diff.Network.{
  port_anomaly, conn_anomaly, raw_anomaly, promiscuous_anomalies, diff_network,
}
use scrutiny.Analysis.Diff.Filesystem.{normalized, exec_anomaly, interop_anomaly, diff_filesystem}
use scrutiny.Analysis.Diff.Registry.{
  key_of, defense_anomalies, persistence_anomalies, key_anomaly, diff_registry,
}
use scrutiny.Analysis.Diff.Process.{
  path_of, base_children, child_anomaly, privilege_anomaly, procfs_anomalies, diff_process,
}
use scrutiny.Analysis.Diff.Memory.{region_anomaly, module_name, module_anomaly, diff_memory}
use scrutiny.Analysis.Engine.{all_diffs, analyze}
use scrutiny.Schema.Anomaly.{wine_escape_syscall, dns_query_suspicious}

-- The dimension that each type of anomaly belongs to.
abbrev pub dimension_of : AnomalyType → Dimension
dimension_of new_listening_port = Dimension.network
dimension_of new_outbound_connection = Dimension.network
dimension_of executable_written = Dimension.filesystem
dimension_of privilege_escalation = Dimension.process
dimension_of new_child_process = Dimension.process
dimension_of registry_persistence = Dimension.registry
dimension_of procfs_read_other_pid = Dimension.process
dimension_of wine_escape_syscall = Dimension.syscalls
dimension_of wsl_interop_fs_write = Dimension.filesystem
dimension_of unexpected_syscall = Dimension.syscalls
dimension_of exec_memory_anonymous = Dimension.memory
dimension_of dns_query_suspicious = Dimension.network
dimension_of child_exec_mismatch = Dimension.process
dimension_of raw_socket_opened = Dimension.network
dimension_of promiscuous_mode_observed = Dimension.network
dimension_of registry_defense_impair = Dimension.registry
dimension_of registry_new_write = Dimension.registry
dimension_of unexpected_module_load = Dimension.memory

-- Only a syscall may be more severe than its weight says.
abbrev pub MadeBy : AnomalyConfig → Anomaly → Type 0
MadeBy cfg a =
    (a.weight ≡ weight_of cfg a.type)
    × (a.mitre_technique ≡ technique_of cfg a.type)
    × (a.dimension ≡ dimension_of a.type)
    × ((a.severity ≡ severity_from_weight a.weight)
        ⊎ ((a.type ≡ unexpected_syscall) × (a.severity ≡ Severity.critical)))

module _ (cfg : AnomalyConfig) where
  syscall-MadeBy :
      (b : SyscallsObservation) (e : Text × SyscallRecord) (a : Anomaly)
      → syscall_anomaly b cfg e ≡ some a
      → MadeBy cfg a
  unfolding syscall_anomaly new_anomaly suppress
  syscall-MadeBy b (k, r) a h = ground arith

  port-MadeBy :
      (b : List ListeningPort) (p : ListeningPort) (a : Anomaly)
      → port_anomaly b cfg p ≡ some a
      → MadeBy cfg a
  unfolding port_anomaly new_anomaly
  port-MadeBy b p a h = ground arith

  conn-MadeBy :
      (b : List OutboundConnection) (c : OutboundConnection) (a : Anomaly)
      → conn_anomaly b cfg c ≡ some a
      → MadeBy cfg a
  unfolding conn_anomaly new_anomaly
  conn-MadeBy b c a h = ground arith

  raw-MadeBy :
      (b : List RawSocket) (r : RawSocket) (a : Anomaly)
      → raw_anomaly b cfg r ≡ some a
      → MadeBy cfg a
  unfolding raw_anomaly new_anomaly
  raw-MadeBy b r a h = ground arith

  promiscuous-MadeBy : (b o : NetworkObservation) → All (MadeBy cfg) (promiscuous_anomalies b o cfg)
  unfolding promiscuous_anomalies new_anomaly
  promiscuous-MadeBy b o = ground arith

  exec-MadeBy :
      (b o : FilesystemObservation) (f : FilePath) (a : Anomaly)
      → exec_anomaly b o cfg f ≡ some a
      → MadeBy cfg a
  unfolding exec_anomaly new_anomaly
  exec-MadeBy b o f a h = ground arith

  interop-MadeBy : (f : FilePath) (a : Anomaly) → interop_anomaly cfg f ≡ some a → MadeBy cfg a
  unfolding interop_anomaly new_anomaly suppress
  interop-MadeBy f a h = ground arith

  flags-MadeBy :
      (b o : RegistryObservation)
      → All (MadeBy cfg) (defense_anomalies b o cfg)
        × All (MadeBy cfg) (persistence_anomalies b o cfg)
  unfolding defense_anomalies persistence_anomalies new_anomaly
  flags-MadeBy b o = ground arith

  key-MadeBy :
      (b : RegistryObservation) (k : RegistryKey) (a : Anomaly)
      → key_anomaly b cfg k ≡ some a
      → MadeBy cfg a
  unfolding key_anomaly new_anomaly
  key-MadeBy b k a h = ground arith

  child-MadeBy :
      (b : Assoc Text Text) (c : ChildProcess) (a : Anomaly)
      → child_anomaly b cfg c ≡ some a
      → MadeBy cfg a
  unfolding child_anomaly new_anomaly
  child-MadeBy b c a h = ground arith

  privilege-MadeBy :
      (p : PrivilegeChange) (a : Anomaly) → privilege_anomaly cfg p ≡ some a → MadeBy cfg a
  unfolding privilege_anomaly new_anomaly
  privilege-MadeBy p a h = ground arith

  procfs-MadeBy : (b o : ProcessObservation) → All (MadeBy cfg) (procfs_anomalies b o cfg)
  unfolding procfs_anomalies new_anomaly
  procfs-MadeBy b o = ground arith

  region-MadeBy : (r : MemoryRegion) (a : Anomaly) → region_anomaly cfg r ≡ some a → MadeBy cfg a
  unfolding region_anomaly new_anomaly
  region-MadeBy r a h = ground arith

  module-MadeBy :
      (b : List Text) (m : Text) (a : Anomaly) → module_anomaly b cfg m ≡ some a → MadeBy cfg a
  unfolding module_anomaly new_anomaly
  module-MadeBy b m a h = ground arith

  diff_network-MadeBy : (b o : NetworkObservation) → All (MadeBy cfg) (diff_network b o cfg)
  unfolding diff_network
  diff_network-MadeBy b o =
      All-append (MadeBy cfg) _ _
        (All-report_each _ (MadeBy cfg) o.listening_ports (port-MadeBy b.listening_ports))
        (All-append (MadeBy cfg) _ _
          (All-report_each _ (MadeBy cfg) o.outbound_connections
            (conn-MadeBy b.outbound_connections))
          (All-append (MadeBy cfg) _ _
            (All-report_each _ (MadeBy cfg) o.raw_sockets (raw-MadeBy b.raw_sockets))
            (promiscuous-MadeBy b o)))

  diff_filesystem-MadeBy :
      (b o : FilesystemObservation) → All (MadeBy cfg) (diff_filesystem b o cfg)
  unfolding diff_filesystem
  diff_filesystem-MadeBy b o =
      All-append (MadeBy cfg) _ _
        (All-flag_each normalized _ (MadeBy cfg) [] (o.paths_written ++ o.paths_created)
          (exec-MadeBy b o))
        (All-report_each _ (MadeBy cfg) o.paths_written interop-MadeBy)

  diff_registry-MadeBy : (b o : RegistryObservation) → All (MadeBy cfg) (diff_registry b o cfg)
  unfolding diff_registry
  diff_registry-MadeBy b o =
      let (d, p) = flags-MadeBy b o in
      All-append (MadeBy cfg) _ _ d (
        All-append (MadeBy cfg) _ _ p (
          All-flag_each key_of _ (MadeBy cfg) [] (o.keys_written ++ o.keys_created) (key-MadeBy b)))

  diff_process-MadeBy : (b o : ProcessObservation) → All (MadeBy cfg) (diff_process b o cfg)
  unfolding diff_process
  diff_process-MadeBy b o =
      All-append (MadeBy cfg) _ _
        (All-flag_each path_of _ (MadeBy cfg) [] o.children_spawned
          (child-MadeBy (base_children b.children_spawned [])))
        (All-append (MadeBy cfg) _ _
          (All-report_each _ (MadeBy cfg) o.privilege_changes privilege-MadeBy) (procfs-MadeBy b o))

  diff_memory-MadeBy : (b o : MemoryObservation) → All (MadeBy cfg) (diff_memory b o cfg)
  unfolding diff_memory
  diff_memory-MadeBy b o =
      All-append (MadeBy cfg) _ _
        (All-report_each _ (MadeBy cfg) o.executable_regions region-MadeBy)
        (All-flag_each module_name _ (MadeBy cfg) [] o.mapped_files (module-MadeBy b.mapped_files))

  pub all_diffs-MadeBy : (b o : Baseline) → All (MadeBy cfg) (all_diffs b o cfg)
  unfolding all_diffs diff_syscalls
  all_diffs-MadeBy b o =
      All-append (MadeBy cfg) _ _
        (All-report_each _ (MadeBy cfg) o.syscalls.observed (syscall-MadeBy b.syscalls))
        (All-append (MadeBy cfg) _ _ (diff_network-MadeBy b.network o.network) (
          All-append (MadeBy cfg) _ _ (diff_filesystem-MadeBy b.filesystem o.filesystem) (
            All-append (MadeBy cfg) _ _ (diff_registry-MadeBy b.registry o.registry) (
              All-append (MadeBy cfg) _ _ (diff_process-MadeBy b.process o.process)
                (diff_memory-MadeBy b.memory o.memory)))))

-- Every finding that Analyze returns has the weight and the technique that the effective
-- configuration gives its type, stands in that type's dimension, and has the severity of its
-- weight, or is an unexpected syscall raised to critical.
pub analyze-MadeBy :
    (b : Baseline) (o : Observation)
    → All (MadeBy (effective_config b.anomaly_cfg)) (analyze b o).anomalies
unfolding analyze sort_anomalies
analyze-MadeBy b o =
    let cfg = effective_config b.anomaly_cfg in
    All-sort_by anomaly_less (MadeBy cfg) (all_diffs b o.base cfg) (all_diffs-MadeBy cfg b o.base)

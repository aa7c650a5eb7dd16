-- ===== src/Schema/Anomaly.antt =====
-- internal/schema/baseline.go: anomaly types, their default weights and techniques, the anomaly
-- configuration, and what an analysis returns. The ids that google/uuid generates and the time of
-- the analysis are written to the results and read by nothing; these fields are left out.
use scrutiny.Base.{Bool, Option, some, List, [], ◌∷◌}
use scrutiny.Base.Eq.{eq_of_discrete, Eq, nat_eq}
use scrutiny.Base.Int64.{Int64}
use scrutiny.Base.Text.{Text, codes, text_eq}
use scrutiny.Base.Assoc.{Assoc}
use scrutiny.Schema.Observed.{ListeningPort, OutboundConnection, RawSocket, ChildProcess}

pub data AnomalyType : Type 0 where
  new_listening_port new_outbound_connection executable_written privilege_escalation : AnomalyType
  new_child_process registry_persistence procfs_read_other_pid wine_escape_syscall : AnomalyType
  wsl_interop_fs_write unexpected_syscall exec_memory_anonymous dns_query_suspicious : AnomalyType
  child_exec_mismatch raw_socket_opened promiscuous_mode_observed : AnomalyType
  registry_defense_impair registry_new_write unexpected_module_load : AnomalyType

unfoldable pub AnomalyType-discrete : Discrete AnomalyType
AnomalyType-discrete = hlevel

instance abbrev pub anomaly_type_eq : Eq AnomalyType
anomaly_type_eq = eq_of_discrete AnomalyType-discrete

unfoldable pub default_anomaly_weights : Assoc AnomalyType Int64
default_anomaly_weights =
    (new_listening_port, 9)
    ∷ (new_outbound_connection, 7)
    ∷ (executable_written, 10)
    ∷ (privilege_escalation, 10)
    ∷ (new_child_process, 6)
    ∷ (registry_persistence, 9)
    ∷ (procfs_read_other_pid, 8)
    ∷ (wine_escape_syscall, 10)
    ∷ (wsl_interop_fs_write, 7)
    ∷ (unexpected_syscall, 8)
    ∷ (exec_memory_anonymous, 9)
    ∷ (dns_query_suspicious, 7)
    ∷ (child_exec_mismatch, 8)
    ∷ (raw_socket_opened, 9)
    ∷ (promiscuous_mode_observed, 8)
    ∷ (registry_defense_impair, 9)
    ∷ (registry_new_write, 5)
    ∷ (unexpected_module_load, 7)
    ∷ []

unfoldable pub default_mitre_mappings : Assoc AnomalyType Text
default_mitre_mappings =
    (new_listening_port, codes "T1571")
    ∷ (new_outbound_connection, codes "T1041")
    ∷ (executable_written, codes "T1027")
    ∷ (privilege_escalation, codes "T1548")
    ∷ (new_child_process, codes "T1059")
    ∷ (registry_persistence, codes "T1547")
    ∷ (procfs_read_other_pid, codes "T1057")
    ∷ (wine_escape_syscall, codes "T1106")
    ∷ (wsl_interop_fs_write, codes "T1564.006")
    ∷ (unexpected_syscall, codes "T1106")
    ∷ (exec_memory_anonymous, codes "T1055")
    ∷ (dns_query_suspicious, codes "T1071")
    ∷ (child_exec_mismatch, codes "T1036")
    ∷ (raw_socket_opened, codes "T1040")
    ∷ (promiscuous_mode_observed, codes "T1040")
    ∷ (registry_defense_impair, codes "T1562")
    ∷ (registry_new_write, codes "T1112")
    ∷ (unexpected_module_load, codes "T1574")
    ∷ []

-- Here nil and empty differ (effectiveConfig tests for nil): nil is `none`.
pub record NoiseSuppress : Type 0 where
  pub high_frequency_benign_syscalls : Option (List Text)
  pub known_interop_paths : Option (List Text)

unfoldable pub default_noise_suppress : NoiseSuppress
default_noise_suppress = record {
  high_frequency_benign_syscalls = some (
      codes "mmap"
      ∷ codes "mprotect"
      ∷ codes "brk"
      ∷ codes "futex"
      ∷ codes "epoll_wait"
      ∷ codes "poll"
      ∷ codes "select"
      ∷ codes "nanosleep"
      ∷ codes "clock_gettime"
      ∷ []);
  known_interop_paths =
      some (codes "/mnt/c/Windows/System32" ∷ codes "/mnt/c/Windows/SysWOW64" ∷ []);
}

pub record AnomalyConfig : Type 0 where
  pub weights : Option (Assoc AnomalyType Int64)
  pub mitre_mappings : Option (Assoc AnomalyType Text)
  pub suppress_noise : NoiseSuppress

pub data Severity : Type 0 where
  critical high medium low info : Severity

pub data Verdict : Type 0 where
  clean suspicious malicious : Verdict

pub data Dimension : Type 0 where
  network filesystem syscalls process registry memory : Dimension

unfoldable pub Dimension-discrete : Discrete Dimension
Dimension-discrete = hlevel

instance abbrev pub dimension_eq : Eq Dimension
dimension_eq = eq_of_discrete Dimension-discrete

-- The string that a dimension is, by which anomalies are sorted.
unfoldable pub dimension_name : Dimension → Text
dimension_name network = codes "network"
dimension_name filesystem = codes "filesystem"
dimension_name syscalls = codes "syscalls"
dimension_name process = codes "process"
dimension_name registry = codes "registry"
dimension_name memory = codes "memory"

unfoldable pub verdict_name : Verdict → Text
verdict_name clean = codes "clean"
verdict_name suspicious = codes "suspicious"
verdict_name malicious = codes "malicious"

-- The `interface{}` of a baseline or observed value: the types that the engine stores there.
pub data Value : Type 0 where
  null : Value
  flag : Bool → Value
  number : Int64 → Value
  string : Text → Value
  strings : List Text → Value
  listening_port : ListeningPort → Value
  outbound_connection : OutboundConnection → Value
  raw_socket : RawSocket → Value
  child_process : ChildProcess → Value

pub record Anomaly : Type 0 where
  pub dimension : Dimension
  pub type : AnomalyType
  pub severity : Severity
  pub weight : Int64
  pub mitre_technique : Text
  pub description : Text
  pub baseline_value : Value
  pub observed_value : Value
  pub first_seen_offset_ms : Int64
  pub suppressed : Bool
  pub suppression_reason : Option Text

pub record SeverityBreakdown : Type 0 where
  pub critical : Int64
  pub high : Int64
  pub medium : Int64
  pub low : Int64
  pub info : Int64

pub record AnalysisSummary : Type 0 where
  pub total_anomalies : Int64
  pub by_severity : SeverityBreakdown
  pub by_dimension : Assoc Dimension Int64
  pub by_mitre_technique : Assoc Text Int64

pub record WazuhAlert : Type 0 where
  pub rule_id : Int64
  pub rule_level : Int64
  pub rule_description : Text
  pub payload : AnalysisSummary

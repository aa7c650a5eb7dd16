-- ===== src/Schema/Baseline.antt =====
-- internal/schema/baseline.go: the baseline and the observation, their constructors, and the result
-- of an analysis.
use scrutiny.Base.{ℕ, Bool, true, false, not, Option, none, some, List, [], ◌∷◌}
use scrutiny.Base.Eq.{eq_of_discrete, Eq, ◌==◌, nat_eq}
use scrutiny.Base.Int64.{Int64}
use scrutiny.Base.Text.{Text, codes, text_eq}
use scrutiny.Schema.Platform.{PlatformContext, TargetProcess, unavailable, availability_eq}
use scrutiny.Schema.Observed.{
  SyscallsObservation, NetworkObservation, FilesystemObservation, RegistryObservation,
  ProcessObservation, MemoryObservation, no_syscalls, no_network, no_filesystem, no_process,
  no_memory,
}
use scrutiny.Schema.Anomaly.{
  Anomaly, AnomalyConfig, AnalysisSummary, Verdict, WazuhAlert, default_anomaly_weights,
  default_mitre_mappings, default_noise_suppress,
}

pub data BaselineConfidence : Type 0 where
  high medium low : BaselineConfidence

pub BaselineConfidence-discrete : Discrete BaselineConfidence
BaselineConfidence-discrete = hlevel

instance abbrev pub confidence_eq : Eq BaselineConfidence
confidence_eq = eq_of_discrete BaselineConfidence-discrete

-- A `time.Time`, as nanoseconds since the epoch.
abbrev pub Time : Type 0
Time = ℕ

pub record RunRecord : Type 0 where
  pub run_id : Int64
  pub pid : Int64
  pub started_at : Time
  pub ended_at : Time
  pub exit_code : Int64
  pub anomalies_vs_prior : List Text

pub record BaselineQuality : Type 0 where
  pub run_count : Int64
  pub duration_seconds : Int64
  pub runs : List RunRecord
  pub variance_notes : List Text
  pub confidence : BaselineConfidence

pub record ScrutinyMeta : Type 0 where
  pub schema_version : Text
  pub tool_version : Text
  pub baseline_id : Text
  pub created_at : Time
  pub platform : PlatformContext
  pub target : TargetProcess
  pub quality : BaselineQuality

pub record Baseline : Type 0 where
  pub scrutiny : ScrutinyMeta
  pub syscalls : SyscallsObservation
  pub network : NetworkObservation
  pub filesystem : FilesystemObservation
  pub registry : RegistryObservation
  pub process : ProcessObservation
  pub memory : MemoryObservation
  pub anomaly_cfg : AnomalyConfig

-- `Observation` embeds a `Baseline`.
pub record Observation : Type 0 where
  pub base : Baseline
  pub observation_id : Text
  pub baseline_ref : Text
  pub context_match : Bool
  pub context_delta : Option PlatformContext

pub record AnalysisResult : Type 0 where
  pub baseline_id : Text
  pub observation_id : Text
  pub risk_score : Int64
  pub verdict : Verdict
  pub confidence : BaselineConfidence
  pub context_match : Bool
  pub anomalies : List Anomaly
  pub summary : AnalysisSummary
  pub wazuh_alert : WazuhAlert

unfoldable pub never_expected : List Text
never_expected =
    codes "ptrace"
    ∷ codes "process_vm_readv"
    ∷ codes "process_vm_writev"
    ∷ codes "init_module"
    ∷ codes "finit_module"
    ∷ codes "delete_module"
    ∷ codes "kexec_load"
    ∷ codes "kexec_file_load"
    ∷ []

-- The arguments `id` and `now` are what `uuid.New` and `time.Now` return.
unfoldable pub new_baseline : Text → Time → PlatformContext → TargetProcess → Baseline
new_baseline id now platform target = record {
  scrutiny = record {
    schema_version = codes "2.2.0";
    tool_version = codes "2.0.0";
    baseline_id = id;
    created_at = now;
    platform = platform;
    target = target;
    quality = record {
      run_count = 0;
      duration_seconds = 120;
      runs = [];
      variance_notes = [];
      confidence = low;
    };
  };
  syscalls = record no_syscalls { suspicious_never_expected = never_expected };
  network = no_network;
  filesystem = no_filesystem;
  registry = record {
    available = not (platform.capabilities.registry == unavailable);
    context = platform.capabilities.registry;
    keys_read = [];
    keys_written = [];
    keys_created = [];
    keys_deleted = [];
    persistence_path_touched = false;
    security_weakened = false;
  };
  process = no_process;
  memory = no_memory;
  anomaly_cfg = record {
    weights = some default_anomaly_weights;
    mitre_mappings = some default_mitre_mappings;
    suppress_noise = default_noise_suppress;
  };
}

-- `id` is the id of the embedded baseline, `observation_id` that of the observation; the zero
-- value of `ContextDelta` is `none`.
unfoldable pub new_observation :
    Text → Text → Time → Text → PlatformContext → TargetProcess → Observation
unfolding new_baseline
new_observation id observation_id now baseline_id platform target = record {
  base = new_baseline id now platform target;
  observation_id = observation_id;
  baseline_ref = baseline_id;
  context_match = true;
  context_delta = none;
}

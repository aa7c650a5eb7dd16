-- ===== src/Analysis/Diff/Syscalls.antt =====
-- internal/analysis/analyze.go: diffSyscalls.
-- The order of the entries of `observed` is the order in which the loop visits the map.
use scrutiny.Base.{Option, none, some, List, [], ◌++◌, if◌then◌else◌, get_or}
use scrutiny.Base.Eq.{nat_eq, has}
use scrutiny.Base.Text.{Text, codes, text_eq}
use scrutiny.Base.Assoc.{lookup}
use scrutiny.Base.Assoc.Laws.{is_some}
use scrutiny.Base.Report.{report_each}
use scrutiny.Schema.Platform.{context_eq}
use scrutiny.Schema.Observed.{SyscallRecord, SyscallsObservation}
use scrutiny.Schema.Anomaly.{
  unexpected_syscall, AnomalyConfig, Severity, Dimension, dimension_eq, null, string, Anomaly,
  anomaly_type_eq,
}
use scrutiny.Schema.Baseline.{confidence_eq}
use scrutiny.Analysis.Config.{new_anomaly, suppress}
use scrutiny.Analysis.Keys.{quote}

unfoldable pub syscall_anomaly :
    SyscallsObservation → AnomalyConfig → Text × SyscallRecord → Option Anomaly
syscall_anomaly b cfg (name, rec) =
    let a =
      new_anomaly cfg Dimension.syscalls unexpected_syscall
        (codes "syscall " ++ (quote name ++ codes " not present in baseline")) null (string name)
        rec.first_seen_offset_ms in
    if is_some (lookup name b.observed)
    then none
    else if has name b.suspicious_never_expected
    then some (record a {
      severity = Severity.critical;
      description =
          codes "suspicious syscall " ++ (quote name ++ codes " (never expected) appeared");
    })
    else if has name (get_or [] cfg.suppress_noise.high_frequency_benign_syscalls)
    then some (suppress a (codes "high-frequency benign syscall (noise-suppressed)"))
    else some a

unfoldable pub diff_syscalls :
    SyscallsObservation → SyscallsObservation → AnomalyConfig → List Anomaly
diff_syscalls b o cfg = report_each (syscall_anomaly b cfg) o.observed

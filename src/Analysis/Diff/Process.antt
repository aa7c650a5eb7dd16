-- ===== src/Analysis/Diff/Process.antt =====
-- internal/analysis/analyze.go: diffProcess.
use scrutiny.Base.{
  not, ◌&&◌, ◌||◌, Option, none, some, List, [], ◌∷◌, ◌++◌, ltb, if◌then◌else◌, length,
}
use scrutiny.Base.Eq.{◌==◌, nat_eq}
use scrutiny.Base.Int64.{slt}
use scrutiny.Base.Text.{Text, codes, text_eq}
use scrutiny.Base.Decimal.{decimal}
use scrutiny.Base.Assoc.{Assoc, lookup, insert}
use scrutiny.Base.Report.{report_each, flag_each}
use scrutiny.Schema.Platform.{context_eq}
use scrutiny.Schema.Observed.{ChildProcess, PrivilegeChange, ProcessObservation}
use scrutiny.Schema.Anomaly.{
  privilege_escalation, new_child_process, procfs_read_other_pid, child_exec_mismatch,
  AnomalyConfig, Dimension, dimension_eq, null, number, string, child_process, Anomaly,
  anomaly_type_eq,
}
use scrutiny.Schema.Baseline.{confidence_eq}
use scrutiny.Analysis.Config.{new_anomaly}

abbrev pub path_of : ChildProcess → Text
path_of c = c.path

-- path -> sha256; a later child of the same path overwrites an earlier one.
unfoldable pub base_children : List ChildProcess → Assoc Text Text → Assoc Text Text
base_children [] m = m
base_children (c ∷ l) m = base_children l (insert c.path c.sha256 m)

unfoldable pub child_anomaly : Assoc Text Text → AnomalyConfig → ChildProcess → Option Anomaly
child_anomaly base cfg c = elim (lookup c.path base) [
  | none ↦ some (
      new_anomaly cfg Dimension.process new_child_process
        (codes "new child process " ++ (c.name ++ (codes " (" ++ (c.path ++ codes ")")))) null
        (child_process c) c.first_seen_offset_ms)
  | some base_hash ↦
      if not (base_hash == []) && (not (c.sha256 == []) && not (base_hash == c.sha256))
      then some (
          new_anomaly cfg Dimension.process child_exec_mismatch
            (codes "child " ++ (c.path ++ codes " hash differs from baseline")) (string base_hash)
            (string c.sha256) c.first_seen_offset_ms)
      else none
]

unfoldable pub privilege_anomaly : AnomalyConfig → PrivilegeChange → Option Anomaly
privilege_anomaly cfg pc =
    if pc.to_uid == 0 || slt pc.to_uid pc.from_uid
    then some (
        new_anomaly cfg Dimension.process privilege_escalation
          (codes "privilege change uid "
            ++ (decimal pc.from_uid
                ++ (codes " -> " ++ (decimal pc.to_uid ++ (codes " via " ++ pc.syscall)))))
          (number pc.from_uid) (number pc.to_uid) pc.offset_ms)
    else none

unfoldable pub procfs_anomalies :
    ProcessObservation → ProcessObservation → AnomalyConfig → List Anomaly
procfs_anomalies b o cfg =
    if ltb (length b.procfs_reads) (length o.procfs_reads)
    then new_anomaly cfg Dimension.process procfs_read_other_pid
        (codes "reads of other processes' /proc entries") (number (length b.procfs_reads))
        (number (length o.procfs_reads)) 0
      ∷ []
    else []

unfoldable pub diff_process : ProcessObservation → ProcessObservation → AnomalyConfig → List Anomaly
diff_process b o cfg =
    flag_each path_of (child_anomaly (base_children b.children_spawned []) cfg) []
      o.children_spawned
    ++ (report_each (privilege_anomaly cfg) o.privilege_changes ++ procfs_anomalies b o cfg)

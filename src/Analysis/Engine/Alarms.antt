-- ===== src/Analysis/Engine/Alarms.antt =====
-- internal/analysis/analyze.go: about behaviours that Analyze reports as malicious.
use scrutiny.Base.{◌+◌, ◌<◌, ◌≡◌, refl, Bool, true, false, List, [], ◌∷◌, ◌++◌, map, arith}
use scrutiny.Base.Eq.{nat_eq, eq_iff, has}
use scrutiny.Base.Int64.{sle}
use scrutiny.Base.Text.{Text, text_eq}
use scrutiny.Base.Assoc.{Assoc, keys}
use scrutiny.Base.Assoc.Laws.{is_some-lookup}
use scrutiny.Base.Sort.{insert_by, sort_by}
use scrutiny.Base.Report.{report_each, flag_each}
use scrutiny.Schema.Platform.{context_eq}
use scrutiny.Schema.Observed.{SyscallRecord, SyscallsObservation, FilePath, FilesystemObservation}
use scrutiny.Schema.Anomaly.{
  executable_written, AnomalyConfig, Severity, malicious, dimension_eq, Anomaly, anomaly_type_eq,
}
use scrutiny.Schema.Baseline.{Baseline, Observation, confidence_eq}
use scrutiny.Analysis.Config.{effective_config, new_anomaly, severity_from_weight, weight_of}
use scrutiny.Analysis.Score.{count_severity, verdict_for}
use scrutiny.Analysis.Order.{anomaly_less, sort_anomalies}
use scrutiny.Analysis.Diff.Syscalls.{syscall_anomaly, diff_syscalls}
use scrutiny.Analysis.Diff.Network.{diff_network}
use scrutiny.Analysis.Diff.Filesystem.{is_executable, normalized, exec_anomaly, diff_filesystem}
use scrutiny.Analysis.Score.{is_critical}
use scrutiny.Analysis.Engine.{all_diffs, analyze}

-- Sorting changes no count of findings.
count_severity-insert :
    (test : Severity → Bool) (a : Anomaly) (l : List Anomaly)
    → count_severity test (insert_by anomaly_less a l) ≡ count_severity test (a ∷ l)
unfolding count_severity insert_by
count_severity-insert test a [] = refl
count_severity-insert test a (b ∷ l) = ground (arith, count_severity-insert test a l)

pub count_severity-sort :
    (test : Severity → Bool) (l : List Anomaly)
    → count_severity test (sort_anomalies l) ≡ count_severity test l
unfolding sort_anomalies sort_by count_severity
count_severity-sort test [] = refl
count_severity-sort test (a ∷ l) =
    ground
      (arith, count_severity-insert test a (sort_by anomaly_less l), count_severity-sort test l)

count_severity-append :
    (test : Severity → Bool) (l m : List Anomaly)
    → count_severity test (l ++ m) ≡ count_severity test l + count_severity test m
unfolding count_severity
count_severity-append test [] m = omega arith
count_severity-append test (a ∷ l) m = omega (arith, count_severity-append test l m)

-- A syscall on the baseline's watch list that the baseline never saw: the finding is critical.
watched_call :
    (name : Text) (b : SyscallsObservation) (cfg : AnomalyConfig) (l : Assoc Text SyscallRecord)
    → has name b.suspicious_never_expected ≡ true
    → has name (keys b.observed) ≡ false
    → has name (keys l) ≡ true
    → 0 < count_severity is_critical (report_each (syscall_anomaly b cfg) l)
unfolding has report_each syscall_anomaly count_severity new_anomaly
watched_call name b cfg [] w n h = cc
watched_call name b cfg ((k, r) ∷ l) w n h =
    ground (arith, eq_iff name k, is_some-lookup name b.observed, watched_call name b cfg l w n)

-- One critical finding in any comparison is enough.
critical_first :
    (l m : List Anomaly)
    → 0 < count_severity is_critical l
    → 0 < count_severity is_critical (l ++ m)
critical_first l m h = rw (count_severity-append is_critical l m) (omega arith)

critical_later :
    (l m : List Anomaly)
    → 0 < count_severity is_critical m
    → 0 < count_severity is_critical (l ++ m)
critical_later l m h = rw (count_severity-append is_critical l m) (omega arith)

critical-malicious :
    (b : Baseline) (o : Observation)
    → 0 < count_severity is_critical (all_diffs b o.base (effective_config b.anomaly_cfg))
    → (analyze b o).verdict ≡ malicious
unfolding analyze verdict_for
critical-malicious b o h =
    let l = all_diffs b o.base (effective_config b.anomaly_cfg) in
    ground (arith, count_severity-sort is_critical l)

-- A syscall on the watch list (ptrace, module loading, ...) that was observed and that the baseline
-- does not have makes the verdict malicious, whatever the weights and the noise lists say.
pub watched_syscall-malicious :
    (name : Text) (b : Baseline) (o : Observation)
    → has name b.syscalls.suspicious_never_expected ≡ true
    → has name (keys b.syscalls.observed) ≡ false
    → has name (keys o.base.syscalls.observed) ≡ true
    → (analyze b o).verdict ≡ malicious
watched_syscall-malicious name b o w n h = critical-malicious b o (
    unfold all_diffs diff_syscalls in
    critical_first _ _ (
      watched_call name b.syscalls (effective_config b.anomaly_cfg) o.base.syscalls.observed w n h))

executable_path :
    (execs : List FilePath) (f : FilePath)
    → has f.normalized_path (map normalized execs) ≡ true
    → is_executable execs f ≡ true
unfolding is_executable has
executable_path [] f h = cc
executable_path (e ∷ execs) f h = ground (
  arith,
  eq_iff f.normalized_path e.normalized_path,
  eq_iff e.normalized_path f.normalized_path,
  executable_path execs f,
)

new_executable :
    (p : Text) (b o : FilesystemObservation) (cfg : AnomalyConfig) (seen : List Text)
    (l : List FilePath)
    → sle 10 (weight_of cfg executable_written) ≡ true
    → has p (map normalized o.execs_touched) ≡ true
    → has p (map normalized b.execs_touched) ≡ false
    → has p seen ≡ false
    → has p (map normalized l) ≡ true
    → 0 < count_severity is_critical (flag_each normalized (exec_anomaly b o cfg) seen l)
unfolding has flag_each exec_anomaly count_severity new_anomaly severity_from_weight
new_executable p b o cfg seen [] w x n s h = cc
new_executable p b o cfg seen (f ∷ l) w x n s h = ground (
  arith,
  eq_iff p f.normalized_path,
  executable_path o.execs_touched f,
  new_executable p b o cfg seen l w x n s,
  new_executable p b o cfg (f.normalized_path ∷ seen) l w x n,
)

-- An executable that was written or created and that the baseline never touched makes the verdict
-- malicious, where the weight of `executable_written` is at least 10, as by default.
pub new_executable-malicious :
    (p : Text) (b : Baseline) (o : Observation)
    → sle 10 (weight_of (effective_config b.anomaly_cfg) executable_written) ≡ true
    → has p (map normalized o.base.filesystem.execs_touched) ≡ true
    → has p (map normalized b.filesystem.execs_touched) ≡ false
    → has p (map normalized (o.base.filesystem.paths_written ++ o.base.filesystem.paths_created))
      ≡ true
    → (analyze b o).verdict ≡ malicious
new_executable-malicious p b o w x n h = critical-malicious b o (
    unfold all_diffs diff_filesystem in
    critical_later (diff_syscalls _ _ _) _ (
      critical_later (diff_network _ _ _) _ (
        critical_first _ _ (
          critical_first _ _ (
            new_executable p b.filesystem o.base.filesystem (effective_config b.anomaly_cfg) [] _ w
              x n (unfold has in refl) h)))))

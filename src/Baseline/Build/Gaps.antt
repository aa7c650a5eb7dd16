-- ===== src/Baseline/Build/Gaps.antt =====
-- internal/baseline/merge.go: about what AddRun does not keep.
use scrutiny.Base.{◌<◌, ◌≡◌, refl, Bool, true, ◌||◌, List, [], ◌∷◌, ◌++◌, map, arith, length}
use scrutiny.Base.Eq.{nat_eq, eq_refl, has}
use scrutiny.Base.Text.{text_eq}
use scrutiny.Schema.Observed.{RegistryObservation, ProcessObservation}
use scrutiny.Baseline.Accumulator.{empty}
use scrutiny.Baseline.Build.{build}
use scrutiny.Schema.Anomaly.{AnomalyConfig, Anomaly}
use scrutiny.Baseline.Accumulator.{Run, add_runs}
use scrutiny.Schema.Anomaly.{registry_defense_impair, procfs_read_other_pid}
use scrutiny.Schema.Anomaly.{AnomalyType, anomaly_type_eq}
use scrutiny.Analysis.Config.{new_anomaly}
use scrutiny.Analysis.Diff.Registry.{defense_anomalies, diff_registry}
use scrutiny.Analysis.Diff.Process.{procfs_anomalies, diff_process}

abbrev type_of : Anomaly → AnomalyType
type_of a = a.type

-- Is an anomaly of this type among the findings?
abbrev pub reports : AnomalyType → List Anomaly → Bool
reports t l = has t (map type_of l)

reports-append :
    (t : AnomalyType) (l m : List Anomaly) → reports t (l ++ m) ≡ (reports t l || reports t m)
unfolding has
reports-append t [] m = refl
reports-append t (a ∷ l) m = ground (arith, reports-append t l m)

-- Whatever runs were merged, weakened security in an observation is reported as new, also when
-- every run had it: AddRun drops the flag.
pub weakening-reported_again :
    (runs : List Run) (o : RegistryObservation) (cfg : AnomalyConfig)
    → o.security_weakened ≡ true
    → reports registry_defense_impair (diff_registry (build (add_runs runs empty)).registry o cfg)
      ≡ true
unfolding diff_registry defense_anomalies build has new_anomaly
weakening-reported_again runs o cfg h =
    rw reports-append (ground (arith, h, eq_refl registry_defense_impair))

-- Whatever runs were merged, an observation that lists a read of another process's /proc entries is
-- reported as new, also when every run had it: AddRun drops the reads.
pub procfs-reported_again :
    (runs : List Run) (o : ProcessObservation) (cfg : AnomalyConfig)
    → 0 < length o.procfs_reads
    → reports procfs_read_other_pid (diff_process (build (add_runs runs empty)).process o cfg)
      ≡ true
unfolding diff_process procfs_anomalies build has new_anomaly
procfs-reported_again runs o cfg h =
    rw (reports-append, reports-append) (ground (arith, eq_refl procfs_read_other_pid))

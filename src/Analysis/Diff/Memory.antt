-- ===== src/Analysis/Diff/Memory.antt =====
-- internal/analysis/analyze.go: diffMemory.
use scrutiny.Base.{◌&&◌, Option, none, some, List, [], ◌++◌, if◌then◌else◌}
use scrutiny.Base.Eq.{◌==◌, nat_eq, has}
use scrutiny.Base.Text.{Text, codes, text_eq}
use scrutiny.Base.Report.{report_each, flag_each}
use scrutiny.Schema.Platform.{context_eq}
use scrutiny.Schema.Observed.{MemoryRegion, MemoryObservation}
use scrutiny.Schema.Anomaly.{
  exec_memory_anonymous, unexpected_module_load, AnomalyConfig, Dimension, dimension_eq, null,
  string, Anomaly, anomaly_type_eq,
}
use scrutiny.Schema.Baseline.{confidence_eq}
use scrutiny.Analysis.Config.{new_anomaly}

unfoldable pub region_anomaly : AnomalyConfig → MemoryRegion → Option Anomaly
region_anomaly cfg r =
    if r.suspicious && r.backed_by == codes "anonymous"
    then some (
        new_anomaly cfg Dimension.memory exec_memory_anonymous
          (codes "executable anonymous memory region " ++ r.address_range) null
          (string r.address_range) 0)
    else none

abbrev pub module_name : Text → Text
module_name m = m

unfoldable pub module_anomaly : List Text → AnomalyConfig → Text → Option Anomaly
module_anomaly base cfg m =
    if has m base
    then none
    else some (
        new_anomaly cfg Dimension.memory unexpected_module_load
          (codes "module loaded not present in baseline: " ++ m) null (string m) 0)

unfoldable pub diff_memory : MemoryObservation → MemoryObservation → AnomalyConfig → List Anomaly
diff_memory b o cfg =
    report_each (region_anomaly cfg) o.executable_regions
    ++ flag_each module_name (module_anomaly b.mapped_files cfg) [] o.mapped_files

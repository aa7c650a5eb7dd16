-- ===== src/Analysis/Diff/Filesystem.antt =====
-- internal/analysis/analyze.go: diffFilesystem.
use scrutiny.Base.{
  Bool, false, not, ◌||◌, Option, none, some, List, [], ◌∷◌, ◌++◌, map, if◌then◌else◌, get_or,
}
use scrutiny.Base.Eq.{◌==◌, nat_eq, has}
use scrutiny.Base.Text.{Text, codes, text_eq}
use scrutiny.Base.Report.{report_each, flag_each}
use scrutiny.Schema.Platform.{context_eq}
use scrutiny.Schema.Observed.{FilePath, FilesystemObservation}
use scrutiny.Schema.Anomaly.{
  executable_written, wsl_interop_fs_write, AnomalyConfig, Dimension, dimension_eq, null, string,
  Anomaly, anomaly_type_eq,
}
use scrutiny.Schema.Baseline.{confidence_eq}
use scrutiny.Analysis.Config.{new_anomaly, suppress}
use scrutiny.Analysis.Keys.{has_prefix_any}

unfoldable pub is_executable : List FilePath → FilePath → Bool
is_executable [] f = false
is_executable (e ∷ execs) f =
    (e.normalized_path == f.normalized_path || e.path == f.path) || is_executable execs f

abbrev pub normalized : FilePath → Text
normalized f = f.normalized_path

unfoldable pub exec_anomaly :
    FilesystemObservation → FilesystemObservation → AnomalyConfig → FilePath → Option Anomaly
exec_anomaly b o cfg f =
    if not (is_executable o.execs_touched f)
      || has f.normalized_path (map normalized b.execs_touched)
    then none
    else some (
        new_anomaly cfg Dimension.filesystem executable_written
          (codes "executable written to " ++ f.path) null (string f.path) 0)

unfoldable pub interop_anomaly : AnomalyConfig → FilePath → Option Anomaly
interop_anomaly cfg f =
    let a =
      new_anomaly cfg Dimension.filesystem wsl_interop_fs_write
        (codes "write across interop boundary: " ++ f.path) null (string f.path) 0 in
    if not f.interop_path
    then none
    else if has_prefix_any f.path (get_or [] cfg.suppress_noise.known_interop_paths)
    then some (suppress a (codes "known interop system path (noise-suppressed)"))
    else some a

unfoldable pub diff_filesystem :
    FilesystemObservation → FilesystemObservation → AnomalyConfig → List Anomaly
diff_filesystem b o cfg =
    flag_each normalized (exec_anomaly b o cfg) [] (o.paths_written ++ o.paths_created)
    ++ report_each (interop_anomaly cfg) o.paths_written

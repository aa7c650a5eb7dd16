-- ===== src/Analysis/Engine.antt =====
-- internal/analysis/analyze.go: Analyze, the comparison of an observation with its baseline.
pub mod Made
pub mod Alarms
pub mod Quiet
pub mod Ordered
use scrutiny.Base.{◌+◌, Bool, not, ◌&&◌, List, ◌++◌, if◌then◌else◌}
use scrutiny.Base.Eq.{◌==◌, nat_eq}
use scrutiny.Base.Text.{text_eq}
use scrutiny.Schema.Platform.{context_eq}
use scrutiny.Schema.Anomaly.{AnomalyConfig, dimension_eq, Anomaly, anomaly_type_eq}
use scrutiny.Schema.Baseline.{
  Baseline, Observation, BaselineConfidence, confidence_eq, AnalysisResult,
}
use scrutiny.Analysis.Config.{effective_config}
use scrutiny.Analysis.Score.{risk_score, verdict_for}
use scrutiny.Analysis.Order.{sort_anomalies}
use scrutiny.Analysis.Summary.{summarize, wazuh_alert}
use scrutiny.Analysis.Diff.Syscalls.{diff_syscalls}
use scrutiny.Analysis.Diff.Network.{diff_network}
use scrutiny.Analysis.Diff.Filesystem.{diff_filesystem}
use scrutiny.Analysis.Diff.Registry.{diff_registry}
use scrutiny.Analysis.Diff.Process.{diff_process}
use scrutiny.Analysis.Diff.Memory.{diff_memory}

unfoldable pub all_diffs : Baseline → Baseline → AnomalyConfig → List Anomaly
all_diffs b o cfg =
    diff_syscalls b.syscalls o.syscalls cfg
    ++ (diff_network b.network o.network cfg
        ++ (diff_filesystem b.filesystem o.filesystem cfg
            ++ (diff_registry b.registry o.registry cfg
                ++ (diff_process b.process o.process cfg ++ diff_memory b.memory o.memory cfg))))

-- A context mismatch lowers a high confidence to medium.
unfoldable pub confidence_across : Bool → BaselineConfidence → BaselineConfidence
confidence_across ctx_match c =
    if not ctx_match && c == BaselineConfidence.high then BaselineConfidence.medium else c

unfoldable pub analyze : Baseline → Observation → AnalysisResult
unfolding confidence_across
analyze baseline obs =
    let cfg = effective_config baseline.anomaly_cfg in
    let anomalies = sort_anomalies (all_diffs baseline obs.base cfg) in
    let ctx_match =
      baseline.scrutiny.platform.detected_platform
      == obs.base.scrutiny.platform.detected_platform in
    let score = risk_score anomalies in
    let verdict = verdict_for score anomalies in
    let summary = summarize anomalies in
    record {
      baseline_id = baseline.scrutiny.baseline_id;
      observation_id = obs.observation_id;
      risk_score = score;
      verdict = verdict;
      confidence = confidence_across ctx_match baseline.scrutiny.quality.confidence;
      context_match = ctx_match;
      anomalies = anomalies;
      summary = summary;
      wazuh_alert = wazuh_alert verdict score summary;
    }

-- ===== src/Analysis/Config.antt =====
-- internal/analysis/analyze.go: the effective configuration, and how an anomaly is made from it.
use scrutiny.Base.{true, false, not, ◌&&◌, none, some, [], if◌then◌else◌, get_or}
use scrutiny.Base.Eq.{nat_eq}
use scrutiny.Base.Int64.{Int64, sle}
use scrutiny.Base.Text.{Text, text_eq}
use scrutiny.Base.Assoc.{lookup}
use scrutiny.Base.Assoc.Laws.{is_some}
use scrutiny.Schema.Platform.{context_eq}
use scrutiny.Schema.Anomaly.{
  AnomalyType, AnomalyConfig, Severity, Dimension, dimension_eq, Value, Anomaly,
  default_anomaly_weights, default_mitre_mappings, default_noise_suppress, anomaly_type_eq,
}
use scrutiny.Schema.Baseline.{confidence_eq}

-- A nil part of the configuration is replaced by the default; the noise lists only both at once.
unfoldable pub effective_config : AnomalyConfig → AnomalyConfig
effective_config c = record {
  weights = elim c.weights [ none ↦ some default_anomaly_weights | some w ↦ some w ];
  mitre_mappings = elim c.mitre_mappings [ none ↦ some default_mitre_mappings | some m ↦ some m ];
  suppress_noise =
      if not (is_some c.suppress_noise.high_frequency_benign_syscalls)
        && not (is_some c.suppress_noise.known_interop_paths)
      then default_noise_suppress
      else c.suppress_noise;
}

unfoldable pub severity_from_weight : Int64 → Severity
severity_from_weight w =
    if sle 10 w
    then Severity.critical
    else if sle 8 w
    then Severity.high
    else if sle 5 w
    then Severity.medium
    else if sle 2 w
    then Severity.low
    else Severity.info

-- cfg.Weights[t]: a nil map, or one without the key, gives 0.
unfoldable pub weight_of : AnomalyConfig → AnomalyType → Int64
weight_of cfg t = get_or 0 (lookup t (get_or [] cfg.weights))

unfoldable pub technique_of : AnomalyConfig → AnomalyType → Text
technique_of cfg t = get_or [] (lookup t (get_or [] cfg.mitre_mappings))

unfoldable pub new_anomaly :
    AnomalyConfig → Dimension → AnomalyType → Text → Value → Value → Int64 → Anomaly
new_anomaly cfg dim t desc base_val obs_val offset =
    let w = weight_of cfg t in
    record {
      dimension = dim;
      type = t;
      severity = severity_from_weight w;
      weight = w;
      mitre_technique = technique_of cfg t;
      description = desc;
      baseline_value = base_val;
      observed_value = obs_val;
      first_seen_offset_ms = offset;
      suppressed = false;
      suppression_reason = none;
    }

unfoldable pub suppress : Anomaly → Text → Anomaly
suppress a reason = record a { suppressed = true; suppression_reason = some reason }

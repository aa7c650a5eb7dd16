-- ===== src/Analysis/Summary.antt =====
-- internal/analysis/analyze.go: summarize and wazuhAlert. The counters are at most the length of a
-- slice in memory, so they do not wrap around.
pub mod Totals
use scrutiny.Base.{◌+◌, not, List, [], ◌∷◌, ◌++◌, if◌then◌else◌}
use scrutiny.Base.Eq.{◌==◌, nat_eq}
use scrutiny.Base.Int64.{Int64}
use scrutiny.Base.Text.{codes, text_eq}
use scrutiny.Base.Decimal.{decimal}
use scrutiny.Base.Assoc.{bump}
use scrutiny.Schema.Platform.{context_eq}
use scrutiny.Schema.Anomaly.{
  Severity, critical, Verdict, clean, suspicious, malicious, verdict_name, dimension_eq, Anomaly,
  SeverityBreakdown, AnalysisSummary, WazuhAlert, anomaly_type_eq,
}
use scrutiny.Schema.Baseline.{confidence_eq}

unfoldable pub add_severity : Severity → SeverityBreakdown → SeverityBreakdown
add_severity Severity.critical s = record s { critical = s.critical + 1 }
add_severity Severity.high s = record s { high = s.high + 1 }
add_severity Severity.medium s = record s { medium = s.medium + 1 }
add_severity Severity.low s = record s { low = s.low + 1 }
add_severity Severity.info s = record s { info = s.info + 1 }

abbrev pub empty_summary : AnalysisSummary
empty_summary = record {
  total_anomalies = 0;
  by_severity = record { critical = 0; high = 0; medium = 0; low = 0; info = 0 };
  by_dimension = [];
  by_mitre_technique = [];
}

-- one round of the loop
unfoldable pub count_anomaly : Anomaly → AnalysisSummary → AnalysisSummary
unfolding add_severity
count_anomaly a s = if a.suppressed then s else record {
  total_anomalies = s.total_anomalies + 1;
  by_severity = add_severity a.severity s.by_severity;
  by_dimension = bump a.dimension s.by_dimension;
  by_mitre_technique =
      if not (a.mitre_technique == [])
      then bump a.mitre_technique s.by_mitre_technique
      else s.by_mitre_technique;
}

unfoldable pub count_all : List Anomaly → AnalysisSummary → AnalysisSummary
unfolding count_anomaly
count_all [] s = s
count_all (a ∷ l) s = count_all l (count_anomaly a s)

unfoldable pub summarize : List Anomaly → AnalysisSummary
unfolding count_all
summarize anomalies = count_all anomalies empty_summary

abbrev pub alert_level : Verdict → Int64
alert_level clean = 3
alert_level suspicious = 8
alert_level malicious = 12

abbrev pub alert_rule : Verdict → Int64
alert_rule clean = 100010
alert_rule suspicious = 100020
alert_rule malicious = 100030

unfoldable pub wazuh_alert : Verdict → Int64 → AnalysisSummary → WazuhAlert
wazuh_alert v score s = record {
  rule_id = alert_rule v;
  rule_level = alert_level v;
  rule_description =
      codes "Scrutiny: "
      ++ (verdict_name v
          ++ (codes " behavior (risk "
              ++ (decimal score
                  ++ (codes ", " ++ (decimal s.total_anomalies ++ codes " anomalies)")))));
  payload = s;
}

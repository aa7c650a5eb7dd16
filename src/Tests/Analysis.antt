-- ===== src/Tests/Analysis.antt =====
-- The analysis on concrete input.

use scrutiny.Base.{
  ◌<◌, ◌≡◌, refl, ◌↔◌, not, ◌&&◌, true, false, [], ◌∷◌, ◌++◌, map, arith, length, All,
}
use scrutiny.Base.Eq.{nat_eq, has, Distinct}
use scrutiny.Base.Text.{codes, text_eq}
use scrutiny.Base.Decimal.{decimal}
use scrutiny.Base.Assoc.{keys, lookup}
use scrutiny.Base.Sort.{sort_by}
use scrutiny.Base.Eq.{list_beq, decided}
use scrutiny.Schema.Observed.{no_syscalls, no_network}
use scrutiny.Schema.Anomaly.{
  AnomalyType-discrete, default_anomaly_weights, AnomalyConfig, clean, malicious,
}
use scrutiny.Schema.Baseline.{new_baseline, never_expected}
use scrutiny.Tests.Samples.{
  fresh_baseline, tracing, port_80, sniffer, listening, traced, finding, hidden, findings,
}
use mathlib.Core.List.{Perm}
use scrutiny.Analysis.Config.{effective_config, weight_of}
use scrutiny.Analysis.Diff.Syscalls.{diff_syscalls}
use scrutiny.Analysis.Keys.{port_key, raw_key, quote}
use scrutiny.Analysis.Diff.Laws.{reported_name, diff_syscalls-reports}
use scrutiny.Analysis.Diff.Registry.{diff_registry}
use scrutiny.Base.Report.Picked.{picked}
use scrutiny.Analysis.Diff.Sockets.{port_of, conn_of, raw_of, sockets-reports}
use scrutiny.Analysis.Diff.Network.{diff_network}
use scrutiny.Analysis.Diff.Filesystem.{diff_filesystem}
use scrutiny.Analysis.Diff.Process.{diff_process}
use scrutiny.Analysis.Diff.Memory.{diff_memory}
use scrutiny.Analysis.Engine.Ordered.{analyze-sorts}
use scrutiny.Analysis.Order.Laws.{EachPrecedes}
use scrutiny.Analysis.Order.{sort_anomalies}
use scrutiny.Analysis.Diff.Once.{text_of, plain_keys, base_keys, keys-reports}
use scrutiny.Schema.Observed.{RegistryObservation}
use scrutiny.Analysis.Score.{risk_score, verdict_for, is_critical, is_high}
use scrutiny.Analysis.Score.Bounds.{total_weight, risk_score-exact}
use scrutiny.Analysis.Score.Thresholds.{NoneActive, active, verdict_clean_iff}
use scrutiny.Analysis.Summary.{summarize}
use scrutiny.Analysis.Summary.Totals.{Consistent, summarize-counts}
use scrutiny.Analysis.Engine.{analyze}
use scrutiny.Analysis.Engine.Made.{MadeBy, analyze-MadeBy}
use scrutiny.Analysis.Engine.Alarms.{watched_syscall-malicious, new_executable-malicious}
use Prim.Native.Nat.{min}

watched_syscall-malicious_example : (analyze fresh_baseline traced).verdict ≡ malicious
unfolding new_baseline never_expected has codes list_beq
watched_syscall-malicious_example =
    watched_syscall-malicious (codes "ptrace") fresh_baseline traced refl refl refl

new_executable-malicious_example : (analyze fresh_baseline traced).verdict ≡ malicious
unfolding new_baseline has codes list_beq weight_of effective_config default_anomaly_weights lookup
    decided AnomalyType-discrete
new_executable-malicious_example =
    new_executable-malicious (codes "/tmp/x") fresh_baseline traced refl refl refl refl

analyze-MadeBy_example :
    All
      (MadeBy (effective_config fresh_baseline.anomaly_cfg))
      (analyze fresh_baseline traced).anomalies
analyze-MadeBy_example = analyze-MadeBy fresh_baseline traced

diff_syscalls-reports_example :
    has
      (codes "read")
      (map reported_name (diff_syscalls no_syscalls tracing fresh_baseline.anomaly_cfg))
    ≡ (has (codes "read") (keys tracing.observed)
        && not (has (codes "read") (keys no_syscalls.observed)))
diff_syscalls-reports_example =
    diff_syscalls-reports (codes "read") no_syscalls tracing fresh_baseline.anomaly_cfg

abbrev cfg : AnomalyConfig
cfg = fresh_baseline.anomaly_cfg

sockets-reports_example :
    (has (codes "tcp|0.0.0.0|80") (picked port_of (diff_network no_network listening cfg)) ≡ (
      has (codes "tcp|0.0.0.0|80") (map port_key (port_80 ∷ []))
      && not (has (codes "tcp|0.0.0.0|80") [])))
    × (has (codes "tcp|0.0.0.0|80") (picked conn_of (diff_network no_network listening cfg))
        ≡ (has (codes "tcp|0.0.0.0|80") [] && not (has (codes "tcp|0.0.0.0|80") [])))
    × (has (codes "tcp|0.0.0.0|80") (picked raw_of (diff_network no_network listening cfg)) ≡ (
        has (codes "tcp|0.0.0.0|80") (map raw_key (sniffer ∷ []))
        && not (has (codes "tcp|0.0.0.0|80") [])))
sockets-reports_example = sockets-reports (codes "tcp|0.0.0.0|80") no_network listening cfg

risk_score-exact_example : risk_score findings ≡ min 100 (total_weight findings)
risk_score-exact_example = risk_score-exact findings (omega arith) (omega arith)

verdict_clean_iff_example :
    (verdict_for (risk_score findings) findings ≡ clean)
    ↔ (NoneActive is_critical findings × NoneActive is_high findings × (total_weight findings < 20))
verdict_clean_iff_example = verdict_clean_iff findings (omega arith) (omega arith)

analyze-sorts_example :
    let cfg = effective_config fresh_baseline.anomaly_cfg in
    Perm (analyze fresh_baseline traced).anomalies (
      diff_syscalls fresh_baseline.syscalls traced.base.syscalls cfg
      ++ (diff_network fresh_baseline.network traced.base.network cfg
          ++ (diff_filesystem fresh_baseline.filesystem traced.base.filesystem cfg
              ++ (diff_registry fresh_baseline.registry traced.base.registry cfg
                  ++ (diff_process fresh_baseline.process traced.base.process cfg
                      ++ diff_memory fresh_baseline.memory traced.base.memory cfg)))))
    × EachPrecedes (analyze fresh_baseline traced).anomalies
analyze-sorts_example = analyze-sorts fresh_baseline traced

summarize-counts_example :
    ((summarize findings).total_anomalies ≡ length (active findings))
    × Consistent (summarize findings)
summarize-counts_example = summarize-counts findings

-- `fmt.Sprintf` of the key, and the order of a short report.
port_key_text : port_key port_80 ≡ codes "tcp|0.0.0.0|80"
unfolding port_key codes decimal
port_key_text = refl

quoted : quote (codes "a\"b\n") ≡ codes "\"a\\\"b\\n\""
unfolding quote codes
quoted = refl

sorted_findings : sort_anomalies findings ≡ finding ∷ hidden ∷ []
unfolding sort_anomalies codes list_beq sort_by
sorted_findings = refl

-- A sensitive key, and a plain one that was written twice.
abbrev rewritten : RegistryObservation
rewritten = record fresh_baseline.registry {
  keys_written =
      record { key = codes "Run"; value_name = []; count = 1; sensitive = true }
      ∷ record { key = codes "App"; value_name = []; count = 1; sensitive = false }
      ∷ record { key = codes "App"; value_name = []; count = 1; sensitive = false }
      ∷ [];
}

keys-reports_example :
    (has (codes "App") (picked text_of (diff_registry fresh_baseline.registry rewritten cfg)) ≡ (
      has (codes "App") (plain_keys (rewritten.keys_written ++ rewritten.keys_created))
      && not (has (codes "App") (base_keys fresh_baseline.registry))))
    × Distinct (picked text_of (diff_registry fresh_baseline.registry rewritten cfg))
keys-reports_example = keys-reports (codes "App") fresh_baseline.registry rewritten cfg

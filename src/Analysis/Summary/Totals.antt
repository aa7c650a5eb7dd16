-- ===== src/Analysis/Summary/Totals.antt =====
-- internal/analysis/analyze.go: about the counters of summarize.
use scrutiny.Base.{ℕ, ◌+◌, ◌≤◌, ◌≡◌, refl, List, [], ◌∷◌, arith, length, get_or}
use scrutiny.Base.Eq.{Eq, nat_eq}
use scrutiny.Base.Int64.{Int64}
use scrutiny.Base.Text.{text_eq}
use scrutiny.Base.Assoc.{Assoc, lookup, insert, bump}
use scrutiny.Schema.Platform.{context_eq}
use scrutiny.Schema.Anomaly.{
  Severity, dimension_eq, Anomaly, SeverityBreakdown, AnalysisSummary, anomaly_type_eq,
}
use scrutiny.Schema.Baseline.{confidence_eq}
use scrutiny.Analysis.Summary.{summarize, empty_summary, count_anomaly}
use scrutiny.Analysis.Summary.{add_severity, count_all}
use scrutiny.Analysis.Score.Thresholds.{active}

-- The sum of the five severity counters.
abbrev pub severity_total : SeverityBreakdown → ℕ
severity_total s = s.critical + s.high + s.medium + s.low + s.info

abbrev pub sum_values {ℓ} : {K : Type ℓ} → Assoc K Int64 → ℕ
sum_values [] = 0
sum_values ((k, n) ∷ m) = n + sum_values m

sum_values-insert {ℓ} :
    {K : Type ℓ} ⦃e : Eq K⦄ (k : K) (m : Assoc K Int64)
    → sum_values (insert k (get_or 0 (lookup k m) + 1) m) ≡ sum_values m + 1
unfolding insert lookup
sum_values-insert k [] = omega arith
sum_values-insert k ((j, n) ∷ m) = ground (arith, sum_values-insert k m)

add_severity-total :
    (v : Severity) (s : SeverityBreakdown)
    → severity_total (add_severity v s) ≡ severity_total s + 1
unfolding add_severity
add_severity-total v s = ground arith

-- Both breakdowns sum to the total.
abbrev pub Consistent : AnalysisSummary → Type 0
Consistent s =
    (severity_total s.by_severity ≡ s.total_anomalies)
    × (sum_values s.by_dimension ≡ s.total_anomalies)
    × (sum_values s.by_mitre_technique ≤ s.total_anomalies)

count_anomaly-Consistent :
    (a : Anomaly) (s : AnalysisSummary) → Consistent s → Consistent (count_anomaly a s)
unfolding count_anomaly bump
count_anomaly-Consistent a s h = ground (
  arith,
  add_severity-total a.severity s.by_severity,
  sum_values-insert a.dimension s.by_dimension,
  sum_values-insert a.mitre_technique s.by_mitre_technique,
)

count_all-Consistent :
    (l : List Anomaly) (s : AnalysisSummary) → Consistent s → Consistent (count_all l s)
unfolding count_all
count_all-Consistent [] s h = h
count_all-Consistent (a ∷ l) s h =
    count_all-Consistent l (count_anomaly a s) (count_anomaly-Consistent a s h)

count_all-total :
    (l : List Anomaly) (s : AnalysisSummary)
    → (count_all l s).total_anomalies ≡ s.total_anomalies + length (active l)
unfolding count_all count_anomaly
count_all-total [] s = omega arith
count_all-total (a ∷ l) s = ground (arith, count_all-total l (count_anomaly a s))

-- The total is the number of findings that are not suppressed; the severity counters sum to it,
-- the dimension counters sum to it, and the technique counters sum to no more.
pub summarize-counts :
    (l : List Anomaly)
    → ((summarize l).total_anomalies ≡ length (active l)) × Consistent (summarize l)
unfolding summarize
summarize-counts l = (
  omega (arith, count_all-total l empty_summary),
  count_all-Consistent l empty_summary (refl, refl, omega arith),
)
